-- ===== src/Grid/Edit.antt =====
-- The edits of src/core/grid_edit.rs: an op applied to a table, and the op that undoes it.
pub mod Columns
pub mod Steps
pub mod Written
pub mod Applies
pub mod Back
pub mod Inverse
pub mod Appended
pub mod Keeps
pub mod Schema
pub mod Sound
use fuaran_rs.Prelude.{
  ℕ, zero, suc, ◌+◌, String, Bool, true, false, not, Option, none, some, List, [], ◌∷◌, ◌++◌, map,
  ltb, leb, ◌=?◌, ◌==◌, ◌&&◌, ◌||◌, if◌then◌else◌, length, set, insert_at, get_elem?, unwrap_or,
  is_some, find,
}
use fuaran_rs.Prelude.Decimal.{ℤ, pos, negsuc}
use fuaran_rs.Prelude.Outcome.{Result, ok, err, reject_if, ◌>>=◌, ◌>>◌}
use fuaran_rs.Grid.{
  Compute, ColumnType, Cell, SchemaEntry, DataColumn, Table, new_entry, Row, ColumnOp, set_cell,
  set_column, insert_column, remove_column, append_rows, apply_transform, EditRefusal,
  no_such_column, row_out_of_range, cell_type_mismatch, column_length_mismatch, duplicate_column,
  row_shape_unknown_column, transform_rejected, not_invertible, panicked,
}
use fuaran_rs.Grid.Cells.{same_type, cell_fits}

abbrev pub Edited : Type 0 → Type 0
Edited T = Result EditRefusal T

-- `ok_or`
abbrev pub require : {T : Type 0} → Option T → EditRefusal → Edited T
require (some x) e = ok x
require none e = err e

-- A row index within the rows.
abbrev pub row_index : ℤ → ℕ → Option ℕ
row_index (pos r) rc = if ltb r rc then some r else none
row_index (negsuc r) rc = none

-- `index.clamp(0, len)`
abbrev pub clamp : ℤ → ℕ → ℕ
clamp (pos i) len = if leb i len then i else len
clamp (negsuc i) len = 0

module _ {C : Compute} where
  abbrev pub rows_of : List (DataColumn C) → ℕ
  rows_of [] = 0
  rows_of (c ∷ cs) = length c.cells

  abbrev pub row_count : Table C → ℕ
  row_count t = rows_of t.columns

  -- The first column with the name, and its index.
  unfoldable pub find_from : ℕ → String → List (DataColumn C) → Option (ℕ × DataColumn C)
  find_from i name [] = none
  find_from i name (c ∷ cs) = if c.name == name then some (i, c) else find_from (i + 1) name cs

  abbrev pub find_column : Table C → String → Option (ℕ × DataColumn C)
  find_column t name = find_from 0 name t.columns

  unfoldable pub retype : DataColumn C → List (SchemaEntry C) → List (SchemaEntry C)
  retype col = map (λ e.
      if e.name == col.name && not (same_type e.column_type col.column_type)
      then new_entry col.name col.column_type
      else e)

  unfoldable pub replace : DataColumn C → List (DataColumn C) → List (DataColumn C)
  replace col = map (λ c. if c.name == col.name then col else c)

  unfoldable pub with_column : Table C → DataColumn C → Table C
  unfolding retype replace
  with_column t col = record { schema = retype col t.schema; columns = replace col t.columns }

  -- The columns but those with the name (`retain`).
  unfoldable pub without : String → List (DataColumn C) → List (DataColumn C)
  without name [] = []
  without name (c ∷ cs) = let rest = without name cs in if c.name == name then rest else c ∷ rest

  unfoldable pub without_entry : String → List (SchemaEntry C) → List (SchemaEntry C)
  without_entry name [] = []
  without_entry name (e ∷ es) =
      let rest = without_entry name es in if e.name == name then rest else e ∷ rest

  -- The first cell of an appended row that no column takes, as its refusal.
  unfoldable pub check_row : Table C → Row C → Edited (Unit {0})
  check_row t [] = ok tt
  check_row t ((name, value) ∷ row) = do
    (i, c) ← require (find_column t name) row_shape_unknown_column
    reject_if (not (cell_fits c.column_type value)) cell_type_mismatch
    check_row t row

  unfoldable pub check_rows : Table C → List (Row C) → Edited (Unit {0})
  unfolding check_row
  check_rows t [] = ok tt
  check_rows t (row ∷ rows) = check_row t row >> check_rows t rows

  unfoldable pub cell_of : String → Row C → Cell C
  cell_of name [] = Cell.null
  cell_of name ((n, v) ∷ row) = if n == name then v else cell_of name row

  unfoldable pub extend_column : List (Row C) → DataColumn C → DataColumn C
  unfolding cell_of
  extend_column rows c = record c { cells = c.cells ++ map (cell_of c.name) rows }

  abbrev pub is_invertible : ColumnOp C → Bool
  is_invertible (append_rows rows) = false
  is_invertible (apply_transform pipeline) = false
  is_invertible _ = true

  -- The inverse where the op applies. The lookups are the Rust code's `expect`s: each succeeds, since
  -- the op has applied.
  unfoldable pub inverse : ColumnOp C → Table C → Option (ColumnOp C)
  unfolding find_from
  inverse (set_cell col row value) t = elim (find_column t col) [
    | none ↦ none
    | some (i, c) ↦ elim (row_index row (row_count t)) [
      | none ↦ none
      | some r ↦ elim (get_elem? c.cells r) [ none ↦ none | some old ↦ some (set_cell col row old) ]
    ]
  ]
  inverse (set_column column) t = elim (find_column t column.name) [
    | none ↦ none
    | some (i, old) ↦ some (set_column old)
  ]
  inverse (insert_column index column) t = some (remove_column column.name)
  inverse (remove_column name) t = elim (find_column t name) [
    | none ↦ none
    | some (i, c) ↦ some (insert_column (pos i) c)
  ]
  inverse _ t = none

module _ {C : Compute} (eval_pipeline : List C.Step → Table C → Option (Table C)) where
  unfoldable pub apply_column_op : ColumnOp C → Table C → Edited (Table C)
  unfolding with_column find_from
  apply_column_op (set_cell col row value) t = do
    (i, c) ← require (find_column t col) no_such_column
    r ← require (row_index row (row_count t)) row_out_of_range
    reject_if (not (cell_fits c.column_type value)) cell_type_mismatch
    reject_if (not (ltb r (length c.cells))) panicked
    ok (with_column t (record c { cells = set c.cells r value }))
  apply_column_op (set_column column) t = do
    (i, c) ← require (find_column t column.name) no_such_column
    reject_if (not (length column.cells =? row_count t)) column_length_mismatch
    ok (with_column t column)
  apply_column_op (insert_column index column) t = do
    reject_if (is_some (find_column t column.name)) duplicate_column
    reject_if (leb 1 (length t.columns) && not (length column.cells =? row_count t))
        column_length_mismatch
    let i = clamp index (length t.columns)
    reject_if (ltb (length t.schema) i) panicked
    ok (record {
      schema = insert_at i (new_entry column.name column.column_type) t.schema;
      columns = insert_at i column t.columns;
    })
  apply_column_op (remove_column name) t = do
    _ ← require (find_column t name) no_such_column
    ok (record { schema = without_entry name t.schema; columns = without name t.columns })
  apply_column_op (append_rows rows) t = do
    check_rows t rows
    ok (record t { columns = map (extend_column rows) t.columns })
  apply_column_op (apply_transform pipeline) t =
      require (eval_pipeline pipeline t) transform_rejected

  unfoldable pub invert_column_op : ColumnOp C → Table C → Edited (ColumnOp C)
  unfolding apply_column_op inverse
  invert_column_op op t = do
    reject_if (not (is_invertible op)) not_invertible
    _ ← apply_column_op op t
    require (inverse op t) not_invertible
