-- ===== src/Grid/Edit/Applies.antt =====
-- Edits that find what they need apply (src/core/grid_edit.rs, `apply_column_op`).
use fuaran_rs.Prelude.{
  ◌<◌, ltb, ℕ, ◌+◌, ◌≡◌, refl, String, true, false, not, ◌&&◌, Option, some, List, [], ◌∷◌, ◌=?◌,
  leb, length, set, insert_at, arith,
}
use fuaran_rs.Prelude.Decimal.{ℤ, pos, negsuc}
use fuaran_rs.Prelude.Outcome.{ok}
use fuaran_rs.Grid.{
  Compute, Cell, DataColumn, Table, set_cell, set_column, insert_column, new_entry,
}
use fuaran_rs.Grid.Cells.{cell_fits}
use fuaran_rs.Grid.Edit.{
  row_index, clamp, rows_of, row_count, find_column, with_column, apply_column_op,
}
use fuaran_rs.Grid.Edit.Columns.{Absent, Even, Absent-find_from}

-- The guard of an insert is passed where the columns are even.
pub Even-guard :
    {C : Compute} (n : ℕ) (c : DataColumn C) (cs : List (DataColumn C))
    → Even n cs
    → length c.cells ≡ n
    → (leb 1 (length cs) && not (length c.cells =? rows_of cs)) ≡ false
Even-guard n c [] h e = refl
Even-guard n c (d ∷ ds) (k, h) e = ground (arith, k, e)

pub clamp_within : (i b a n : ℕ) → i ≡ b → n ≡ b + a → clamp (pos i) n ≡ b
clamp_within i b a n e f = ground (arith, e, f)

pub in_range_of : (i : ℤ) (n m : ℕ) → m ≡ n → ltb m (clamp i n) ≡ false
in_range_of (pos i) n m l = ground arith
in_range_of (negsuc i) n m l = ground arith

module _ {C : Compute} (eval_pipeline : List C.Step → Table C → Option (Table C)) where
  -- Edits that find what they need do apply.
  pub set_cell_applies :
      (col : String) (row : ℤ) (value : Cell C) (t : Table C) (i r : ℕ) (c : DataColumn C)
      → find_column t col ≡ some (i, c)
      → row_index row (row_count t) ≡ some r
      → cell_fits c.column_type value ≡ true
      → r < length c.cells
      → apply_column_op eval_pipeline (set_cell col row value) t
        ≡ ok (with_column t (record c { cells = set c.cells r value }))
  unfolding apply_column_op
  set_cell_applies col row value t i r c e f g l =
      let within : ltb r (length c.cells) ≡ true = ground arith in
      rw e (rw f (rw g (rw within refl)))

  pub set_column_applies :
      (column : DataColumn C) (t : Table C) (i : ℕ) (c : DataColumn C)
      → find_column t column.name ≡ some (i, c)
      → length column.cells ≡ row_count t
      → apply_column_op eval_pipeline (set_column column) t ≡ ok (with_column t column)
  unfolding apply_column_op
  set_column_applies column t i c e f =
      let w : (length column.cells =? row_count t) ≡ true = ground (arith, f) in rw e (rw w refl)

  pub insert_column_applies :
      (index : ℤ) (column : DataColumn C) (t : Table C)
      → Absent column.name t.columns
      → (leb 1 (length t.columns) && not (length column.cells =? row_count t)) ≡ false
      → length t.schema ≡ length t.columns
      → apply_column_op eval_pipeline (insert_column index column) t
        ≡ ok (record {
          schema =
              insert_at
                (clamp index (length t.columns))
                (new_entry column.name column.column_type)
                t.schema;
          columns = insert_at (clamp index (length t.columns)) column t.columns;
        })
  unfolding apply_column_op
  insert_column_applies index column t a g l =
      rw (Absent-find_from 0 column.name t.columns a)
        (rw g (rw (in_range_of index (length t.columns) (length t.schema) l) refl))
