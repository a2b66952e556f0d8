-- ===== src/Grid/History/Columns.antt =====
-- Edits as functions on the columns of a table (src/core/grid_edit.rs, `apply_column_op`): of the
-- schema only the length is read.
use fuaran_rs.Prelude.{
  suc, ap, map, ltb, ◌∷◌, ℕ, ◌≡◌, refl, true, not, ◌&&◌, Option, List, [], ◌=?◌, leb, length,
  is_some,
}
use fuaran_rs.Prelude.Outcome.{ok, err, reject_if, ◌>>=◌, ok-injective}
use fuaran_rs.Grid.{
  Compute, DataColumn, Table, ColumnOp, set_cell, set_column, insert_column, remove_column,
  append_rows, apply_transform,
}
use fuaran_rs.Grid.Cells.{cell_fits}
use fuaran_rs.Grid.Edit.Schema.{entry_of}
use fuaran_rs.Grid.Edit.{
  Edited, require, row_index, clamp, row_count, find_column, with_column, is_invertible,
  apply_column_op,
}

module _ {C : Compute} where
  abbrev pub columns_of : Edited (Table C) → Edited (List (DataColumn C))
  columns_of (ok t) = ok t.columns
  columns_of (err e) = err e

  bind-columns_of :
      {T : Type 0} (r : Edited T) (k k' : T → Edited (Table C))
      → ((x : T) → columns_of (k x) ≡ columns_of (k' x))
      → columns_of (r >>= k) ≡ columns_of (r >>= k')
  bind-columns_of (ok x) k k' h = h x
  bind-columns_of (err e) k k' h = refl

  pub columns_of-ok :
      (r : Edited (Table C)) {cs : List (DataColumn C)}
      → columns_of r ≡ ok cs
      → (t : Table C) × (r ≡ ok t) × (t.columns ≡ cs)
  columns_of-ok (ok t) h = (t, refl, ok-injective h)
  columns_of-ok (err e) h = cc

module _ {C : Compute} (eval_pipeline : List C.Step → Table C → Option (Table C)) where
  abbrev pub on_columns : ColumnOp C → List (DataColumn C) → Edited (List (DataColumn C))
  on_columns op cs =
      columns_of
        (apply_column_op eval_pipeline op (record { schema = map entry_of cs; columns = cs }))

  entries-length : (cs : List (DataColumn C)) → length (map entry_of cs) ≡ length cs
  entries-length [] = refl
  entries-length (c ∷ cs) = ap suc (entries-length cs)

  -- On two tables with the same columns, and as many entries as columns, an invertible edit is refused alike, or gives the same columns.
  pub apply-on_columns :
      (op : ColumnOp C) (t : Table C)
      → length t.schema ≡ length t.columns
      → is_invertible op ≡ true
      → columns_of (apply_column_op eval_pipeline op t) ≡ on_columns op t.columns
  unfolding apply_column_op with_column
  apply-on_columns (set_cell col row value) t l i =
      bind-columns_of (require (find_column t col) _) _ _ λ (p : ℕ × DataColumn C).
        bind-columns_of (require (row_index row (row_count t)) _) _ _ λ (r : ℕ).
          bind-columns_of (reject_if (not (cell_fits (p.1).column_type value)) _) _ _
            λ (u : Unit {0}).
              bind-columns_of (reject_if (not (ltb r (length (p.1).cells))) _) _ _
                λ (v : Unit {0}). refl
  apply-on_columns (set_column column) t l i =
      bind-columns_of (require (find_column t column.name) _) _ _ λ (p : ℕ × DataColumn C).
        bind-columns_of (reject_if (not (length column.cells =? row_count t)) _) _ _
          λ (u : Unit {0}). refl
  apply-on_columns (insert_column index column) t l i =
      bind-columns_of (reject_if (is_some (find_column t column.name)) _) _ _ λ (u : Unit {0}).
        bind-columns_of
          (reject_if (leb 1 (length t.columns) && not (length column.cells =? row_count t)) _) _ _
          λ (v : Unit {0}).
            rw (l, entries-length t.columns)
              (bind-columns_of
                (reject_if (ltb (length t.columns) (clamp index (length t.columns))) _) _ _
                λ (x : Unit {0}). refl)
  apply-on_columns (remove_column name) t l i =
      bind-columns_of (require (find_column t name) _) _ _ λ (p : ℕ × DataColumn C). refl
  apply-on_columns (append_rows rows) t l i = cc
  apply-on_columns (apply_transform pipeline) t l i = cc
