-- ===== src/Grid/Edit/Back.antt =====
-- The inverse of an edit that writes a column over (src/core/grid_edit.rs, `SetCell`, `SetColumn`),
-- applied to the table that the edit gives.
use fuaran_rs.Prelude.{
  ℕ, ◌≡◌, refl, sym, ap, ◌∙◌, String, Option, some, List, length, set, get_elem?, arith, subst,
}
use fuaran_rs.Prelude.Decimal.{ℤ}
use fuaran_rs.Prelude.Outcome.{ok}
use fuaran_rs.Grid.{Compute, Cell, DataColumn, Table, ColumnOp, set_cell, set_column}
use fuaran_rs.Grid.Cells.{cell_fits}
use fuaran_rs.Grid.Edit.{row_index, row_count, find_column, with_column, apply_column_op, inverse}
use fuaran_rs.Grid.Edit.Columns.{Located, find_from-Located}
use fuaran_rs.Grid.Edit.Steps.{
  length-set, set-set_back, get_elem?-lt, every-get_elem?, row_index-some, set_cell-steps,
  set_column-steps,
}
use fuaran_rs.Grid.Edit.Written.{
  AreColumns, with_column-find, with_column-row_count, with_column-back, located_length,
  located_fits,
}
use fuaran_rs.Grid.Edit.Applies.{set_cell_applies, set_column_applies}

module _ {C : Compute} (eval_pipeline : List C.Step → Table C → Option (Table C)) where
  -- The op has an inverse, and the inverse takes the result back to the columns it came from.
  abbrev pub Undone : ColumnOp C → Table C → Table C → Type 0
  Undone op t t' =
      (inv : ColumnOp C) × (t'' : Table C) × (inverse op t ≡ some inv)
      × (apply_column_op eval_pipeline inv t' ≡ ok t'')
      × (t''.columns ≡ t.columns)

  set_cell-back :
      (col : String) (row : ℤ) (value old : Cell C) (t : Table C) (i r : ℕ) (c : DataColumn C)
      → AreColumns t.columns
      → find_column t col ≡ some (i, c)
      → row_index row (row_count t) ≡ some r
      → Located col c t.columns
      → get_elem? c.cells r ≡ some old
      → Undone (set_cell col row value) t (with_column t (record c { cells = set c.cells r value }))
  unfolding inverse
  set_cell-back col row value old t i r c w e f l o =
      let d : DataColumn C = record c { cells = set c.cells r value } in
      let same : length c.cells ≡ row_count t = located_length t w col c d l l.named in
      let kept : length d.cells ≡ row_count t = length-set c.cells r value ∙ same in
      let count : row_count (with_column t d) ≡ row_count t =
        with_column-row_count t w col c d l l.named kept in
      let back : DataColumn C = record d { cells = set d.cells r old } in
      (
        set_cell col row old,
        with_column (with_column t d) back,
        rw (e, inverse) (rw (f, inverse) (rw (o, inverse) refl)),
        set_cell_applies eval_pipeline col row old (with_column t d) (length l.before) r d
            (with_column-find t w col c d l l.named) (ap (row_index row) count ∙ f)
            (every-get_elem? (cell_fits c.column_type) c.cells r old
              (located_fits t w col c d l l.named) o)
            (let p = (row_index-some row (row_count t) r f).1 in omega (arith, kept, p)),
        with_column-back t w col c d l l.named back
            (ap (λ xs. record c { cells = xs }) (set-set_back c.cells r value old o)),
      )

  pub set_cell-Undone :
      (col : String) (row : ℤ) (value : Cell C) (t t' : Table C)
      → AreColumns t.columns
      → apply_column_op eval_pipeline (set_cell col row value) t ≡ ok t'
      → Undone (set_cell col row value) t t'
  set_cell-Undone col row value t t' w h =
      let (i, c, r, e, f, g, q) = set_cell-steps eval_pipeline col row value t t' h in
      let (l, k) = find_from-Located 0 col t.columns i c e in
      let (p, m) = row_index-some row (row_count t) r f in
      let same : length c.cells ≡ row_count t = located_length t w col c c l l.named in
      let (old, o) = get_elem?-lt c.cells r (omega (arith, same, m)) in
      subst (Undone (set_cell col row value) t) (sym q)
        (set_cell-back col row value old t i r c w e f l o)

  set_column-back :
      (column : DataColumn C) (t : Table C) (i : ℕ) (c : DataColumn C)
      → AreColumns t.columns
      → find_column t column.name ≡ some (i, c)
      → Located column.name c t.columns
      → length column.cells ≡ row_count t
      → Undone (set_column column) t (with_column t column)
  unfolding inverse
  set_column-back column t i c w e l f =
      let same : length c.cells ≡ row_count t = located_length t w column.name c column l refl in
      let count : row_count (with_column t column) ≡ row_count t =
        with_column-row_count t w column.name c column l refl f in
      (
        set_column c,
        with_column (with_column t column) c,
        rw (e, inverse) refl,
        set_column_applies eval_pipeline c (with_column t column) (length l.before) column
            (ap (find_column (with_column t column)) l.named
              ∙ with_column-find t w column.name c column l refl)
            (same ∙ sym count),
        with_column-back t w column.name c column l refl c refl,
      )

  pub set_column-Undone :
      (column : DataColumn C) (t t' : Table C)
      → AreColumns t.columns
      → apply_column_op eval_pipeline (set_column column) t ≡ ok t'
      → Undone (set_column column) t t'
  set_column-Undone column t t' w h =
      let (i, c, e, f, q) = set_column-steps eval_pipeline column t t' h in
      let (l, k) = find_from-Located 0 column.name t.columns i c e in
      subst (Undone (set_column column) t) (sym q)
        (set_column-back column t i c w e l (ground (arith, f)))
