-- ===== src/Grid/Edit/Sound.antt =====
-- Edits of a table in shape never panic (src/core/grid_edit.rs, `apply_column_op`).
use fuaran_rs.Prelude.{
  ltb, ℕ, ◌≡◌, ◌≢◌, refl, ap, ◌∙◌, Bool, true, false, not, ◌&&◌, Option, none, some, List, [], ◌∷◌,
  ◌=?◌, leb, length, is_some, arith,
}
use fuaran_rs.Prelude.Outcome.{ok, err, ◌>>=◌, ◌>>◌, reject_if}
use fuaran_rs.Grid.{
  Compute, DataColumn, Table, ColumnOp, set_cell, set_column, insert_column, remove_column,
  append_rows, apply_transform, EditRefusal, panicked, Row,
}
use fuaran_rs.Grid.Cells.{cell_fits}
use fuaran_rs.Grid.Edit.{
  Edited, require, row_index, row_count, find_column, check_row, check_rows, apply_column_op,
}
use fuaran_rs.Grid.Edit.Columns.{find_from-Located}
use fuaran_rs.Grid.Edit.Steps.{row_index-some}
use fuaran_rs.Grid.Edit.Written.{located_length}
use fuaran_rs.Grid.Edit.Applies.{in_range_of}
use fuaran_rs.Grid.Edit.Schema.{IsTable, length-Describes}
use fuaran_rs.Grid.Edit.Keeps.{OpFits, apply_column_op-IsTable}

abbrev Panics : {T : Type 0} → Edited T → Type 0
Panics r = r ≡ err panicked

after_require :
    {T U : Type 0} (o : Option T) (e : EditRefusal) (k : T → Edited U)
    → e ≢ panicked
    → ((x : T) → o ≡ some x → Panics (k x) → ⊥)
    → Panics (require o e >>= k)
    → ⊥
after_require {U = U} none e k n h p =
    n (let q : ◌≡◌ {A = Edited U} (err e) (err panicked) = p in cc)
after_require (some x) e k n h p = h x refl p

after_reject :
    {U : Type 0} (b : Bool) (e : EditRefusal) (k : Unit {0} → Edited U)
    → e ≢ panicked
    → (b ≡ false → Panics (k tt) → ⊥)
    → Panics (reject_if b e >>= k)
    → ⊥
after_reject {U = U} true e k n h p =
    n (let q : ◌≡◌ {A = Edited U} (err e) (err panicked) = p in cc)
after_reject false e k n h p = h refl p

-- What comes of an edit: a table in shape, or a refusal that is no panic.
abbrev pub Sound : {C : Compute} → Edited (Table C) → Type 0
Sound (ok t) = IsTable t
Sound (err e) = e ≢ panicked

module _ {C : Compute} (t : Table C) where
  check_row_sound : (row : Row C) → Panics (check_row t row) → ⊥
  unfolding check_row
  check_row_sound [] p = cc
  check_row_sound ((name, value) ∷ row) p =
      after_require (find_column t name) _ _ (λ e. cc)
        (λ (x : ℕ × DataColumn C) e.
          after_reject (not (cell_fits (x.1).column_type value)) _ _ (λ k. cc)
            (λ k. check_row_sound row))
        p

  check_rows_sound : (rows : List (Row C)) → Panics (check_rows t rows) → ⊥
  unfolding check_rows
  check_rows_sound [] p = cc
  check_rows_sound (row ∷ rows) p = go (check_row t row) refl (check_rows_sound rows) p
    where
      go :
          (r : Edited (Unit {0}))
          → check_row t row ≡ r
          → (Panics (check_rows t rows) → ⊥)
          → Panics (r >> check_rows t rows)
          → ⊥
      go (ok u) e rest q = rest q
      go (err x) e rest q =
          let w : ◌≡◌ {A = Edited (Unit {0})} (err x) (err panicked) = q in
          check_row_sound row (e ∙ w)

module _ {C : Compute} (eval_pipeline : List C.Step → Table C → Option (Table C)) where
  apply_column_op-unpanicked :
      (op : ColumnOp C) (t : Table C) → IsTable t → Panics (apply_column_op eval_pipeline op t) → ⊥
  unfolding apply_column_op
  apply_column_op-unpanicked (set_cell col row value) t w p =
      after_require (find_column t col) _ _ (λ e. cc)
        (λ (x : ℕ × DataColumn C) e.
          after_require (row_index row (row_count t)) _ _ (λ k. cc)
            (λ (r : ℕ) f.
              after_reject (not (cell_fits (x.1).column_type value)) _ _ (λ k. cc)
                (λ g.
                  let (l, k) = find_from-Located 0 col t.columns x.0 x.1 e in
                  let same = located_length t w.shape col x.1 x.1 l l.named in
                  let inside = (row_index-some row (row_count t) r f).1 in
                  let within : ltb r (length (x.1).cells) ≡ true = ground (arith, same, inside) in
                  λ q. let q' = rw within at q in cc)))
        p
  apply_column_op-unpanicked (set_column column) t w p =
      after_require (find_column t column.name) _ _ (λ e. cc)
        (λ (x : ℕ × DataColumn C) e.
          after_reject (not (length column.cells =? row_count t)) _ _ (λ k. cc) (λ k q. cc))
        p
  apply_column_op-unpanicked (insert_column index column) t w p =
      after_reject (is_some (find_column t column.name)) _ _ (λ e. cc)
        (λ e.
          after_reject (leb 1 (length t.columns) && not (length column.cells =? row_count t)) _ _
            (λ k. cc)
            (λ k.
              let within =
                in_range_of index (length t.columns) (length t.schema)
                  (length-Describes t.schema t.columns w.described) in
              λ q. let q' = rw within at q in cc))
        p
  apply_column_op-unpanicked (remove_column name) t w p =
      after_require (find_column t name) _ _ (λ e. cc) (λ (x : ℕ × DataColumn C) e q. cc) p
  apply_column_op-unpanicked (append_rows rows) t w p = go _ (check_rows t rows) refl p
    where
      go :
          (t' : Table C) (r : Edited (Unit {0}))
          → check_rows t rows ≡ r
          → Panics {T = Table C} (r >> ok t')
          → ⊥
      go t' (ok u) e q = cc
      go t' (err x) e q =
          let w : ◌≡◌ {A = Edited (Table C)} (err x) (err panicked) = q in
          check_rows_sound t rows (e ∙ (let v : x ≡ panicked = cc in ap err v))
  apply_column_op-unpanicked (apply_transform pipeline) t w p = go (eval_pipeline pipeline t) p
    where
      go : (o : Option (Table C)) → Panics (require o EditRefusal.transform_rejected) → ⊥
      go none q = cc
      go (some x) q = cc

  -- On a table with unique names, even columns, cells that fit, and a schema that names the columns and
  -- their types in their order, an edit that is no pipeline never panics: it is refused, or it gives a
  -- table that is in shape in the same way, where the cells of a column that it brings fit it.
  pub apply_column_op-Sound :
      (op : ColumnOp C) (t : Table C)
      → IsTable t
      → OpFits op
      → Sound (apply_column_op eval_pipeline op t)
  apply_column_op-Sound op t w o = go (apply_column_op eval_pipeline op t) refl
    where
      go : (r : Edited (Table C)) → apply_column_op eval_pipeline op t ≡ r → Sound r
      go (ok t') e = apply_column_op-IsTable eval_pipeline op t t' w o e
      go (err x) e = λ k. apply_column_op-unpanicked op t w (e ∙ ap err k)
