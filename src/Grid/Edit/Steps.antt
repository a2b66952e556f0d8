-- ===== src/Grid/Edit/Steps.antt =====
-- What a successful edit has found and done (src/core/grid_edit.rs, `apply_column_op`).
use fuaran_rs.Prelude.{
  ℕ, zero, suc, ◌<◌, ◌≡◌, refl, sym, ap, ◌∙◌, String, Bool, true, false, not, ◌&&◌, Bool-cases, inl,
  inr, Option, none, some, List, [], ◌∷◌, ◌++◌, map, ◌=?◌, ltb, leb, length, All, every, set,
  get_elem?, insert_at, arith, subst, and_parts, is_some,
}
use fuaran_rs.Prelude.Decimal.{ℤ, pos, negsuc}
use fuaran_rs.Prelude.Outcome.{ok, reject_if, >>=-eq-ok, ok-injective}
use fuaran_rs.Grid.{
  Compute, Cell, DataColumn, Table, set_cell, set_column, insert_column, remove_column, append_rows,
  apply_transform, EditRefusal, new_entry, Row,
}
use fuaran_rs.Grid.Cells.{cell_fits}
use fuaran_rs.Grid.Edit.{
  require, row_index, clamp, row_count, find_column, with_column, without, without_entry,
  check_rows, extend_column, apply_column_op,
}
use fuaran_rs.Grid.Edit.Columns.{Absent, find_from-Absent}

pub require-eq-ok :
    {T : Type 0} (o : Option T) (e : EditRefusal) {x : T} → require o e ≡ ok x → o ≡ some x
require-eq-ok (some y) e h = ap some (ok-injective h)
require-eq-ok none e h = cc

pub reject_if-eq-ok : (b : Bool) (e : EditRefusal) {x : Unit {0}} → reject_if b e ≡ ok x → b ≡ false
reject_if-eq-ok true e h = cc
reject_if-eq-ok false e h = refl

pub not-false : (b : Bool) → not b ≡ false → b ≡ true
not-false true h = refl
not-false false h = cc

pub row_index-some : (row : ℤ) (rc r : ℕ) → row_index row rc ≡ some r → (row ≡ pos r) × (r < rc)
row_index-some (pos k) rc r h = elim (Bool-cases (ltb k rc)) [
  | inl e ↦ let p : some k ≡ some r = sym (rw e refl) ∙ h in (ground (arith, p), ground (arith, p))
  | inr e ↦ let p : ◌≡◌ {A = Option ℕ} none (some r) = sym (rw e refl) ∙ h in cc
]
row_index-some (negsuc k) rc r h = cc

not_some : {T : Type 0} (o : Option T) → is_some o ≡ false → o ≡ none
not_some none h = refl
not_some (some x) h = cc

module _ {ℓ} {A : Type ℓ} where
  pub length-set : (xs : List A) (i : ℕ) (v : A) → length (set xs i v) ≡ length xs
  length-set [] i v = refl
  length-set (x ∷ xs) zero v = refl
  length-set (x ∷ xs) (suc i) v = ap suc (length-set xs i v)

  -- Writing back what stood there.
  pub set-set_back :
      (xs : List A) (i : ℕ) (v old : A) → get_elem? xs i ≡ some old → set (set xs i v) i old ≡ xs
  set-set_back [] i v old h = refl
  set-set_back (x ∷ xs) zero v old h = ground (arith, h)
  set-set_back (x ∷ xs) (suc i) v old h = ap (λ r. x ∷ r) (set-set_back xs i v old h)

  pub get_elem?-lt : (xs : List A) (i : ℕ) → i < length xs → (x : A) × (get_elem? xs i ≡ some x)
  get_elem?-lt [] i h = absurd (omega arith)
  get_elem?-lt (x ∷ xs) zero h = (x, refl)
  get_elem?-lt (x ∷ xs) (suc i) h = get_elem?-lt xs i (omega arith)

  pub every-get_elem? :
      (p : A → Bool) (xs : List A) (i : ℕ) (x : A)
      → every p xs ≡ true
      → get_elem? xs i ≡ some x
      → p x ≡ true
  every-get_elem? p [] i x h e = cc
  every-get_elem? p (y ∷ ys) zero x h e =
      let q : y ≡ x = ground (arith, e) in subst (λ z. p z ≡ true) q (and_parts (p y) _ h).0
  every-get_elem? p (y ∷ ys) (suc i) x h e = every-get_elem? p ys i x (and_parts (p y) _ h).1 e

module _ {C : Compute} where
  -- Every cell fits its column.
  abbrev pub Fit : List (DataColumn C) → Type 0
  Fit = All (λ c. every (cell_fits c.column_type) c.cells ≡ true)

  pub Fit-split :
      (before after : List (DataColumn C)) (c : DataColumn C)
      → Fit (before ++ (c ∷ after))
      → Fit before × (every (cell_fits c.column_type) c.cells ≡ true) × Fit after
  Fit-split [] after c (e, h) = (tt, e, h)
  Fit-split (d ∷ ds) after c (e, h) = let (b, k, a) = Fit-split ds after c h in ((e, b), k, a)

  pub Fit-join :
      (before after : List (DataColumn C)) → Fit before → Fit after → Fit (before ++ after)
  Fit-join [] after b a = a
  Fit-join (c ∷ cs) after (e, b) a = (e, Fit-join cs after b a)

module _ {C : Compute} (eval_pipeline : List C.Step → Table C → Option (Table C)) where
  -- What a successful edit of each kind has found and done.
  pub set_cell-steps :
      (col : String) (row : ℤ) (value : Cell C) (t t' : Table C)
      → apply_column_op eval_pipeline (set_cell col row value) t ≡ ok t'
      → (i : ℕ) × (c : DataColumn C) × (r : ℕ) × (find_column t col ≡ some (i, c))
        × (row_index row (row_count t) ≡ some r)
        × (cell_fits c.column_type value ≡ true)
        × (t' ≡ with_column t (record c { cells = set c.cells r value }))
  unfolding apply_column_op
  set_cell-steps col row value t t' h =
      let ((i, c), e, h1) = >>=-eq-ok (require (find_column t col) _) _ h in
      let (r, f, h2) = >>=-eq-ok (require (row_index row (row_count t)) _) _ h1 in
      let (u, g, h3) = >>=-eq-ok (reject_if (not (cell_fits c.column_type value)) _) _ h2 in
      let (v, k, h4) = >>=-eq-ok (reject_if (not (ltb r (length c.cells))) _) _ h3 in
      (
        i,
        c,
        r,
        require-eq-ok _ _ e,
        require-eq-ok _ _ f,
        not-false _ (reject_if-eq-ok _ _ g),
        sym (ok-injective h4),
      )

  pub set_column-steps :
      (column : DataColumn C) (t t' : Table C)
      → apply_column_op eval_pipeline (set_column column) t ≡ ok t'
      → (i : ℕ) × (c : DataColumn C) × (find_column t column.name ≡ some (i, c))
        × ((length column.cells =? row_count t) ≡ true)
        × (t' ≡ with_column t column)
  unfolding apply_column_op
  set_column-steps column t t' h =
      let ((i, c), e, h1) = >>=-eq-ok (require (find_column t column.name) _) _ h in
      let (u, g, h2) = >>=-eq-ok (reject_if (not (length column.cells =? row_count t)) _) _ h1 in
      (i, c, require-eq-ok _ _ e, not-false _ (reject_if-eq-ok _ _ g), sym (ok-injective h2))

  pub insert_column-steps :
      (index : ℤ) (column : DataColumn C) (t t' : Table C)
      → apply_column_op eval_pipeline (insert_column index column) t ≡ ok t'
      → Absent column.name t.columns
        × ((leb 1 (length t.columns) && not (length column.cells =? row_count t)) ≡ false)
        × (t'.columns ≡ insert_at (clamp index (length t.columns)) column t.columns)
        × (t'.schema
            ≡ insert_at
                (clamp index (length t.columns))
                (new_entry column.name column.column_type)
                t.schema)
  unfolding apply_column_op
  insert_column-steps index column t t' h =
      let (u, e, h1) = >>=-eq-ok (reject_if (is_some (find_column t column.name)) _) _ h in
      let (v, f, h2) =
        >>=-eq-ok
          (reject_if (leb 1 (length t.columns) && not (length column.cells =? row_count t)) _) _
          h1 in
      let (x, g, h3) =
        >>=-eq-ok (reject_if (ltb (length t.schema) (clamp index (length t.columns))) _) _ h2 in
      (
        find_from-Absent 0 column.name t.columns (not_some _ (reject_if-eq-ok _ _ e)),
        reject_if-eq-ok _ _ f,
        ap (λ (x : Table C). x.columns) (sym (ok-injective h3)),
        ap (λ (x : Table C). x.schema) (sym (ok-injective h3)),
      )

  pub remove_column-steps :
      (name : String) (t t' : Table C)
      → apply_column_op eval_pipeline (remove_column name) t ≡ ok t'
      → (i : ℕ) × (c : DataColumn C) × (find_column t name ≡ some (i, c))
        × (t' ≡ record { schema = without_entry name t.schema; columns = without name t.columns })
  unfolding apply_column_op
  remove_column-steps name t t' h =
      let ((i, c), e, h1) = >>=-eq-ok (require (find_column t name) _) _ h in
      (i, c, require-eq-ok _ _ e, sym (ok-injective h1))

  pub append_rows-steps :
      (rows : List (Row C)) (t t' : Table C)
      → apply_column_op eval_pipeline (append_rows rows) t ≡ ok t'
      → (check_rows t rows ≡ ok tt)
        × (t' ≡ record t { columns = map (extend_column rows) t.columns })
  unfolding apply_column_op
  append_rows-steps rows t t' h =
      let (u, e, h1) = >>=-eq-ok (check_rows t rows) _ h in (e, sym (ok-injective h1))

  pub transform-steps :
      (pipeline : List C.Step) (t t' : Table C)
      → apply_column_op eval_pipeline (apply_transform pipeline) t ≡ ok t'
      → eval_pipeline pipeline t ≡ some t'
  unfolding apply_column_op
  transform-steps pipeline t t' h = require-eq-ok _ _ h
