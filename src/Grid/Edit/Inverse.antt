-- ===== src/Grid/Edit/Inverse.antt =====
-- The inverse of an edit (src/core/grid_edit.rs, `invert_column_op`), applied to the table that the edit
-- gives.
use fuaran_rs.Prelude.{
  some-injective, ◌+◌, ◌≡◌, refl, sym, ap, ◌∙◌, String, true, not, Option, none, some, List, ◌++◌,
  length, length-append, get_elem?, insert_at, arith, subst,
}
use fuaran_rs.Prelude.Decimal.{ℤ, pos}
use fuaran_rs.Prelude.Outcome.{ok, reject_if, >>=-eq-ok}
use fuaran_rs.Grid.{
  Compute, DataColumn, Table, ColumnOp, set_cell, set_column, insert_column, remove_column,
  append_rows, apply_transform, new_entry,
}
use fuaran_rs.Grid.Edit.{
  row_index, clamp, row_count, find_column, find_from, without, without_entry, apply_column_op,
  is_invertible, inverse, invert_column_op,
}
use fuaran_rs.Grid.Edit.Columns.{
  Absent, Unique, Even, find_from-Located, find_from-split, Unique-around, Absent-split,
  Absent-join, without-split, insert_at-split, insert_at-length, Even-split, Even-join,
}
use fuaran_rs.Grid.Edit.Steps.{
  insert_column-steps, remove_column-steps, reject_if-eq-ok, not-false, require-eq-ok,
}
use fuaran_rs.Grid.Edit.Schema.{
  Describes, IsTable, invertible-IsEdit, length-Describes, apply_column_op-Describes,
}
use fuaran_rs.Grid.Edit.Back.{Undone, set_cell-Undone, set_column-Undone}
use fuaran_rs.Grid.Edit.Applies.{Even-guard, clamp_within, insert_column_applies}

Some-of :
    {C : Compute} {A : Type 0} (o : Option A) (k : A → Option (ColumnOp C)) {inv : ColumnOp C}
    → elim o [ none ↦ none | some x ↦ k x ] ≡ some inv
    → (x : A) × (k x ≡ some inv)
Some-of none k h = cc
Some-of (some x) k h = (x, h)

inverse-is_invertible :
    {C : Compute} (op inv : ColumnOp C) (t : Table C)
    → inverse op t ≡ some inv
    → is_invertible inv ≡ true
unfolding inverse
inverse-is_invertible (set_cell col row value) inv t h =
    let ((i, c), h1) = Some-of (find_column t col) _ h in
    let (r, h2) = Some-of (row_index row (row_count t)) _ h1 in
    let (old, h3) = Some-of (get_elem? c.cells r) _ h2 in ap is_invertible (sym (some-injective h3))
inverse-is_invertible (set_column column) inv t h =
    let ((i, c), h1) = Some-of (find_column t column.name) _ h in
    ap is_invertible (sym (some-injective h1))
inverse-is_invertible (insert_column index column) inv t h =
    ap is_invertible (sym (some-injective h))
inverse-is_invertible (remove_column name) inv t h =
    let ((i, c), h1) = Some-of (find_column t name) _ h in
    ap is_invertible (sym (some-injective h1))
inverse-is_invertible (append_rows rows) inv t h = cc
inverse-is_invertible (apply_transform pipeline) inv t h = cc

module _ {C : Compute} (eval_pipeline : List C.Step → Table C → Option (Table C)) where
  insert_column-Undone :
      (index : ℤ) (column : DataColumn C) (t t' : Table C)
      → apply_column_op eval_pipeline (insert_column index column) t ≡ ok t'
      → Undone eval_pipeline (insert_column index column) t t'
  unfolding inverse apply_column_op
  insert_column-Undone index column t t' h =
      let (a, f, q, s) = insert_column-steps eval_pipeline index column t t' h in
      let (b, z, p, r) = insert_at-split (clamp index (length t.columns)) column t.columns in
      let (ab, az) = Absent-split column.name b z (subst (Absent column.name) p a) in
      let found : find_column t' column.name ≡ some (0 + length b, column) =
        ap (find_from 0 column.name) (q ∙ r) ∙ find_from-split 0 column.name b z column refl ab in
      (
        remove_column column.name,
        record {
          schema = without_entry column.name t'.schema;
          columns = without column.name t'.columns;
        },
        refl,
        rw found refl,
        ap (without column.name) (q ∙ r) ∙ without-split column.name b z column refl ab az ∙ sym p,
      )

  remove_column-Undone :
      (name : String) (t t' : Table C)
      → IsTable t
      → apply_column_op eval_pipeline (remove_column name) t ≡ ok t'
      → Undone eval_pipeline (remove_column name) t t'
  unfolding inverse
  remove_column-Undone name t t' w h =
      let (i, c, e, q) = remove_column-steps eval_pipeline name t t' h in
      let (l, k) = find_from-Located 0 name t.columns i c e in
      let (b, a, r) = Unique-around l.before l.after c (subst Unique l.split w.shape.unique) in
      let bn : Absent name l.before = subst (λ x. Absent x l.before) l.named b in
      let an : Absent name l.after = subst (λ x. Absent x l.after) l.named a in
      let cols : t'.columns ≡ l.before ++ l.after =
        ap (λ (x : Table C). x.columns) q
        ∙ ap (without name) l.split
        ∙ without-split name l.before l.after c l.named bn an in
      let (be, ce, ae) =
        Even-split (row_count t) l.before l.after c
          (subst (Even (row_count t)) l.split w.shape.even) in
      let gone : Absent c.name t'.columns =
        subst (Absent c.name) (sym cols) (Absent-join c.name l.before l.after b a) in
      let place : clamp (pos i) (length t'.columns) ≡ length l.before =
        clamp_within i (length l.before) (length l.after) (length t'.columns) (omega (arith, k))
          (ap length cols ∙ length-append l.before l.after) in
      (
        insert_column (pos i) c,
        record {
          schema =
              insert_at (clamp (pos i) (length t'.columns)) (new_entry c.name c.column_type)
                t'.schema;
          columns = insert_at (clamp (pos i) (length t'.columns)) c t'.columns;
        },
        rw (e, inverse) refl,
        insert_column_applies eval_pipeline (pos i) c t' gone
            (Even-guard (row_count t) c t'.columns
              (subst (Even (row_count t)) (sym cols)
                (Even-join (row_count t) l.before l.after be ae))
              ce)
            (length-Describes t'.schema t'.columns
              (apply_column_op-Describes eval_pipeline (remove_column name) t t' w.described tt h)),
        ap (λ j. insert_at j c t'.columns) place
            ∙ ap (insert_at (length l.before) c) cols
            ∙ insert_at-length c l.before l.after
            ∙ sym l.split,
      )

  -- From a table with unique names, even columns, fitting cells and a schema that names the columns and
  -- their types in their order, an invertible edit that applies has an inverse, the inverse applies to
  -- the result, and it gives back the columns of the table, each in its place and with all its cells,
  -- and a schema that names them.
  pub invert_column_op-Undone :
      (op : ColumnOp C) (t t' : Table C)
      → IsTable t
      → is_invertible op ≡ true
      → apply_column_op eval_pipeline op t ≡ ok t'
      → (inv : ColumnOp C) × (t'' : Table C) × (invert_column_op eval_pipeline op t ≡ ok inv)
        × (apply_column_op eval_pipeline inv t' ≡ ok t'')
        × (t''.columns ≡ t.columns)
        × Describes t''.schema t''.columns
  unfolding invert_column_op
  invert_column_op-Undone op t t' w i h =
      let (inv, t'', e, a, c) = undone op i h in
      let d =
        apply_column_op-Describes eval_pipeline op t t' w.described (invertible-IsEdit op i) h in
      let j = invertible-IsEdit inv (inverse-is_invertible op inv t e) in
      (
        inv,
        t'',
        rw i (rw h (rw e refl)),
        a,
        c,
        apply_column_op-Describes eval_pipeline inv t' t'' d j a,
      )
    where
      undone :
          (op : ColumnOp C)
          → is_invertible op ≡ true
          → apply_column_op eval_pipeline op t ≡ ok t'
          → Undone eval_pipeline op t t'
      undone (set_cell col row value) i h =
          set_cell-Undone eval_pipeline col row value t t' w.shape h
      undone (set_column column) i h = set_column-Undone eval_pipeline column t t' w.shape h
      undone (insert_column index column) i h = insert_column-Undone index column t t' h
      undone (remove_column name) i h = remove_column-Undone name t t' w h
      undone (append_rows rows) i h = cc
      undone (apply_transform pipeline) i h = cc

  -- Only an edit of a kind that can be undone has an inverse, which is of such a kind too.
  pub invert-is_invertible :
      (op inv : ColumnOp C) (t : Table C)
      → invert_column_op eval_pipeline op t ≡ ok inv
      → (is_invertible op ≡ true) × (is_invertible inv ≡ true)
  unfolding invert_column_op
  invert-is_invertible op inv t h =
      let (u, e, h1) = >>=-eq-ok (reject_if (not (is_invertible op)) _) _ h in
      let (t', f, h2) = >>=-eq-ok (apply_column_op eval_pipeline op t) _ h1 in
      (
        not-false _ (reject_if-eq-ok _ _ e),
        inverse-is_invertible op inv t (require-eq-ok (inverse op t) _ h2),
      )
