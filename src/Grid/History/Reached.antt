-- ===== src/Grid/History/Reached.antt =====
-- What holds of every edit history that gestures reach (src/core/grid_edit.rs, `GridEditHistory`).
use fuaran_rs.Prelude.{
  ℕ, zero, suc, ◌≤◌, ◌≡◌, refl, sym, ap, ◌∙◌, subst, true, Option, List, [], ◌∷◌, length, take,
  arith,
}
use fuaran_rs.Prelude.Outcome.{ok}
use fuaran_rs.Grid.{Compute, DataColumn, Table, ColumnOp}
use fuaran_rs.Grid.Edit.{is_invertible, apply_column_op}
use fuaran_rs.Grid.Edit.Written.{AreColumns}
use fuaran_rs.Grid.Edit.Schema.{
  Describes, IsTable, invertible-IsEdit, length-Describes, apply_column_op-Describes,
}
use fuaran_rs.Grid.History.{
  Entry, GridEditHistory, new_history, pushed, undo_entry, redo_entry, undo_edit, redo_edit,
}
use fuaran_rs.Grid.History.Columns.{columns_of, columns_of-ok, on_columns, apply-on_columns}

module _ {C : Compute} (eval_pipeline : List C.Step → Table C → Option (Table C)) where
  -- One entry: the inverse leads from `after` to `before`, and the edit back.
  pub record Turns (entry : Entry C) (before after : List (DataColumn C)) : Type 0 where
    pub op_inverts : is_invertible entry.0 ≡ true
    pub inverse_inverts : is_invertible entry.1 ≡ true
    pub shape : AreColumns before
    pub shape' : AreColumns after
    pub back : on_columns eval_pipeline entry.1 after ≡ ok before
    pub forth : on_columns eval_pipeline entry.0 before ≡ ok after

  -- From these columns the whole undo stack can be taken back, and the redo stack forth.
  abbrev pub Undoes : List (DataColumn C) → List (Entry C) → Type 0
  Undoes cs [] = Unit {0}
  Undoes cs (e ∷ es) = (us : List (DataColumn C)) × Turns e us cs × Undoes us es

  abbrev pub Redoes : List (DataColumn C) → List (Entry C) → Type 0
  Redoes cs [] = Unit {0}
  Redoes cs (e ∷ es) = (us : List (DataColumn C)) × Turns e cs us × Redoes us es

  pub record IsHistory (h : GridEditHistory C) : Type 0 where
    pub shape : IsTable h.table
    pub past : Undoes h.table.columns h.undo
    pub future : Redoes h.table.columns h.redo
    pub bounded : length h.undo ≤ h.capacity
    pub positive : 1 ≤ h.capacity

  Undoes-take :
      (n : ℕ) (cs : List (DataColumn C)) (es : List (Entry C))
      → Undoes cs es
      → Undoes cs (take n es)
  Undoes-take zero cs es u = tt
  Undoes-take (suc n) cs [] u = tt
  Undoes-take (suc n) cs (e ∷ es) (us, t, u) = (us, t, Undoes-take n us es u)

  length-take-le : (n : ℕ) (es : List (Entry C)) → length (take n es) ≤ n
  length-take-le zero es = omega arith
  length-take-le (suc n) [] = omega arith
  length-take-le (suc n) (e ∷ es) = omega (arith, length-take-le n es)

  take_all : (n : ℕ) (es : List (Entry C)) → length es ≤ n → take n es ≡ es
  take_all zero [] h = refl
  take_all zero (e ∷ es) h = absurd (omega arith)
  take_all (suc n) [] h = refl
  take_all (suc n) (e ∷ es) h = ap (λ r. e ∷ r) (take_all n es (omega arith))

  -- On the columns of a table an edit does what it does on the table.
  pub seen :
      (op : ColumnOp C) (t t' : Table C)
      → Describes t.schema t.columns
      → is_invertible op ≡ true
      → apply_column_op eval_pipeline op t ≡ ok t'
      → on_columns eval_pipeline op t.columns ≡ ok t'.columns
  seen op t t' d i h =
      sym (apply-on_columns eval_pipeline op t (length-Describes _ _ d) i) ∙ ap columns_of h

  applies :
      (op : ColumnOp C) (t : Table C) {cs : List (DataColumn C)}
      → Describes t.schema t.columns
      → is_invertible op ≡ true
      → on_columns eval_pipeline op t.columns ≡ ok cs
      → (t' : Table C) × (apply_column_op eval_pipeline op t ≡ ok t')
        × (t'.columns ≡ cs)
        × Describes t'.schema t'.columns
  applies op t d i h =
      let (t', a, c) =
        columns_of-ok _ (apply-on_columns eval_pipeline op t (length-Describes _ _ d) i ∙ h) in
      (t', a, c, apply_column_op-Describes eval_pipeline op t t' d (invertible-IsEdit op i) a)

  pub new_history-IsHistory :
      (t : Table C) (capacity : ℕ) → IsTable t → IsHistory (new_history t capacity)
  unfolding new_history
  new_history-IsHistory t capacity w = record {
    shape = w;
    past = tt;
    future = tt;
    bounded = omega arith;
    positive = omega arith;
  }

  -- An undo with something to undo is accepted.
  pub undo-accepted :
      (h : GridEditHistory C) (e : Entry C) (es : List (Entry C))
      → IsHistory h
      → h.undo ≡ e ∷ es
      → (t : Table C) × (undo_edit eval_pipeline h
          ≡ ok (record h { table = t; undo = es; redo = e ∷ h.redo }))
        × Turns e t.columns h.table.columns
        × Undoes t.columns es
        × Describes t.schema t.columns
  unfolding undo_edit undo_entry
  undo-accepted h (op, inv) es w p =
      let (us, t, u) = subst (Undoes h.table.columns) p w.past in
      let (t', a, c, d) = applies inv h.table w.shape.described t.inverse_inverts t.back in
      (
        t',
        ap (λ l. undo_entry eval_pipeline l h) p ∙ rw a refl,
        subst (λ x. Turns (op, inv) x h.table.columns) (sym c) t,
        subst (λ x. Undoes x es) (sym c) u,
        d,
      )

  pub redo-accepted :
      (h : GridEditHistory C) (e : Entry C) (es : List (Entry C))
      → IsHistory h
      → h.redo ≡ e ∷ es
      → (t : Table C) × (redo_edit eval_pipeline h
          ≡ ok (record h { table = t; undo = pushed e h; redo = es }))
        × Turns e h.table.columns t.columns
        × Redoes t.columns es
        × Describes t.schema t.columns
  unfolding redo_edit redo_entry
  redo-accepted h (op, inv) es w p =
      let (us, t, u) = subst (Redoes h.table.columns) p w.future in
      let (t', a, c, d) = applies op h.table w.shape.described t.op_inverts t.forth in
      (
        t',
        ap (λ l. redo_entry eval_pipeline l h) p ∙ rw a refl,
        subst (λ x. Turns (op, inv) h.table.columns x) (sym c) t,
        subst (λ x. Redoes x es) (sym c) u,
        d,
      )

  pub pushed-Undoes :
      (h : GridEditHistory C) (e : Entry C) (t : Table C)
      → IsHistory h
      → Turns e h.table.columns t.columns
      → Undoes t.columns (pushed e h)
  unfolding pushed
  pushed-Undoes h e t w u =
      Undoes-take h.capacity t.columns (e ∷ h.undo) (h.table.columns, u, w.past)

  pub pushed-bounded : (h : GridEditHistory C) (e : Entry C) → length (pushed e h) ≤ h.capacity
  unfolding pushed
  pushed-bounded h e = length-take-le h.capacity (e ∷ h.undo)

  take-top :
      (n : ℕ) (x : Entry C) (l : List (Entry C))
      → 1 ≤ n
      → (es : List (Entry C)) × (take n (x ∷ l) ≡ x ∷ es)
  take-top zero x l h = absurd (omega arith)
  take-top (suc n) x l h = (take n l, refl)

  pub pushed-top :
      (h : GridEditHistory C) (x : Entry C)
      → 1 ≤ h.capacity
      → (es : List (Entry C)) × (pushed x h ≡ x ∷ es)
  unfolding pushed
  pushed-top h x p = take-top h.capacity x h.undo p

  pub undo_top :
      (x : Entry C) (es : List (Entry C)) (g : GridEditHistory C) (u : Table C)
      → apply_column_op eval_pipeline x.1 g.table ≡ ok u
      → undo_edit eval_pipeline (record g { undo = x ∷ es })
        ≡ ok (record g { table = u; undo = es; redo = x ∷ g.redo })
  unfolding undo_edit undo_entry
  undo_top (op, inv) es g u b = rw b refl

  -- In a history that keeps the invariant, an undo is accepted where there is an edit to undo, and a
  -- redo after it is accepted and gives back the columns and both stacks.
  pub undo_edit-redo_edit :
      (h : GridEditHistory C) (e : Entry C) (es : List (Entry C))
      → IsHistory h
      → h.undo ≡ e ∷ es
      → (h1 : GridEditHistory C) × (h2 : GridEditHistory C) × (undo_edit eval_pipeline h ≡ ok h1)
        × (redo_edit eval_pipeline h1 ≡ ok h2)
        × (h2.table.columns ≡ h.table.columns)
        × (h2.undo ≡ h.undo)
        × (h2.redo ≡ h.redo)
  unfolding redo_edit pushed
  undo_edit-redo_edit h (op, inv) es w p =
      let (t, a, u, v, d) = undo-accepted h (op, inv) es w p in
      let (t', b, c, d') = applies op t d u.op_inverts u.forth in
      (
        record h { table = t; undo = es; redo = (op, inv) ∷ h.redo },
        record h { table = t'; undo = take h.capacity ((op, inv) ∷ es); redo = h.redo },
        a,
        rw b refl,
        c,
        take_all h.capacity ((op, inv) ∷ es) (subst (λ x. length x ≤ h.capacity) p w.bounded)
            ∙ sym p,
        refl,
      )
