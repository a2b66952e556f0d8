-- ===== src/Grid/History/Gestures.antt =====
-- Histories reached by gestures (src/core/grid_edit.rs, `GridEditHistory`): edits, undos and redos, in
-- any order. A refused gesture leaves the history that it was tried on.
use fuaran_rs.Prelude.{
  ℕ, suc, ◌≤◌, ◌≡◌, refl, sym, ap, ◌∙◌, subst, true, inl, inr, Option, List, [], ◌∷◌, length, arith,
}
use fuaran_rs.Prelude.Outcome.{ok, err, >>=-eq-ok, ok-injective, Result-cases}
use fuaran_rs.Grid.{Compute, Table, ColumnOp, EditRefusal}
use fuaran_rs.Grid.Edit.{Edited, is_invertible, apply_column_op, invert_column_op}
use fuaran_rs.Grid.Edit.Schema.{IsTable}
use fuaran_rs.Grid.Edit.Keeps.{OpFits, apply_column_op-IsTable}
use fuaran_rs.Grid.Edit.Inverse.{invert_column_op-Undone, invert-is_invertible}
use fuaran_rs.Grid.History.{
  Entry, GridEditHistory, new_history, pushed, undo_after, edit, undo_entry, redo_entry, undo_edit,
  redo_edit,
}
use fuaran_rs.Grid.History.Columns.{on_columns}
use fuaran_rs.Grid.History.Reached.{
  Turns, IsHistory, seen, new_history-IsHistory, undo-accepted, redo-accepted, pushed-Undoes,
  pushed-bounded, pushed-top, undo_top,
}

pub data Gesture (C : Compute) : Type 0 where
  make : ColumnOp C → Gesture C
  take_back take_forth : Gesture C

-- The gesture makes no pipeline, and the columns that it brings hold cells that fit them.
abbrev pub GestureFits : {C : Compute} → Gesture C → Type 0
GestureFits (make op) = OpFits op
GestureFits _ = Unit {0}

module _ {C : Compute} (eval_pipeline : List C.Step → Table C → Option (Table C)) where
  abbrev pub run : Gesture C → GridEditHistory C → Edited (GridEditHistory C)
  run (make op) h = edit eval_pipeline op h
  run take_back h = undo_edit eval_pipeline h
  run take_forth h = redo_edit eval_pipeline h

  pub data Reaches (start : GridEditHistory C) : GridEditHistory C → Type 0 where
    here : Reaches start start
    next :
        {h h' : GridEditHistory C}
        → Reaches start h
        → (g : Gesture C) → GestureFits g
        → run g h ≡ ok h'
        → Reaches start h'

  edit-steps :
      (op : ColumnOp C) (h h' : GridEditHistory C)
      → edit eval_pipeline op h ≡ ok h'
      → (t : Table C) × (apply_column_op eval_pipeline op h.table ≡ ok t)
        × (h' ≡ record h {
          table = t;
          undo = undo_after op (invert_column_op eval_pipeline op h.table) h;
          redo = [];
        })
  unfolding edit
  edit-steps op h h' e =
      let (t, a, b) = >>=-eq-ok (apply_column_op eval_pipeline op h.table) _ e in
      (t, a, sym (ok-injective b))

  -- An edit that has an inverse can be turned back.
  edit-Turns :
      (op inv : ColumnOp C) (t t' : Table C)
      → IsTable t
      → IsTable t'
      → apply_column_op eval_pipeline op t ≡ ok t'
      → invert_column_op eval_pipeline op t ≡ ok inv
      → Turns eval_pipeline (op, inv) t.columns t'.columns
  edit-Turns op inv t t' w w' a v =
      let (i, j) = invert-is_invertible eval_pipeline op inv t v in
      let (inv', t'', v', b, c, d) = invert_column_op-Undone eval_pipeline op t t' w i a in
      let same : inv' ≡ inv = ok-injective (sym v' ∙ v) in
      record {
        op_inverts = i;
        inverse_inverts = j;
        shape = w.shape;
        shape' = w'.shape;
        back =
            subst (λ x. on_columns eval_pipeline x t'.columns ≡ ok t.columns) same
              (seen eval_pipeline inv' t' t'' w'.described
                  (subst (λ x. is_invertible x ≡ true) (sym same) j) b
                ∙ ap ok c);
        forth = seen eval_pipeline op t t' w.described i a;
      }

  edit_kept-IsHistory :
      (op inv : ColumnOp C) (h h' : GridEditHistory C)
      → IsHistory eval_pipeline h
      → IsTable h'.table
      → invert_column_op eval_pipeline op h.table ≡ ok inv
      → edit eval_pipeline op h ≡ ok h'
      → IsHistory eval_pipeline h'
  edit_kept-IsHistory op inv h h' w w' v e =
      let (t, a, q) = edit-steps op h h' e in
      let q' : h' ≡ record h { table = t; undo = pushed (op, inv) h; redo = [] } =
        q ∙ ap (λ r. record h { table = t; undo = undo_after op r h; redo = [] }) v in
      let wt : IsTable t = subst (λ (x : GridEditHistory C). IsTable x.table) q' w' in
      subst (IsHistory eval_pipeline) (sym q') (record {
        shape = wt;
        past =
            pushed-Undoes eval_pipeline h (op, inv) t w
              (edit-Turns op inv h.table t w.shape wt a v);
        future = tt;
        bounded = pushed-bounded eval_pipeline h (op, inv);
        positive = w.positive;
      })

  edit_final-IsHistory :
      (op : ColumnOp C) (r : EditRefusal) (h h' : GridEditHistory C)
      → IsHistory eval_pipeline h
      → IsTable h'.table
      → invert_column_op eval_pipeline op h.table ≡ err r
      → edit eval_pipeline op h ≡ ok h'
      → IsHistory eval_pipeline h'
  edit_final-IsHistory op r h h' w w' v e =
      let (t, a, q) = edit-steps op h h' e in
      let q' : h' ≡ record h { table = t; undo = []; redo = [] } =
        q ∙ ap (λ r. record h { table = t; undo = undo_after op r h; redo = [] }) v in
      subst (IsHistory eval_pipeline) (sym q') (record {
        shape = subst (λ (x : GridEditHistory C). IsTable x.table) q' w';
        past = tt;
        future = tt;
        bounded = omega arith;
        positive = w.positive;
      })

  undo-IsHistory :
      (h h' : GridEditHistory C) (es : List (Entry C))
      → IsHistory eval_pipeline h
      → h.undo ≡ es
      → undo_edit eval_pipeline h ≡ ok h'
      → IsHistory eval_pipeline h'
  unfolding undo_edit undo_entry
  undo-IsHistory h h' [] w p e = let k = sym (ap (λ l. undo_entry eval_pipeline l h) p) ∙ e in cc
  undo-IsHistory h h' (x ∷ es) w p e =
      let (t, a, u, v, d) = undo-accepted eval_pipeline h x es w p in
      subst (IsHistory eval_pipeline) (ok-injective (sym a ∙ e)) (record {
        shape = record { shape = u.shape; described = d };
        past = v;
        future = (h.table.columns, u, w.future);
        bounded =
            let b : suc (length es) ≤ h.capacity = subst (λ l. length l ≤ h.capacity) p w.bounded in
            omega arith;
        positive = w.positive;
      })

  redo-IsHistory :
      (h h' : GridEditHistory C) (es : List (Entry C))
      → IsHistory eval_pipeline h
      → h.redo ≡ es
      → redo_edit eval_pipeline h ≡ ok h'
      → IsHistory eval_pipeline h'
  unfolding redo_edit redo_entry
  redo-IsHistory h h' [] w p e = let k = sym (ap (λ l. redo_entry eval_pipeline l h) p) ∙ e in cc
  redo-IsHistory h h' (x ∷ es) w p e =
      let (t, a, u, v, d) = redo-accepted eval_pipeline h x es w p in
      subst (IsHistory eval_pipeline) (ok-injective (sym a ∙ e)) (record {
        shape = record { shape = u.shape'; described = d };
        past = pushed-Undoes eval_pipeline h x t w u;
        future = v;
        bounded = pushed-bounded eval_pipeline h x;
        positive = w.positive;
      })

  -- In a history that keeps the invariant, an edit with an inverse can be undone at once: the undo is accepted and gives back the columns of
  -- the table as they were, and the edit is then the first to redo.
  pub edit-undo_edit :
      (op : ColumnOp C) (h h' : GridEditHistory C)
      → IsHistory eval_pipeline h
      → is_invertible op ≡ true
      → edit eval_pipeline op h ≡ ok h'
      → (h'' : GridEditHistory C) × (inv : ColumnOp C) × (undo_edit eval_pipeline h' ≡ ok h'')
        × (h''.table.columns ≡ h.table.columns)
        × (h''.redo ≡ (op, inv) ∷ [])
  edit-undo_edit op h h' w i e =
      let (t, a, q) = edit-steps op h h' e in
      let (inv, t'', v, b, c, d) = invert_column_op-Undone eval_pipeline op h.table t w.shape i a in
      let (k, j) = invert-is_invertible eval_pipeline op inv h.table v in
      let q' : h' ≡ record h { table = t; undo = pushed (op, inv) h; redo = [] } =
        q ∙ ap (λ r. record h { table = t; undo = undo_after op r h; redo = [] }) v in
      let (es, f) = pushed-top eval_pipeline h (op, inv) w.positive in
      (
        record h { table = t''; undo = es; redo = (op, inv) ∷ [] },
        inv,
        ap (undo_edit eval_pipeline) (q' ∙ ap (λ u. record h { table = t; undo = u; redo = [] }) f)
            ∙ undo_top eval_pipeline (op, inv) es (record h { table = t; redo = [] }) t'' b,
        c,
        refl,
      )

module _ {C : Compute} (eval_pipeline : List C.Step → Table C → Option (Table C)) where
  edit-IsHistory :
      (op : ColumnOp C) (h h' : GridEditHistory C)
      → IsHistory eval_pipeline h
      → OpFits op
      → edit eval_pipeline op h ≡ ok h'
      → IsHistory eval_pipeline h'
  edit-IsHistory op h h' w o e =
      let (t, a, q) = edit-steps eval_pipeline op h h' e in
      let wt : IsTable h'.table =
        subst (λ (x : GridEditHistory C). IsTable x.table) (sym q)
          (apply_column_op-IsTable eval_pipeline op h.table t w.shape o a) in
      elim (Result-cases (invert_column_op eval_pipeline op h.table)) [
        | inl (inv, v) ↦ edit_kept-IsHistory eval_pipeline op inv h h' w wt v e
        | inr (r, v) ↦ edit_final-IsHistory eval_pipeline op r h h' w wt v e
      ]

  -- In every history that gestures reach from a table in shape, its schema naming the columns and their
  -- types in their order, by edits that are no pipelines and bring columns whose cells fit, and by undos
  -- and redos: the table is in shape and its schema names its columns, no more edits than the capacity
  -- can be undone, and the stacks fit the table, each undo from the top leading back and each redo forth,
  -- with the other gesture undoing it.
  pub Reaches-IsHistory :
      (t : Table C) (capacity : ℕ) (h : GridEditHistory C)
      → IsTable t
      → Reaches eval_pipeline (new_history t capacity) h
      → IsHistory eval_pipeline h
  Reaches-IsHistory t capacity h w here = new_history-IsHistory eval_pipeline t capacity w
  Reaches-IsHistory t capacity h w (next r (make op) o e) =
      edit-IsHistory op _ h (Reaches-IsHistory t capacity _ w r) o e
  Reaches-IsHistory t capacity h w (next r take_back o e) =
      undo-IsHistory eval_pipeline _ h _ (Reaches-IsHistory t capacity _ w r) refl e
  Reaches-IsHistory t capacity h w (next r take_forth o e) =
      redo-IsHistory eval_pipeline _ h _ (Reaches-IsHistory t capacity _ w r) refl e
