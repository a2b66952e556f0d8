-- ===== src/Placement/Stated.antt =====
-- The op that `place_op` of src/ops/placement.rs states, run by `apply_one`.
use fuaran_rs.Prelude.{
  ◌≡◌, refl, sym, ap, ◌∙◌, subst, String, false, Bool-cases, inl, inr, Option, none, some, List,
  map, any,
}
use fuaran_rs.Prelude.Outcome.{ok, >>=-eq-ok, ok-injective}
use fuaran_rs.Prelude.Counts.{contains}
use fuaran_rs.Tree.{Wire, Node, Nodes, to_list, id_of, kind_of}
use fuaran_rs.Tree.Walk.{layout_children, ids}
use fuaran_rs.Tree.Focus.Find.{found_node-inv}
use fuaran_rs.Tree.Focus.{find_node, find_node_mut}
use fuaran_rs.Ops.{TreeOp, batch, insert_child, reorder_children, done, then_op}
use fuaran_rs.Ops.Structural.{same_texts}
use fuaran_rs.Ops.Apply.{Tables}
use fuaran_rs.Merge.Steps.{same_texts-eq}
use fuaran_rs.Placement.{
  Target, others, reposition, membership_with, place_in, with_order, place_op, container_children,
  first_shared_id, refuse_shared, require,
}
use fuaran_rs.Ops.Unique.{IsUnique}
use fuaran_rs.Placement.Order.{require-ok, IsOrder, place_in-Ordered}
use fuaran_rs.Placement.Slot.{others-last, find-none, Slot, layout_children-inv}
use fuaran_rs.Placement.Insert.{
  Installs, siblings, child_absent, membership-appended, bare-Installs, both-Installs,
}

module _ {W : Wire} (T : Tables W) (root child : Node W) (target : Target) where
  pub shared_none :
      (u : Unit {0})
      → refuse_shared (first_shared_id root child) ≡ ok u
      → any (λ i. contains i (ids root)) (ids child) ≡ false
  shared_none u h = go (first_shared_id root child) refl h
    where
      go :
          (o : Option String)
          → first_shared_id root child ≡ o
          → refuse_shared o ≡ ok u
          → any (λ i. contains i (ids root)) (ids child) ≡ false
      go none e k = find-none (λ i. contains i (ids root)) (ids child) e
      go (some d) e k = cc

  slot_of :
      (sibs : List String)
      → container_children root target.parent_id ≡ ok sibs
      → (ns : Nodes W) × Slot root target.parent_id ns × (sibs ≡ map id_of (to_list ns))
  unfolding container_children
  slot_of sibs h =
      let (p, e, h1) = >>=-eq-ok (require (find_node root target.parent_id) _) _ h in
      let (ns, f, h2) = >>=-eq-ok (require (layout_children (kind_of p)) _) _ h1 in
      let (put, g) = found_node-inv (find_node_mut root target.parent_id) (require-ok _ _ e) in
      let (lk, s, is) = layout_children-inv (kind_of p) ns (require-ok _ _ f) in
      (
        ns,
        record { parent = p; put = put; layout_kind = lk; spec = s; found = g; is_layout = is },
        sym (ok-injective h2),
      )

  with_order-Installs :
      (op op' : TreeOp W) (appended wanted : List String)
      → (wanted ≡ appended → Installs T root child target op)
      → Installs T root child target
          (batch (then_op op (then_op (reorder_children wanted target.parent_id) done)))
      → with_order op target.parent_id appended wanted ≡ op'
      → Installs T root child target op'
  with_order-Installs op op' appended wanted bare both h =
      elim (Bool-cases (same_texts wanted appended)) [
        | inl e ↦
            subst (Installs T root child target) (sym (rw e refl) ∙ h)
              (bare (same_texts-eq wanted appended e))
        | inr e ↦ subst (Installs T root child target) (sym (rw e refl) ∙ h) both
      ]

  granted-Installs :
      (op : TreeOp W) (ns : Nodes W) (wanted : List String)
      → IsOrder T.ordinal_le
      → (q : Slot root target.parent_id ns) → any (λ i. contains i (ids root)) (ids child) ≡ false
      → IsUnique root
      → reposition
          (membership_with (map id_of (to_list ns)) (id_of child))
          (id_of child)
          target.placement
        ≡ ok wanted
      → with_order
          (insert_child child target.parent_id)
          target.parent_id
          (membership_with (map id_of (to_list ns)) (id_of child))
          wanted
        ≡ op
      → Installs T root child target op
  unfolding reposition
  granted-Installs op ns wanted le q fresh unique r h =
      let now = membership-appended T root child target q fresh unique in
      let rest =
        ap (others (id_of child)) now
        ∙ others-last (id_of child) (siblings T root child target q fresh unique)
            (child_absent T root child target q fresh unique) in
      let o =
        place_in-Ordered (id_of child) (siblings T root child target q fresh unique) wanted
          target.placement (ap (λ l. place_in (id_of child) l target.placement) (sym rest) ∙ r) in
      with_order-Installs (insert_child child target.parent_id) op _ wanted
        (λ w. bare-Installs T root child target q fresh unique wanted o (w ∙ now))
        (both-Installs T root child target q fresh unique le wanted o) h

  -- The op of a placement that is granted, run by `apply_one` on a tree with unique ids.
  pub place_op-Installs :
      (op : TreeOp W)
      → IsOrder T.ordinal_le
      → IsUnique root
      → place_op root child target ≡ ok op
      → Installs T root child target op
  unfolding place_op
  place_op-Installs op le unique h =
      let (sibs, c, h1) = >>=-eq-ok (container_children root target.parent_id) _ h in
      let (u, s, h2) = >>=-eq-ok (refuse_shared (first_shared_id root child)) _ h1 in
      let (wanted, r, h3) =
        >>=-eq-ok (reposition (membership_with sibs (id_of child)) (id_of child) target.placement) _
          h2 in
      let (ns, q, w) = slot_of sibs c in
      let named = ap (λ l. membership_with l (id_of child)) (sym w) in
      granted-Installs op ns wanted le q (shared_none u s) unique
        (ap (λ l. reposition l (id_of child) target.placement) named ∙ r)
        (ap (λ l. with_order (insert_child child target.parent_id) target.parent_id l wanted) named
          ∙ ok-injective h3)
