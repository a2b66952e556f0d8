-- ===== src/Placement/Granted.antt =====
-- What `apply` answers to the op of a granted placement (src/ops/placement.rs, `place_op`, with `apply`
-- of src/ops/mod.rs and its limits).
use fuaran_rs.Prelude.{
  ◌≡◌, refl, sym, ap, ◌∙◌, subst, String, true, false, Bool-cases, inl, inr, List, [], ◌∷◌, any,
  ltb, leb, arith,
}
use fuaran_rs.Prelude.Counts.{count, contains, count_disjoint}
use fuaran_rs.Tree.{Wire, Node, id_of}
use fuaran_rs.Tree.Walk.{ids, depth, size}
use fuaran_rs.Ops.{
  ok, fail, limit_exceeded, >>=-eq-ok, ok-injective, TreeOp, batch, insert_child, reorder_children,
  Telemetry, done, then_op,
}
use fuaran_rs.Ops.Structural.{apply_insert, apply_reorder, same_texts}
use fuaran_rs.Ops.Ids.{occurs-insert}
use fuaran_rs.Ops.Reorder.{occurs-reorder}
use fuaran_rs.Ops.Unique.{IsUnique, abort_batch-ok, state-injective}
use fuaran_rs.Ops.Limits.{WithinLimits}
use fuaran_rs.Ops.Apply.{
  Tables, abort_batch, apply_simple, apply_one, apply_batch, inserted_nodes, op_can_grow,
  check_tree_limits, repeats, check_installed_ids, apply, max_node_depth, max_nodes,
}
use fuaran_rs.Placement.{
  Target, place_op, container_children, reposition, membership_with, first_shared_id, refuse_shared,
  with_order,
}
use fuaran_rs.Placement.Order.{IsOrder}
use fuaran_rs.Placement.Insert.{Installs}
use fuaran_rs.Placement.Stated.{shared_none, place_op-Installs}

-- The op goes through, or it is refused for the limits, which its tree is then past.
pub data Answer {W : Wire} (T : Tables W) (root : Node W) (op : TreeOp W) (tree : Node W)
    (telemetry : List Telemetry) : Type 0 where
  carried_out :
      WithinLimits tree → apply T root op ≡ ok (tree, telemetry) → Answer T root op tree telemetry
  too_large :
      (WithinLimits tree → ⊥)
      → apply T root op ≡ fail limit_exceeded
      → Answer T root op tree telemetry

pub record Granted {W : Wire} (T : Tables W) (root child : Node W) (target : Target) (op : TreeOp W)
    : Type 0 where
  pub installs : Installs T root child target op
  pub unique : IsUnique installs.tree
  pub answer : Answer T root op installs.tree installs.telemetry

none_repeated :
    {W : Wire} (t : Node W) (xs : List String)
    → IsUnique t
    → any (λ id. ltb 1 (count id (ids t))) xs ≡ false
none_repeated t [] u = refl
none_repeated t (x ∷ xs) u =
    let h : ltb 1 (count x (ids t)) ≡ false = ground (arith, u x) in rw h (none_repeated t xs u)

module _ {W : Wire} (T : Tables W) (root child : Node W) where
  answered :
      (op : TreeOp W) (tree : Node W) (telemetry : List Telemetry)
      → inserted_nodes op ≡ child ∷ []
      → op_can_grow op ≡ true
      → apply_one T op (root, []) ≡ ok (tree, telemetry)
      → IsUnique tree
      → Answer T root op tree telemetry
  unfolding apply check_tree_limits check_installed_ids repeats
  answered op tree telemetry n g a u = elim (Bool-cases (ltb max_node_depth (depth tree))) [
    | inl d ↦ too_large (λ w. let l = w.levels in ground arith) (rw (a, g, d) refl)
    | inr d ↦ elim (Bool-cases (ltb max_nodes (size tree))) [
      | inl s ↦ too_large (λ w. let l = w.nodes in ground arith) (rw (a, g, d, s) refl)
      | inr s ↦
          carried_out (record { levels = ground arith; nodes = ground arith })
            (rw (a, g, d, s, n) (rw (none_repeated tree (ids child) u) refl))
    ]
  ]

  module _ (fresh : any (λ i. contains i (ids root)) (ids child) ≡ false) (u : IsUnique root)
      (u' : IsUnique child) where
    inserted-IsUnique :
        (parent_id : String) (t : Node W) → apply_insert child parent_id root ≡ ok t → IsUnique t
    inserted-IsUnique parent_id t h x =
        let e = occurs-insert x child parent_id root t h in
        elim (Bool-cases (leb 1 (count x (ids child)))) [
          | inl c ↦
              let z = count_disjoint x (ids child) (ids root) fresh (ground arith) in
              omega (arith, e, z, u' x)
          | inr c ↦ ground (arith, e, u x)
        ]

    bare-IsUnique :
        (parent_id : String) (tree : Node W) (telemetry : List Telemetry)
        → apply_one T (insert_child child parent_id) (root, []) ≡ ok (tree, telemetry)
        → IsUnique tree
    unfolding apply_one apply_simple
    bare-IsUnique parent_id tree telemetry h =
        let (t, e, h1) = >>=-eq-ok (apply_insert child parent_id root) _ h in
        let same = ap (λ (p : Node W × List Telemetry). p.0) (state-injective h1) in
        subst IsUnique same (inserted-IsUnique parent_id t e)

    both-IsUnique :
        (parent_id : String) (wanted : List String) (tree : Node W) (telemetry : List Telemetry)
        → apply_one T
            (batch (
              then_op
                (insert_child child parent_id)
                (then_op (reorder_children wanted parent_id) done)))
            (root, [])
          ≡ ok (tree, telemetry)
        → IsUnique tree
    unfolding apply_one apply_batch apply_simple
    both-IsUnique parent_id wanted tree telemetry h =
        let (s, e, h1) =
          >>=-eq-ok (abort_batch 0 (apply_one T (insert_child child parent_id) (root, []))) _ h in
        let (s', e', h2) =
          >>=-eq-ok (abort_batch 1 (apply_one T (reorder_children wanted parent_id) s)) _ h1 in
        let us = bare-IsUnique parent_id s.0 s.1 (abort_batch-ok 0 _ e) in
        let (t, f, h3) =
          >>=-eq-ok (apply_reorder T.ordinal_le wanted parent_id s.0) _ (abort_batch-ok 1 _ e') in
        let same =
          ap (λ (p : Node W × List Telemetry). p.0) (state-injective h3 ∙ state-injective h2) in
        subst IsUnique same
          (λ x. omega (arith, occurs-reorder x T.ordinal_le wanted parent_id s.0 t us f, us x))

    -- What a granted placement is: the insert alone, or the insert and a reorder.
    ordered-Granted :
        (target : Target) (op : TreeOp W) (appended wanted : List String)
        → with_order (insert_child child target.parent_id) target.parent_id appended wanted ≡ op
        → Installs T root child target op
        → Granted T root child target op
    unfolding inserted_nodes op_can_grow
    ordered-Granted target op appended wanted h q = elim (Bool-cases (same_texts wanted appended)) [
      | inl e ↦ bare (sym (rw e refl) ∙ h)
      | inr e ↦ both (sym (rw e refl) ∙ h)
    ]
      where
        bare : insert_child child target.parent_id ≡ op → Granted T root child target op
        bare w =
            let u'' =
              bare-IsUnique target.parent_id q.tree q.telemetry
                (ap (λ o. apply_one T o (root, [])) w ∙ q.applies) in
            record {
              installs = q;
              unique = u'';
              answer =
                  answered op q.tree q.telemetry (ap inserted_nodes (sym w))
                    (ap op_can_grow (sym w)) q.applies u'';
            }

        both :
            batch (
                then_op
                  (insert_child child target.parent_id)
                  (then_op (reorder_children wanted target.parent_id) done))
              ≡ op
            → Granted T root child target op
        both w =
            let u'' =
              both-IsUnique target.parent_id wanted q.tree q.telemetry
                (ap (λ o. apply_one T o (root, [])) w ∙ q.applies) in
            record {
              installs = q;
              unique = u'';
              answer =
                  answered op q.tree q.telemetry (ap inserted_nodes (sym w))
                    (ap op_can_grow (sym w)) q.applies u'';
            }

  -- Where the placement of a node with unique ids into a tree with unique ids is granted, and the ordinal
  -- order of texts is linear: `apply` carries the op out, unless the tree that it gives is past the
  -- limits, and only then refuses it. In that tree the ids are unique, and it is the tree before with
  -- the parent replaced, under which the children that it had stand whole and in their order, and the
  -- new node whole and once among them, where the placement says.
  pub place_op-Granted :
      (target : Target) (op : TreeOp W)
      → IsOrder T.ordinal_le
      → IsUnique root
      → IsUnique child
      → place_op root child target ≡ ok op
      → Granted T root child target op
  unfolding place_op
  place_op-Granted target op le u u' h =
      let q = place_op-Installs T root child target op le u h in
      let (sibs, c, h1) = >>=-eq-ok (container_children root target.parent_id) _ h in
      let (x, s, h2) = >>=-eq-ok (refuse_shared (first_shared_id root child)) _ h1 in
      let (wanted, r, h3) =
        >>=-eq-ok (reposition (membership_with sibs (id_of child)) (id_of child) target.placement) _
          h2 in
      ordered-Granted (shared_none T root child target x s) u u' target op _ wanted
        (ok-injective h3) q
