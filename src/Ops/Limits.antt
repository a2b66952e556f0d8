-- ===== src/Ops/Limits.antt =====
-- The apply-time limits of src/ops/mod.rs: an op that may grow the tree is checked, and the others
-- cannot take a tree past a limit.
use fuaran_rs.Prelude.{
  ℕ, ◌+◌, ◌≤◌, ◌≡◌, refl, Bool, true, false, not, List, [], ◌∷◌, ◌++◌, arith, if◌then◌else◌, subst,
  inl, inr, Bool-cases, ltb,
}
use fuaran_rs.Tree.{Wire, Node, node, Kind, OptNode, absent, present, opt_list}
use fuaran_rs.Tree.Walk.{kind_child_nodes, size, size_kind, depth, depth_kind}
use fuaran_rs.Ops.{
  ok, refuse, >>=-eq-ok, require-eq-ok, refuse-eq-ok, ok-injective, StateBehaviour, Telemetry,
  TreeOp, batch, edit_node, insert_child, move_node, patch_style, remove_node, reorder_children,
  replace_binding, replace_root, update_accessibility, update_prop, update_state, update_style,
  update_tooltip, Ops, done, then_op,
}
use fuaran_rs.Ops.Apply.{
  Tables, KeepsChildren, with_state, apply_simple, abort_batch, apply_one, apply_batch,
  inserted_nodes, is_empty, op_can_grow, any_can_grow, check_tree_limits, apply, max_node_depth,
  max_nodes,
}
use fuaran_rs.Ops.Edits.{prop-Rewritten, binding-Rewritten}
use fuaran_rs.Ops.Shrink.{
  Shrinks, Shrinks-refl, Shrinks-trans, remove-Shrinks, reorder-Shrinks, edit-Shrinks,
  traits-Shrinks, set_kind-Shrinks, size_kind-children, depth_kind-children, Rewritten-Shrinks,
}
use fuaran_rs.Ops.Unique.{
  IsUnique, reorders, any_reorders, abort_batch-ok, state-injective, or-false, apply-Applied,
  IsCovered, one-simple,
}

-- What every host can decode.
pub record WithinLimits {W : Wire} (t : Node W) : Type 0 where
  pub levels : depth t ≤ max_node_depth
  pub nodes : size t ≤ max_nodes

module _ {W : Wire} where
  check_tree_limits-WithinLimits : (t : Node W) → check_tree_limits t ≡ ok tt → WithinLimits t
  unfolding check_tree_limits
  check_tree_limits-WithinLimits t h =
      let (u, d, h1) = >>=-eq-ok (refuse (ltb max_node_depth (depth t)) _) _ h in
      let d' = refuse-eq-ok (ltb max_node_depth (depth t)) _ d in
      let s' = refuse-eq-ok (ltb max_nodes (size t)) _ h1 in
      record { levels = ground arith; nodes = ground arith }

  is_empty-nil : (ns : List (Node W)) → not (is_empty ns) ≡ false → ns ≡ []
  is_empty-nil [] h = refl
  is_empty-nil (n ∷ ns) h = cc

  leaf_kind-smallest :
      (k : Kind W)
      → not (is_empty (kind_child_nodes k)) ≡ false
      → (size_kind k ≤ 0) × (depth_kind k ≤ 0)
  leaf_kind-smallest k h =
      let e = is_empty-nil (kind_child_nodes k) h in
      (rw (size_kind-children k, e) (omega arith), rw (depth_kind-children k, e) (omega arith))

  state-Shrinks :
      (s : StateBehaviour W) (n : Node W)
      → not (is_empty (opt_list s.on_loading ++ opt_list s.on_empty)) ≡ false
      → Shrinks n (with_state s n)
  unfolding size depth
  state-Shrinks s (node i k e r l f t) h = go s.on_loading s.on_empty h
    where
      go :
          (l' e' : OptNode W)
          → not (is_empty (opt_list l' ++ opt_list e')) ≡ false
          → Shrinks (node i k e r l f t) (node i k e' s.on_error l' f t)
      go absent absent h = record { no_larger = omega arith; no_deeper = omega arith }
      go absent (present n) h = cc
      go (present n) e' h = cc

module _ {W : Wire} (T : Tables W) (keeps : KeepsChildren T) where
  simple-Shrinks :
      (op : TreeOp W) (t t' : Node W)
      → op_can_grow op ≡ false
      → reorders op ≡ false
      → apply_simple T op t ≡ ok t'
      → Shrinks t t'
  unfolding apply_simple inserted_nodes op_can_grow reorders
  simple-Shrinks (batch ops) t t' g r h = subst (λ m. Shrinks t m) (ok-injective h) (Shrinks-refl t)
  simple-Shrinks (edit_node k target) t t' g r h =
      let (s, d) = leaf_kind-smallest k g in
      set_kind-Shrinks t target k (λ n e. (omega arith, omega arith)) (require-eq-ok _ _ h)
  simple-Shrinks (insert_child child parent_id) t t' g r h = cc
  simple-Shrinks (move_node new_parent_id target) t t' g r h = cc
  simple-Shrinks (patch_style d target) t t' g r h = edit-Shrinks _ target t t' (traits-Shrinks _) h
  simple-Shrinks (remove_node target) t t' g r h = remove-Shrinks target t t' h
  simple-Shrinks (reorder_children new_order parent_id) t t' g r h = cc
  simple-Shrinks (replace_binding b slot target) t t' g r h =
      Rewritten-Shrinks (binding-Rewritten T keeps b slot target t t' h)
  simple-Shrinks (replace_root n) t t' g r h = cc
  simple-Shrinks (update_accessibility a target) t t' g r h =
      edit-Shrinks _ target t t' (traits-Shrinks _) h
  simple-Shrinks (update_prop path target value) t t' g r h =
      Rewritten-Shrinks (prop-Rewritten T keeps path target value t t' h)
  simple-Shrinks (update_state s target) t t' g r h =
      edit-Shrinks _ target t t' (λ n. state-Shrinks s n g) h
  simple-Shrinks (update_style s target) t t' g r h =
      edit-Shrinks _ target t t' (traits-Shrinks _) h
  simple-Shrinks (update_tooltip target x) t t' g r h =
      edit-Shrinks _ target t t' (traits-Shrinks _) h

  abbrev ShrinksState : Node W × List Telemetry → Node W × List Telemetry → Type 0
  ShrinksState s s' = Shrinks s.0 s'.0

  mutual
    unfolding apply_one op_can_grow reorders

    one-Shrinks :
        (op : TreeOp W) (s s' : Node W × List Telemetry)
        → op_can_grow op ≡ false
        → reorders op ≡ false
        → apply_one T op s ≡ ok s'
        → Shrinks s.0 s'.0
    one-Shrinks (batch ops) s s' g r h = batch-Shrinks ops 0 s s' g r h
    one-Shrinks op s s' g r h = simple-Shrinks op s.0 s'.0 g r (one-simple T op s s' h)

    batch-Shrinks :
        (ops : Ops W) (i : ℕ) (s s' : Node W × List Telemetry)
        → any_can_grow ops ≡ false
        → any_reorders ops ≡ false
        → apply_batch T ops i s ≡ ok s'
        → Shrinks s.0 s'.0
    batch-Shrinks done i s s' g r h =
        subst (λ p. ShrinksState s p) (state-injective h) (Shrinks-refl s.0)
    batch-Shrinks (then_op op ops) i s s' g r h =
        let (s1, e, h1) = >>=-eq-ok (abort_batch i (apply_one T op s)) _ h in
        let (r1, r2) = or-false (reorders op) (any_reorders ops) r in
        let (g1, g2) = or-false (op_can_grow op) (any_can_grow ops) g in
        Shrinks-trans (one-Shrinks op s s1 g1 r1 (abort_batch-ok i _ e))
          (batch-Shrinks ops (i + 1) s1 s' g2 r2 h1)

  Shrinks-WithinLimits : {t t' : Node W} → Shrinks t t' → WithinLimits t → WithinLimits t'
  Shrinks-WithinLimits s w = omega arith

  -- From a tree with unique ids within the limits, a successful `apply` gives a tree within the limits,
  -- also where it makes no check.
  pub apply-WithinLimits :
      (t : Node W) (op : TreeOp W) (t' : Node W) (telem : List Telemetry)
      → IsUnique t
      → WithinLimits t
      → IsCovered op
      → apply T t op ≡ ok (t', telem)
      → WithinLimits t'
  unfolding apply_one apply_simple reorders
  apply-WithinLimits t (reorder_children new_order parent_id) t' telem unique w c h =
      let a = apply-Applied T t _ t' telem h in
      let e = one-simple T (reorder_children new_order parent_id) (t, []) (t', telem) a.one in
      Shrinks-WithinLimits (reorder-Shrinks T.ordinal_le new_order parent_id t t' unique e) w
  apply-WithinLimits t op t' telem unique w c h =
      let a = apply-Applied T t op t' telem h in
      elim (Bool-cases (op_can_grow op)) [
        | inl grows ↦ check_tree_limits-WithinLimits t' (checked grows a.limits)
        | inr quiet ↦ Shrinks-WithinLimits (one-Shrinks op (t, []) (t', telem) quiet c a.one) w
      ]
    where
      checked :
          {b : Bool}
          → b ≡ true
          → (if b then check_tree_limits t' else ok tt) ≡ ok tt
          → check_tree_limits t' ≡ ok tt
      checked e l = rw e at l
