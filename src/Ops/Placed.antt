-- ===== src/Ops/Placed.antt =====
-- What a successful structural op has done: the children of one found node are replaced.
use fuaran_rs.Prelude.{
  String, ◌≡◌, refl, sym, ap, ◌∙◌, Bool, true, false, not, some, List, map, any, ◌==◌,
}
use fuaran_rs.Prelude.Counts.{contains}
use fuaran_rs.Tree.{
  Wire, Node, Kind, LayoutKind, leaf, mount, layout, error_boundary, switch, fragment_decl, Nodes,
  to_list, of_list, id_of, kind_of,
}
use fuaran_rs.Tree.Walk.{layout_children, ids}
use fuaran_rs.Tree.Focus.{find_node, find_node_mut, find_layout_parent}
use fuaran_rs.Ops.{ok, require, refuse, >>=-eq-ok, require-eq-ok, refuse-eq-ok, ok-injective}
use fuaran_rs.Ops.Structural.{
  with_kind, layout_children_mut, push, write_children, retain_ne, apply_insert, apply_remove,
  apply_move, apply_reorder, same_texts, sort, pick, is_ancestor,
}

-- In `t'` the children `ns` of the first node with the id have become `change ns`.
pub record Placed {W : Wire} (t t' : Node W) (parent_id : String) (change : Nodes W → Nodes W)
    : Type 0 where
  pub parent : Node W
  pub put : Node W → Node W
  pub layout_kind : LayoutKind
  pub spec : W.Spec
  pub children : Nodes W
  pub found : find_node_mut t parent_id ≡ some (parent, put)
  pub is_layout : kind_of parent ≡ layout layout_kind spec children
  pub result : t' ≡ put (with_kind parent (layout layout_kind spec (change children)))

not-eq-false : (b : Bool) → not b ≡ false → b ≡ true
not-eq-false true h = refl
not-eq-false false h = cc

module _ {W : Wire} where
  -- A kind that has children to write is a layout kind.
  layout_children_mut-inv :
      (k : Kind W) {ns : Nodes W} {refill : Nodes W → Kind W}
      → layout_children_mut k ≡ some (ns, refill)
      → (lk : LayoutKind) × (s : W.Spec) × (k ≡ layout lk s ns) × (refill ≡ layout lk s)
  layout_children_mut-inv (layout lk s ns) h = (lk, s, cc, cc)
  layout_children_mut-inv (leaf k s) h = cc
  layout_children_mut-inv (mount cs s) h = cc
  layout_children_mut-inv (error_boundary c f) h = cc
  layout_children_mut-inv (switch s cs d) h = cc
  layout_children_mut-inv (fragment_decl s b) h = cc

  write_children-Placed :
      (t t' : Node W) (parent_id : String) (change : Nodes W → Nodes W)
      → write_children parent_id change t ≡ ok t'
      → Placed t t' parent_id change
  unfolding write_children
  write_children-Placed t t' parent_id change h =
      let ((n, put), e, h1) = >>=-eq-ok (require (find_node_mut t parent_id) _) _ h in
      let ((ns, refill), f, h2) = >>=-eq-ok (require (layout_children_mut (kind_of n)) _) _ h1 in
      let (lk, s, is, w) = layout_children_mut-inv (kind_of n) (require-eq-ok _ _ f) in
      record {
        parent = n;
        put = put;
        layout_kind = lk;
        spec = s;
        children = ns;
        found = require-eq-ok _ _ e;
        is_layout = is;
        result = sym (ok-injective h2) ∙ ap (λ r. put (with_kind n (r (change ns)))) w;
      }

  -- An insert found its parent, and no id of the child was in the tree.
  pub insert-Placed :
      (child : Node W) (parent_id : String) (t t' : Node W)
      → apply_insert child parent_id t ≡ ok t'
      → Placed t t' parent_id (λ ns. push ns child)
        × (any (λ id. contains id (ids t)) (ids child) ≡ false)
  unfolding apply_insert
  insert-Placed child parent_id t t' h =
      let (p, e, h1) = >>=-eq-ok (require (find_node t parent_id) _) _ h in
      let (ns, f, h2) = >>=-eq-ok (require (layout_children (kind_of p)) _) _ h1 in
      let (u, g, h3) = >>=-eq-ok (refuse (any (λ id. contains id (ids t)) (ids child)) _) _ h2 in
      (write_children-Placed t t' parent_id _ h3, refuse-eq-ok _ _ g)

  pub remove-Placed :
      (target : String) (t t' : Node W)
      → apply_remove target t ≡ ok t'
      → ((id_of t == target) ≡ false)
        × (p : Node W) × (find_layout_parent t target ≡ some p)
        × Placed t t' (id_of p) (retain_ne target)
  unfolding apply_remove
  remove-Placed target t t' h =
      let (u, d, h0) = >>=-eq-ok (refuse (id_of t == target) _) _ h in
      let (p, e, h1) = >>=-eq-ok (require (find_layout_parent t target) _) _ h0 in
      (refuse-eq-ok _ _ d, p, require-eq-ok _ _ e, write_children-Placed t t' (id_of p) _ h1)

  pub move-steps :
      (new_parent_id target : String) (t t' : Node W)
      → apply_move new_parent_id target t ≡ ok t'
      → (moving : Node W) × (t1 : Node W) × (find_node t target ≡ some moving)
        × (is_ancestor target new_parent_id t ≡ false)
        × (apply_remove target t ≡ ok t1)
        × (apply_insert moving new_parent_id t1 ≡ ok t')
  unfolding apply_move
  move-steps new_parent_id target t t' h =
      let (u, d, h0) = >>=-eq-ok (refuse (target == new_parent_id) _) _ h in
      let (v, a, h1) = >>=-eq-ok (refuse (is_ancestor target new_parent_id t) _) _ h0 in
      let (moving, e, h2) = >>=-eq-ok (require (find_node t target) _) _ h1 in
      let (p, f, h3) = >>=-eq-ok (require (find_node t new_parent_id) _) _ h2 in
      let (ns, g, h4) = >>=-eq-ok (require (layout_children (kind_of p)) _) _ h3 in
      let (t1, r, h5) = >>=-eq-ok (apply_remove target t) _ h4 in
      (moving, t1, require-eq-ok _ _ e, refuse-eq-ok _ _ a, r, h5)

  pub reorder-Placed :
      (le : String → String → Bool) (new_order : List String) (parent_id : String) (t t' : Node W)
      → apply_reorder le new_order parent_id t ≡ ok t'
      → (p : Node W) × (ns : Nodes W) × (find_node t parent_id ≡ some p)
        × (layout_children (kind_of p) ≡ some ns)
        × (same_texts (sort le (map id_of (to_list ns))) (sort le new_order) ≡ true)
        × Placed t t' parent_id (λ _. of_list (pick (to_list ns) new_order))
  unfolding apply_reorder
  reorder-Placed le new_order parent_id t t' h =
      let (p, e, h1) = >>=-eq-ok (require (find_node t parent_id) _) _ h in
      let (ns, f, h2) = >>=-eq-ok (require (layout_children (kind_of p)) _) _ h1 in
      let same = same_texts (sort le (map id_of (to_list ns))) (sort le new_order) in
      let (u, g, h3) = >>=-eq-ok (refuse (not same) _) _ h2 in
      (
        p,
        ns,
        require-eq-ok _ _ e,
        require-eq-ok _ _ f,
        not-eq-false same (refuse-eq-ok _ _ g),
        write_children-Placed t t' parent_id _ h3,
      )
