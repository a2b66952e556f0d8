-- ===== src/Ops/Exact.antt =====
-- RemoveNode and MoveNode on a tree with unique ids, counted exactly.
use fuaran_rs.Prelude.{
  some-injective, ◌+◌, ◌≤◌, String, ◌≡◌, refl, sym, ap, ◌∙◌, some, ◌++◌, arith, find, ◌==◌,
  Bool-cases, inl, inr,
}
use fuaran_rs.Prelude.Counts.{count, count-append}
use fuaran_rs.Tree.{Wire, Node, node, Kind, layout, Nodes, nil, cons, id_of, kind_of, to_list}
use fuaran_rs.Tree.Walk.{ids, ids_kind, ids_opt, ids_nodes, layout_children}
use fuaran_rs.Tree.Focus.{find_node, found_node}
use fuaran_rs.Tree.Focus.Find.{focus-Fits}
use fuaran_rs.Tree.Focus.Hits.{child_in, own_id}
use fuaran_rs.Tree.Focus.Agree.{layout_parent-child, layout_parent-find}
use fuaran_rs.Ops.{ok}
use fuaran_rs.Ops.Structural.{retain_ne, apply_remove, apply_move}
use fuaran_rs.Ops.Placed.{remove-Placed, move-steps}
use fuaran_rs.Ops.Ids.{occurs, occurs-Placed, occurs-found, occurs-insert}

module _ {W : Wire} where
  retain-none :
      (target : String) (ns : Nodes W) → count target (ids_nodes ns) ≤ 0 → retain_ne target ns ≡ ns
  unfolding retain_ne ids
  retain-none target nil h = refl
  retain-none target (cons n ns) h =
      let split = count-append target (ids n) (ids_nodes ns) in
      elim (Bool-cases (id_of n == target)) [
        | inl e ↦ absurd (omega (arith, split, (own_id target n e).1))
        | inr e ↦ rw e (ap (λ ms. cons n ms) (retain-none target ns (omega (arith, split))))
      ]

  retain-one :
      (x target : String) (ns : Nodes W) (m : Node W)
      → count target (ids_nodes ns) ≤ 1
      → find (λ c. id_of c == target) (to_list ns) ≡ some m
      → count x (ids_nodes ns) ≡ count x (ids_nodes (retain_ne target ns)) + count x (ids m)
  unfolding retain_ne ids
  retain-one x target nil m u h = cc
  retain-one x target (cons n ns) m u h =
      let split = count-append target (ids n) (ids_nodes ns) in
      let split_x = count-append x (ids n) (ids_nodes ns) in
      elim (Bool-cases (id_of n == target)) [
        | inl e ↦
            let q : n ≡ m = some-injective (rw e at h) in
            let r = retain-none target ns (omega (arith, split, (own_id target n e).1)) in
            rw (e, r) (omega (arith, split_x, ap (λ w. count x (ids w)) q))
        | inr e ↦
            let ih = retain-one x target ns m (omega (arith, split)) (rw e at h) in
            rw e
              (omega (arith, split_x, ih, count-append x (ids n) (ids_nodes (retain_ne target ns))))
      ]

  kind-within : (x : String) (n : Node W) → count x (ids_kind (kind_of n)) ≤ count x (ids n)
  unfolding ids
  kind-within x (node i k e r l f t) =
      omega (arith, count-append x (ids_kind k) (ids_opt l ++ ids_opt e))

  -- From a tree with unique ids, removing a node removes exactly the ids of the node that a find by
  -- the id returns: every other id stands in the new tree as often as before.
  pub occurs-remove_found :
      (x target : String) (t t' m : Node W)
      → ((y : String) → occurs y t ≤ 1)
      → find_node t target ≡ some m
      → apply_remove target t ≡ ok t'
      → occurs x t' + occurs x m ≡ occurs x t
  unfolding ids
  occurs-remove_found x target t t' m unique found h =
      let (root, p, is_parent, placed) = remove-Placed target t t' h in
      let (c, c_found, c_child) = layout_parent-child target t p (unique target) is_parent in
      let same : c ≡ m = some-injective (sym c_found ∙ found) in
      let parent : placed.parent ≡ p = some-injective (
        sym (ap found_node placed.found)
        ∙ layout_parent-find target t p (unique (id_of p)) is_parent) in
      let kind : kind_of p ≡ layout placed.layout_kind placed.spec placed.children =
        sym (ap (λ (n : Node W). kind_of n) parent) ∙ placed.is_layout in
      let child : find (λ n. id_of n == target) (to_list placed.children) ≡ some m =
        ap (λ (k : Kind W). child_in target (layout_children k)) (sym kind)
        ∙ c_child
        ∙ ap some same in
      let fits = focus-Fits (λ n. id_of n == id_of p) t placed.found in
      let below : count target (ids_kind (kind_of placed.parent))
          ≡ count target (ids_nodes placed.children) =
        ap (λ (k : Kind W). count target (ids_kind k)) placed.is_layout in
      let few : count target (ids_nodes placed.children) ≤ 1 =
        omega (
          arith,
          below,
          kind-within target placed.parent,
          occurs-found target fits,
          unique target,
        ) in
      omega (arith, occurs-Placed x placed, retain-one x target placed.children m few child)

  -- In a tree with unique ids a move keeps every id as often as it was.
  pub occurs-move_unique :
      (x new_parent_id target : String) (t t' : Node W)
      → ((y : String) → occurs y t ≤ 1)
      → apply_move new_parent_id target t ≡ ok t'
      → occurs x t' ≡ occurs x t
  occurs-move_unique x new_parent_id target t t' unique h =
      let (moving, t1, found, below, removed, inserted) = move-steps new_parent_id target t t' h in
      omega (
        arith,
        occurs-insert x moving new_parent_id t1 t' inserted,
        occurs-remove_found x target t t1 moving unique found removed,
      )
