-- ===== src/Ops/Structural.antt =====
-- The ops that change which nodes the tree holds (src/ops/mod.rs, the arms of `apply_one`).
use fuaran_rs.Prelude.{
  String, Bool, true, false, not, Option, none, some, List, [], ◌∷◌, map, any, find, ◌==◌,
  if◌then◌else◌,
}
use fuaran_rs.Prelude.Counts.{contains}
use fuaran_rs.Tree.{
  Wire, Node, node, Kind, layout, Nodes, nil, cons, to_list, of_list, id_of, kind_of,
}
use fuaran_rs.Tree.Walk.{layout_children, child_nodes, ids}
use fuaran_rs.Tree.Focus.{find_node, find_node_mut, find_layout_parent}
use fuaran_rs.Ops.{
  AResult, ok, require, refuse, ◌>>=◌, ◌>>◌, node_not_found, parent_not_found, childless_kind,
  duplicate_node_id, kind_mismatch, ordering_mismatch,
}

module _ {W : Wire} where
  abbrev pub with_kind : Node W → Kind W → Node W
  with_kind (node i k e r l f t) k' = node i k' e r l f t

  -- `layout_children_mut`: the children, and the kind with other children in their place.
  abbrev pub layout_children_mut : Kind W → Option (Nodes W × (Nodes W → Kind W))
  layout_children_mut (layout k s ns) = some (ns, layout k s)
  layout_children_mut _ = none

  -- `Vec::push`
  unfoldable pub push : Nodes W → Node W → Nodes W
  push nil c = cons c nil
  push (cons n ns) c = cons n (push ns c)

  -- `children.retain(|c| c.id != target)`
  unfoldable pub retain_ne : String → Nodes W → Nodes W
  retain_ne target nil = nil
  retain_ne target (cons n ns) =
      let rest = retain_ne target ns in if id_of n == target then rest else cons n rest

  -- The kind set on the first node with the id (`set_kind`).
  unfoldable pub set_kind : Node W → String → Kind W → Option (Node W)
  set_kind root target k = elim (find_node_mut root target) [
    | none ↦ none
    | some (n, put) ↦ some (put (with_kind n k))
  ]

  -- The last steps of the structural ops: the node found again in the copy, and its children written.
  unfoldable pub write_children : String → (Nodes W → Nodes W) → Node W → AResult (Node W)
  write_children parent_id change root = do
    (n, put) ← require (find_node_mut root parent_id) parent_not_found
    (children, refill) ← require (layout_children_mut (kind_of n)) childless_kind
    ok (put (with_kind n (refill (change children))))

  -- `TreeOp::InsertChild`
  unfoldable pub apply_insert : Node W → String → Node W → AResult (Node W)
  apply_insert child parent_id root = do
    parent ← require (find_node root parent_id) parent_not_found
    _ ← require (layout_children (kind_of parent)) childless_kind
    refuse (any (λ id. contains id (ids root)) (ids child)) duplicate_node_id
    write_children parent_id (λ children. push children child) root

  -- `TreeOp::RemoveNode`
  unfoldable pub apply_remove : String → Node W → AResult (Node W)
  apply_remove target root = do
    refuse (id_of root == target) kind_mismatch
    parent ← require (find_layout_parent root target) node_not_found
    write_children (id_of parent) (retain_ne target) root

  -- `is_ancestor`
  unfoldable pub is_ancestor : String → String → Node W → Bool
  is_ancestor ancestor_id descendant_id root = elim (find_node root ancestor_id) [
    | none ↦ false
    | some a ↦ any (λ c. contains descendant_id (ids c)) (child_nodes a)
  ]

  -- `TreeOp::MoveNode`
  unfoldable pub apply_move : String → String → Node W → AResult (Node W)
  apply_move new_parent_id target root = do
    refuse (target == new_parent_id) kind_mismatch
    refuse (is_ancestor target new_parent_id root) kind_mismatch
    moving ← require (find_node root target) node_not_found
    new_parent ← require (find_node root new_parent_id) parent_not_found
    _ ← require (layout_children (kind_of new_parent)) childless_kind
    after_remove ← apply_remove target root
    apply_insert moving new_parent_id after_remove

  -- Each listed id is looked up among the children; the first with it is taken.
  abbrev pub cons_some : Option (Node W) → List (Node W) → List (Node W)
  cons_some none ns = ns
  cons_some (some n) ns = n ∷ ns

  unfoldable pub pick : List (Node W) → List String → List (Node W)
  pick children [] = []
  pick children (i ∷ is) = cons_some (find (λ c. id_of c == i) children) (pick children is)

-- `sort_by(ordinal_cmp)`, and the comparison of the two sorted lists.
module _ (ordinal_le : String → String → Bool) where
  unfoldable pub insert_sorted : String → List String → List String
  insert_sorted x [] = x ∷ []
  insert_sorted x (y ∷ ys) = if ordinal_le x y then x ∷ y ∷ ys else y ∷ insert_sorted x ys

  unfoldable pub sort : List String → List String
  sort [] = []
  sort (x ∷ xs) = insert_sorted x (sort xs)

unfoldable pub same_texts : List String → List String → Bool
same_texts [] [] = true
same_texts [] (y ∷ ys) = false
same_texts (x ∷ xs) [] = false
same_texts (x ∷ xs) (y ∷ ys) = if x == y then same_texts xs ys else false

module _ {W : Wire} (ordinal_le : String → String → Bool) where
  -- `TreeOp::ReorderChildren`
  unfoldable pub apply_reorder : List String → String → Node W → AResult (Node W)
  apply_reorder new_order parent_id root = do
    parent ← require (find_node root parent_id) parent_not_found
    children ← require (layout_children (kind_of parent)) childless_kind
    refuse
        (not
          (same_texts (sort ordinal_le (map id_of (to_list children))) (sort ordinal_le new_order)))
        ordering_mismatch
    write_children parent_id (λ _. of_list (pick (to_list children) new_order)) root
