-- ===== src/Tree/Walk.antt =====
-- The tree walkers of src/ops/mod.rs and src/introspect/mod.rs: child nodes in walk order, ids, and
-- the two figures that the limits bound.
use fuaran_rs.Prelude.{ℕ, suc, ◌+◌, max, String, Option, none, some, List, [], ◌∷◌, ◌++◌}
use fuaran_rs.Tree.{
  Wire, Node, node, Kind, layout, error_boundary, switch, fragment_decl, OptNode, absent, present,
  Nodes, nil, cons, Cases, no_case, case, to_list, opt_list, case_list,
}

module _ {W : Wire} where
  -- `layout_children`
  abbrev pub layout_children : Kind W → Option (Nodes W)
  layout_children (layout k s ns) = some ns
  layout_children _ = none

  -- `kind_child_nodes`
  abbrev pub kind_child_nodes : Kind W → List (Node W)
  kind_child_nodes (layout k s ns) = to_list ns
  kind_child_nodes (error_boundary c f) = c ∷ f ∷ []
  kind_child_nodes (switch s cs d) = case_list cs ++ (d ∷ [])
  kind_child_nodes (fragment_decl s b) = b ∷ []
  kind_child_nodes _ = []

  -- `child_nodes`: the kind's, then `on_loading`, then `on_empty`; the `fallback` is no child.
  abbrev pub child_nodes : Node W → List (Node W)
  child_nodes (node i k e r l f t) = kind_child_nodes k ++ (opt_list l ++ opt_list e)

unfoldable mutual
  -- `all_node_ids`: the ids of a subtree, in walk order.
  pub ids : {W : Wire} → Node W → List String
  ids (node i k e r l f t) = i ∷ (ids_kind k ++ (ids_opt l ++ ids_opt e))

  pub ids_kind : {W : Wire} → Kind W → List String
  ids_kind (layout k s ns) = ids_nodes ns
  ids_kind (error_boundary c f) = ids c ++ ids f
  ids_kind (switch s cs d) = ids_cases cs ++ ids d
  ids_kind (fragment_decl s b) = ids b
  ids_kind _ = []

  pub ids_opt : {W : Wire} → OptNode W → List String
  ids_opt absent = []
  ids_opt (present n) = ids n

  pub ids_nodes : {W : Wire} → Nodes W → List String
  ids_nodes nil = []
  ids_nodes (cons n ns) = ids n ++ ids_nodes ns

  pub ids_cases : {W : Wire} → Cases W → List String
  ids_cases no_case = []
  ids_cases (case c n cs) = ids n ++ ids_cases cs

unfoldable mutual
  -- The count that `tree_metrics` returns: the nodes of a subtree.
  pub size : {W : Wire} → Node W → ℕ
  size (node i k e r l f t) = suc (size_kind k + (size_opt l + size_opt e))

  pub size_kind : {W : Wire} → Kind W → ℕ
  size_kind (layout k s ns) = size_nodes ns
  size_kind (error_boundary c f) = size c + size f
  size_kind (switch s cs d) = size_cases cs + size d
  size_kind (fragment_decl s b) = size b
  size_kind _ = 0

  pub size_opt : {W : Wire} → OptNode W → ℕ
  size_opt absent = 0
  size_opt (present n) = size n

  pub size_nodes : {W : Wire} → Nodes W → ℕ
  size_nodes nil = 0
  size_nodes (cons n ns) = size n + size_nodes ns

  pub size_cases : {W : Wire} → Cases W → ℕ
  size_cases no_case = 0
  size_cases (case c n cs) = size n + size_cases cs

unfoldable mutual
  -- The depth that `tree_metrics` returns: one more than the deepest child's, and 1 without a child.
  pub depth : {W : Wire} → Node W → ℕ
  depth (node i k e r l f t) = suc (max (depth_kind k) (max (depth_opt l) (depth_opt e)))

  pub depth_kind : {W : Wire} → Kind W → ℕ
  depth_kind (layout k s ns) = depth_nodes ns
  depth_kind (error_boundary c f) = max (depth c) (depth f)
  depth_kind (switch s cs d) = max (depth_cases cs) (depth d)
  depth_kind (fragment_decl s b) = depth b
  depth_kind _ = 0

  pub depth_opt : {W : Wire} → OptNode W → ℕ
  depth_opt absent = 0
  depth_opt (present n) = depth n

  pub depth_nodes : {W : Wire} → Nodes W → ℕ
  depth_nodes nil = 0
  depth_nodes (cons n ns) = max (depth n) (depth_nodes ns)

  pub depth_cases : {W : Wire} → Cases W → ℕ
  depth_cases no_case = 0
  depth_cases (case c n cs) = max (depth n) (depth_cases cs)
