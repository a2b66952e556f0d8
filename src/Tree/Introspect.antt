-- ===== src/Tree/Introspect.antt =====
-- `all_nodes` and `get_node` of src/introspect/mod.rs.
use fuaran_rs.Prelude.{String, Option, List, [], ◌∷◌, ◌++◌}
use fuaran_rs.Tree.{
  Wire, Node, node, Kind, layout, error_boundary, switch, fragment_decl, OptNode, absent, present,
  Nodes, nil, cons, Cases, no_case, case,
}
use fuaran_rs.Tree.Focus.{find_node}

unfoldable mutual
  pub all_nodes : {W : Wire} → Node W → List (Node W)
  all_nodes (node i k e r l f t) =
      node i k e r l f t ∷ (all_nodes_kind k ++ (all_nodes_opt l ++ all_nodes_opt e))

  pub all_nodes_kind : {W : Wire} → Kind W → List (Node W)
  all_nodes_kind (layout k s ns) = all_nodes_list ns
  all_nodes_kind (error_boundary c f) = all_nodes c ++ all_nodes f
  all_nodes_kind (switch s cs d) = all_nodes_cases cs ++ all_nodes d
  all_nodes_kind (fragment_decl s b) = all_nodes b
  all_nodes_kind _ = []

  pub all_nodes_opt : {W : Wire} → OptNode W → List (Node W)
  all_nodes_opt absent = []
  all_nodes_opt (present n) = all_nodes n

  pub all_nodes_list : {W : Wire} → Nodes W → List (Node W)
  all_nodes_list nil = []
  all_nodes_list (cons n ns) = all_nodes n ++ all_nodes_list ns

  pub all_nodes_cases : {W : Wire} → Cases W → List (Node W)
  all_nodes_cases no_case = []
  all_nodes_cases (case c n cs) = all_nodes n ++ all_nodes_cases cs

-- The same walk as `find_node` of the apply engine.
abbrev pub get_node : {W : Wire} → Node W → String → Option (Node W)
get_node tree id = find_node tree id
