-- ===== src/Tree/Focus.antt =====
-- Finding a node and writing through the find: `find_node`, `find_node_mut` and `find_layout_parent`
-- of src/ops/mod.rs. The `&mut Node` that the Rust code gets is a node with what rebuilds the tree
-- around any node put in its place.
pub mod Measures
pub mod Laws
pub mod Find
pub mod Hits
pub mod Only
pub mod Agree
pub mod Put
use fuaran_rs.Prelude.{String, Bool, Option, none, some, List, or_else, if◌then◌else◌, ◌==◌, any}
use fuaran_rs.Tree.{
  Wire, Node, node, Kind, leaf, mount, layout, error_boundary, switch, fragment_decl, OptNode,
  absent, present, Nodes, nil, cons, Cases, no_case, case, to_list, id_of, kind_of,
}
use fuaran_rs.Tree.Walk.{layout_children}

-- A node found inside a `T`, and the `T` with another node in its place.
abbrev pub Found : Wire → Type 0 → Type 0
Found W T = Option (Node W × (Node W → T))

abbrev pub under : {W : Wire} {T U : Type 0} → (T → U) → Found W T → Found W U
under g none = none
under g (some (n, k)) = some (n, λ m. g (k m))

unfoldable mutual
  -- The first node in walk order that passes the test.
  pub focus : {W : Wire} → (Node W → Bool) → Node W → Found W (Node W)
  focus p (node i k e r l f t) =
      if p (node i k e r l f t)
      then some (node i k e r l f t, λ m. m)
      else or_else (under (λ k'. node i k' e r l f t) (focus_kind p k)) (
          or_else (under (λ l'. node i k e r l' f t) (focus_opt p l))
            (under (λ e'. node i k e' r l f t) (focus_opt p e)))

  pub focus_kind : {W : Wire} → (Node W → Bool) → Kind W → Found W (Kind W)
  focus_kind p (layout k s ns) = under (layout k s) (focus_nodes p ns)
  focus_kind p (error_boundary c f) =
      or_else (under (λ c'. error_boundary c' f) (focus p c))
        (under (λ f'. error_boundary c f') (focus p f))
  focus_kind p (switch s cs d) =
      or_else (under (λ cs'. switch s cs' d) (focus_cases p cs))
        (under (λ d'. switch s cs d') (focus p d))
  focus_kind p (fragment_decl s b) = under (fragment_decl s) (focus p b)
  focus_kind p _ = none

  pub focus_opt : {W : Wire} → (Node W → Bool) → OptNode W → Found W (OptNode W)
  focus_opt p absent = none
  focus_opt p (present n) = under present (focus p n)

  pub focus_nodes : {W : Wire} → (Node W → Bool) → Nodes W → Found W (Nodes W)
  focus_nodes p nil = none
  focus_nodes p (cons n ns) =
      or_else (under (λ n'. cons n' ns) (focus p n)) (under (cons n) (focus_nodes p ns))

  pub focus_cases : {W : Wire} → (Node W → Bool) → Cases W → Found W (Cases W)
  focus_cases p no_case = none
  focus_cases p (case c n cs) =
      or_else (under (λ n'. case c n' cs) (focus p n)) (under (case c n) (focus_cases p cs))

module _ {W : Wire} where
  -- `find_node_mut`
  abbrev pub find_node_mut : Node W → String → Found W (Node W)
  find_node_mut n target = focus (λ m. id_of m == target) n

  abbrev pub found_node : {T : Type 0} → Found W T → Option (Node W)
  found_node none = none
  found_node (some (n, k)) = some n

  -- `find_node`
  abbrev pub find_node : Node W → String → Option (Node W)
  find_node n target = found_node (find_node_mut n target)

  -- `layout_children(n)` holds a child with the id.
  abbrev pub has_child : String → Option (Nodes W) → Bool
  has_child target none = Bool.false
  has_child target (some ns) = any (λ c. id_of c == target) (to_list ns)

  abbrev pub is_layout_parent : String → Node W → Bool
  is_layout_parent target n = has_child target (layout_children (kind_of n))

  -- `find_layout_parent`
  abbrev pub find_layout_parent : Node W → String → Option (Node W)
  find_layout_parent n target = found_node (focus (is_layout_parent target) n)
