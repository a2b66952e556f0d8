-- ===== src/Driven/Session/Declared.antt =====
-- The capabilities that the mounts of a subtree declare, and the walk of `all_nodes`
-- (src/introspect/mod.rs) that meets them.
use fuaran_rs.Prelude.{String, ◌≡◌, refl, sym, ap, ◌∙◌, List, [], ◌∷◌, ◌++◌, append_assoc}
use fuaran_rs.Tree.{
  Wire, Node, node, leaf, mount, layout, error_boundary, switch, fragment_decl, OptNode, absent,
  present, Nodes, nil, cons, Cases, no_case, case,
}
use fuaran_rs.Tree.Introspect.{all_nodes, all_nodes_opt, all_nodes_list, all_nodes_cases}

abbrev pub capabilities_of : {W : Wire} → Node W → List String
capabilities_of (node i (mount cs s) e r l f t) = cs
capabilities_of _ = []

abbrev pub all_capabilities : {W : Wire} → List (Node W) → List String
all_capabilities [] = []
all_capabilities (n ∷ ns) = capabilities_of n ++ all_capabilities ns

-- The capabilities declared by the mounts of a subtree: its own, those of the nodes in its kind, and
-- those of its state surfaces. A fallback is left out.
unfoldable mutual
  pub declared : {W : Wire} → Node W → List String
  declared (node i (mount cs s) e r l f t) = cs ++ (declared_opt l ++ declared_opt e)
  declared (node i (leaf k s) e r l f t) = declared_opt l ++ declared_opt e
  declared (node i (layout k s ns) e r l f t) =
      declared_nodes ns ++ (declared_opt l ++ declared_opt e)
  declared (node i (error_boundary a b) e r l f t) =
      (declared a ++ declared b) ++ (declared_opt l ++ declared_opt e)
  declared (node i (switch s cs d) e r l f t) =
      (declared_cases cs ++ declared d) ++ (declared_opt l ++ declared_opt e)
  declared (node i (fragment_decl s b) e r l f t) = declared b ++ (declared_opt l ++ declared_opt e)

  pub declared_opt : {W : Wire} → OptNode W → List String
  declared_opt absent = []
  declared_opt (present n) = declared n

  pub declared_nodes : {W : Wire} → Nodes W → List String
  declared_nodes nil = []
  declared_nodes (cons n ns) = declared n ++ declared_nodes ns

  pub declared_cases : {W : Wire} → Cases W → List String
  declared_cases no_case = []
  declared_cases (case c n cs) = declared n ++ declared_cases cs

module _ {W : Wire} where
  all_capabilities-append :
      (xs ys : List (Node W))
      → all_capabilities (xs ++ ys) ≡ all_capabilities xs ++ all_capabilities ys
  all_capabilities-append [] ys = refl
  all_capabilities-append (x ∷ xs) ys =
      ap (λ l. capabilities_of x ++ l) (all_capabilities-append xs ys)
      ∙ sym (append_assoc (capabilities_of x) (all_capabilities xs) (all_capabilities ys))

  joined :
      (xs ys : List (Node W)) {us vs : List String}
      → all_capabilities xs ≡ us
      → all_capabilities ys ≡ vs
      → all_capabilities (xs ++ ys) ≡ us ++ vs
  joined xs ys p q = all_capabilities-append xs ys ∙ (λ i. p i ++ q i)

  -- The walk of `all_nodes` meets every mount.
  mutual
    unfolding all_nodes declared

    pub all_nodes-declared : (n : Node W) → all_capabilities (all_nodes n) ≡ declared n
    all_nodes-declared (node i (mount cs s) e r l f t) =
        ap (λ x. cs ++ x)
          (joined (all_nodes_opt l) (all_nodes_opt e) (opt-declared l) (opt-declared e))
    all_nodes-declared (node i (leaf k s) e r l f t) =
        joined (all_nodes_opt l) (all_nodes_opt e) (opt-declared l) (opt-declared e)
    all_nodes-declared (node i (layout k s ns) e r l f t) =
        joined (all_nodes_list ns) (all_nodes_opt l ++ all_nodes_opt e) (nodes-declared ns)
          (joined (all_nodes_opt l) (all_nodes_opt e) (opt-declared l) (opt-declared e))
    all_nodes-declared (node i (error_boundary a b) e r l f t) =
        joined (all_nodes a ++ all_nodes b) (all_nodes_opt l ++ all_nodes_opt e)
          (joined (all_nodes a) (all_nodes b) (all_nodes-declared a) (all_nodes-declared b))
          (joined (all_nodes_opt l) (all_nodes_opt e) (opt-declared l) (opt-declared e))
    all_nodes-declared (node i (switch s cs d) e r l f t) =
        joined (all_nodes_cases cs ++ all_nodes d) (all_nodes_opt l ++ all_nodes_opt e)
          (joined (all_nodes_cases cs) (all_nodes d) (cases-declared cs) (all_nodes-declared d))
          (joined (all_nodes_opt l) (all_nodes_opt e) (opt-declared l) (opt-declared e))
    all_nodes-declared (node i (fragment_decl s b) e r l f t) =
        joined (all_nodes b) (all_nodes_opt l ++ all_nodes_opt e) (all_nodes-declared b)
          (joined (all_nodes_opt l) (all_nodes_opt e) (opt-declared l) (opt-declared e))

    opt-declared : (o : OptNode W) → all_capabilities (all_nodes_opt o) ≡ declared_opt o
    opt-declared absent = refl
    opt-declared (present n) = all_nodes-declared n

    nodes-declared : (ns : Nodes W) → all_capabilities (all_nodes_list ns) ≡ declared_nodes ns
    nodes-declared nil = refl
    nodes-declared (cons n ns) =
        joined (all_nodes n) (all_nodes_list ns) (all_nodes-declared n) (nodes-declared ns)

    cases-declared : (cs : Cases W) → all_capabilities (all_nodes_cases cs) ≡ declared_cases cs
    cases-declared no_case = refl
    cases-declared (case c n cs) =
        joined (all_nodes n) (all_nodes_cases cs) (all_nodes-declared n) (cases-declared cs)
