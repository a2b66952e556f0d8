-- ===== src/Tree/Focus/Hits.antt =====
-- A find by id that succeeds found an id that the tree counts; the child that has an id.
use fuaran_rs.Prelude.{
  ◌≤◌, String, ◌≡◌, refl, ap, Bool, true, Option, none, some, List, ◌∷◌, ◌++◌, arith, or_else, any,
  find, if◌then◌else◌, ◌==◌, Bool-cases, inl, inr,
}
use fuaran_rs.Prelude.Counts.{count, count-append}
use fuaran_rs.Tree.{
  Wire, Node, node, Kind, leaf, mount, layout, error_boundary, switch, fragment_decl, OptNode,
  absent, present, Nodes, nil, cons, Cases, no_case, case, id_of, to_list,
}
use fuaran_rs.Tree.Walk.{ids, ids_kind, ids_opt, ids_nodes, ids_cases}
use fuaran_rs.Tree.Focus.{Found, under, focus, focus_kind, focus_opt, focus_nodes, focus_cases}

-- The child with the id, where there is one.
abbrev pub child_in : {W : Wire} → String → Option (Nodes W) → Option (Node W)
child_in x none = none
child_in x (some ns) = find (λ c. id_of c == x) (to_list ns)

-- What was found is counted.
abbrev pub Hits : {W : Wire} {T : Type 0} → String → List String → Found W T → Type 0
Hits x names none = Unit
Hits x names (some f) = 1 ≤ count x names

module _ (x : String) {W : Wire} where
  pub Hits-under :
      {T U : Type 0} (names : List String) (g : T → U) (o : Found W T)
      → Hits x names o
      → Hits x names (under g o)
  Hits-under names g none h = tt
  Hits-under names g (some (c, k)) h = h

  pub Hits-or_else :
      {T : Type 0} (xs ys : List String) (o o' : Found W T)
      → Hits x xs o
      → Hits x ys o'
      → Hits x (xs ++ ys) (or_else o o')
  Hits-or_else xs ys (some f) o' h h' = omega (arith, count-append x xs ys)
  Hits-or_else xs ys none none h h' = tt
  Hits-or_else xs ys none (some f) h h' = omega (arith, count-append x xs ys)

  Hits-if :
      {T : Type 0} (i : String) (names : List String) (f : Node W × (Node W → T)) (o : Found W T)
      → Hits x names o
      → Hits x (i ∷ names) (if i == x then some f else o)
  Hits-if {T} i names f o h = elim (Bool-cases (i == x)) [
    | inl e ↦ rw e (ground arith)
    | inr e ↦ rw e (skip o h)
  ]
    where
      skip : (o : Found W T) → Hits x names o → Hits x (i ∷ names) o
      skip none h = tt
      skip (some g) h = omega arith

module _ (x : String) where
  abbrev pub is_it : {W : Wire} → Node W → Bool
  is_it n = id_of n == x

  mutual
    unfolding focus ids

    pub focus-Hits : {W : Wire} (n : Node W) → Hits x (ids n) (focus is_it n)
    focus-Hits (node i k e r l f t) =
        Hits-if x i (ids_kind k ++ (ids_opt l ++ ids_opt e)) (node i k e r l f t, λ m. m) _
          (Hits-or_else x (ids_kind k) (ids_opt l ++ ids_opt e) _ _
            (Hits-under x (ids_kind k) (λ k'. node i k' e r l f t) (focus_kind is_it k)
              (focus_kind-Hits k))
            (Hits-or_else x (ids_opt l) (ids_opt e) _ _
              (Hits-under x (ids_opt l) (λ l'. node i k e r l' f t) (focus_opt is_it l)
                (focus_opt-Hits l))
              (Hits-under x (ids_opt e) (λ e'. node i k e' r l f t) (focus_opt is_it e)
                (focus_opt-Hits e))))

    pub focus_kind-Hits : {W : Wire} (k : Kind W) → Hits x (ids_kind k) (focus_kind is_it k)
    focus_kind-Hits (layout k s ns) =
        Hits-under x (ids_nodes ns) (layout k s) (focus_nodes is_it ns) (focus_nodes-Hits ns)
    focus_kind-Hits (error_boundary c f) =
        Hits-or_else x (ids c) (ids f) _ _
          (Hits-under x (ids c) (λ c'. error_boundary c' f) (focus is_it c) (focus-Hits c))
          (Hits-under x (ids f) (λ f'. error_boundary c f') (focus is_it f) (focus-Hits f))
    focus_kind-Hits (switch s cs d) =
        Hits-or_else x (ids_cases cs) (ids d) _ _
          (Hits-under x (ids_cases cs) (λ cs'. switch s cs' d) (focus_cases is_it cs)
            (focus_cases-Hits cs))
          (Hits-under x (ids d) (λ d'. switch s cs d') (focus is_it d) (focus-Hits d))
    focus_kind-Hits (fragment_decl s b) =
        Hits-under x (ids b) (fragment_decl s) (focus is_it b) (focus-Hits b)
    focus_kind-Hits (leaf k s) = tt
    focus_kind-Hits (mount cs s) = tt

    pub focus_opt-Hits : {W : Wire} (o : OptNode W) → Hits x (ids_opt o) (focus_opt is_it o)
    focus_opt-Hits absent = tt
    focus_opt-Hits (present n) = Hits-under x (ids n) present (focus is_it n) (focus-Hits n)

    pub focus_nodes-Hits : {W : Wire} (ns : Nodes W) → Hits x (ids_nodes ns) (focus_nodes is_it ns)
    focus_nodes-Hits nil = tt
    focus_nodes-Hits (cons n ns) =
        Hits-or_else x (ids n) (ids_nodes ns) _ _
          (Hits-under x (ids n) (λ n'. cons n' ns) (focus is_it n) (focus-Hits n))
          (Hits-under x (ids_nodes ns) (cons n) (focus_nodes is_it ns) (focus_nodes-Hits ns))

    pub focus_cases-Hits : {W : Wire} (cs : Cases W) → Hits x (ids_cases cs) (focus_cases is_it cs)
    focus_cases-Hits no_case = tt
    focus_cases-Hits (case c n cs) =
        Hits-or_else x (ids n) (ids_cases cs) _ _
          (Hits-under x (ids n) (λ n'. case c n' cs) (focus is_it n) (focus-Hits n))
          (Hits-under x (ids_cases cs) (case c n) (focus_cases is_it cs) (focus_cases-Hits cs))

  -- A child with the id is what the find returns.
  pub record ChildFound {W : Wire} (ns : Nodes W) : Type 0 where
    pub child : Node W
    pub put : Node W → Nodes W
    pub found : focus_nodes is_it ns ≡ some (child, put)
    pub is_child : find is_it (to_list ns) ≡ some child
    pub counted : 1 ≤ count x (ids_nodes ns)

  pub own_id :
      {W : Wire} (n : Node W)
      → is_it n ≡ true
      → (focus is_it n ≡ some (n, λ m. m)) × (1 ≤ count x (ids n))
  unfolding focus ids
  own_id (node i k e r l f t) h = (rw h refl, rw h (omega arith))

  not_in_head :
      {W : Wire} (n : Node W) (ns : Nodes W) (c : ChildFound ns) (o : Found W (Node W))
      → Hits x (ids n) o
      → count x (ids n) ≤ 0
      → or_else (under (λ n'. cons n' ns) o) (under (cons n) (focus_nodes is_it ns))
        ≡ some (c.child, λ m. cons n (c.put m))
  not_in_head n ns c none h z = ap (under (cons n)) c.found
  not_in_head n ns c (some (m, k)) h z = absurd (omega arith)

  pub child-ChildFound :
      {W : Wire} (ns : Nodes W)
      → count x (ids_nodes ns) ≤ 1
      → any is_it (to_list ns) ≡ true
      → ChildFound ns
  unfolding focus ids
  child-ChildFound nil u h = cc
  child-ChildFound (cons n ns) u h = elim (Bool-cases (is_it n)) [
    | inl e ↦
        let (q, c) = own_id n e in
        record {
          child = n;
          put = λ m. cons m ns;
          found = rw q refl;
          is_child = rw e refl;
          counted = omega (arith, count-append x (ids n) (ids_nodes ns));
        }
    | inr e ↦
        let c =
          child-ChildFound ns (omega (arith, count-append x (ids n) (ids_nodes ns))) (rw e at h) in
        record {
          child = c.child;
          put = λ m. cons n (c.put m);
          found =
              not_in_head n ns c (focus is_it n) (focus-Hits n)
                (omega (arith, c.counted, count-append x (ids n) (ids_nodes ns)));
          is_child = rw e c.is_child;
          counted = omega (arith, c.counted, count-append x (ids n) (ids_nodes ns));
        }
  ]
