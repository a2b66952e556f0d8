-- ===== src/Tree/Focus/Put.antt =====
-- A node put in the place of a found one is found there (src/ops/mod.rs, `find_node_mut`).
use fuaran_rs.Prelude.{
  String, ◌≡◌, refl, ap, ◌∙◌, Bool, true, Bool-cases, inl, inr, none, some, or_else, ◌==◌, subst,
}
use fuaran_rs.Tree.{
  Wire, Node, node, Kind, leaf, mount, layout, error_boundary, switch, fragment_decl, OptNode,
  absent, present, Nodes, nil, cons, Cases, no_case, case, id_of,
}
use fuaran_rs.Tree.Focus.{
  Found, under, focus, focus_kind, focus_opt, focus_nodes, focus_cases, find_node_mut,
}

module _ {W : Wire} (x : String) where
  abbrev is_it : Node W → Bool
  is_it m = id_of m == x

  -- What a search found stays found, by the same path, when a node with the id takes its place.
  abbrev Stays : {T : Type 0} → (T → Found W T) → Found W T → Type 0
  Stays g none = Unit {0}
  Stays g (some (n, put)) = (m : Node W) → is_it m ≡ true → g (put m) ≡ some (m, put)

  Stays-alone :
      {T U : Type 0} (g : T → Found W T) (h : U → Found W U) (c : T → U)
      → ((t : T) → h (c t) ≡ under c (g t))
      → (f : Found W T) → Stays g f
      → Stays h (under c f)
  Stays-alone g h c e none s = tt
  Stays-alone g h c e (some (n, put)) s = λ m k. e (put m) ∙ ap (under c) (s m k)

  -- A whole whose parts are searched one after the other.
  Stays-two :
      {A B U : Type 0} (g : A → Found W A) (g' : B → Found W B) (h : U → Found W U) (mk : A → B → U)
      → ((a : A) (b : B) → h (mk a b) ≡ or_else (under (λ a'. mk a' b) (g a)) (under (mk a) (g' b)))
      → (a : A) (b : B) (f : Found W A) (f' : Found W B) → g a ≡ f
      → g' b ≡ f'
      → Stays g f
      → Stays g' f'
      → Stays h (or_else (under (λ a'. mk a' b) f) (under (mk a) f'))
  Stays-two g g' h mk e a b (some (n, put)) f' q q' s s' = λ m k.
      e (put m) b ∙ ap (λ o. or_else (under (λ a'. mk a' b) o) (under (mk (put m)) (g' b))) (s m k)
  Stays-two g g' h mk e a b none none q q' s s' = tt
  Stays-two g g' h mk e a b none (some (n, put)) q q' s s' = λ m k.
      e a (put m)
      ∙ ap (λ o. or_else (under (λ a'. mk a' (put m)) o) (under (mk a) (g' (put m)))) q
      ∙ ap (under (mk a)) (s' m k)

  Stays-three :
      {A B D U : Type 0} (g : A → Found W A) (g' : B → Found W B) (g'' : D → Found W D)
      (h : U → Found W U) (mk : A → B → D → U)
      → ((a : A) (b : B) (d : D)
          → h (mk a b d)
            ≡ or_else
                (under (λ a'. mk a' b d) (g a))
                (or_else (under (λ b'. mk a b' d) (g' b)) (under (mk a b) (g'' d))))
      → (a : A) (b : B) (d : D) (f : Found W A) (f' : Found W B) (f'' : Found W D) → g a ≡ f
      → g' b ≡ f'
      → g'' d ≡ f''
      → Stays g f
      → Stays g' f'
      → Stays g'' f''
      → Stays h (
          or_else
            (under (λ a'. mk a' b d) f)
            (or_else (under (λ b'. mk a b' d) f') (under (mk a b) f'')))
  Stays-three g g' g'' h mk e a b d (some (n, put)) f' f'' q q' q'' s s' s'' = λ m k.
      e (put m) b d
      ∙ ap
          (λ o.
            or_else (under (λ a'. mk a' b d) o)
              (or_else (under (λ b'. mk (put m) b' d) (g' b)) (under (mk (put m) b) (g'' d))))
          (s m k)
  Stays-three g g' g'' h mk e a b d none (some (n, put)) f'' q q' q'' s s' s'' = λ m k.
      e a (put m) d
      ∙ ap
          (λ o.
            or_else (under (λ a'. mk a' (put m) d) o)
              (or_else (under (λ b'. mk a b' d) (g' (put m))) (under (mk a (put m)) (g'' d))))
          q
      ∙ ap (λ o. or_else (under (λ b'. mk a b' d) o) (under (mk a (put m)) (g'' d))) (s' m k)
  Stays-three g g' g'' h mk e a b d none none none q q' q'' s s' s'' = tt
  Stays-three g g' g'' h mk e a b d none none (some (n, put)) q q' q'' s s' s'' = λ m k.
      e a b (put m)
      ∙ ap
          (λ o.
            or_else (under (λ a'. mk a' b (put m)) o)
              (or_else (under (λ b'. mk a b' (put m)) (g' b)) (under (mk a b) (g'' (put m)))))
          q
      ∙ ap (λ o. or_else (under (λ b'. mk a b' (put m)) o) (under (mk a b) (g'' (put m)))) q'
      ∙ ap (under (mk a b)) (s'' m k)

  root_found : (m : Node W) → is_it m ≡ true → focus is_it m ≡ some (m, λ n. n)
  unfolding focus
  root_found (node i k e r l f t) h = rw h refl

  mutual
    unfolding focus

    focus-Stays : (n : Node W) → Stays (focus is_it) (focus is_it n)
    focus-Stays (node i k e r l f t) = elim (Bool-cases (i == x)) [
      | inl q ↦ rw q root_found
      | inr q ↦ rw q (
          Stays-three (focus_kind is_it) (focus_opt is_it) (focus_opt is_it) (focus is_it)
            (λ k' l' e'. node i k' e' r l' f t) (λ k' l' e'. rw q refl) k l e (focus_kind is_it k)
            (focus_opt is_it l) (focus_opt is_it e) refl refl refl (focus_kind-Stays k)
            (focus_opt-Stays l) (focus_opt-Stays e))
    ]

    focus_kind-Stays : (k : Kind W) → Stays (focus_kind is_it) (focus_kind is_it k)
    focus_kind-Stays (layout k s ns) =
        Stays-alone (focus_nodes is_it) (focus_kind is_it) (layout k s) (λ t. refl)
          (focus_nodes is_it ns) (focus_nodes-Stays ns)
    focus_kind-Stays (error_boundary c f) =
        Stays-two (focus is_it) (focus is_it) (focus_kind is_it) error_boundary (λ a b. refl) c f
          (focus is_it c) (focus is_it f) refl refl (focus-Stays c) (focus-Stays f)
    focus_kind-Stays (switch s cs d) =
        Stays-two (focus_cases is_it) (focus is_it) (focus_kind is_it) (switch s) (λ a b. refl) cs d
          (focus_cases is_it cs) (focus is_it d) refl refl (focus_cases-Stays cs) (focus-Stays d)
    focus_kind-Stays (fragment_decl s b) =
        Stays-alone (focus is_it) (focus_kind is_it) (fragment_decl s) (λ t. refl) (focus is_it b)
          (focus-Stays b)
    focus_kind-Stays (leaf k s) = tt
    focus_kind-Stays (mount cs s) = tt

    focus_opt-Stays : (o : OptNode W) → Stays (focus_opt is_it) (focus_opt is_it o)
    focus_opt-Stays absent = tt
    focus_opt-Stays (present n) =
        Stays-alone (focus is_it) (focus_opt is_it) present (λ t. refl) (focus is_it n)
          (focus-Stays n)

    focus_nodes-Stays : (ns : Nodes W) → Stays (focus_nodes is_it) (focus_nodes is_it ns)
    focus_nodes-Stays nil = tt
    focus_nodes-Stays (cons n ns) =
        Stays-two (focus is_it) (focus_nodes is_it) (focus_nodes is_it) cons (λ a b. refl) n ns
          (focus is_it n) (focus_nodes is_it ns) refl refl (focus-Stays n) (focus_nodes-Stays ns)

    focus_cases-Stays : (cs : Cases W) → Stays (focus_cases is_it) (focus_cases is_it cs)
    focus_cases-Stays no_case = tt
    focus_cases-Stays (case c n cs) =
        Stays-two (focus is_it) (focus_cases is_it) (focus_cases is_it) (case c) (λ a b. refl) n cs
          (focus is_it n) (focus_cases is_it cs) refl refl (focus-Stays n) (focus_cases-Stays cs)

  -- The node put in the place of the found one is found, and the place is the same.
  pub find_put :
      (t n m : Node W) (put : Node W → Node W)
      → find_node_mut t x ≡ some (n, put)
      → (id_of m == x) ≡ true
      → find_node_mut (put m) x ≡ some (m, put)
  find_put t n m put h k = subst (Stays (focus is_it)) h (focus-Stays t) m k
