-- ===== src/Tree/Focus/Only.antt =====
-- In a tree where an id stands at most once, two searches that both succeed stop at one place.
use fuaran_rs.Prelude.{
  ◌≤◌, String, ◌≡◌, refl, Bool, true, false, none, some, List, ◌∷◌, ◌++◌, arith, or_else,
  if◌then◌else◌, ◌==◌, Bool-cases, inl, inr,
}
use fuaran_rs.Prelude.Counts.{count, count-append}
use fuaran_rs.Tree.{
  Wire, Node, node, Kind, leaf, mount, layout, error_boundary, switch, fragment_decl, OptNode,
  absent, present, Nodes, nil, cons, Cases, no_case, case, Traits,
}
use fuaran_rs.Tree.Walk.{ids, ids_kind, ids_opt, ids_nodes, ids_cases}
use fuaran_rs.Tree.Focus.{Found, under, focus, focus_kind, focus_opt, focus_nodes, focus_cases}
use fuaran_rs.Tree.Focus.Hits.{
  Hits, Hits-under, Hits-or_else, is_it, focus-Hits, focus_kind-Hits, focus_opt-Hits,
  focus_nodes-Hits, focus_cases-Hits,
}

-- Two searches are compared: one by a test `q`, and one by the id `x`. A node that the first returns
-- and that meets the condition is related to the node that the second returns.
module _ {W : Wire} (x : String) (R : Node W → Node W → Type 0) (cond : Node W → Bool)
    (q : Node W → Bool) where
  abbrev pub Agrees : {T : Type 0} → Found W T → Found W T → Type 0
  Agrees none o = Unit
  Agrees (some (p, k)) none = cond p ≡ true → ⊥
  Agrees (some (p, k)) (some (c, k')) = cond p ≡ true → R p c

  Agrees-under :
      {T U : Type 0} (g : T → U) (o o' : Found W T) → Agrees o o' → Agrees (under g o) (under g o')
  Agrees-under g none o' a = tt
  Agrees-under g (some (p, k)) none a = a
  Agrees-under g (some (p, k)) (some (c, k')) a = a

  Agrees-or_else :
      {T : Type 0} (xs ys : List String) (a a' b b' : Found W T)
      → count x (xs ++ ys) ≤ 1
      → Agrees a a'
      → Hits x xs a'
      → Agrees b b'
      → Hits x ys b'
      → Agrees (or_else a b) (or_else a' b')
  Agrees-or_else xs ys (some f) none b none u p h r h' = p
  Agrees-or_else xs ys (some f) none b (some g) u p h r h' = λ c. absurd (p c)
  Agrees-or_else xs ys (some f) (some g) b b' u p h r h' = p
  Agrees-or_else xs ys none none b b' u p h r h' = r
  Agrees-or_else xs ys none (some g) none b' u p h r h' = tt
  Agrees-or_else xs ys none (some g) (some f) none u p h r h' = λ c. absurd (r c)
  Agrees-or_else xs ys none (some g) (some f) (some f') u p h r h' =
      absurd (omega (arith, count-append x xs ys))

  -- Both searches may stop at the node itself.
  Agrees-if :
      (i : String) (names : List String) (n : Node W) (b : Bool) (o o' : Found W (Node W))
      → count x (i ∷ names) ≤ 1
      → (b ≡ true → (i == x) ≡ true → Agrees {T = Node W} (some (n, λ m. m)) (some (n, λ m. m)))
      → (b ≡ true → (i == x) ≡ false → Agrees (some (n, λ m. m)) o')
      → Agrees o o'
      → Hits x names o'
      → Agrees (if b then some (n, λ m. m) else o) (if i == x then some (n, λ m. m) else o')
  Agrees-if i names n b o o' u itself deeper a h = elim (Bool-cases (i == x)) [
    | inl e ↦ rw e (at_id b o o' (λ t. itself t e) a h (ground arith))
    | inr e ↦ rw e (not_at_id b (λ t. deeper t e))
  ]
    where
      at_id :
          (b : Bool) (o o' : Found W (Node W))
          → (b ≡ true → Agrees {T = Node W} (some (n, λ m. m)) (some (n, λ m. m)))
          → Agrees o o'
          → Hits x names o'
          → count x names ≤ 0
          → Agrees (if b then some (n, λ m. m) else o) (some (n, λ m. m))
      at_id true o o' itself a h z = itself refl
      at_id false none o' itself a h z = tt
      at_id false (some f) none itself a h z = λ c. absurd (a c)
      at_id false (some f) (some g) itself a h z = absurd (omega arith)

      not_at_id :
          (b : Bool)
          → (b ≡ true → Agrees (some (n, λ m. m)) o')
          → Agrees (if b then some (n, λ m. m) else o) o'
      not_at_id true deeper = deeper refl
      not_at_id false deeper = a

  -- The node itself and what the second search finds below it.
  pub record Heads : Type 0 where
    pub itself :
        (n : Node W) → count x (ids n) ≤ 1 → q n ≡ true → is_it x n ≡ true → cond n ≡ true → R n n
    pub deeper :
        (i : String) (k : Kind W) (e : OptNode W) (r : Bool) (l f : OptNode W) (t : Traits W)
        → count x (ids_kind k ++ (ids_opt l ++ ids_opt e)) ≤ 1
        → q (node i k e r l f t) ≡ true
        → (i == x) ≡ false
        → Agrees {T = Node W} (some (node i k e r l f t, λ m. m)) (
            or_else (under (λ k'. node i k' e r l f t) (focus_kind (is_it x) k)) (
              or_else
                (under (λ l'. node i k e r l' f t) (focus_opt (is_it x) l))
                (under (λ e'. node i k e' r l f t) (focus_opt (is_it x) e))))

  module _ (H : Heads) where
    mutual
      unfolding focus ids

      pub focus-Agrees : (n : Node W) → count x (ids n) ≤ 1 → Agrees (focus q n) (focus (is_it x) n)
      focus-Agrees (node i k e r l f t) u =
          let below : count x (ids_kind k ++ (ids_opt l ++ ids_opt e)) ≤ 1 = omega arith in
          let both = count-append x (ids_kind k) (ids_opt l ++ ids_opt e) in
          let rest = count-append x (ids_opt l) (ids_opt e) in
          let hl =
            Hits-under x (ids_opt l) (λ l'. node i k e r l' f t) (focus_opt (is_it x) l)
              (focus_opt-Hits x l) in
          let he =
            Hits-under x (ids_opt e) (λ e'. node i k e' r l f t) (focus_opt (is_it x) e)
              (focus_opt-Hits x e) in
          let hk =
            Hits-under x (ids_kind k) (λ k'. node i k' e r l f t) (focus_kind (is_it x) k)
              (focus_kind-Hits x k) in
          let hr = Hits-or_else x (ids_opt l) (ids_opt e) _ _ hl he in
          Agrees-if i (ids_kind k ++ (ids_opt l ++ ids_opt e)) (node i k e r l f t)
            (q (node i k e r l f t)) _ _ u (H.itself (node i k e r l f t) u)
            (H.deeper i k e r l f t below)
            (Agrees-or_else (ids_kind k) (ids_opt l ++ ids_opt e) _ _ _ _ below
              (Agrees-under (λ k'. node i k' e r l f t) (focus_kind q k) (focus_kind (is_it x) k)
                (focus_kind-Agrees k (omega arith)))
              hk
              (Agrees-or_else (ids_opt l) (ids_opt e) _ _ _ _ (omega arith)
                (Agrees-under (λ l'. node i k e r l' f t) (focus_opt q l) (focus_opt (is_it x) l)
                  (focus_opt-Agrees l (omega arith)))
                hl
                (Agrees-under (λ e'. node i k e' r l f t) (focus_opt q e) (focus_opt (is_it x) e)
                  (focus_opt-Agrees e (omega arith)))
                he)
              hr)
            (Hits-or_else x (ids_kind k) (ids_opt l ++ ids_opt e) _ _ hk hr)

      focus_kind-Agrees :
          (k : Kind W) → count x (ids_kind k) ≤ 1 → Agrees (focus_kind q k) (focus_kind (is_it x) k)
      focus_kind-Agrees (layout k s ns) u =
          Agrees-under (layout k s) (focus_nodes q ns) (focus_nodes (is_it x) ns)
            (focus_nodes-Agrees ns u)
      focus_kind-Agrees (error_boundary c f) u =
          let both = count-append x (ids c) (ids f) in
          Agrees-or_else (ids c) (ids f) _ _ _ _ u
            (Agrees-under (λ c'. error_boundary c' f) (focus q c) (focus (is_it x) c)
              (focus-Agrees c (omega arith)))
            (Hits-under x (ids c) (λ c'. error_boundary c' f) (focus (is_it x) c) (focus-Hits x c))
            (Agrees-under (λ f'. error_boundary c f') (focus q f) (focus (is_it x) f)
              (focus-Agrees f (omega arith)))
            (Hits-under x (ids f) (λ f'. error_boundary c f') (focus (is_it x) f) (focus-Hits x f))
      focus_kind-Agrees (switch s cs d) u =
          let both = count-append x (ids_cases cs) (ids d) in
          Agrees-or_else (ids_cases cs) (ids d) _ _ _ _ u
            (Agrees-under (λ cs'. switch s cs' d) (focus_cases q cs) (focus_cases (is_it x) cs)
              (focus_cases-Agrees cs (omega arith)))
            (Hits-under x (ids_cases cs) (λ cs'. switch s cs' d) (focus_cases (is_it x) cs)
              (focus_cases-Hits x cs))
            (Agrees-under (λ d'. switch s cs d') (focus q d) (focus (is_it x) d)
              (focus-Agrees d (omega arith)))
            (Hits-under x (ids d) (λ d'. switch s cs d') (focus (is_it x) d) (focus-Hits x d))
      focus_kind-Agrees (fragment_decl s b) u =
          Agrees-under (fragment_decl s) (focus q b) (focus (is_it x) b) (focus-Agrees b u)
      focus_kind-Agrees (leaf k s) u = tt
      focus_kind-Agrees (mount cs s) u = tt

      focus_opt-Agrees :
          (o : OptNode W) → count x (ids_opt o) ≤ 1 → Agrees (focus_opt q o) (focus_opt (is_it x) o)
      focus_opt-Agrees absent u = tt
      focus_opt-Agrees (present n) u =
          Agrees-under present (focus q n) (focus (is_it x) n) (focus-Agrees n u)

      focus_nodes-Agrees :
          (ns : Nodes W)
          → count x (ids_nodes ns) ≤ 1
          → Agrees (focus_nodes q ns) (focus_nodes (is_it x) ns)
      focus_nodes-Agrees nil u = tt
      focus_nodes-Agrees (cons n ns) u =
          let both = count-append x (ids n) (ids_nodes ns) in
          Agrees-or_else (ids n) (ids_nodes ns) _ _ _ _ u
            (Agrees-under (λ n'. cons n' ns) (focus q n) (focus (is_it x) n)
              (focus-Agrees n (omega arith)))
            (Hits-under x (ids n) (λ n'. cons n' ns) (focus (is_it x) n) (focus-Hits x n))
            (Agrees-under (cons n) (focus_nodes q ns) (focus_nodes (is_it x) ns)
              (focus_nodes-Agrees ns (omega arith)))
            (Hits-under x (ids_nodes ns) (cons n) (focus_nodes (is_it x) ns)
              (focus_nodes-Hits x ns))

      focus_cases-Agrees :
          (cs : Cases W)
          → count x (ids_cases cs) ≤ 1
          → Agrees (focus_cases q cs) (focus_cases (is_it x) cs)
      focus_cases-Agrees no_case u = tt
      focus_cases-Agrees (case c n cs) u =
          let both = count-append x (ids n) (ids_cases cs) in
          Agrees-or_else (ids n) (ids_cases cs) _ _ _ _ u
            (Agrees-under (λ n'. case c n' cs) (focus q n) (focus (is_it x) n)
              (focus-Agrees n (omega arith)))
            (Hits-under x (ids n) (λ n'. case c n' cs) (focus (is_it x) n) (focus-Hits x n))
            (Agrees-under (case c n) (focus_cases q cs) (focus_cases (is_it x) cs)
              (focus_cases-Agrees cs (omega arith)))
            (Hits-under x (ids_cases cs) (case c n) (focus_cases (is_it x) cs)
              (focus_cases-Hits x cs))
