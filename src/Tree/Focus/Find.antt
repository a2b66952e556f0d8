-- ===== src/Tree/Focus/Find.antt =====
-- Which node a find returns: one that passes the test, and none only where no id in the tree is the
-- one looked for.
use fuaran_rs.Prelude.{
  String, ◌≡◌, refl, subst, Bool, true, false, none, some, List, ◌∷◌, ◌++◌, arith, or_else,
  if◌then◌else◌, ◌==◌, eq_iff, Bool-cases, inl, inr,
}
use fuaran_rs.Prelude.Counts.{count, count-append}
use fuaran_rs.Tree.{
  Wire, Node, node, Kind, leaf, mount, layout, error_boundary, switch, fragment_decl, OptNode,
  absent, present, Nodes, nil, cons, Cases, no_case, case, id_of,
}
use fuaran_rs.Tree.Walk.{ids, ids_kind, ids_opt, ids_nodes, ids_cases}
use fuaran_rs.Tree.Focus.{
  Found, under, found_node, focus, focus_kind, focus_opt, focus_nodes, focus_cases, find_node_mut,
}
use fuaran_rs.Tree.Focus.Measures.{of_node}
use fuaran_rs.Tree.Focus.Laws.{Fits, focus-IsFound, IsFound}

abbrev pub Passes : {W : Wire} {T : Type 0} → (Node W → Bool) → Found W T → Type 0
Passes p none = Unit
Passes p (some (n, k)) = p n ≡ true

Passes-under :
    {W : Wire} {T U : Type 0} (p : Node W → Bool) (g : T → U) (o : Found W T)
    → Passes p o
    → Passes p (under g o)
Passes-under p g none h = tt
Passes-under p g (some (n, k)) h = h

Passes-or_else :
    {W : Wire} {T : Type 0} (p : Node W → Bool) (o o' : Found W T)
    → Passes p o
    → Passes p o'
    → Passes p (or_else o o')
Passes-or_else p none o' h h' = h'
Passes-or_else p (some f) o' h h' = h

Passes-if :
    {W : Wire} (p : Node W → Bool) (n : Node W) (b : Bool) (o : Found W (Node W))
    → p n ≡ b
    → Passes p o
    → Passes p (if b then some (n, λ m. m) else o)
Passes-if p n true o e h = e
Passes-if p n false o e h = h

mutual
  unfolding focus

  pub focus-Passes : {W : Wire} (p : Node W → Bool) (n : Node W) → Passes p (focus p n)
  focus-Passes p (node i k e r l f t) =
      Passes-if p (node i k e r l f t) (p (node i k e r l f t)) _ refl (
        Passes-or_else p _ _
          (Passes-under p (λ k'. node i k' e r l f t) (focus_kind p k) (focus_kind-Passes p k))
          (Passes-or_else p _ _
            (Passes-under p (λ l'. node i k e r l' f t) (focus_opt p l) (focus_opt-Passes p l))
            (Passes-under p (λ e'. node i k e' r l f t) (focus_opt p e) (focus_opt-Passes p e))))

  focus_kind-Passes : {W : Wire} (p : Node W → Bool) (k : Kind W) → Passes p (focus_kind p k)
  focus_kind-Passes p (layout k s ns) =
      Passes-under p (layout k s) (focus_nodes p ns) (focus_nodes-Passes p ns)
  focus_kind-Passes p (error_boundary c f) =
      Passes-or_else p _ _
        (Passes-under p (λ c'. error_boundary c' f) (focus p c) (focus-Passes p c))
        (Passes-under p (λ f'. error_boundary c f') (focus p f) (focus-Passes p f))
  focus_kind-Passes p (switch s cs d) =
      Passes-or_else p _ _
        (Passes-under p (λ cs'. switch s cs' d) (focus_cases p cs) (focus_cases-Passes p cs))
        (Passes-under p (λ d'. switch s cs d') (focus p d) (focus-Passes p d))
  focus_kind-Passes p (fragment_decl s b) =
      Passes-under p (fragment_decl s) (focus p b) (focus-Passes p b)
  focus_kind-Passes p (leaf k s) = tt
  focus_kind-Passes p (mount cs s) = tt

  focus_opt-Passes : {W : Wire} (p : Node W → Bool) (o : OptNode W) → Passes p (focus_opt p o)
  focus_opt-Passes p absent = tt
  focus_opt-Passes p (present n) = Passes-under p present (focus p n) (focus-Passes p n)

  focus_nodes-Passes : {W : Wire} (p : Node W → Bool) (ns : Nodes W) → Passes p (focus_nodes p ns)
  focus_nodes-Passes p nil = tt
  focus_nodes-Passes p (cons n ns) =
      Passes-or_else p _ _ (Passes-under p (λ n'. cons n' ns) (focus p n) (focus-Passes p n))
        (Passes-under p (cons n) (focus_nodes p ns) (focus_nodes-Passes p ns))

  focus_cases-Passes : {W : Wire} (p : Node W → Bool) (cs : Cases W) → Passes p (focus_cases p cs)
  focus_cases-Passes p no_case = tt
  focus_cases-Passes p (case c n cs) =
      Passes-or_else p _ _ (Passes-under p (λ n'. case c n' cs) (focus p n) (focus-Passes p n))
        (Passes-under p (case c n) (focus_cases p cs) (focus_cases-Passes p cs))

-- A find that fails says that the id is not among the names.
abbrev pub Misses : {W : Wire} {T : Type 0} → String → List String → Found W T → Type 0
Misses x names none = count x names ≡ 0
Misses x names (some f) = Unit

Misses-under :
    {W : Wire} {T U : Type 0} (x : String) (names : List String) (g : T → U) (o : Found W T)
    → Misses x names o
    → Misses x names (under g o)
Misses-under x names g none h = h
Misses-under x names g (some (n, k)) h = tt

Misses-or_else :
    {W : Wire} {T : Type 0} (x : String) (xs ys : List String) (o o' : Found W T)
    → Misses x xs o
    → Misses x ys o'
    → Misses x (xs ++ ys) (or_else o o')
Misses-or_else x xs ys none none h h' = omega (arith, count-append x xs ys)
Misses-or_else x xs ys none (some f) h h' = tt
Misses-or_else x xs ys (some f) o' h h' = tt

Misses-cons :
    {W : Wire} {T : Type 0} (x i : String) (names : List String) (o : Found W T)
    → (i == x) ≡ false
    → Misses x names o
    → Misses x (i ∷ names) o
Misses-cons x i names none e h = rw e (omega arith)
Misses-cons x i names (some f) e h = tt

Misses-if :
    {W : Wire} {T : Type 0} (x i : String) (names : List String) (f : Node W × (Node W → T))
    (o : Found W T)
    → Misses x names o
    → Misses x (i ∷ names) (if i == x then some f else o)
Misses-if x i names f o h = elim (Bool-cases (i == x)) [
  | inl e ↦ rw e tt
  | inr e ↦ rw e (Misses-cons x i names o e h)
]

module _ (x : String) where
  abbrev is_it : {W : Wire} → Node W → Bool
  is_it n = id_of n == x

  mutual
    unfolding focus ids

    focus-Misses : {W : Wire} (n : Node W) → Misses x (ids n) (focus is_it n)
    focus-Misses (node i k e r l f t) =
        Misses-if x i (ids_kind k ++ (ids_opt l ++ ids_opt e)) (node i k e r l f t, λ m. m) _
          (Misses-or_else x (ids_kind k) (ids_opt l ++ ids_opt e) _ _
            (Misses-under x (ids_kind k) (λ k'. node i k' e r l f t) (focus_kind is_it k)
              (focus_kind-Misses k))
            (Misses-or_else x (ids_opt l) (ids_opt e) _ _
              (Misses-under x (ids_opt l) (λ l'. node i k e r l' f t) (focus_opt is_it l)
                (focus_opt-Misses l))
              (Misses-under x (ids_opt e) (λ e'. node i k e' r l f t) (focus_opt is_it e)
                (focus_opt-Misses e))))

    focus_kind-Misses : {W : Wire} (k : Kind W) → Misses x (ids_kind k) (focus_kind is_it k)
    focus_kind-Misses (layout k s ns) =
        Misses-under x (ids_nodes ns) (layout k s) (focus_nodes is_it ns) (focus_nodes-Misses ns)
    focus_kind-Misses (error_boundary c f) =
        Misses-or_else x (ids c) (ids f) _ _
          (Misses-under x (ids c) (λ c'. error_boundary c' f) (focus is_it c) (focus-Misses c))
          (Misses-under x (ids f) (λ f'. error_boundary c f') (focus is_it f) (focus-Misses f))
    focus_kind-Misses (switch s cs d) =
        Misses-or_else x (ids_cases cs) (ids d) _ _
          (Misses-under x (ids_cases cs) (λ cs'. switch s cs' d) (focus_cases is_it cs)
            (focus_cases-Misses cs))
          (Misses-under x (ids d) (λ d'. switch s cs d') (focus is_it d) (focus-Misses d))
    focus_kind-Misses (fragment_decl s b) =
        Misses-under x (ids b) (fragment_decl s) (focus is_it b) (focus-Misses b)
    focus_kind-Misses (leaf k s) = refl
    focus_kind-Misses (mount cs s) = refl

    focus_opt-Misses : {W : Wire} (o : OptNode W) → Misses x (ids_opt o) (focus_opt is_it o)
    focus_opt-Misses absent = refl
    focus_opt-Misses (present n) = Misses-under x (ids n) present (focus is_it n) (focus-Misses n)

    focus_nodes-Misses : {W : Wire} (ns : Nodes W) → Misses x (ids_nodes ns) (focus_nodes is_it ns)
    focus_nodes-Misses nil = refl
    focus_nodes-Misses (cons n ns) =
        Misses-or_else x (ids n) (ids_nodes ns) _ _
          (Misses-under x (ids n) (λ n'. cons n' ns) (focus is_it n) (focus-Misses n))
          (Misses-under x (ids_nodes ns) (cons n) (focus_nodes is_it ns) (focus_nodes-Misses ns))

    focus_cases-Misses : {W : Wire} (cs : Cases W) → Misses x (ids_cases cs) (focus_cases is_it cs)
    focus_cases-Misses no_case = refl
    focus_cases-Misses (case c n cs) =
        Misses-or_else x (ids n) (ids_cases cs) _ _
          (Misses-under x (ids n) (λ n'. case c n' cs) (focus is_it n) (focus-Misses n))
          (Misses-under x (ids_cases cs) (case c n) (focus_cases is_it cs) (focus_cases-Misses cs))

module _ {W : Wire} (t : Node W) (x : String) where
  -- `find_node` fails exactly on the ids that the tree does not hold.
  pub find_none : find_node_mut t x ≡ none → count x (ids t) ≡ 0
  find_none h = subst (λ o. Misses x (ids t) o) h (focus-Misses x t)

  module _ {n : Node W} {k : Node W → Node W} where
    pub find-id : find_node_mut t x ≡ some (n, k) → id_of n ≡ x
    find-id h =
        (eq_iff (id_of n) x).0
          (subst (λ o. Passes (λ m. id_of m == x) o) h (focus-Passes (λ m. id_of m == x) t))

module _ {W : Wire} (p : Node W → Bool) (t : Node W) {n : Node W} {k : Node W → Node W} where
  pub focus-Fits : focus p t ≡ some (n, k) → Fits of_node t n k
  focus-Fits h = subst (λ o. IsFound of_node t o) h (focus-IsFound p t)

  pub focus-passes : focus p t ≡ some (n, k) → p n ≡ true
  focus-passes h = subst (λ o. Passes p o) h (focus-Passes p t)

pub found_node-inv :
    {W : Wire} {T : Type 0} (o : Found W T) {n : Node W}
    → found_node o ≡ some n
    → (k : Node W → T) × (o ≡ some (n, k))
found_node-inv none h = cc
found_node-inv (some (m, k)) h = (k, cc)
