-- ===== src/Placement/Clone/Rename.antt =====
-- What the renaming of src/ops/placement.rs (`remap_for_insert`, `rewrite_ids`) does to the ids of a
-- subtree.
use fuaran_rs.Prelude.{
  ◌≤◌, ◌≡◌, refl, sym, ap, ◌∙◌, String, Bool, true, false, Bool-cases, inl, inr, some, List, [],
  ◌∷◌, ◌++◌, map, ◌==◌, eq_iff, eq_refl, arith,
}
use fuaran_rs.Prelude.Counts.{contains, count, count-contains}
use fuaran_rs.Tree.{
  Wire, Node, node, Kind, leaf, mount, layout, error_boundary, switch, fragment_decl, OptNode,
  absent, present, Nodes, nil, cons, Cases, no_case, case,
}
use fuaran_rs.Tree.Walk.{ids, ids_kind, ids_opt, ids_nodes, ids_cases}
use fuaran_rs.Placement.Clone.{
  Rename, renamed_to, renamed, rewrite_ids, rewrite_kind, rewrite_opt, rewrite_nodes, rewrite_cases,
}

map-append : (f : String → String) (xs ys : List String) → map f xs ++ map f ys ≡ map f (xs ++ ys)
map-append f [] ys = refl
map-append f (x ∷ xs) ys = ap (λ l. f x ∷ l) (map-append f xs ys)

joined :
    (r : Rename) (xs ys us vs : List String)
    → us ≡ map (renamed r) xs
    → vs ≡ map (renamed r) ys
    → us ++ vs ≡ map (renamed r) (xs ++ ys)
joined r xs ys us vs p q = (λ i. p i ++ q i) ∙ map-append (renamed r) xs ys

-- The ids of a rewritten subtree are those of the subtree, each renamed, in the same order.
module _ {W : Wire} (r : Rename) where
  mutual
    unfolding rewrite_ids ids

    pub ids-rewrite_ids : (n : Node W) → ids (rewrite_ids r n) ≡ map (renamed r) (ids n)
    ids-rewrite_ids (node i k e b l f t) =
        ap (λ ps. renamed r i ∷ ps)
          (joined r _ _ _ _ (kind_ids k) (joined r _ _ _ _ (opt_ids l) (opt_ids e)))

    kind_ids : (k : Kind W) → ids_kind (rewrite_kind r k) ≡ map (renamed r) (ids_kind k)
    kind_ids (layout k s ns) = nodes_ids ns
    kind_ids (error_boundary c f) = joined r _ _ _ _ (ids-rewrite_ids c) (ids-rewrite_ids f)
    kind_ids (switch s cs d) = joined r _ _ _ _ (cases_ids cs) (ids-rewrite_ids d)
    kind_ids (fragment_decl s b) = ids-rewrite_ids b
    kind_ids (leaf k s) = refl
    kind_ids (mount cs s) = refl

    opt_ids : (o : OptNode W) → ids_opt (rewrite_opt r o) ≡ map (renamed r) (ids_opt o)
    opt_ids absent = refl
    opt_ids (present n) = ids-rewrite_ids n

    nodes_ids : (ns : Nodes W) → ids_nodes (rewrite_nodes r ns) ≡ map (renamed r) (ids_nodes ns)
    nodes_ids nil = refl
    nodes_ids (cons n ns) = joined r _ _ _ _ (ids-rewrite_ids n) (nodes_ids ns)

    cases_ids : (cs : Cases W) → ids_cases (rewrite_cases r cs) ≡ map (renamed r) (ids_cases cs)
    cases_ids no_case = refl
    cases_ids (case c n cs) = joined r _ _ _ _ (ids-rewrite_ids n) (cases_ids cs)

-- A subtree without its ids: every id that a walk meets is blank, and all else stands, a fallback with
-- its ids.
mutual
  pub blank_ids : {W : Wire} → Node W → Node W
  blank_ids (node i k e b l f t) = node "" (blank_kind k) (blank_opt e) b (blank_opt l) f t

  blank_kind : {W : Wire} → Kind W → Kind W
  blank_kind (layout k s ns) = layout k s (blank_nodes ns)
  blank_kind (error_boundary c f) = error_boundary (blank_ids c) (blank_ids f)
  blank_kind (switch s cs d) = switch s (blank_cases cs) (blank_ids d)
  blank_kind (fragment_decl s b) = fragment_decl s (blank_ids b)
  blank_kind (leaf k s) = leaf k s
  blank_kind (mount cs s) = mount cs s

  blank_opt : {W : Wire} → OptNode W → OptNode W
  blank_opt absent = absent
  blank_opt (present n) = present (blank_ids n)

  blank_nodes : {W : Wire} → Nodes W → Nodes W
  blank_nodes nil = nil
  blank_nodes (cons n ns) = cons (blank_ids n) (blank_nodes ns)

  blank_cases : {W : Wire} → Cases W → Cases W
  blank_cases no_case = no_case
  blank_cases (case c n cs) = case c (blank_ids n) (blank_cases cs)

-- A rewrite changes nothing but ids.
module _ {W : Wire} (r : Rename) where
  mutual
    unfolding rewrite_ids blank_ids

    pub rewrite-blank_ids : (n : Node W) → blank_ids (rewrite_ids r n) ≡ blank_ids n
    rewrite-blank_ids (node i k e b l f t) =
        λ j. node "" (blank-kind k j) (blank-opt e j) b (blank-opt l j) f t

    blank-kind : (k : Kind W) → blank_kind (rewrite_kind r k) ≡ blank_kind k
    blank-kind (layout k s ns) = ap (layout k s) (blank-nodes ns)
    blank-kind (error_boundary c f) =
        λ j. error_boundary (rewrite-blank_ids c j) (rewrite-blank_ids f j)
    blank-kind (switch s cs d) = λ j. switch s (blank-cases cs j) (rewrite-blank_ids d j)
    blank-kind (fragment_decl s b) = ap (fragment_decl s) (rewrite-blank_ids b)
    blank-kind (leaf k s) = refl
    blank-kind (mount cs s) = refl

    blank-opt : (o : OptNode W) → blank_opt (rewrite_opt r o) ≡ blank_opt o
    blank-opt absent = refl
    blank-opt (present n) = ap present (rewrite-blank_ids n)

    blank-nodes : (ns : Nodes W) → blank_nodes (rewrite_nodes r ns) ≡ blank_nodes ns
    blank-nodes nil = refl
    blank-nodes (cons n ns) = λ j. cons (rewrite-blank_ids n j) (blank-nodes ns j)

    blank-cases : (cs : Cases W) → blank_cases (rewrite_cases r cs) ≡ blank_cases cs
    blank-cases no_case = refl
    blank-cases (case c n cs) = λ j. case c (rewrite-blank_ids n j) (blank-cases cs j)

-- Each old id is renamed to one that no text of `known` is, no two to the same one, and only an id that
-- the target holds is renamed.
pub record Renames (existing known : List String) (r : Rename) : Type 0 where
  pub new_is_fresh : (old new : String) → renamed_to old r ≡ some new → contains new known ≡ false
  pub news_differ :
      (a b new : String) → renamed_to a r ≡ some new → renamed_to b r ≡ some new → a ≡ b
  pub olds_exist : (old new : String) → renamed_to old r ≡ some new → contains old existing ≡ true

-- Every id seen that the target holds has a new name.
abbrev pub Covers : List String → (String → Bool) → Rename → Type 0
Covers existing seen r =
    (i : String)
    → seen i ≡ true
    → contains i existing ≡ true
    → (new : String) × (renamed_to i r ≡ some new)

-- Ids that stay apart are counted as before.
count_absent :
    (f : String → String) (y : String) (xs : List String)
    → ((x : String) → contains x xs ≡ true → f x ≡ y → ⊥)
    → count y (map f xs) ≡ 0
count_absent f y [] h = refl
count_absent f y (x ∷ xs) h = elim (Bool-cases (f x == y)) [
  | inl e ↦ absurd (h x (ground (arith, eq_refl x)) ((eq_iff (f x) y).0 e))
  | inr e ↦ rw e (omega (arith, count_absent f y xs (λ z c. h z (ground arith))))
]

pub count-renamed :
    (f : String → String) (xs : List String)
    → ((a b : String) → contains a xs ≡ true → contains b xs ≡ true → f a ≡ f b → a ≡ b)
    → ((y : String) → count y xs ≤ 1)
    → (y : String) → count y (map f xs) ≤ 1
count-renamed f [] apart once y = omega arith
count-renamed f (x ∷ xs) apart once y = elim (Bool-cases (f x == y)) [
  | inl e ↦
      let none_more : count x xs ≡ 0 = ground (arith, once x, eq_refl x) in
      let rest = count_absent f y xs (λ z c w.
        let same : x ≡ z =
          apart x z (ground (arith, eq_refl x)) (ground arith) ((eq_iff (f x) y).0 e ∙ sym w) in
        omega (arith, none_more, count-contains z xs c, ap (λ v. count v xs) same)) in
      rw e (omega (arith, rest))
  | inr e ↦ rw e (
      omega (
        arith,
        count-renamed f xs (λ a b p q. apart a b (ground arith) (ground arith))
            (λ z. ground (arith, once z)) y,
      ))
]
