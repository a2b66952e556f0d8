-- ===== src/Merge/News.antt =====
-- The ids that the sides of a merge bring in (src/dag/merge.rs, `merge3`): where no id comes from both,
-- their children are taken as they are.
use fuaran_rs.Prelude.{
  ◌≡◌, refl, sym, ap, ◌∙◌, subst, String, Bool, true, false, not, ◌&&◌, ◌||◌, Bool-cases, inl, inr,
  Option, none, some, List, [], ◌∷◌, ◌++◌, map, ◌==◌, eq_iff, if◌then◌else◌, arith, any, filter,
}
use fuaran_rs.Prelude.Counts.{contains, any-count, count-contains}
use fuaran_rs.Tree.{Wire, Node}
use fuaran_rs.Ops.Structural.{sort, insert_sorted, same_texts}
use fuaran_rs.Merge.{Canonical}
use fuaran_rs.Merge.Children.{
  map_get, Child, child_map, ids_of, merge_insert, recurse_child, merge_ids, push_new,
}
use fuaran_rs.Merge.Steps.{map_get-none, child_map-ids}
use fuaran_rs.Merge.Quiet.{IsQuiet, none-append}

==-sym : (x y : String) → (x == y) ≡ (y == x)
==-sym x y = ground (arith, eq_iff x y, eq_iff y x)

pub same_texts_sym : (xs ys : List String) → same_texts xs ys ≡ same_texts ys xs
unfolding same_texts
same_texts_sym [] [] = refl
same_texts_sym [] (y ∷ ys) = refl
same_texts_sym (x ∷ xs) [] = refl
same_texts_sym (x ∷ xs) (y ∷ ys) = rw (==-sym x y) (rw (same_texts_sym xs ys) refl)

any-or :
    (p q : String → Bool) (xs : List String) → any (λ i. p i || q i) xs ≡ (any p xs || any q xs)
any-or p q [] = refl
any-or p q (x ∷ xs) = ground (arith, any-or p q xs)

any-false : (xs : List String) → any (λ i. false) xs ≡ false
any-false [] = refl
any-false (x ∷ xs) = any-false xs

any-is : (x : String) (ys : List String) → any (λ i. x == i) ys ≡ contains x ys
any-is x [] = refl
any-is x (y ∷ ys) = λ i. ==-sym x y i || any-is x ys i

-- To share a text is symmetric.
pub share_sym : (xs ys : List String) → any (λ i. contains i xs) ys ≡ any (λ i. contains i ys) xs
share_sym [] ys = any-false ys
share_sym (x ∷ xs) ys =
    any-or (λ i. x == i) (λ i. contains i xs) ys ∙ (λ i. any-is x ys i || share_sym xs ys i)

contains-filter :
    (i : String) (p : String → Bool) (xs : List String)
    → contains i (filter p xs) ≡ (contains i xs && p i)
contains-filter i p [] = refl
contains-filter i p (x ∷ xs) = elim (Bool-cases (x == i)) [
  | inl e ↦
      let w : p x ≡ p i = ap p ((eq_iff x i).0 e) in ground (arith, w, e, contains-filter i p xs)
  | inr e ↦ ground (arith, e, contains-filter i p xs)
]

contains-append :
    (i : String) (xs ys : List String) → contains i (xs ++ ys) ≡ (contains i xs || contains i ys)
contains-append i [] ys = refl
contains-append i (x ∷ xs) ys = ground (arith, contains-append i xs ys)

-- Ids pushed come from one of the two lists.
contains-push_new :
    (i : String) (news is : List String)
    → contains i (push_new news is) ≡ true
    → (contains i news || contains i is) ≡ true
unfolding push_new
contains-push_new i news [] h = ground (arith, h)
contains-push_new i news (j ∷ js) h =
    let ih = contains-push_new i (if contains j news then news else news ++ (j ∷ [])) js h in
    elim (Bool-cases (contains j news)) [
      | inl e ↦
          let k : (contains i news || contains i js) ≡ true =
            subst (λ b. (contains i (if b then news else news ++ (j ∷ [])) || contains i js) ≡ true)
              e ih in
          ground (arith, k)
      | inr e ↦
          let k : (contains i (news ++ (j ∷ [])) || contains i js) ≡ true =
            subst (λ b. (contains i (if b then news else news ++ (j ∷ [])) || contains i js) ≡ true)
              e ih in
          ground (arith, k, contains-append i news (j ∷ []))
    ]

module _ (le : String → String → Bool) where
  contains-insert_sorted :
      (i x : String) (xs : List String)
      → contains i (insert_sorted le x xs) ≡ ((x == i) || contains i xs)
  unfolding insert_sorted
  contains-insert_sorted i x [] = refl
  contains-insert_sorted i x (y ∷ ys) = ground (arith, contains-insert_sorted i x ys)

  contains-sort : (i : String) (xs : List String) → contains i (sort le xs) ≡ contains i xs
  unfolding sort
  contains-sort i [] = refl
  contains-sort i (x ∷ xs) =
      contains-insert_sorted i x (sort le xs) ∙ ap (λ b. (x == i) || b) (contains-sort i xs)

module _ {W : Wire} (K : Canonical W) (m : List (String × Child W)) (a b : Node W) where
  merge_ids-on :
      (is : List String)
      → ((i : String) → contains i is ≡ true → IsQuiet (recurse_child K m a b i))
      → IsQuiet (merge_ids K m a b is)
  unfolding merge_ids
  merge_ids-on [] h = refl
  merge_ids-on (i ∷ is) h = none-append _ _ (h i (ground (arith, (eq_iff i i).1 refl))) (
      none-append _ _
        (merge_ids-on is (λ (j : String) (k : contains j is ≡ true). h j (ground (arith, k)))) refl)

  insert_left : (i : String) (o : Option (Node W)) → IsQuiet (merge_insert K i o none)
  unfolding merge_insert
  insert_left i none = refl
  insert_left i (some n) = refl

  insert_right : (i : String) (o : Option (Node W)) → IsQuiet (merge_insert K i none o)
  unfolding merge_insert
  insert_right i none = refl
  insert_right i (some n) = refl

  absent :
      (n : Node W) (i : String) → contains i (ids_of n) ≡ false → map_get (child_map n) i ≡ none
  absent n i h = map_get-none (child_map n) i (ap (contains i) (child_map-ids K n) ∙ h)

  -- An id that neither the base nor one of the sides has.
  recurse_new :
      (i : String)
      → map_get m i ≡ none
      → (contains i (ids_of a) && contains i (ids_of b)) ≡ false
      → IsQuiet (recurse_child K m a b i)
  unfolding recurse_child
  recurse_new i e h = elim (Bool-cases (contains i (ids_of a))) [
    | inl p ↦
        let q : contains i (ids_of b) ≡ false = ground (arith, p, h) in
        rw (e, recurse_child) (rw (absent b i q) (insert_left i (map_get (child_map a) i)))
    | inr p ↦ rw (e, recurse_child) (rw (absent a i p) (insert_right i (map_get (child_map b) i)))
  ]

  -- No new id comes from both sides.
  pub merge_news :
      (base_ids : List String)
      → map (λ (e : String × Child W). e.0) m ≡ base_ids
      → any
          (λ i. contains i (filter (λ i. not (contains i base_ids)) (ids_of a)))
          (filter (λ i. not (contains i base_ids)) (ids_of b))
        ≡ false
      → IsQuiet (
          merge_ids K m a b (
            sort K.ordinal_le (
              push_new
                (filter (λ i. not (contains i base_ids)) (ids_of a))
                (filter (λ i. not (contains i base_ids)) (ids_of b)))))
  merge_news base_ids keys h =
      let new = λ (i : String). not (contains i base_ids) in
      let a_new = filter new (ids_of a) in
      let b_new = filter new (ids_of b) in
      merge_ids-on (sort K.ordinal_le (push_new a_new b_new)) λ (i : String) (k : _).
        new_quiet i a_new b_new new (contains-filter i new (ids_of a))
          (contains-filter i new (ids_of b)) (λ n. map_get-none m i (ap (contains i) keys ∙ n)) refl
          (contains-push_new i a_new b_new
            (sym (contains-sort K.ordinal_le i (push_new a_new b_new)) ∙ k))
          (λ c. any-count (λ j. contains j a_new) i b_new h (count-contains i b_new c))
    where
      new_quiet :
          (i : String) (a_new b_new : List String) (new : String → Bool)
          → contains i a_new ≡ (contains i (ids_of a) && new i)
          → contains i b_new ≡ (contains i (ids_of b) && new i)
          → (contains i base_ids ≡ false → map_get m i ≡ none)
          → new i ≡ not (contains i base_ids)
          → (contains i a_new || contains i b_new) ≡ true
          → (contains i b_new ≡ true → contains i a_new ≡ false)
          → IsQuiet (recurse_child K m a b i)
      new_quiet i a_new b_new new fa fb g n o d = elim (Bool-cases (contains i b_new)) [
        | inl c ↦
            let e = d c in
            recurse_new i (g (ground (arith, fb, n, c))) (ground (arith, fa, fb, n, c, e))
        | inr c ↦ recurse_new i (g (ground (arith, fa, n, o, c))) (ground (arith, fa, fb, n, c, o))
      ]
