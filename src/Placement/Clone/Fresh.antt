-- ===== src/Placement/Clone/Fresh.antt =====
-- The clone verbs place a subtree whose ids are new to the tree (src/ops/placement.rs,
-- `remap_for_insert`, `paste_op_with`, `duplicate_op_with`).
use fuaran_rs.Prelude.{
  ◌≤◌, ◌≡◌, refl, sym, ap, ◌∙◌, String, Bool, true, false, ◌||◌, Bool-cases, Option-cases, inl, inr,
  none, some, List, [], ◌∷◌, ◌++◌, map, find, eq_refl, arith, subst,
}
use fuaran_rs.Prelude.Counts.{contains, count}
use fuaran_rs.Tree.{Wire, Node}
use fuaran_rs.Tree.Walk.{ids}
use fuaran_rs.Ops.Unique.{IsUnique}
use fuaran_rs.Placement.{first_shared_id}
use fuaran_rs.Placement.Clone.{Rename, renamed_to, renamed, rewritten}
use fuaran_rs.Placement.Clone.Rename.{
  Renames, Covers, blank_ids, rewrite-blank_ids, ids-rewrite_ids, count-renamed,
}

contains-append :
    (i : String) (xs ys : List String) → contains i (xs ++ ys) ≡ (contains i xs || contains i ys)
contains-append i [] ys = refl
contains-append i (x ∷ xs) ys = ground (arith, contains-append i xs ys)

find_map :
    (p : String → Bool) (f : String → String) (xs : List String)
    → ((x : String) → contains x xs ≡ true → p (f x) ≡ false)
    → find p (map f xs) ≡ none
find_map p f [] h = refl
find_map p f (x ∷ xs) h =
    rw (h x (ground (arith, eq_refl x))) (find_map p f xs (λ z c. h z (ground arith)))

map_same : (xs : List String) → map (renamed []) xs ≡ xs
unfolding renamed_to
map_same [] = refl
map_same (x ∷ xs) = ap (λ l. x ∷ l) (map_same xs)

module _ {W : Wire} where
  pub ids-rewritten : (r : Rename) (n : Node W) → ids (rewritten r n) ≡ map (renamed r) (ids n)
  ids-rewritten [] n = sym (map_same (ids n))
  ids-rewritten (x ∷ r) n = ids-rewrite_ids (x ∷ r) n

  pub rewritten-blank_ids : (r : Rename) (n : Node W) → blank_ids (rewritten r n) ≡ blank_ids n
  rewritten-blank_ids [] n = refl
  rewritten-blank_ids (x ∷ r) n = rewrite-blank_ids (x ∷ r) n

  module _ (target_root incoming : Node W) where
    abbrev pub all_known : List String
    all_known = ids target_root ++ ids incoming

    module _ {r : Rename} (g : Renames (ids target_root) all_known r)
        (c : Covers (ids target_root) (λ i. contains i (ids incoming) || false) r) where
      renamed_by : (x new : String) → renamed_to x r ≡ some new → renamed r x ≡ new
      renamed_by x new h = rw h refl

      kept : (x : String) → renamed_to x r ≡ none → renamed r x ≡ x
      kept x h = rw h refl

      known_apart :
          (new : String)
          → contains new all_known ≡ false
          → (contains new (ids target_root) ≡ false) × (contains new (ids incoming) ≡ false)
      known_apart new h =
          let w = contains-append new (ids target_root) (ids incoming) in
          (ground (arith, h, w), ground (arith, h, w))

      -- A renamed id of the subtree is not in the target.
      renamed_new :
          (x : String)
          → contains x (ids incoming) ≡ true
          → contains (renamed r x) (ids target_root) ≡ false
      renamed_new x h = elim (Option-cases (renamed_to x r)) [
        | inr (new, q) ↦
            ap (λ i. contains i (ids target_root)) (renamed_by x new q)
            ∙ (known_apart new (g.new_is_fresh x new q)).0
        | inl q ↦
            ap (λ i. contains i (ids target_root)) (kept x q)
            ∙ elim (Bool-cases (contains x (ids target_root))) [
              | inl e ↦
                  let (new, p) = c x (ground (arith, h)) e in
                  absurd (let w : none ≡ some new = sym q ∙ p in cc)
              | inr e ↦ e
            ]
      ]

      -- No two ids of the subtree are renamed to the same one.
      renamed_apart :
          (a b : String)
          → contains a (ids incoming) ≡ true
          → contains b (ids incoming) ≡ true
          → renamed r a ≡ renamed r b
          → a ≡ b
      renamed_apart a b h k w = elim (Option-cases (renamed_to a r)) [
        | inr (m, p) ↦ elim (Option-cases (renamed_to b r)) [
          | inr (n, q) ↦
              g.news_differ a b n (p ∙ ap some (sym (renamed_by a m p) ∙ w ∙ renamed_by b n q)) q
          | inl q ↦ absurd (crossed a b m h k p (sym (renamed_by a m p) ∙ w ∙ kept b q))
        ]
        | inl p ↦ elim (Option-cases (renamed_to b r)) [
          | inr (n, q) ↦ absurd (crossed b a n k h q (sym (renamed_by b n q) ∙ sym w ∙ kept a p))
          | inl q ↦ sym (kept a p) ∙ w ∙ kept b q
        ]
      ]
        where
          crossed :
              (a b m : String)
              → contains a (ids incoming) ≡ true
              → contains b (ids incoming) ≡ true
              → renamed_to a r ≡ some m
              → m ≡ b
              → ⊥
          crossed a b m h k p w =
              let v : false ≡ true =
                sym (known_apart m (g.new_is_fresh a m p)).1
                ∙ ap (λ i. contains i (ids incoming)) w
                ∙ k in
              cc

      pub clone-unshared : first_shared_id target_root (rewritten r incoming) ≡ none
      clone-unshared =
          ap (find (λ i. contains i (ids target_root))) (ids-rewritten r incoming)
          ∙ find_map (λ i. contains i (ids target_root)) (renamed r) (ids incoming) renamed_new

      pub clone-IsUnique : IsUnique incoming → IsUnique (rewritten r incoming)
      clone-IsUnique u y =
          subst (λ l. count y l ≤ 1) (sym (ids-rewritten r incoming))
            (count-renamed (renamed r) (ids incoming) renamed_apart u y)
