-- ===== src/Placement/Order.antt =====
-- The order that a placement states (src/ops/placement.rs, `reposition`): the siblings, and the node
-- once, in the place named; sorted, it is the order of an append.
use fuaran_rs.Prelude.{
  and_then, ℕ, suc, ◌+◌, ◌≡◌, refl, sym, ap, ◌∙◌, String, Bool, true, false, Bool-cases, inl, inr,
  Option, none, some, List, [], ◌∷◌, ◌++◌, ◌==◌, eq_iff, insert_at, arith, append-nil, append_assoc,
  length, length-append,
}
use fuaran_rs.Prelude.Outcome.{ok, >>=-eq-ok, ok-injective}
use fuaran_rs.Ops.Structural.{sort, insert_sorted}
use fuaran_rs.Placement.{
  Placement, last, first, before, after, position, place_in, require, PlaceError,
}

-- The ordinal order of texts is linear.
pub record IsOrder (le : String → String → Bool) : Type 0 where
  pub total : (x y : String) → le x y ≡ false → le y x ≡ true
  pub antisym : (x y : String) → le x y ≡ true → le y x ≡ true → x ≡ y
  pub trans : (x y z : String) → le x y ≡ true → le y z ≡ true → le x z ≡ true

module _ (le : String → String → Bool) (o : IsOrder le) where
  -- Two texts go into a list in either order.
  insert_sorted_comm :
      (x y : String) (zs : List String)
      → insert_sorted le x (insert_sorted le y zs) ≡ insert_sorted le y (insert_sorted le x zs)
  unfolding insert_sorted
  insert_sorted_comm x y [] = elim (Bool-cases (le x y)) [
    | inl p ↦ elim (Bool-cases (le y x)) [
      | inl q ↦ let w : x ≡ y = o.antisym x y p q in rw p (rw q (λ i. w i ∷ (sym w i ∷ [])))
      | inr q ↦ rw p (rw q refl)
    ]
    | inr p ↦ rw p (rw (o.total x y p) refl)
  ]
  insert_sorted_comm x y (z ∷ zs) = elim (Bool-cases (le y z)) [
    | inl a ↦ elim (Bool-cases (le x z)) [
      | inl b ↦ elim (Bool-cases (le x y)) [
        | inl p ↦ elim (Bool-cases (le y x)) [
          | inl q ↦
              let w : x ≡ y = o.antisym x y p q in
              rw a (rw b (rw p (rw q (λ i. w i ∷ (sym w i ∷ z ∷ zs)))))
          | inr q ↦ rw a (rw b (rw p (rw q (rw a refl))))
        ]
        | inr p ↦ let q = o.total x y p in rw a (rw b (rw p (rw q refl)))
      ]
      | inr b ↦ elim (Bool-cases (le x y)) [
        | inl p ↦ let w : false ≡ true = sym b ∙ o.trans x y z p a in cc
        | inr p ↦ rw a (rw b (rw p (rw a refl)))
      ]
    ]
    | inr a ↦ elim (Bool-cases (le x z)) [
      | inl b ↦ elim (Bool-cases (le y x)) [
        | inl q ↦ let w : false ≡ true = sym a ∙ o.trans y x z q b in cc
        | inr q ↦ rw a (rw b (rw q (rw a refl)))
      ]
      | inr b ↦ rw a (rw b (rw a (ap (λ l. z ∷ l) (insert_sorted_comm x y zs))))
    ]
  ]

  -- Sorted, a text stands where it stands, wherever it was.
  sort-middle :
      (x : String) (xs ys : List String)
      → sort le (xs ++ (x ∷ ys)) ≡ insert_sorted le x (sort le (xs ++ ys))
  unfolding sort
  sort-middle x [] ys = refl
  sort-middle x (z ∷ zs) ys =
      ap (insert_sorted le z) (sort-middle x zs ys) ∙ insert_sorted_comm z x (sort le (zs ++ ys))

  pub sort-moved :
      (x : String) (xs ys : List String)
      → sort le (xs ++ (x ∷ ys)) ≡ sort le ((xs ++ ys) ++ (x ∷ []))
  sort-moved x xs ys =
      sort-middle x xs ys
      ∙ ap (λ l. insert_sorted le x (sort le l)) (sym (append-nil (xs ++ ys)))
      ∙ sym (sort-middle x (xs ++ ys) [])

-- Where a placement puts a node: after `pre` and before `post`.
abbrev pub IsAt : Placement → List String → List String → Type 0
IsAt last pre post = post ≡ []
IsAt first pre post = pre ≡ []
IsAt (before anchor) pre post = (rest : List String) × (post ≡ anchor ∷ rest)
IsAt (after anchor) pre post = (rest : List String) × (pre ≡ rest ++ (anchor ∷ []))

pub record Ordered (siblings wanted : List String) (moved : String) (placement : Placement)
    : Type 0 where
  pub pre : List String
  pub post : List String
  pub around : siblings ≡ pre ++ post
  pub stated : wanted ≡ pre ++ (moved ∷ post)
  pub placed : IsAt placement pre post

pub require-ok {ℓ} :
    {A : Type ℓ} (o : Option A) (e : PlaceError) {a : A} → require o e ≡ ok a → o ≡ some a
require-ok none e h = cc
require-ok (some b) e h = ap some (ok-injective h)

position-split :
    (a : String) (xs : List String) (i : ℕ)
    → position a xs ≡ some i
    → (pre : List String) × (post : List String) × (xs ≡ pre ++ (a ∷ post)) × (length pre ≡ i)
unfolding position
position-split a [] i h = cc
position-split a (x ∷ xs) i h = elim (Bool-cases (x == a)) [
  | inl e ↦
      let w : some 0 ≡ some i = sym (rw e refl) ∙ h in
      ([], xs, ap (λ y. y ∷ xs) ((eq_iff x a).0 e), ground (arith, w))
  | inr e ↦ later (position a xs) refl (position-split a xs) (sym (rw e refl) ∙ h)
]
  where
    later :
        (o : Option ℕ)
        → position a xs ≡ o
        → ((j : ℕ)
            → position a xs ≡ some j
            → (pre : List String) × (post : List String) × (xs ≡ pre ++ (a ∷ post))
              × (length pre ≡ j))
        → and_then o (λ j. some (suc j)) ≡ some i
        → (pre : List String) × (post : List String) × (x ∷ xs ≡ pre ++ (a ∷ post))
          × (length pre ≡ i)
    later none q ih k = cc
    later (some j) q ih k =
        let (pre, post, s, n) = ih j q in
        let w : suc j ≡ i = ground (arith, k) in (x ∷ pre, post, ap (λ l. x ∷ l) s, ap suc n ∙ w)

insert_at-length :
    (x : String) (pre post : List String)
    → insert_at (length pre) x (pre ++ post) ≡ pre ++ (x ∷ post)
insert_at-length x [] post = refl
insert_at-length x (y ∷ ys) post = ap (λ l. y ∷ l) (insert_at-length x ys post)

-- An accepted placement states the siblings with the node once among them, at the place named.
pub place_in-Ordered :
    (moved : String) (rest wanted : List String) (placement : Placement)
    → place_in moved rest placement ≡ ok wanted
    → Ordered rest wanted moved placement
place_in-Ordered moved rest wanted last h = record {
  pre = rest;
  post = [];
  around = sym (append-nil rest);
  stated = sym (ok-injective h);
  placed = refl;
}
place_in-Ordered moved rest wanted first h = record {
  pre = [];
  post = rest;
  around = refl;
  stated = sym (ok-injective h);
  placed = refl;
}
place_in-Ordered moved rest wanted (before a) h =
    let (i, e, k) = >>=-eq-ok (require (position a rest) _) _ h in
    let (pre, post, s, n) = position-split a rest i (require-ok _ _ e) in
    let w : i + 0 ≡ length pre = omega (arith, n) in
    record {
      pre = pre;
      post = a ∷ post;
      around = s;
      stated =
          sym (ok-injective k)
          ∙ (λ j. insert_at (w j) moved (s j))
          ∙ insert_at-length moved pre (a ∷ post);
      placed = (post, refl);
    }
place_in-Ordered moved rest wanted (after a) h =
    let (i, e, k) = >>=-eq-ok (require (position a rest) _) _ h in
    let (pre, post, s, n) = position-split a rest i (require-ok _ _ e) in
    let s' : rest ≡ (pre ++ (a ∷ [])) ++ post = s ∙ sym (append_assoc pre (a ∷ []) post) in
    let w : i + 1 ≡ length (pre ++ (a ∷ [])) = omega (arith, n, length-append {0} pre (a ∷ [])) in
    record {
      pre = pre ++ (a ∷ []);
      post = post;
      around = s';
      stated =
          sym (ok-injective k)
          ∙ (λ j. insert_at (w j) moved (s' j))
          ∙ insert_at-length moved (pre ++ (a ∷ [])) post;
      placed = (pre, refl);
    }
