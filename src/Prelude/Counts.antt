-- ===== src/Prelude/Counts.antt =====
-- How often a text stands in a list of texts: the multiset view of lists of node ids.
use fuaran_rs.Prelude.{
  ℕ, ◌+◌, ◌≤◌, String, ◌≡◌, ap, Bool-cases, inl, inr, not, ◌&&◌, Bool, true, false, List, [], ◌∷◌,
  ◌++◌, arith, ◌==◌, eq_iff, if◌then◌else◌, any,
}

abbrev pub count : String → List String → ℕ
count x [] = 0
count x (y ∷ ys) = (if y == x then 1 else 0) + count x ys

pub count-append : (x : String) (ys zs : List String) → count x (ys ++ zs) ≡ count x ys + count x zs
count-append x [] zs = omega arith
count-append x (y ∷ ys) zs = omega (arith, count-append x ys zs)

abbrev pub contains : String → List String → Bool
contains x xs = any (λ y. y == x) xs

-- A text counted at least once is contained, and the other way round.
pub contains-count : (x : String) (xs : List String) → 1 ≤ count x xs → contains x xs ≡ true
contains-count x [] h = absurd (omega arith)
contains-count x (y ∷ ys) h = ground (arith, contains-count x ys)

pub count-contains : (x : String) (xs : List String) → contains x xs ≡ true → 1 ≤ count x xs
count-contains x [] h = cc
count-contains x (y ∷ ys) h = ground (arith, count-contains x ys)

-- Where no text of `xs` is in `ys`, a text of `xs` does not count in `ys`.
pub count_disjoint :
    (x : String) (xs ys : List String)
    → any (λ y. contains y ys) xs ≡ false
    → 1 ≤ count x xs
    → count x ys ≡ 0
count_disjoint x [] ys h p = absurd (omega arith)
count_disjoint x (z ∷ zs) ys h p = elim (Bool-cases (z == x)) [
  | inl e ↦
      let w : z ≡ x = (eq_iff z x).0 e in
      ground (arith, ap (λ y. contains y ys) w, contains-count x ys)
  | inr e ↦ count_disjoint x zs ys (ground arith) (ground arith)
]

-- Some text of `xs` that passes the test is counted in `xs`, and a test that no text passes is refused
-- at each.
pub any-count :
    (p : String → Bool) (x : String) (xs : List String)
    → any p xs ≡ false
    → 1 ≤ count x xs
    → p x ≡ false
any-count p x [] h c = absurd (omega arith)
any-count p x (z ∷ zs) h c = elim (Bool-cases (z == x)) [
  | inl e ↦ let w : z ≡ x = (eq_iff z x).0 e in ground (arith, ap p w)
  | inr e ↦ any-count p x zs (ground arith) (ground arith)
]

abbrev pub distinct : List String → Bool
distinct [] = true
distinct (x ∷ xs) = not (contains x xs) && distinct xs

-- In a list of distinct texts each counts at most once.
pub distinct-count : (xs : List String) → distinct xs ≡ true → (x : String) → count x xs ≤ 1
distinct-count [] h x = omega arith
distinct-count (y ∷ ys) h x = elim (Bool-cases (y == x)) [
  | inl e ↦
      let w : y ≡ x = (eq_iff y x).0 e in
      ground
        (arith, distinct-count ys (ground arith) x, ap (λ z. contains z ys) w, contains-count x ys)
  | inr e ↦ rw e (omega (arith, distinct-count ys (ground arith) x))
]
