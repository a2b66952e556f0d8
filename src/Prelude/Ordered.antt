-- ===== src/Prelude/Ordered.antt =====
-- `BTreeSet<String>` as the list of its members in order, and which texts it holds.
use Prim.Native.Nat.{Ordering}
use Prim.Native.String.{compare}
use text.Mathlib.Text.{is_eq}
use fuaran_rs.Prelude.{
  String, ◌≡◌, refl, sym, ap, ◌∙◌, Bool, true, false, ◌||◌, List, [], ◌∷◌, ◌==◌, eq_iff,
}
use fuaran_rs.Prelude.Counts.{contains}

-- `insert`: nothing changes where the text is held.
unfoldable pub set_insert : String → List String → List String
set_insert x [] = x ∷ []
set_insert x (y ∷ ys) =
    let rest = set_insert x ys in
    elim (compare x y) [ Ordering.lt ↦ x ∷ y ∷ ys | Ordering.eq ↦ y ∷ ys | Ordering.gt ↦ y ∷ rest ]

-- `extend` and `collect`
unfoldable pub set_extend : List String → List String → List String
unfolding set_insert
set_extend s [] = s
set_extend s (x ∷ xs) = set_extend (set_insert x s) xs

abbrev pub set_of : List String → List String
set_of xs = set_extend [] xs

or_swap : (a b c : Bool) → (a || (b || c)) ≡ (b || (a || c))
or_swap true true c = refl
or_swap true false c = refl
or_swap false true c = refl
or_swap false false c = refl

or_again : (a c : Bool) → (a || c) ≡ (a || (a || c))
or_again true c = refl
or_again false c = refl

or_none : (a : Bool) → a ≡ (a || false)
or_none true = refl
or_none false = refl

or_turn : (a b c : Bool) → ((a || b) || c) ≡ (b || (a || c))
or_turn true true c = refl
or_turn true false c = refl
or_turn false true c = refl
or_turn false false c = refl

pub contains-set_insert :
    (z x : String) (ys : List String) → contains z (set_insert x ys) ≡ ((x == z) || contains z ys)
unfolding set_insert
contains-set_insert z x [] = refl
contains-set_insert z x (y ∷ ys) = go (compare x y) refl (contains-set_insert z x ys)
  where
    go :
        (o : Ordering)
        → compare x y ≡ o
        → contains z (set_insert x ys) ≡ ((x == z) || contains z ys)
        → contains z (elim o [
          | Ordering.lt ↦ x ∷ y ∷ ys
          | Ordering.eq ↦ y ∷ ys
          | Ordering.gt ↦ y ∷ set_insert x ys
        ])
          ≡ ((x == z) || ((y == z) || contains z ys))
    go Ordering.lt e ih = refl
    go Ordering.eq e ih =
        let w : x ≡ y = (eq_iff x y).0 (ap is_eq e) in
        or_again (y == z) (contains z ys)
        ∙ ap (λ v. (v == z) || ((y == z) || contains z ys)) (sym w)
    go Ordering.gt e ih = ap (λ b. (y == z) || b) ih ∙ or_swap (y == z) (x == z) (contains z ys)

pub contains-set_extend :
    (z : String) (s xs : List String)
    → contains z (set_extend s xs) ≡ (contains z s || contains z xs)
unfolding set_extend
contains-set_extend z s [] = or_none (contains z s)
contains-set_extend z s (x ∷ xs) =
    contains-set_extend z (set_insert x s) xs
    ∙ ap (λ b. b || contains z xs) (contains-set_insert z x s)
    ∙ or_turn (x == z) (contains z s) (contains z xs)
