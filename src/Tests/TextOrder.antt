-- ===== src/Tests/TextOrder.antt =====
-- The order of texts by their characters is linear.
use Prim.Native.Nat.{zero, suc, Ordering, compare as compare_ℕ}
use Prim.Native.Nat.compare as compare_ℕ
use Prim.Native.Char.{code}
use Prim.Native.String.{[], ◌∷◌, compare, then}
use Prim.Native.String.compare
use text.Mathlib.Text.{is_le}
use text.Mathlib.TextEquality.{path_by_compare}
use fuaran_rs.Prelude.{ℕ, String, ◌≡◌, refl, sym, ap, ◌∙◌, true, false}
use fuaran_rs.Placement.Order.{IsOrder}
use fuaran_rs.Tests.Demo.{text_le}

abbrev flip : Ordering → Ordering
flip Ordering.lt = Ordering.gt
flip Ordering.eq = Ordering.eq
flip Ordering.gt = Ordering.lt

numbers_flip : (m n : ℕ) → compare_ℕ n m ≡ flip (compare_ℕ m n)
numbers_flip zero zero = refl
numbers_flip zero (suc n) = compare_ℕ.suc-zero n ∙ ap flip (sym (compare_ℕ.zero-suc n))
numbers_flip (suc m) zero = compare_ℕ.zero-suc m ∙ ap flip (sym (compare_ℕ.suc-zero m))
numbers_flip (suc m) (suc n) =
    compare_ℕ.suc-suc n m ∙ numbers_flip m n ∙ ap flip (sym (compare_ℕ.suc-suc m n))

then-flip : (o r : Ordering) → then (flip o) (flip r) ≡ flip (then o r)
then-flip Ordering.lt r = refl
then-flip Ordering.eq r = refl
then-flip Ordering.gt r = refl

texts_flip : (s t : String) → compare t s ≡ flip (compare s t)
texts_flip [] [] = refl
texts_flip [] (d ∷ t) = compare.cons-nil d t ∙ ap flip (sym (compare.nil-cons d t))
texts_flip (c ∷ s) [] = compare.nil-cons c s ∙ ap flip (sym (compare.cons-nil c s))
texts_flip (c ∷ s) (d ∷ t) =
    compare.cons-cons d c t s
    ∙ (λ i. then (numbers_flip (code c) (code d) i) (texts_flip s t i))
    ∙ then-flip (compare_ℕ (code c) (code d)) (compare s t)
    ∙ ap flip (sym (compare.cons-cons c d s t))

-- What the first and the last of three compare as, where each is at most the next.
abbrev Composed : Ordering → Ordering → Ordering → Type 0
Composed Ordering.gt p o = Unit {0}
Composed Ordering.lt Ordering.gt o = Unit {0}
Composed Ordering.eq Ordering.gt o = Unit {0}
Composed Ordering.eq Ordering.eq o = o ≡ Ordering.eq
Composed Ordering.eq Ordering.lt o = o ≡ Ordering.lt
Composed Ordering.lt Ordering.eq o = o ≡ Ordering.lt
Composed Ordering.lt Ordering.lt o = o ≡ Ordering.lt

numbers-Composed : (m n k : ℕ) → Composed (compare_ℕ m n) (compare_ℕ n k) (compare_ℕ m k)
numbers-Composed zero zero zero = refl
numbers-Composed zero zero (suc k) = rw (compare_ℕ.zero-suc k) refl
numbers-Composed zero (suc n) zero = rw (compare_ℕ.zero-suc n) (rw (compare_ℕ.suc-zero n) tt)
numbers-Composed zero (suc n) (suc k) =
    rw (compare_ℕ.zero-suc n) (rw (compare_ℕ.zero-suc k) (first (compare_ℕ (suc n) (suc k))))
  where
    first : (p : Ordering) → Composed Ordering.lt p Ordering.lt
    first Ordering.lt = refl
    first Ordering.eq = refl
    first Ordering.gt = tt
numbers-Composed (suc m) zero k = rw (compare_ℕ.suc-zero m) tt
numbers-Composed (suc m) (suc n) zero = rw (compare_ℕ.suc-zero n) (last (compare_ℕ (suc m) (suc n)))
  where
    last : (o : Ordering) → Composed o Ordering.gt (compare_ℕ (suc m) zero)
    last Ordering.lt = tt
    last Ordering.eq = tt
    last Ordering.gt = tt
numbers-Composed (suc m) (suc n) (suc k) =
    rw (compare_ℕ.suc-suc m n)
      (rw (compare_ℕ.suc-suc n k) (rw (compare_ℕ.suc-suc m k) (numbers-Composed m n k)))

then-Composed :
    (a b c r s q : Ordering)
    → Composed a b c
    → Composed r s q
    → Composed (then a r) (then b s) (then c q)
then-Composed Ordering.gt b c r s q h k = tt
then-Composed Ordering.lt Ordering.gt c r s q h k = tt
then-Composed Ordering.eq Ordering.gt c Ordering.lt s q h k = tt
then-Composed Ordering.eq Ordering.gt c Ordering.eq s q h k = tt
then-Composed Ordering.eq Ordering.gt c Ordering.gt s q h k = tt
then-Composed Ordering.lt Ordering.lt c r s q h k = rw h refl
then-Composed Ordering.lt Ordering.eq c r Ordering.lt q h k = rw h refl
then-Composed Ordering.lt Ordering.eq c r Ordering.eq q h k = rw h refl
then-Composed Ordering.lt Ordering.eq c r Ordering.gt q h k = tt
then-Composed Ordering.eq Ordering.lt c Ordering.lt s q h k = rw h refl
then-Composed Ordering.eq Ordering.lt c Ordering.eq s q h k = rw h refl
then-Composed Ordering.eq Ordering.lt c Ordering.gt s q h k = tt
then-Composed Ordering.eq Ordering.eq c r s q h k = rw h k

texts-Composed : (x y z : String) → Composed (compare x y) (compare y z) (compare x z)
texts-Composed [] [] [] = refl
texts-Composed [] [] (e ∷ u) = rw (compare.nil-cons e u) refl
texts-Composed [] (d ∷ t) [] = rw (compare.nil-cons d t) (rw (compare.cons-nil d t) tt)
texts-Composed [] (d ∷ t) (e ∷ u) =
    rw (compare.nil-cons d t) (rw (compare.nil-cons e u) (first (compare (d ∷ t) (e ∷ u))))
  where
    first : (p : Ordering) → Composed Ordering.lt p Ordering.lt
    first Ordering.lt = refl
    first Ordering.eq = refl
    first Ordering.gt = tt
texts-Composed (c ∷ s) [] z = rw (compare.cons-nil c s) tt
texts-Composed (c ∷ s) (d ∷ t) [] = rw (compare.cons-nil d t) (last (compare (c ∷ s) (d ∷ t)))
  where
    last : (o : Ordering) → Composed o Ordering.gt (compare (c ∷ s) [])
    last Ordering.lt = tt
    last Ordering.eq = tt
    last Ordering.gt = tt
texts-Composed (c ∷ s) (d ∷ t) (e ∷ u) = rw (compare.cons-cons c d s t) (
    rw (compare.cons-cons d e t u) (
      rw (compare.cons-cons c e s u) (
        then-Composed _ _ _ _ _ _ (numbers-Composed (code c) (code d) (code e))
          (texts-Composed s t u))))

le_trans : (o p r : Ordering) → Composed o p r → is_le o ≡ true → is_le p ≡ true → is_le r ≡ true
le_trans Ordering.gt p r c h k = cc
le_trans Ordering.lt Ordering.gt r c h k = cc
le_trans Ordering.eq Ordering.gt r c h k = cc
le_trans Ordering.lt Ordering.lt r c h k = rw c refl
le_trans Ordering.lt Ordering.eq r c h k = rw c refl
le_trans Ordering.eq Ordering.lt r c h k = rw c refl
le_trans Ordering.eq Ordering.eq r c h k = rw c refl

le_total : (o : Ordering) → is_le o ≡ false → is_le (flip o) ≡ true
le_total Ordering.lt h = cc
le_total Ordering.eq h = cc
le_total Ordering.gt h = refl

le_antisym : (o : Ordering) → is_le o ≡ true → is_le (flip o) ≡ true → o ≡ Ordering.eq
le_antisym Ordering.lt h k = cc
le_antisym Ordering.eq h k = refl
le_antisym Ordering.gt h k = cc

pub text_le-IsOrder : IsOrder text_le
text_le-IsOrder = record {
  total = λ x y h. ap is_le (texts_flip x y) ∙ le_total (compare x y) h;
  antisym = λ x y h k.
      path_by_compare x y (le_antisym (compare x y) h (ap is_le (sym (texts_flip x y)) ∙ k));
  trans = λ x y z h k. le_trans _ _ _ (texts-Composed x y z) h k;
}
