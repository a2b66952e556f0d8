-- ===== src/OpStream/Sink/Order.antt =====
-- A sink's replay does not depend on the order in which the records arrived.
use fuaran_rs.Prelude.{
  ℕ, ◌+◌, ◌≤◌, ◌≡◌, ◌≢◌, refl, sym, ap, ◌∙◌, Bool, true, false, List, [], ◌∷◌, ◌++◌, ◌=?◌,
  if◌then◌else◌, any, arith, Bool-cases, inl, inr,
}
use fuaran_rs.Prelude.Outcome.{ok, >>=-eq-ok, ok-injective, reject_if}
use fuaran_rs.Tree.{Wire}
use fuaran_rs.OpStream.Chain.{Spine, OpRecord}
use fuaran_rs.OpStream.Sink.{insert_by_sequence, sort_by_sequence, within, in_range, store}

unrejected : {E : Type 0} (b : Bool) (e : E) {u : Unit {0}} → reject_if b e ≡ ok u → b ≡ false
unrejected true e h = cc
unrejected false e h = refl

-- The same things in another order.
pub data Rearranged {T : Type 0} : List T → List T → Type 0 where
  none_left : Rearranged [] []
  keep : (x : T) {xs ys : List T} → Rearranged xs ys → Rearranged (x ∷ xs) (x ∷ ys)
  swap : (x y : T) (xs : List T) → Rearranged (x ∷ y ∷ xs) (y ∷ x ∷ xs)
  both : {xs ys zs : List T} → Rearranged xs ys → Rearranged ys zs → Rearranged xs zs

module _ {W : Wire} {S : Spine W} where
  abbrev pub held : ℕ → List (OpRecord S) → ℕ
  held n [] = 0
  held n (r ∷ rs) = (if r.sequence =? n then 1 else 0) + held n rs

  -- No two records have one sequence.
  abbrev pub IsKeyed : List (OpRecord S) → Type 0
  IsKeyed rs = (n : ℕ) → held n rs ≤ 1

  held-append : (n : ℕ) (xs ys : List (OpRecord S)) → held n (xs ++ ys) ≡ held n xs + held n ys
  held-append n [] ys = omega arith
  held-append n (x ∷ xs) ys = omega (arith, held-append n xs ys)

  absent-held :
      (n : ℕ) (rs : List (OpRecord S)) → any (λ q. q.sequence =? n) rs ≡ false → held n rs ≡ 0
  absent-held n [] h = refl
  absent-held n (r ∷ rs) h = ground (arith, absent-held n rs)

  by_key :
      (n m : ℕ) (rs : List (OpRecord S))
      → held m rs ≡ 0
      → held n rs ≤ 1
      → held n rs + ((if m =? n then 1 else 0) + 0) ≤ 1
  by_key n m rs z k = elim (Bool-cases (m =? n)) [
    | inl e ↦ let q : m ≡ n = ground arith in rw e (omega (arith, ap (λ i. held i rs) q))
    | inr e ↦ rw e (omega arith)
  ]

  -- A sink that accepts a record still holds at most one record of each sequence.
  pub store-IsKeyed :
      (r : OpRecord S) (records records' : List (OpRecord S))
      → IsKeyed records
      → store r records ≡ ok records'
      → IsKeyed records'
  unfolding store
  store-IsKeyed r records records' k h n =
      let (u, e, h1) = >>=-eq-ok (reject_if (any (λ q. q.sequence =? r.sequence) records) _) _ h in
      let fresh = absent-held r.sequence records (unrejected _ _ e) in
      rw (sym (ok-injective h1), held-append n records (r ∷ []))
        (by_key n (r.sequence) records fresh (k n))

  held-Rearranged : {xs ys : List (OpRecord S)} → Rearranged xs ys → (n : ℕ) → held n xs ≡ held n ys
  held-Rearranged none_left n = refl
  held-Rearranged (keep x p) n = omega (arith, held-Rearranged p n)
  held-Rearranged (swap x y xs) n = omega arith
  held-Rearranged (both p q) n = held-Rearranged p n ∙ held-Rearranged q n

  tail-IsKeyed : (x : OpRecord S) (xs : List (OpRecord S)) → IsKeyed (x ∷ xs) → IsKeyed xs
  tail-IsKeyed x xs k n = omega (arith, k n)

  swap-insert :
      (a b : OpRecord S) (xs : List (OpRecord S))
      → a.sequence ≢ b.sequence
      → insert_by_sequence a (insert_by_sequence b xs)
        ≡ insert_by_sequence b (insert_by_sequence a xs)
  unfolding insert_by_sequence
  swap-insert a b [] d = ground arith
  swap-insert a b (x ∷ xs) d = ground (arith, swap-insert a b xs)

  split_sequences :
      (a b : OpRecord S) (xs : List (OpRecord S)) → IsKeyed (a ∷ b ∷ xs) → a.sequence ≢ b.sequence
  split_sequences a b xs k e = let q = k b.sequence in ground arith

  pub in_range-cons :
      (from to : ℕ) (r : OpRecord S) (rs : List (OpRecord S))
      → in_range from to (r ∷ rs) ≡ (
          if within from to r
          then insert_by_sequence r (in_range from to rs)
          else in_range from to rs)
  unfolding in_range sort_by_sequence
  in_range-cons from to r rs = ground arith

  -- Sinks that hold the same records, at most one of each sequence, give back the same list for every
  -- range, in whatever order the records arrived.
  pub in_range-Rearranged :
      (from to : ℕ) {xs ys : List (OpRecord S)}
      → IsKeyed xs
      → Rearranged xs ys
      → in_range from to xs ≡ in_range from to ys
  in_range-Rearranged from to k none_left = refl
  in_range-Rearranged from to k (keep x {xs} {ys} p) =
      let ih = in_range-Rearranged from to (tail-IsKeyed x xs k) p in
      rw (in_range-cons from to x xs, in_range-cons from to x ys, ih) refl
  in_range-Rearranged from to k (swap x y xs) =
      let c = swap-insert x y (in_range from to xs) (split_sequences x y xs k) in
      rw
        (
          in_range-cons from to x (y ∷ xs),
          in_range-cons from to y (x ∷ xs),
          in_range-cons from to x xs,
          in_range-cons from to y xs,
        )
        (ground (arith, c))
  in_range-Rearranged from to k (both {xs} {ys} p q) =
      in_range-Rearranged from to k p
      ∙ in_range-Rearranged from to (λ n. rw (sym (held-Rearranged p n)) (k n)) q
