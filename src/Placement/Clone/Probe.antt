-- ===== src/Placement/Clone/Probe.antt =====
-- The loop of a minter (src/ops/placement.rs, `mint`) finds the first candidate that is not taken: a
-- finite set of ids cannot hold more candidates than it has members.
use fuaran_rs.Prelude.{
  ℕ, zero, suc, ◌+◌, ◌≤◌, ◌<◌, ◌≡◌, refl, ap, ◌∙◌, String, true, false, Bool-cases, inl, inr, some,
  List, [], ◌∷◌, ◌==◌, eq_iff, length, arith, ltb,
}
use fuaran_rs.Prelude.Counts.{contains}
use fuaran_rs.Placement.{others}
use fuaran_rs.Placement.Clone.{probe}

-- Without an id a list is no longer, and shorter where it held the id; it keeps every other id.
length-others : (x : String) (xs : List String) → length (others x xs) ≤ length xs
unfolding others
length-others x [] = omega arith
length-others x (y ∷ ys) = elim (Bool-cases (y == x)) [
  | inl e ↦ rw e (omega (arith, length-others x ys))
  | inr e ↦ rw e (omega (arith, length-others x ys))
]

others_shorter :
    (x : String) (xs : List String) → contains x xs ≡ true → length (others x xs) < length xs
unfolding others
others_shorter x [] h = cc
others_shorter x (y ∷ ys) h = elim (Bool-cases (y == x)) [
  | inl e ↦ rw e (omega (arith, length-others x ys))
  | inr e ↦ rw e (omega (arith, others_shorter x ys (ground arith)))
]

others_other :
    (x z : String) (xs : List String)
    → (z ≡ x → ⊥)
    → contains z xs ≡ true
    → contains z (others x xs) ≡ true
unfolding others
others_other x z [] d h = cc
others_other x z (y ∷ ys) d h = elim (Bool-cases (y == x)) [
  | inl e ↦ rw e (others_other x z ys d (ground (arith, eq_iff y x, eq_iff y z)))
  | inr e ↦ rw e (ground (arith, others_other x z ys d))
]

-- `n` is the first number, from `from` on, whose candidate is not taken.
pub record FirstFree (candidate : ℕ → String) (taken : List String) (from n : ℕ) : Type 0 where
  pub from_on : from ≤ n
  pub free : contains (candidate n) taken ≡ false
  pub earlier : (m : ℕ) → from ≤ m → m < n → contains (candidate m) taken ≡ true

module _ (candidate : ℕ → String) (taken : List String)
    (injective : (m n : ℕ) → 1 ≤ m → 1 ≤ n → candidate m ≡ candidate n → m ≡ n) where
  -- The ids that are taken and not yet met are in `left`, which has fewer members than the fuel.
  probe-left :
      (fuel n : ℕ) (left : List String)
      → 1 ≤ n
      → length left < fuel
      → ((m : ℕ) → n ≤ m → contains (candidate m) taken ≡ true → contains (candidate m) left ≡ true)
      → (k : ℕ) × (probe candidate taken fuel n ≡ some k) × FirstFree candidate taken n k
  unfolding probe
  probe-left zero n left p h w = absurd (omega arith)
  probe-left (suc fuel) n left p h w = elim (Bool-cases (contains (candidate n) taken)) [
    | inl e ↦
        let here = w n (omega arith) e in
        let (k, q, f) =
          probe-left fuel (n + 1) (others (candidate n) left) (omega arith)
            (omega (arith, others_shorter (candidate n) left here))
            (λ m b c.
              others_other (candidate n) (candidate m) left
                (λ z. let u = injective m n (omega arith) p z in omega (arith, u))
                (w m (omega arith) c)) in
        (
          k,
          rw e q,
          record {
            from_on = omega (arith, f.from_on);
            free = f.free;
            earlier = λ m b c. elim (Bool-cases (ltb n m)) [
              | inl g ↦ f.earlier m (ground arith) c
              | inr g ↦ let z : m ≡ n = ground arith in ap (λ j. contains (candidate j) taken) z ∙ e
            ];
          },
        )
    | inr e ↦ (
      n,
      rw e refl,
      record { from_on = omega arith; free = e; earlier = λ m b c. absurd (omega arith) },
    )
  ]

  -- With one more step than there are taken ids, the loop finds the first free number.
  pub probe-FirstFree :
      (from : ℕ)
      → 1 ≤ from
      → (k : ℕ) × (probe candidate taken (length taken + 1) from ≡ some k)
        × FirstFree candidate taken from k
  probe-FirstFree from p = probe-left (length taken + 1) from taken p (omega arith) (λ m b c. c)
