-- ===== src/Placement/Clone/Minters.antt =====
-- The two minters of src/ops/placement.rs, `DerivedIds` and `SequentialIds`, mint the first of their
-- candidates that is not taken.
use Prim.Native.String.{count, ◌++◌ as ◌<>◌}
use text.Mathlib.TextLemmas.{append_cancel_left, length-append}
use fuaran_rs.Prelude.{
  ℕ, ◌+◌, ◌≡◌, refl, sym, ap, ◌∙◌, String, false, Bool-cases, inl, inr, some, List, ◌=?◌, arith,
}
use fuaran_rs.Prelude.Counts.{contains}
use fuaran_rs.Prelude.Decimal.{show_nat}
use fuaran_rs.Prelude.Decimal.Reads.{show_nat-injective}
use fuaran_rs.Placement.Clone.{
  FreshIds, derived_candidate, mint_derived, derived_ids, SequentialIds, sequential_candidate,
  mint_sequential, sequential_ids,
}
use fuaran_rs.Placement.Clone.Probe.{FirstFree, probe-FirstFree}

-- "-copy" and "-copy-" with digits are never the same text.
bare_numbered : (n : ℕ) → "-copy" ≡ "-copy-" <> show_nat n → ⊥
bare_numbered n h =
    let w : 5 ≡ 6 + count (show_nat n) = ap count h ∙ length-append "-copy-" (show_nat n) in
    omega (arith, w)

derived_numbered :
    (old : String) (m n : ℕ)
    → old <> ("-copy-" <> show_nat m) ≡ old <> ("-copy-" <> show_nat n)
    → m ≡ n
derived_numbered old m n h =
    show_nat-injective m n (append_cancel_left "-copy-" _ _ (append_cancel_left old _ _ h))

derived_candidate-injective :
    (old : String) (m n : ℕ) → derived_candidate old m ≡ derived_candidate old n → m ≡ n
derived_candidate-injective old m n h = elim (Bool-cases (m =? 1)) [
  | inl e ↦ elim (Bool-cases (n =? 1)) [
    | inl f ↦ ground arith
    | inr f ↦
        absurd (bare_numbered n (append_cancel_left old _ _ (sym (rw e refl) ∙ h ∙ rw f refl)))
  ]
  | inr e ↦ elim (Bool-cases (n =? 1)) [
    | inl f ↦
        absurd (bare_numbered m (append_cancel_left old _ _ (sym (rw f refl) ∙ sym h ∙ rw e refl)))
    | inr f ↦ derived_numbered old m n (sym (rw e refl) ∙ h ∙ rw f refl)
  ]
]

sequential_candidate-injective :
    (prefix : String) (m n : ℕ)
    → sequential_candidate prefix m ≡ sequential_candidate prefix n
    → m ≡ n
sequential_candidate-injective prefix m n h =
    show_nat-injective m n (append_cancel_left "-" _ _ (append_cancel_left prefix _ _ h))

-- The default minter ends, and mints the first of `<old>-copy`, `<old>-copy-2` and so on that is not
-- taken.
pub mint_derived-FirstFree :
    (old : String) (taken : List String)
    → (n : ℕ) × (mint_derived old taken ≡ some (derived_candidate old n))
      × FirstFree (derived_candidate old) taken 1 n
unfolding mint_derived
mint_derived-FirstFree old taken =
    let (n, q, f) =
      probe-FirstFree (derived_candidate old) taken (λ m k a b. derived_candidate-injective old m k)
        1 (omega arith) in
    (n, rw q refl, f)

-- The sequential minter ends, and mints the first id from its counter on that is not taken, where the
-- counter then stands.
pub mint_sequential-FirstFree :
    (s : SequentialIds) (taken : List String)
    → (n : ℕ) × (mint_sequential s taken
        ≡ some (sequential_candidate s.prefix n, record s { counter = n }))
      × FirstFree (sequential_candidate s.prefix) taken (s.counter + 1) n
unfolding mint_sequential
mint_sequential-FirstFree s taken =
    let (n, q, f) =
      probe-FirstFree (sequential_candidate s.prefix) taken
        (λ m k a b. sequential_candidate-injective s.prefix m k) (s.counter + 1) (omega arith) in
    (n, rw q refl, f)

-- What the clone verbs rely on: an id is minted, and it is not taken.
pub record Mints (F : FreshIds) : Type 0 where
  pub fresh :
      (s : F.State) (old : String) (taken : List String)
      → (id : String) × (s' : F.State) × (F.mint s old taken ≡ some (id, s'))
        × (contains id taken ≡ false)

pub derived_ids-Mints : Mints derived_ids
derived_ids-Mints = record {
  fresh = λ s old taken.
      let (n, q, f) = mint_derived-FirstFree old taken in
      (derived_candidate old n, s, rw q refl, f.free);
}

pub sequential_ids-Mints : Mints sequential_ids
sequential_ids-Mints = record {
  fresh = λ s old taken.
      let (n, q, f) = mint_sequential-FirstFree s taken in
      (sequential_candidate s.prefix n, record s { counter = n }, q, f.free);
}
