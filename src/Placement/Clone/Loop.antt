-- ===== src/Placement/Clone/Loop.antt =====
-- The loop that mints the new names (src/ops/placement.rs, `remap_for_insert`) keeps what the renaming
-- needs.
use fuaran_rs.Prelude.{
  some-injective, and_then, ◌≡◌, refl, sym, ap, ◌∙◌, String, Bool, true, false, not, ◌&&◌, ◌||◌,
  Bool-cases, Option-cases, inl, inr, Option, some, List, [], ◌∷◌, ◌==◌, eq_iff, eq_refl,
  if◌then◌else◌, is_some, arith,
}
use fuaran_rs.Prelude.Counts.{contains}
use fuaran_rs.Placement.Clone.{FreshIds, Rename, renamed_to, Minting, minted, mint_all}
use fuaran_rs.Placement.Clone.Minters.{Mints}
use fuaran_rs.Placement.Clone.Rename.{Renames, Covers}

-- The renames so far, and the taken ids: those known from the start, and the new names.
pub record Good (F : FreshIds) (existing known : List String) (seen : String → Bool) (m : Minting F)
    : Type 0 where
  pub renames : Renames existing known m.rename
  pub covers : Covers existing seen m.rename
  pub keeps_known : (i : String) → contains i known ≡ true → contains i m.taken ≡ true
  pub holds_news :
      (old new : String) → renamed_to old m.rename ≡ some new → contains new m.taken ≡ true

renamed_head : (i new : String) (r : Rename) → renamed_to i ((i, new) ∷ r) ≡ some new
unfolding renamed_to
renamed_head i new r = rw (eq_refl i) refl

renamed_tail :
    (old i new : String) (r : Rename)
    → (old == i) ≡ false
    → renamed_to i ((old, new) ∷ r) ≡ renamed_to i r
unfolding renamed_to
renamed_tail old i new r e = rw e refl

-- A new name in front of the others.
module _ (old new : String) (r : Rename) where
  data Named (i n : String) : Type 0 where
    newly : old ≡ i → new ≡ n → Named i n
    before : renamed_to i r ≡ some n → Named i n

  named : (i n : String) → renamed_to i ((old, new) ∷ r) ≡ some n → Named i n
  unfolding renamed_to
  named i n h = elim (Bool-cases (old == i)) [
    | inl e ↦ newly ((eq_iff old i).0 e) (some-injective (sym (rw e refl) ∙ h))
    | inr e ↦ before (sym (rw e refl) ∙ h)
  ]

module _ {F : FreshIds} {existing known : List String} {seen : String → Bool} {m : Minting F}
    (g : Good F existing known seen m) where
  module _ (old new : String) (held : contains old existing ≡ true)
      (free : contains new m.taken ≡ false) where
    taken_apart : (n : String) → contains n m.taken ≡ true → new ≡ n → ⊥
    taken_apart n c w = let v : false ≡ true = sym free ∙ ap (λ x. contains x m.taken) w ∙ c in cc

    new_unknown : contains new known ≡ false
    new_unknown = elim (Bool-cases (contains new known)) [
      | inl e ↦ absurd (taken_apart new (g.keeps_known new e) refl)
      | inr e ↦ e
    ]

    extended-Renames : Renames existing known ((old, new) ∷ m.rename)
    extended-Renames = record {
      new_is_fresh = λ i n h. elim (named old new m.rename i n h) [
        | newly p q ↦ ap (λ x. contains x known) (sym q) ∙ new_unknown
        | before b ↦ g.renames.new_is_fresh i n b
      ];
      news_differ = λ a b n h k. elim (named old new m.rename a n h) [
        | newly p q ↦ elim (named old new m.rename b n k) [
          | newly p' q' ↦ sym p ∙ p'
          | before c ↦ absurd (taken_apart n (g.holds_news b n c) q)
        ]
        | before c ↦ elim (named old new m.rename b n k) [
          | newly p q ↦ absurd (taken_apart n (g.holds_news a n c) q)
          | before d ↦ g.renames.news_differ a b n c d
        ]
      ];
      olds_exist = λ i n h. elim (named old new m.rename i n h) [
        | newly p q ↦ ap (λ x. contains x existing) (sym p) ∙ held
        | before b ↦ g.renames.olds_exist i n b
      ];
    }

    extended-Good :
        (s : F.State)
        → Good F existing known
            (λ i. old == i || seen i)
            (record { state = s; taken = new ∷ m.taken; rename = (old, new) ∷ m.rename })
    extended-Good s = record {
      renames = extended-Renames;
      covers = λ i h k. elim (Bool-cases (old == i)) [
        | inl e ↦ (
          new,
          ap (λ x. renamed_to x ((old, new) ∷ m.rename)) (sym ((eq_iff old i).0 e))
              ∙ renamed_head old new m.rename,
        )
        | inr e ↦
            let (n, q) = g.covers i (ground arith) k in (n, renamed_tail old i new m.rename e ∙ q)
      ];
      keeps_known = λ i h. ground (arith, g.keeps_known i h);
      holds_news = λ i n h. elim (named old new m.rename i n h) [
        | newly p q ↦ ground (arith, ap (λ x. x == n) q, eq_refl n)
        | before b ↦ ground (arith, g.holds_news i n b)
      ];
    }

module _ (F : FreshIds) (mints : Mints F) (existing known : List String) where
  -- What the loop does at one id.
  abbrev renaming : String → Minting F → Option (Minting F)
  renaming old m =
      if contains old existing && not (is_some (renamed_to old m.rename))
      then minted F old m (F.mint m.state old m.taken)
      else some m

  unchanged-Good :
      (seen : String → Bool) (old : String) (m : Minting F)
      → Good F existing known seen m
      → (contains old existing ≡ true → (new : String) × (renamed_to old m.rename ≡ some new))
      → Good F existing known (λ i. old == i || seen i) m
  unchanged-Good seen old m g cover = record {
    renames = g.renames;
    covers = λ i h k. elim (Bool-cases (old == i)) [
      | inl e ↦
          let w : old ≡ i = (eq_iff old i).0 e in
          let (n, q) = cover (ap (λ x. contains x existing) w ∙ k) in
          (n, ap (λ x. renamed_to x m.rename) (sym w) ∙ q)
      | inr e ↦ g.covers i (ground arith) k
    ];
    keeps_known = g.keeps_known;
    holds_news = g.holds_news;
  }

  renaming-Good :
      (seen : String → Bool) (old : String) (m : Minting F)
      → Good F existing known seen m
      → (m' : Minting F) × (renaming old m ≡ some m')
        × Good F existing known (λ i. old == i || seen i) m'
  renaming-Good seen old m g = elim (Bool-cases (contains old existing)) [
    | inr e ↦ (
      m,
      rw e refl,
      unchanged-Good seen old m g (λ c. absurd (let w = sym e ∙ c in ground (arith, w))),
    )
    | inl e ↦ elim (Option-cases (renamed_to old m.rename)) [
      | inr (n, q) ↦ (m, rw e (rw q refl), unchanged-Good seen old m g (λ c. (n, q)))
      | inl q ↦
          let (new, s, p, free) = mints.fresh m.state old m.taken in
          (
            record { state = s; taken = new ∷ m.taken; rename = (old, new) ∷ m.rename },
            rw e (rw q (rw p refl)),
            extended-Good g old new e free s,
          )
    ]
  ]

  pub mint_all-Good :
      (olds : List String) (seen : String → Bool) (m : Minting F)
      → Good F existing known seen m
      → (m' : Minting F) × (mint_all F existing olds m ≡ some m')
        × Good F existing known (λ i. contains i olds || seen i) m'
  unfolding mint_all
  mint_all-Good [] seen m g = (m, refl, g)
  mint_all-Good (old ∷ olds) seen m g =
      let (m1, q, g1) = renaming-Good seen old m g in
      let (m2, p, g2) = mint_all-Good olds (λ i. old == i || seen i) m1 g1 in
      (
        m2,
        ap (λ o. and_then o (λ x. mint_all F existing olds x)) q ∙ p,
        record {
          renames = g2.renames;
          covers = λ i h k. g2.covers i (ground arith) k;
          keeps_known = g2.keeps_known;
          holds_news = g2.holds_news;
        },
      )
