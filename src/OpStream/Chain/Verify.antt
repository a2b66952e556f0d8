-- ===== src/OpStream/Chain/Verify.antt =====
-- What `verify_chain` accepts, and that it accepts what `append` builds.
use fuaran_rs.Prelude.{
  ℕ, ◌+◌, String, ◌≡◌, refl, sym, ap, ◌∙◌, ◌↔◌, Bool, true, false, not, Option, List, [], ◌∷◌, ◌++◌,
  arith, ◌=?◌, ◌==◌, eq_iff, length, last, inl, inr, Bool-cases, subst,
}
use fuaran_rs.Prelude.Outcome.{ok, err, >>=-eq-ok, reject_if, err-injective}
use fuaran_rs.Prelude.Decimal.{ℤ}
use fuaran_rs.Tree.{Wire}
use fuaran_rs.Ops.{TreeOp}
use fuaran_rs.OpStream.Chain.{
  Spine, OpResult, OpRecord, VerificationError, genesis_previous_hash, recompute_hash, hash_or,
  head, append, verify_from, verify_chain, out_of_order, previous_hash_mismatch, hash_mismatch,
}

accepted : {E : Type 0} (b : Bool) (e : E) {u : Unit {0}} → reject_if (not b) e ≡ ok u → b ≡ true
accepted true e h = refl
accepted false e h = cc

in_order : {a b : ℕ} → (a =? b) ≡ true → a ≡ b
in_order h = ground arith

module _ {W : Wire} {S : Spine W} where
  -- A record that continues a chain at sequence `n` after the hash `previous`.
  pub record Continues (n : ℕ) (previous : String) (r : OpRecord S) : Type 0 where
    pub in_order : r.sequence ≡ n
    pub linked : r.previous_hash ≡ previous
    pub sealed : recompute_hash r ≡ r.hash

  abbrev pub IsChained : ℕ → String → List (OpRecord S) → Type 0
  IsChained n previous [] = Unit
  IsChained n previous (r ∷ rs) = Continues n previous r × IsChained (n + 1) r.hash rs

  verify_from-IsChained :
      (n : ℕ) (p : String) (rs : List (OpRecord S)) → verify_from n p rs ≡ ok tt → IsChained n p rs
  unfolding verify_from
  verify_from-IsChained n p [] h = tt
  verify_from-IsChained n p (r ∷ rs) h =
      let (u1, e1, h1) = >>=-eq-ok (reject_if (not (r.sequence =? n)) _) _ h in
      let (u2, e2, h2) = >>=-eq-ok (reject_if (not (r.previous_hash == p)) _) _ h1 in
      let (u3, e3, h3) = >>=-eq-ok (reject_if (not (recompute_hash r == r.hash)) _) _ h2 in
      let order = accepted (r.sequence =? n) _ e1 in
      (
        record {
          in_order = ground arith;
          linked = (eq_iff _ _).0 (accepted (r.previous_hash == p) _ e2);
          sealed = (eq_iff _ _).0 (accepted (recompute_hash r == r.hash) _ e3);
        },
        verify_from-IsChained (n + 1) r.hash rs h3,
      )

  IsChained-verify_from :
      (n : ℕ) (p : String) (rs : List (OpRecord S)) → IsChained n p rs → verify_from n p rs ≡ ok tt
  unfolding verify_from
  IsChained-verify_from n p [] c = refl
  IsChained-verify_from n p (r ∷ rs) c =
      let order : (r.sequence =? n) ≡ true = let e = c.0.in_order in ground arith in
      rw (order, (eq_iff _ _).1 c.0.linked, (eq_iff _ _).1 c.0.sealed)
        (IsChained-verify_from (n + 1) r.hash rs c.1)

  -- `verify_chain` accepts exactly the lists in which each record has the next sequence from 1, names
  -- the hash of the record before it (the genesis hash at the start) and bears the hash of its own
  -- contents.
  pub verify_chain-IsChained :
      (records : List (OpRecord S))
      → (verify_chain records ≡ ok tt) ↔ IsChained 1 genesis_previous_hash records
  unfolding verify_chain
  verify_chain-IsChained records = (
    verify_from-IsChained 1 genesis_previous_hash records,
    IsChained-verify_from 1 genesis_previous_hash records,
  )

  pub last_hash :
      (p : String) (r : OpRecord S) (rs : List (OpRecord S))
      → hash_or p (last (r ∷ rs)) ≡ hash_or r.hash (last rs)
  last_hash p r [] = refl
  last_hash p r (r' ∷ rs) = last_hash p r' rs ∙ sym (last_hash r.hash r' rs)

  IsChained-append :
      (n : ℕ) (p : String) (rs : List (OpRecord S)) (r : OpRecord S)
      → IsChained n p rs
      → Continues (n + length rs) (hash_or p (last rs)) r
      → IsChained n p (rs ++ (r ∷ []))
  IsChained-append n p [] r c k = (subst (λ m. Continues m p r) (omega arith) k, tt)
  IsChained-append n p (q ∷ rs) r c k = (
    c.0,
    IsChained-append (n + 1) q.hash rs r c.1 (
        subst (λ m. Continues m (hash_or q.hash (last rs)) r) (omega arith)
          (subst (λ h. Continues (n + length (q ∷ rs)) h r) (last_hash p q rs) k)),
  )

  -- Appending to a list that verifies gives a list that verifies, whatever is appended.
  pub verify_chain-append :
      (records : List (OpRecord S)) (op : TreeOp W) (ts : ℤ) (actor : S.Actor)
      (prompt_id : Option String) (outcome : OpResult)
      → verify_chain records ≡ ok tt
      → verify_chain (append records op ts actor prompt_id outcome) ≡ ok tt
  unfolding append head recompute_hash
  verify_chain-append records op ts actor prompt_id outcome h = (verify_chain-IsChained _).1 (
      IsChained-append 1 genesis_previous_hash records _ ((verify_chain-IsChained records).0 h)
        (record { in_order = omega arith; linked = refl; sealed = refl }))

  -- What the error of a verification says of the record at fault, which would stand at sequence `n`
  -- after the hash `previous`.
  abbrev pub Blames : VerificationError → ℕ → String → OpRecord S → Type 0
  Blames (out_of_order expected actual) n previous r =
      (expected ≡ n) × (actual ≡ r.sequence) × ((r.sequence =? n) ≡ false)
  Blames (previous_hash_mismatch sequence expected actual) n previous r =
      (sequence ≡ n)
      × (expected ≡ previous)
      × (actual ≡ r.previous_hash)
      × ((actual == expected) ≡ false)
  Blames (hash_mismatch sequence expected actual) n previous r =
      (sequence ≡ n)
      × (expected ≡ recompute_hash r)
      × (actual ≡ r.hash)
      × ((expected == actual) ≡ false)

  -- The longest good start of a list that does not verify, and the record after it.
  pub record Broken (e : VerificationError) (n : ℕ) (previous : String) (rs : List (OpRecord S))
      : Type 0 where
    pub good : List (OpRecord S)
    pub bad : OpRecord S
    pub rest : List (OpRecord S)
    pub parts : rs ≡ good ++ (bad ∷ rest)
    pub good_chain : IsChained n previous good
    pub place : ℕ
    pub place_at : place ≡ n + length good
    pub blame : Blames e place (hash_or previous (last good)) bad

  at_first :
      (n : ℕ) (p : String) (r : OpRecord S) (rs : List (OpRecord S)) {e e' : VerificationError}
      → e' ≡ e
      → Blames e' n p r
      → Broken e n p (r ∷ rs)
  at_first n p r rs q b =
      subst (λ e. Broken e n p (r ∷ rs)) q
        (record {
          good = [];
          bad = r;
          rest = rs;
          parts = refl;
          good_chain = tt;
          place = n;
          place_at = omega arith;
          blame = b;
        })

  later :
      (n : ℕ) (p : String) (r : OpRecord S) (rs : List (OpRecord S)) {e : VerificationError}
      → Continues n p r
      → Broken e (n + 1) r.hash rs
      → Broken e n p (r ∷ rs)
  later n p r rs {e} c b = record {
    good = r ∷ b.good;
    bad = b.bad;
    rest = b.rest;
    parts = ap (λ xs. r ∷ xs) b.parts;
    good_chain = (c, b.good_chain);
    place = b.place;
    place_at = let q = b.place_at in omega arith;
    blame = subst (λ h. Blames e b.place h b.bad) (sym (last_hash p r b.good)) b.blame;
  }

  verify_from-Broken :
      (n : ℕ) (p : String) (rs : List (OpRecord S)) (e : VerificationError)
      → verify_from n p rs ≡ err e
      → Broken e n p rs
  unfolding verify_from
  verify_from-Broken n p [] e h = cc
  verify_from-Broken n p (r ∷ rs) e h = elim (Bool-cases (r.sequence =? n)) [
    | inr o ↦ at_first n p r rs (err-injective (rw o at h)) (refl, refl, o)
    | inl o ↦ elim (Bool-cases (r.previous_hash == p)) [
      | inr l ↦ at_first n p r rs (err-injective (rw (o, l) at h)) (in_order o, refl, refl, l)
      | inl l ↦ elim (Bool-cases (recompute_hash r == r.hash)) [
        | inr s ↦ at_first n p r rs (err-injective (rw (o, l, s) at h)) (in_order o, refl, refl, s)
        | inl s ↦
            let c : Continues n p r = record {
              in_order = in_order o;
              linked = (eq_iff _ _).0 l;
              sealed = (eq_iff _ _).0 s;
            } in
            later n p r rs c (verify_from-Broken (n + 1) r.hash rs e (rw (o, l, s) at h))
      ]
    ]
  ]

  -- Where `verify_chain` refuses a list, the records before the one it blames verify, and that record
  -- is out of order, or names another hash than theirs, or does not bear the hash of its contents; the
  -- error holds the sequence or the hash that was expected and the one that was found.
  pub verify_chain-Broken :
      (records : List (OpRecord S)) (e : VerificationError)
      → verify_chain records ≡ err e
      → Broken e 1 genesis_previous_hash records
  unfolding verify_chain
  verify_chain-Broken records e h = verify_from-Broken 1 genesis_previous_hash records e h
