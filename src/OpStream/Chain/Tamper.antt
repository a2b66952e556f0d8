-- ===== src/OpStream/Chain/Tamper.antt =====
-- Tamper evidence: two verified streams with one head hash hold the same contents, or `link` collides.
use Prim.Native.String.{◌++◌ as ◌<>◌}
use fuaran_rs.Prelude.{
  ℕ, ◌+◌, ◌-◌, Option, String, ◌≡◌, refl, sym, ap, ◌∙◌, false, List, [], ◌∷◌, ◌==◌, eq_iff, length,
  last, ◌⊎◌, inl, inr, Bool-cases, arith, map,
}
use fuaran_rs.Prelude.Outcome.{ok}
use fuaran_rs.Prelude.Decimal.{ℤ, show_nat, show_int}
use fuaran_rs.Tree.{Wire}
use fuaran_rs.Ops.{TreeOp}
use fuaran_rs.OpStream.Chain.{
  Spine, OpResult, success, failure, OpRecord, genesis_previous_hash, encode_result, encode_prompt,
  encode_stream_entry, entry_payload, compute_hash, recompute_hash, payload_of, hash_or, head,
  verify_chain,
}
use fuaran_rs.OpStream.Chain.Verify.{Continues, IsChained, verify_chain-IsChained, last_hash}

-- Two different inputs that `link` gives one hash.
pub record Collision {W : Wire} (S : Spine W) : Type 0 where
  pub previous : String
  pub previous' : String
  pub payload : String
  pub payload' : String
  pub differ : (previous ≡ previous') × (payload ≡ payload') → ⊥
  pub collide : S.link previous payload ≡ S.link previous' payload'

-- Two different contents of one index that `payload` gives one text.
pub record Confusion {W : Wire} (S : Spine W) : Type 0 where
  pub index : ℕ
  pub actor : String
  pub actor' : String
  pub entry : String
  pub entry' : String
  pub differ : (actor ≡ actor') × (entry ≡ entry') → ⊥
  pub confuse : S.payload index actor entry ≡ S.payload index actor' entry'

module _ {W : Wire} (S : Spine W) where
  abbrev pub result_text : OpResult → String
  result_text success = "{\"kind\":\"success\"}"
  result_text (failure code message) =
      "{\"kind\":\"failure\",\"code\":"
      <> S.escape_string code
      <> ",\"message\":"
      <> S.escape_string message
      <> "}"

  -- The entry of the second format, field by field.
  abbrev pub entry_text : TreeOp W → ℤ → Option String → OpResult → String
  entry_text op ts prompt_id outcome =
      "{\"v\":"
      <> "2"
      <> ",\"op\":"
      <> S.encode_op op
      <> ",\"ts\":"
      <> show_int ts
      <> ",\"promptId\":"
      <> encode_prompt S prompt_id
      <> ",\"result\":"
      <> result_text outcome
      <> "}"

  abbrev entry_of : OpRecord S → String
  entry_of r = entry_text r.op r.timestamp_unix_seconds r.prompt_id r.outcome

  result_text-eq : (o : OpResult) → encode_result S o ≡ result_text o
  unfolding encode_result
  result_text-eq success = refl
  result_text-eq (failure code message) = refl

  entry_text-eq :
      (op : TreeOp W) (ts : ℤ) (prompt_id : Option String) (outcome : OpResult)
      → encode_stream_entry S op ts prompt_id outcome ≡ entry_text op ts prompt_id outcome
  unfolding encode_stream_entry show_nat
  entry_text-eq op ts prompt_id outcome =
      ap
        (λ x.
          "{\"v\":"
          <> "2"
          <> ",\"op\":"
          <> S.encode_op op
          <> ",\"ts\":"
          <> show_int ts
          <> ",\"promptId\":"
          <> encode_prompt S prompt_id
          <> ",\"result\":"
          <> x
          <> "}")
        (result_text-eq outcome)

-- What a record says: its place, its actor, and its entry with the op, the time, the prompt and the
-- outcome.
abbrev pub said : {W : Wire} {S : Spine W} → OpRecord S → ℕ × String × String
said {S} r = (r.sequence, S.encode_actor r.actor, entry_of S r)

false-≢ : (a b : String) → (a == b) ≡ false → a ≡ b → ⊥
false-≢ a b h e = let t = (eq_iff a b).1 e in cc

module _ {W : Wire} {S : Spine W} where
  split_link :
      (p p' x x' : String) → S.link p x ≡ S.link p' x' → Collision S ⊎ ((p ≡ p') × (x ≡ x'))
  split_link p p' x x' h = elim (Bool-cases (p == p')) [
    | inr n ↦ inl (record {
      previous = p;
      previous' = p';
      payload = x;
      payload' = x';
      differ = λ e. false-≢ p p' n e.0;
      collide = h;
    })
    | inl e ↦ elim (Bool-cases (x == x')) [
      | inr n ↦ inl (record {
        previous = p;
        previous' = p';
        payload = x;
        payload' = x';
        differ = λ e. false-≢ x x' n e.1;
        collide = h;
      })
      | inl e' ↦ inr ((eq_iff p p').0 e, (eq_iff x x').0 e')
    ]
  ]

  payload_text :
      (r : OpRecord S)
      → payload_of r ≡ S.payload (r.sequence - 1) (S.encode_actor r.actor) (entry_of S r)
  unfolding entry_payload
  payload_text r =
      ap (S.payload (r.sequence - 1) (S.encode_actor r.actor))
        (entry_text-eq S r.op r.timestamp_unix_seconds r.prompt_id r.outcome)

  split_payload :
      (n : ℕ) (a a' e e' : String)
      → S.payload n a e ≡ S.payload n a' e'
      → Confusion S ⊎ ((a ≡ a') × (e ≡ e'))
  split_payload n a a' e e' h = elim (Bool-cases (a == a')) [
    | inr f ↦ inl (record {
      index = n;
      actor = a;
      actor' = a';
      entry = e;
      entry' = e';
      differ = λ p. false-≢ a a' f p.0;
      confuse = h;
    })
    | inl f ↦ elim (Bool-cases (e == e')) [
      | inr g ↦ inl (record {
        index = n;
        actor = a;
        actor' = a';
        entry = e;
        entry' = e';
        differ = λ p. false-≢ e e' g p.1;
        confuse = h;
      })
      | inl g ↦ inr ((eq_iff a a').0 f, (eq_iff e e').0 g)
    ]
  ]

  same_said :
      (r r' : OpRecord S)
      → r.sequence ≡ r'.sequence
      → payload_of r ≡ payload_of r'
      → Confusion S ⊎ (said r ≡ said r')
  same_said r r' q h =
      elim (split_payload (r.sequence - 1) (S.encode_actor r.actor) (S.encode_actor r'.actor)
        (entry_of S r) (entry_of S r')
        (sym (payload_text r)
          ∙ h
          ∙ payload_text r'
          ∙ ap (λ n. S.payload (n - 1) (S.encode_actor r'.actor) (entry_of S r')) (sym q))) [
            | inl k ↦ inl k
            | inr (a, e) ↦ inr (λ i. (q i, a i, e i))
          ]

  sealed_by :
      (n : ℕ) (p : String) (r : OpRecord S) → Continues n p r → r.hash ≡ S.link p (payload_of r)
  unfolding recompute_hash compute_hash
  sealed_by n p r c = sym c.sealed ∙ ap (λ q. S.link q (payload_of r)) c.linked

  same_from :
      (n : ℕ) (p p' : String) (rs rs' : List (OpRecord S))
      → IsChained n p rs
      → IsChained n p' rs'
      → length rs ≡ length rs'
      → hash_or p (last rs) ≡ hash_or p' (last rs')
      → Collision S ⊎ (Confusion S ⊎ ((p ≡ p') × (map said rs ≡ map said rs')))
  same_from n p p' [] [] c c' l h = inr (inr (h, refl))
  same_from n p p' [] (r ∷ rs) c c' l h = absurd (omega arith)
  same_from n p p' (r ∷ rs) [] c c' l h = absurd (omega arith)
  same_from n p p' (r ∷ rs) (r' ∷ rs') c c' l h =
      let ih =
        same_from (n + 1) r.hash r'.hash rs rs' c.1 c'.1 (omega arith)
          (sym (last_hash p r rs) ∙ h ∙ last_hash p' r' rs') in
      elim ih [
        | inl k ↦ inl k
        | inr (inl k) ↦ inr (inl k)
        | inr (inr (e, es)) ↦
            elim (split_link p p' (payload_of r) (payload_of r')
              (sym (sealed_by n p r c.0) ∙ e ∙ sealed_by n p' r' c'.0)) [
                | inl k ↦ inl k
                | inr (q, x) ↦ elim (same_said r r' (c.0.in_order ∙ sym c'.0.in_order) x) [
                  | inl k ↦ inr (inl k)
                  | inr y ↦ inr (inr (q, λ i. y i ∷ es i))
                ]
              ]
      ]

  -- Two lists of the same length that both verify and have the same head hash say the same, record by
  -- record: the same sequence, the same text of the actor, and the same text of the entry, which holds
  -- the op, the time, the prompt and the outcome; or else two different inputs are at hand to which
  -- `link` gives one hash, or two different pairs of an actor's text and an entry's to which `payload`
  -- gives one text at one index.
  pub head-tamper :
      (records records' : List (OpRecord S))
      → verify_chain records ≡ ok tt
      → verify_chain records' ≡ ok tt
      → length records ≡ length records'
      → head records ≡ head records'
      → Collision S ⊎ (Confusion S ⊎ (map said records ≡ map said records'))
  unfolding head
  head-tamper records records' v v' l h =
      elim (same_from 1 genesis_previous_hash genesis_previous_hash records records'
        ((verify_chain-IsChained records).0 v) ((verify_chain-IsChained records').0 v') l h) [
          | inl k ↦ inl k
          | inr (inl k) ↦ inr (inl k)
          | inr (inr (e, es)) ↦ inr (inr es)
        ]
