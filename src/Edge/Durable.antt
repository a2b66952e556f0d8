-- ===== src/Edge/Durable.antt =====
-- What a durable session's store holds, what an activation makes of it, and that ops and checkpoints
-- keep it (src/edge/mod.rs).
use fuaran_rs.Prelude.{
  ℕ, ◌+◌, ◌<◌, String, ◌≡◌, refl, sym, ap, ◌∙◌, true, false, Option, some, List, [], ◌∷◌, ◌++◌,
  length, ltb, filter, arith, subst, append-nil, append_assoc,
}
use fuaran_rs.Prelude.Outcome.{ok, map_err, map_err-eq-ok, >>=-eq-ok, ok-injective}
use fuaran_rs.Prelude.Decimal.{ℤ}
use fuaran_rs.Tree.{Wire, Node}
use fuaran_rs.Ops.{Telemetry}
use fuaran_rs.Ops.Apply.{Tables, apply}
use fuaran_rs.OpStream.Chain.{Spine, OpRecord, verify_chain, genesis_previous_hash, append, success}
use fuaran_rs.OpStream.Chain.Verify.{IsChained, verify_chain-IsChained, verify_chain-append}
use fuaran_rs.OpStream.Replay.{replay}
use fuaran_rs.OpStream.Replay.Laws.{replay-append}
use fuaran_rs.Edge.{
  Codec, Checkpoint, SessionStore, Lawful, EdgeSession, base_of, activate, next_record, apply_op,
  take_checkpoint, decode_failed, client_failed, store_failed,
}

-- Decoding a document that the codec encoded gives the node back.
abbrev pub RoundTrips : {W : Wire} → Codec W → Type 0
RoundTrips {W} K = (t : Node W) → K.decode_node (K.encode_node t) ≡ ok t

module _ {W : Wire} {S : Spine W} (T : Tables W) (K : Codec W) (H : SessionStore S K.Document) where
  -- Where an activation starts: the seed, or a checkpoint that the first records lead to.
  pub record Base (seed : K.Document) (stream : List (OpRecord S)) (tree : Node W)
      (c : Option (Checkpoint K.Document)) : Type 0 where
    pub before : List (OpRecord S)
    pub after : List (OpRecord S)
    pub parts : stream ≡ before ++ after
    pub through : (base_of seed c).1 ≡ length before
    pub base_tree : Node W
    pub decoded : K.decode_node (base_of seed c).0 ≡ ok base_tree
    pub leads : replay T base_tree after ≡ ok tree

  -- The store holds what the session holds.
  pub record IsDurable (seed : K.Document) (s : EdgeSession H) : Type 0 where
    pub saved : Option (Checkpoint K.Document)
    pub journaled : H.journal s.store s.session_id ≡ ok s.stream
    pub checkpointed : H.latest_checkpoint s.store s.session_id ≡ ok saved
    pub verified : verify_chain s.stream ≡ ok tt
    pub base : Base seed s.stream s.tree saved

  all_after :
      (n k : ℕ) (p : String) (rs : List (OpRecord S))
      → IsChained n p rs
      → k < n
      → filter (λ r. ltb k r.sequence) rs ≡ rs
  all_after n k p [] c l = refl
  all_after n k p (r ∷ rs) c l =
      let q = c.0.in_order in
      let h : ltb k r.sequence ≡ true = ground arith in
      rw (h, all_after (n + 1) k r.hash rs c.1 (omega arith)) refl

  pub filter-after :
      (n k : ℕ) (p : String) (xs ys : List (OpRecord S))
      → IsChained n p (xs ++ ys)
      → n + length xs ≡ k + 1
      → filter (λ r. ltb k r.sequence) (xs ++ ys) ≡ ys
  filter-after n k p [] ys c e = all_after n k p ys c (omega arith)
  filter-after n k p (x ∷ xs) ys c e =
      let q = c.0.in_order in
      let h : ltb k x.sequence ≡ false = ground arith in
      rw h (filter-after (n + 1) k x.hash xs ys c.1 (omega arith))

  rest_of :
      (seed : K.Document) (s : EdgeSession H) (d : IsDurable seed s)
      → filter (λ r. ltb (base_of seed d.saved).1 r.sequence) s.stream ≡ d.base.after
  rest_of seed s d =
      let c = (verify_chain-IsChained s.stream).0 d.verified in
      let k = d.base.through in
      subst (λ rs. filter (λ r. ltb (base_of seed d.saved).1 r.sequence) rs ≡ d.base.after)
        (sym d.base.parts)
        (filter-after 1 (base_of seed d.saved).1 genesis_previous_hash d.base.before d.base.after
          (subst (λ rs. IsChained 1 genesis_previous_hash rs) d.base.parts c) (omega arith))

  -- What a durable session's store gives at an activation.
  pub activate-resumes :
      Lawful H
      → (seed : K.Document) (s : EdgeSession H) (actor : S.Actor) (a : ℕ) (st : H.Store)
      → IsDurable seed s
      → H.acquire s.store s.session_id ≡ ok (a, st)
      → activate T K H s.store s.session_id seed actor
        ≡ ok (record s { activation = a; store = st; actor = actor })
  unfolding activate
  activate-resumes L seed s actor a st d h =
      let k = L.acquire_keeps s.store s.session_id h in
      rw
        (
          h,
          k.0,
          d.journaled,
          d.verified,
          k.1,
          d.checkpointed,
          d.base.decoded,
          rest_of seed s d,
          d.base.leads,
        )
        refl

  replayed_one :
      (t t' : Node W) (telem : List Telemetry) (r : OpRecord S)
      → apply T t r.op ≡ ok (t', telem)
      → replay T t (r ∷ []) ≡ ok t'
  unfolding replay
  replayed_one t t' telem r h = rw h refl

  -- An op that a session applies is in the store before the session returns: the session is durable
  -- afterwards.
  pub apply_op-IsDurable :
      Lawful H
      → (seed : K.Document) (s : EdgeSession H) (op_json : K.OpDocument) (ts : ℤ)
        (prompt_id : Option String) (s' : EdgeSession H)
      → IsDurable seed s
      → apply_op T K H s op_json ts prompt_id ≡ ok s'
      → IsDurable seed s'
  unfolding apply_op next_record append
  apply_op-IsDurable L seed s op_json ts prompt_id s' d h =
      let (op, e1, h1) = >>=-eq-ok (map_err decode_failed (K.decode_op op_json)) _ h in
      let (p, e2, h2) = >>=-eq-ok (map_err client_failed (apply T s.tree op)) _ h1 in
      let (st, e3, h3) =
        >>=-eq-ok
          (map_err store_failed
            (H.append s.store s.session_id s.activation (next_record T K H s op ts prompt_id)))
          _ h2 in
      let r = next_record T K H s op ts prompt_id in
      let one = replayed_one s.tree p.0 p.1 r (map_err-eq-ok client_failed _ e2) in
      let k =
        L.append_journals s.store s.session_id s.activation r (map_err-eq-ok store_failed _ e3)
          d.journaled in
      subst (λ x. IsDurable seed x) (ok-injective h3)
        (record {
          saved = d.saved;
          journaled = k.0;
          checkpointed = k.1 ∙ d.checkpointed;
          verified = verify_chain-append s.stream op ts s.actor prompt_id success d.verified;
          base = record {
            before = d.base.before;
            after = d.base.after ++ (r ∷ []);
            parts =
                ap (λ rs. rs ++ (r ∷ [])) d.base.parts
                ∙ append_assoc d.base.before d.base.after (r ∷ []);
            through = d.base.through;
            base_tree = d.base.base_tree;
            decoded = d.base.decoded;
            leads = replay-append T d.base.base_tree d.base.after (r ∷ []) ∙ rw d.base.leads one;
          };
        })

  -- A checkpoint keeps a session durable, with a codec that round-trips nodes.
  pub take_checkpoint-IsDurable :
      Lawful H
      → RoundTrips K
      → (seed : K.Document) (s : EdgeSession H) (c : Checkpoint K.Document) (s' : EdgeSession H)
      → IsDurable seed s
      → take_checkpoint T K H s ≡ ok (c, s')
      → IsDurable seed s'
  unfolding take_checkpoint replay
  take_checkpoint-IsDurable L round seed s c s' d h =
      let (st, e, h1) =
        >>=-eq-ok (map_err store_failed (H.checkpoint s.store s.session_id s.activation _)) _ h in
      let k =
        L.checkpoint_keeps s.store s.session_id s.activation _ (map_err-eq-ok store_failed _ e) in
      subst (λ x. IsDurable seed x) (ap (λ p. p.1) (ok-injective h1))
        (record {
          saved =
              some
                (record { through_sequence = length s.stream; tree_json = K.encode_node s.tree });
          journaled = k.0 ∙ d.journaled;
          checkpointed = k.1;
          verified = d.verified;
          base = record {
            before = s.stream;
            after = [];
            parts = sym (append-nil s.stream);
            through = refl;
            base_tree = s.tree;
            decoded = round s.tree;
            leads = refl;
          };
        })
