-- ===== src/Edge.antt =====
-- The durable session of src/edge/mod.rs: a tree whose applied ops are journaled in a store before the
-- tree moves. What a store must do is an interface; the reference store is Edge/Memory.
pub mod Durable
pub mod Resumed
pub mod Memory
use fuaran_rs.Prelude.{
  ℕ, ◌+◌, String, ◌≡◌, ◌≢◌, Option, none, some, List, [], ◌∷◌, ◌++◌, ltb, length, filter,
}
use fuaran_rs.Prelude.Outcome.{Result, ok, err, ◌>>=◌, map_err}
use fuaran_rs.Prelude.Decimal.{ℤ}
use fuaran_rs.Tree.{Wire, Node}
use fuaran_rs.Ops.{TreeOp, ApplyError}
use fuaran_rs.Ops.Apply.{Tables, apply}
use fuaran_rs.OpStream.Chain.{
  Spine, OpRecord, success, VerificationError, compute_hash, head, verify_chain,
}
use fuaran_rs.OpStream.Replay.{ReplayError, replay}

-- The wire codec, whose documents are opaque here.
pub record Codec (W : Wire) : Type 1 where
  pub Document : Type 0
  pub OpDocument : Type 0
  pub DecodeError : Type 0
  pub encode_node : Node W → Document
  pub decode_node : Document → Result DecodeError (Node W)
  pub decode_op : OpDocument → Result DecodeError (TreeOp W)

pub record Checkpoint (Document : Type 0) : Type 0 where
  pub through_sequence : ℕ
  pub tree_json : Document

-- The messages are not modelled. `not_owner held presented`
pub data StoreError : Type 0 where
  not_owner : ℕ → ℕ → StoreError
  unavailable corrupt : StoreError

-- `trait DurableSessionStore`. A call that fails leaves the store as it was.
pub record SessionStore {W : Wire} (S : Spine W) (Document : Type 0) : Type 1 where
  pub Store : Type 0
  pub acquire : Store → String → Result StoreError (ℕ × Store)
  pub journal : Store → String → Result StoreError (List (OpRecord S))
  pub append : Store → String → ℕ → OpRecord S → Result StoreError Store
  pub checkpoint : Store → String → ℕ → Checkpoint Document → Result StoreError Store
  pub latest_checkpoint : Store → String → Result StoreError (Option (Checkpoint Document))

-- What a session relies on.
pub record Lawful {W : Wire} {S : Spine W} {Document : Type 0} (H : SessionStore S Document)
    : Type 0 where
  pub acquire_keeps :
      (st : H.Store) (id : String) {a : ℕ} {st' : H.Store}
      → H.acquire st id ≡ ok (a, st')
      → (H.journal st' id ≡ H.journal st id)
        × (H.latest_checkpoint st' id ≡ H.latest_checkpoint st id)
  pub append_journals :
      (st : H.Store) (id : String) (a : ℕ) (r : OpRecord S) {st' : H.Store}
      {records : List (OpRecord S)}
      → H.append st id a r ≡ ok st'
      → H.journal st id ≡ ok records
      → (H.journal st' id ≡ ok (records ++ (r ∷ [])))
        × (H.latest_checkpoint st' id ≡ H.latest_checkpoint st id)
  pub checkpoint_keeps :
      (st : H.Store) (id : String) (a : ℕ) (c : Checkpoint Document) {st' : H.Store}
      → H.checkpoint st id a c ≡ ok st'
      → (H.journal st' id ≡ H.journal st id) × (H.latest_checkpoint st' id ≡ ok (some c))

pub data EdgeError (DecodeError : Type 0) : Type 0 where
  decode_failed : DecodeError → EdgeError DecodeError
  client_failed : ApplyError → EdgeError DecodeError
  store_failed : StoreError → EdgeError DecodeError
  chain_failed : VerificationError → EdgeError DecodeError
  replay_failed : ReplayError → EdgeError DecodeError

-- The client's tree; its reactive sources are a view's and are not journaled.
pub record EdgeSession {W : Wire} {S : Spine W} {Document : Type 0} (H : SessionStore S Document)
    : Type 0 where
  pub session_id : String
  pub activation : ℕ
  pub store : H.Store
  pub stream : List (OpRecord S)
  pub tree : Node W
  pub actor : S.Actor

abbrev pub base_of : {Document : Type 0} → Document → Option (Checkpoint Document) → Document × ℕ
base_of seed none = (seed, 0)
base_of seed (some c) = (c.tree_json, c.through_sequence)

module _ {W : Wire} {S : Spine W} (T : Tables W) (K : Codec W) (H : SessionStore S K.Document) where
  -- `activate`
  unfoldable pub activate :
      H.Store → String → K.Document → S.Actor → Result (EdgeError K.DecodeError) (EdgeSession H)
  activate st id seed actor = do
    (activation, st') ← map_err store_failed (H.acquire st id)
    records ← map_err store_failed (H.journal st' id)
    verified ← map_err chain_failed (verify_chain records)
    checkpoint ← map_err store_failed (H.latest_checkpoint st' id)
    base ← map_err decode_failed (K.decode_node (base_of seed checkpoint).0)
    tree ←
        map_err replay_failed
          (replay T base (filter (λ r. ltb (base_of seed checkpoint).1 r.sequence) records))
    ok (record {
      session_id = id;
      activation = activation;
      store = st';
      stream = records;
      tree = tree;
      actor = actor;
    })

  -- The record of an op that applied, against the current head.
  unfoldable pub next_record : EdgeSession H → TreeOp W → ℤ → Option String → OpRecord S
  next_record s op ts prompt_id =
      let previous = head s.stream in
      let n = length s.stream + 1 in
      record {
        sequence = n;
        op = op;
        timestamp_unix_seconds = ts;
        actor = s.actor;
        prompt_id = prompt_id;
        outcome = success;
        previous_hash = previous;
        hash = compute_hash S previous op n ts s.actor prompt_id success;
      }

  -- `apply_op`: proved to apply, journaled, and only then adopted.
  unfoldable pub apply_op :
      EdgeSession H
      → K.OpDocument
      → ℤ
      → Option String
      → Result (EdgeError K.DecodeError) (EdgeSession H)
  unfolding next_record
  apply_op s op_json ts prompt_id = do
    op ← map_err decode_failed (K.decode_op op_json)
    (t', telem) ← map_err client_failed (apply T s.tree op)
    st' ←
        map_err store_failed
          (H.append s.store s.session_id s.activation (next_record s op ts prompt_id))
    ok (record s {
      store = st';
      stream = s.stream ++ (next_record s op ts prompt_id ∷ []);
      tree = t';
    })

  -- `checkpoint`
  unfoldable pub take_checkpoint :
      EdgeSession H → Result (EdgeError K.DecodeError) (Checkpoint K.Document × EdgeSession H)
  take_checkpoint s =
      let c : Checkpoint K.Document = record {
        through_sequence = length s.stream;
        tree_json = K.encode_node s.tree;
      } in
      map_err store_failed (H.checkpoint s.store s.session_id s.activation c) >>= λ st'.
      ok (c, record s { store = st' })
