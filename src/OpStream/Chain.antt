-- ===== src/OpStream/Chain.antt =====
-- The records of the op stream and their hash chain (src/opstream/chain.rs). The chain itself is
-- fuaran-core's: its `payload`, its `link` and its actors are parameters, and so is the op encoder.
pub mod Verify
pub mod Tamper
use Prim.Native.String.{◌++◌ as ◌<>◌}
use fuaran_rs.Prelude.{
  ℕ, ◌+◌, ◌-◌, String, Bool, not, Option, none, some, List, [], ◌∷◌, ◌++◌, length, last, ◌=?◌, ◌==◌,
}
use fuaran_rs.Prelude.Outcome.{Result, ok, err, ◌>>=◌, ◌>>◌, reject_if}
use fuaran_rs.Prelude.Decimal.{ℤ, show_nat, show_int}
use fuaran_rs.Tree.{Wire}
use fuaran_rs.Ops.{TreeOp}

-- What the chain calls: `Actor`, `encode_actor`, `payload` and `link` of fuaran_core::chain,
-- `escape_string` of fuaran_core::json, and `encode_op` of the wire codec.
pub record Spine (W : Wire) : Type 1 where
  pub Actor : Type 0
  pub encode_actor : Actor → String
  pub escape_string : String → String
  pub encode_op : TreeOp W → String
  pub payload : ℕ → String → String → String
  pub link : String → String → String

pub data OpResult : Type 0 where
  success : OpResult
  failure : String → String → OpResult

pub record OpRecord {W : Wire} (S : Spine W) : Type 0 where
  pub sequence : ℕ
  pub op : TreeOp W
  pub timestamp_unix_seconds : ℤ
  pub actor : S.Actor
  pub prompt_id : Option String
  pub outcome : OpResult
  pub previous_hash : String
  pub hash : String

-- The sequence at fault, with the number or the hash expected and the one found.
pub data VerificationError : Type 0 where
  out_of_order : ℕ → ℕ → VerificationError
  previous_hash_mismatch : ℕ → String → String → VerificationError
  hash_mismatch : ℕ → String → String → VerificationError

abbrev pub chain_format_version : ℕ
chain_format_version = 2

abbrev pub genesis_previous_hash : String
genesis_previous_hash = "0000000000000000000000000000000000000000000000000000000000000000"

module _ {W : Wire} (S : Spine W) where
  unfoldable pub encode_result : OpResult → String
  encode_result success = "{\"kind\":\"success\"}"
  encode_result (failure code message) =
      "{\"kind\":\"failure\",\"code\":"
      <> S.escape_string code
      <> ",\"message\":"
      <> S.escape_string message
      <> "}"

  abbrev pub encode_prompt : Option String → String
  encode_prompt none = "null"
  encode_prompt (some p) = S.escape_string p

  unfoldable pub encode_stream_entry : TreeOp W → ℤ → Option String → OpResult → String
  unfolding encode_result
  encode_stream_entry op ts prompt_id outcome =
      "{\"v\":"
      <> show_nat chain_format_version
      <> ",\"op\":"
      <> S.encode_op op
      <> ",\"ts\":"
      <> show_int ts
      <> ",\"promptId\":"
      <> encode_prompt prompt_id
      <> ",\"result\":"
      <> encode_result outcome
      <> "}"

  -- What a link commits to: the index, the actor and the entry. `- 1` stops at 0.
  unfoldable pub entry_payload : TreeOp W → ℕ → ℤ → S.Actor → Option String → OpResult → String
  entry_payload op sequence ts actor prompt_id outcome =
      S.payload (sequence - 1) (S.encode_actor actor) (encode_stream_entry op ts prompt_id outcome)

  unfoldable pub compute_hash :
      String → TreeOp W → ℕ → ℤ → S.Actor → Option String → OpResult → String
  compute_hash previous_hash op sequence ts actor prompt_id outcome =
      S.link previous_hash (entry_payload op sequence ts actor prompt_id outcome)

module _ {W : Wire} {S : Spine W} where
  abbrev pub payload_of : OpRecord S → String
  payload_of r =
      entry_payload S r.op r.sequence r.timestamp_unix_seconds r.actor r.prompt_id r.outcome

  unfoldable pub recompute_hash : OpRecord S → String
  recompute_hash r =
      compute_hash S r.previous_hash r.op r.sequence r.timestamp_unix_seconds r.actor r.prompt_id
        r.outcome

  abbrev pub hash_or : String → Option (OpRecord S) → String
  hash_or h none = h
  hash_or h (some r) = r.hash

  unfoldable pub head : List (OpRecord S) → String
  head records = hash_or genesis_previous_hash (last records)

  -- `append`: the new records; the hash that the method returns is the last record's. A `Vec` is
  -- shorter than a `u64` counts.
  unfoldable pub append :
      List (OpRecord S) → TreeOp W → ℤ → S.Actor → Option String → OpResult → List (OpRecord S)
  append records op ts actor prompt_id outcome =
      let previous = head records in
      let n = length records + 1 in
      records
      ++ (record {
        sequence = n;
        op = op;
        timestamp_unix_seconds = ts;
        actor = actor;
        prompt_id = prompt_id;
        outcome = outcome;
        previous_hash = previous;
        hash = compute_hash S previous op n ts actor prompt_id outcome;
      }
          ∷ [])

  -- The loop of `verify_chain`, at the expected sequence and the hash before.
  unfoldable pub verify_from : ℕ → String → List (OpRecord S) → Result VerificationError (Unit {0})
  verify_from n previous [] = ok tt
  verify_from n previous (r ∷ rs) = do
    reject_if (not (r.sequence =? n)) (out_of_order n r.sequence)
    reject_if (not (r.previous_hash == previous))
        (previous_hash_mismatch r.sequence previous r.previous_hash)
    reject_if (not (recompute_hash r == r.hash))
        (hash_mismatch r.sequence (recompute_hash r) r.hash)
    verify_from (n + 1) r.hash rs

  unfoldable pub verify_chain : List (OpRecord S) → Result VerificationError (Unit {0})
  unfolding verify_from
  verify_chain records = verify_from 1 genesis_previous_hash records
