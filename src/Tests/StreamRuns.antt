-- ===== src/Tests/StreamRuns.antt =====
-- Runs of the op stream.
use fuaran_rs.Prelude.{◌≡◌, refl, ◌↔◌, ◌⊎◌, none, List, [], ◌∷◌, ◌++◌, map, arith, length}
use fuaran_rs.Prelude.Outcome.{ok, err}
use fuaran_rs.Prelude.Decimal.{pos}
use fuaran_rs.Tree.{Node}
use fuaran_rs.Tree.Walk.{ids}
use fuaran_rs.Tree.Focus.{focus}
use fuaran_rs.Ops.{node_not_found}
use fuaran_rs.Ops.Structural.{apply_remove, retain_ne, write_children}
use fuaran_rs.Ops.Apply.{
  apply, apply_one, apply_simple, noted, op_can_grow, inserted_nodes, check_tree_limits,
  check_installed_ids,
}
use fuaran_rs.OpStream.Chain.{
  OpRecord, success, genesis_previous_hash, append, head, verify_chain, verify_from, compute_hash,
  recompute_hash, out_of_order,
}
use fuaran_rs.OpStream.Chain.Verify.{
  IsChained, Broken, verify_chain-IsChained, verify_chain-append, verify_chain-Broken,
}
use fuaran_rs.OpStream.Chain.Tamper.{Collision, Confusion, said, head-tamper}
use fuaran_rs.OpStream.Sink.{in_range, store}
use fuaran_rs.OpStream.Sink.Sorted.{IsSorted, held_within, in_range-IsSorted}
use fuaran_rs.OpStream.Sink.Order.{IsKeyed, Rearranged}
use fuaran_rs.OpStream.Replay.{replay, replay_stream, ReplayError}
use fuaran_rs.OpStream.Replay.Laws.{Stopped, replay-Stopped}
use fuaran_rs.OpStream.Replay.Delivery.{replay_stream-verified}
use fuaran_rs.Tests.Demo.{demo, tables, text_node, box_node, small}
use fuaran_rs.Tests.StreamDemo.{joining, forgetting, note, drop_a, one, two, said_a, said_b}

empty_verifies : verify_chain {S = joining} [] ≡ ok tt
unfolding verify_chain verify_from
empty_verifies = refl

two_verifies : verify_chain two ≡ ok tt
two_verifies =
    verify_chain-append one drop_a (pos 7) "bob" none success
      (verify_chain-append [] note (pos 5) "ann" none success empty_verifies)

verify_chain-IsChained_example : (verify_chain two ≡ ok tt) ↔ IsChained 1 genesis_previous_hash two
verify_chain-IsChained_example = verify_chain-IsChained two

abbrev swapped : List (OpRecord joining)
swapped =
    record {
      sequence = 2;
      op = note;
      timestamp_unix_seconds = pos 5;
      actor = "ann";
      prompt_id = none;
      outcome = success;
      previous_hash = genesis_previous_hash;
      hash = "";
    }
    ∷ []

swapped_refused : verify_chain swapped ≡ err (out_of_order 1 2)
unfolding verify_chain verify_from
swapped_refused = refl

verify_chain-Broken_example : Broken (out_of_order 1 2) 1 genesis_previous_hash swapped
verify_chain-Broken_example = verify_chain-Broken swapped (out_of_order 1 2) swapped_refused

a_verifies : verify_chain said_a ≡ ok tt
unfolding append head verify_chain verify_from compute_hash recompute_hash
a_verifies = refl

b_verifies : verify_chain said_b ≡ ok tt
unfolding append head verify_chain verify_from compute_hash recompute_hash
b_verifies = refl

same_length : length said_a ≡ length said_b
unfolding append
same_length = refl

same_head : head said_a ≡ head said_b
unfolding append head compute_hash
same_head = refl

head-tamper_example :
    Collision forgetting ⊎ (Confusion forgetting ⊎ (map said said_a ≡ map said said_b))
head-tamper_example = head-tamper said_a said_b a_verifies b_verifies same_length same_head

one-IsKeyed : IsKeyed one
unfolding append
one-IsKeyed n = ground arith

abbrev late : OpRecord joining
late = record {
  sequence = 2;
  op = note;
  timestamp_unix_seconds = pos 5;
  actor = "ann";
  prompt_id = none;
  outcome = success;
  previous_hash = "";
  hash = "";
}

late_stored : store late one ≡ ok (one ++ (late ∷ []))
unfolding append store
late_stored = refl

abbrev early : OpRecord joining
early = record late { sequence = 1 }

pair-IsKeyed : IsKeyed (early ∷ late ∷ [])
pair-IsKeyed n = ground arith

abbrev gone : OpRecord joining
gone = record late { op = drop_a }

abbrev twice_error : ReplayError
twice_error = record { sequence = 2; error = record { code = node_not_found; batch_index = none } }

abbrev without_a : Node demo
without_a = box_node "root" (box_node "b" (text_node "c" ∷ []) ∷ [])

twice_refused : replay tables small (gone ∷ gone ∷ []) ≡ err twice_error
unfolding replay apply apply_one apply_simple apply_remove retain_ne focus ids noted op_can_grow
    inserted_nodes check_tree_limits check_installed_ids write_children
twice_refused = refl

replay-Stopped_example : Stopped tables small (gone ∷ gone ∷ []) twice_error
replay-Stopped_example = replay-Stopped tables small (gone ∷ gone ∷ []) twice_error twice_refused

once : replay tables small (gone ∷ []) ≡ ok without_a
unfolding replay apply apply_one apply_simple apply_remove retain_ne focus ids noted op_can_grow
    inserted_nodes check_tree_limits check_installed_ids write_children
once = refl

abbrev reversed : List (OpRecord joining)
reversed = rev two
  where
    rev : List (OpRecord joining) → List (OpRecord joining)
    rev (x ∷ y ∷ zs) = y ∷ x ∷ zs
    rev xs = xs

reversed-Rearranged : Rearranged two reversed
unfolding append
reversed-Rearranged = Rearranged.swap _ _ []

replay_stream-verified_example : replay_stream tables reversed small 1 0 ≡ replay tables small two
replay_stream-verified_example =
    replay_stream-verified tables small two reversed two_verifies reversed-Rearranged

in_range-IsSorted_example :
    IsSorted (in_range 1 2 (late ∷ early ∷ []))
    × Rearranged (held_within 1 2 (late ∷ early ∷ [])) (in_range 1 2 (late ∷ early ∷ []))
in_range-IsSorted_example = in_range-IsSorted 1 2 (late ∷ early ∷ [])
