-- ===== src/Tests/EdgeRuns.antt =====
-- Runs of a durable session over the reference store.
use fuaran_rs.Prelude.{ℕ, String, ◌≡◌, refl, none, some, List, [], ◌∷◌, arith}
use fuaran_rs.Prelude.Outcome.{ok, err}
use fuaran_rs.Prelude.Decimal.{pos}
use fuaran_rs.Tree.{Node}
use fuaran_rs.Ops.{TreeOp}
use fuaran_rs.OpStream.Chain.{OpRecord}
use fuaran_rs.Edge.{Codec, Checkpoint, EdgeSession, Lawful, not_owner, next_record, take_checkpoint}
use fuaran_rs.Edge.Resumed.{marked as marked_by, opened as opened_by}
use fuaran_rs.Edge.Memory.{
  Sessions, in_memory_store, in_memory_store-Lawful, memory_acquire, memory_append,
  memory_checkpoint, memory_acquire-fences, check_owner, owner,
}
use fuaran_rs.Tests.Demo.{demo, tables, text_node, box_node, small}
use fuaran_rs.Tests.StreamDemo.{joining, drop_a}

-- A codec whose documents are the values.
abbrev plain_codec : Codec demo
plain_codec = record {
  Document = Node demo;
  OpDocument = TreeOp demo;
  DecodeError = String;
  encode_node = λ t. t;
  decode_node = λ t. ok t;
  decode_op = λ op. ok op;
}

abbrev held : ℕ → List (OpRecord joining) → Sessions joining (Node demo)
held a records = ("s1", record { activation = a; records = records; saved = none }) ∷ []

abbrev opened : EdgeSession (in_memory_store {S = joining} {D = Node demo})
opened = record {
  session_id = "s1";
  activation = 1;
  store = held 1 [];
  stream = [];
  tree = small;
  actor = "ann";
}

in_memory_store-Lawful_example : Lawful (in_memory_store {S = joining} {D = Node demo})
in_memory_store-Lawful_example = in_memory_store-Lawful

acquired : memory_acquire (held 1 []) "s1" ≡ ok (2, held 2 [])
unfolding memory_acquire
acquired = refl

abbrev dropped : OpRecord joining
dropped = next_record tables plain_codec in_memory_store opened drop_a (pos 7) none

abbrev after_drop : EdgeSession (in_memory_store {S = joining} {D = Node demo})
after_drop = record opened {
  store = held 1 (dropped ∷ []);
  stream = dropped ∷ [];
  tree = box_node "root" (box_node "b" (text_node "c" ∷ []) ∷ []);
}

abbrev mark : Checkpoint (Node demo)
mark = record { through_sequence = 0; tree_json = small }

abbrev marked : EdgeSession (in_memory_store {S = joining} {D = Node demo})
marked = record opened {
  store = ("s1", record { activation = 1; records = []; saved = some mark }) ∷ [];
}

mark_run : take_checkpoint tables plain_codec in_memory_store opened ≡ ok (mark, marked)
unfolding take_checkpoint memory_checkpoint check_owner owner
mark_run = refl

abbrev without_a : Node demo
without_a = box_node "root" (box_node "b" (text_node "c" ∷ []) ∷ [])

abbrev mark_one : Checkpoint (Node demo)
mark_one = record { through_sequence = 1; tree_json = without_a }

abbrev marked_one : EdgeSession (in_memory_store {S = joining} {D = Node demo})
marked_one = record after_drop {
  store = ("s1", record { activation = 1; records = dropped ∷ []; saved = some mark_one }) ∷ [];
}

abbrev drop_b : TreeOp demo
drop_b = TreeOp.remove_node "b"

abbrev second : OpRecord joining
second = next_record tables plain_codec in_memory_store marked_one drop_b (pos 9) none

abbrev two_records : ℕ → Sessions joining (Node demo)
two_records a =
    ("s1", record { activation = a; records = dropped ∷ second ∷ []; saved = some mark_one }) ∷ []

abbrev after_two : EdgeSession (in_memory_store {S = joining} {D = Node demo})
after_two = record marked_one {
  store = two_records 1;
  stream = dropped ∷ second ∷ [];
  tree = box_node "root" [];
}

memory_acquire-fences_example :
    (memory_append (held 2 []) "s1" 1 dropped ≡ err (not_owner 2 1))
    × (memory_checkpoint (held 2 []) "s1" 1 mark ≡ err (not_owner 2 1))
memory_acquire-fences_example =
    memory_acquire-fences (held 1 []) "s1" 2 (held 2 []) 1 dropped mark acquired (λ e. omega arith)
