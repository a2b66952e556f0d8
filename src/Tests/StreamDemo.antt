-- ===== src/Tests/StreamDemo.antt =====
-- A chain whose link joins texts, one whose link forgets them, and short streams.
use Prim.Native.String.{◌++◌ as ◌<>◌}
use fuaran_rs.Prelude.{String, none, List, []}
use fuaran_rs.Prelude.Decimal.{pos}
use fuaran_rs.Ops.{TreeOp, update_tooltip, remove_node}
use fuaran_rs.OpStream.Chain.{Spine, OpRecord, success, append}
use fuaran_rs.Tests.Demo.{demo}

abbrev op_text : TreeOp demo → String
op_text (TreeOp.remove_node target) = target
op_text op = "op"

abbrev pub joining : Spine demo
joining = record {
  Actor = String;
  encode_actor = λ a. a;
  escape_string = λ s. s;
  encode_op = op_text;
  payload = λ n a e. a <> e;
  link = λ p x. p <> x;
}

abbrev pub forgetting : Spine demo
forgetting = record joining { link = λ p x. "h" }

abbrev pub note : TreeOp demo
note = update_tooltip "a" none

abbrev pub drop_a : TreeOp demo
drop_a = remove_node "a"

abbrev pub one : List (OpRecord joining)
one = append [] note (pos 5) "ann" none success

abbrev pub two : List (OpRecord joining)
two = append one drop_a (pos 7) "bob" none success

abbrev pub said_a : List (OpRecord forgetting)
said_a = append [] note (pos 5) "ann" none success

abbrev pub said_b : List (OpRecord forgetting)
said_b = append [] drop_a (pos 5) "ann" none success
