-- ===== src/Tests/DrivenDemo.antt =====
-- A session over a small tree with a button; its handler adds a text below the root.
use fuaran_rs.Prelude.{String, false, [], ◌∷◌}
use fuaran_rs.Prelude.Outcome.{Result, ok}
use fuaran_rs.Tree.{Node, node, leaf, button, absent}
use fuaran_rs.Ops.{Ops, done, then_op, insert_child}
use fuaran_rs.Gate.{granting}
use fuaran_rs.Driven.{Event, Frame}
use fuaran_rs.Driven.Session.{Session}
use fuaran_rs.Driven.Connection.{Connection, MemoryChannel, in_memory}
use fuaran_rs.Tests.Demo.{demo, plain, text_node, box_node}

abbrev pub press : Node demo
press = box_node "root" (node "go" (leaf button 0) absent false absent absent plain ∷ [])

abbrev pub added : Ops demo
added = then_op (insert_child (text_node "x") "root") done

abbrev pub pressed : Node demo
pressed =
    box_node "root"
      (node "go" (leaf button 0) absent false absent absent plain ∷ text_node "x" ∷ [])

abbrev add_x : Node demo → Event → Result String (Ops demo)
add_x t ev = ok added

abbrev pub session : Node demo → Session demo
session t = record { tree = t; handler = add_x; gate = granting ("net" ∷ []) }

abbrev pub click : Event
click = record { conn_id = ""; node_id = "go"; event = "click"; payload = ""; last_seq = 0 }

abbrev pub hover : Event
hover = record click { event = "hover" }

abbrev pub first_frame : Frame demo
first_frame = record { seq = 1; ops = added }

abbrev pub empty_channel : MemoryChannel demo
empty_channel = record { pushed = []; closed = false }

-- A connection after one click.
abbrev pub clicked : Connection (in_memory {W = demo})
clicked = record {
  conn_id = "c1";
  session = session pressed;
  channel = record { pushed = first_frame ∷ []; closed = false };
  seq = 1;
  buffer = first_frame ∷ [];
  buffer_cap = 512;
  rejects = [];
  reject_cap = 1024;
  rejects_dropped = 0;
}
