-- ===== src/Tests/DrivenRuns.antt =====
-- Runs of a driven session.
use fuaran_rs.Prelude.{◌+◌, ◌<◌, ◌^◌, subst, ◌≡◌, refl, [], arith}
use fuaran_rs.Prelude.Counts.{distinct-count}
use fuaran_rs.Prelude.Outcome.{ok, err, ok-injective}
use fuaran_rs.Tree.Walk.{ids, size, depth}
use fuaran_rs.Tree.Focus.{focus}
use fuaran_rs.Tree.Introspect.{all_nodes}
use fuaran_rs.Ops.Structural.{apply_insert, push, write_children}
use fuaran_rs.Ops.Apply.{
  apply, apply_one, apply_simple, noted, op_can_grow, inserted_nodes, check_tree_limits,
  check_installed_ids, repeats,
}
use fuaran_rs.Ops.Unique.{IsUnique, IsCovered, reorders}
use fuaran_rs.Ops.{done}
use fuaran_rs.Ops.Limits.{WithinLimits}
use fuaran_rs.Gate.{audit_mounts}
use fuaran_rs.Driven.Session.{
  Session, Reject, step, try_step, vet_all, advance, op_gate_decision, collect_op_missing,
  collect_node_missing, legitimate_event, illegitimate_event,
}
use fuaran_rs.Driven.Session.Laws.{
  Driven, Reaches, step-Driven, Reaches-IsUnique, AllOps, Applies, at_end, one_more,
}
use fuaran_rs.Driven.Connection.{Connection, in_memory, new, handle}
use fuaran_rs.Driven.Connection.Buffer.{IsWell, at_last, frame, new-IsWell, handle-IsWell}
use fuaran_rs.Driven.Connection.Resync.{Cut, to_replay-Cut}
use fuaran_rs.Tests.Demo.{demo, tables, tables-KeepsChildren}
use fuaran_rs.Tests.DrivenDemo.{
  press, added, pressed, session, click, hover, empty_channel, clicked, first_frame,
}

click_run : step tables (session press) click ≡ (session pressed, ok added)
unfolding try_step vet_all advance op_gate_decision collect_op_missing collect_node_missing
    audit_mounts all_nodes legitimate_event apply apply_one apply_simple apply_insert push
    write_children focus ids noted op_can_grow inserted_nodes check_tree_limits check_installed_ids
    repeats size depth
click_run = refl

step-Driven_example : Driven tables (session press) click added (session pressed)
step-Driven_example = step-Driven tables (session press) click added (session pressed) click_run

abbrev hover_reject : Reject
hover_reject = record { reason = illegitimate_event; node_id = "go"; missing_capabilities = [] }

hover_run : step tables (session press) hover ≡ (session press, err hover_reject)
unfolding try_step legitimate_event focus
hover_run = refl

press-IsUnique : IsUnique press
unfolding ids
press-IsUnique = distinct-count (ids press) refl

press-WithinLimits : WithinLimits press
unfolding size depth
press-WithinLimits = record { levels = omega arith; nodes = omega arith }

abbrev once_stepped : Session demo
once_stepped = (step tables (session press) click).0

Reaches-IsUnique_example : IsUnique once_stepped.tree × WithinLimits once_stepped.tree
unfolding reorders
Reaches-IsUnique_example =
    Reaches-IsUnique tables tables-KeepsChildren
      (Reaches.stepped (session press) (session press) click (Reaches.start (session press)))
      (λ t ev ops h. subst (AllOps IsCovered) (ok-injective h) (refl, tt)) press-IsUnique
      press-WithinLimits

abbrev fresh : Connection (in_memory {W = demo})
fresh = new "c1" (session press) empty_channel

fresh-IsWell : IsWell tables fresh
fresh-IsWell = new-IsWell tables "c1" (session press) empty_channel

fresh_seq : fresh.seq + 1 < 2 ^ 64
unfolding new
fresh_seq = omega arith

handle-IsWell_example : IsWell tables (handle tables click fresh).0
handle-IsWell_example = handle-IsWell tables fresh click fresh-IsWell fresh_seq

added-Applies : Applies tables press added pressed
unfolding apply apply_one apply_simple apply_insert push write_children focus ids noted op_can_grow
    inserted_nodes check_tree_limits check_installed_ids repeats size depth
added-Applies = one_more press pressed pressed _ done _ refl (at_end pressed)

abbrev clicked-IsWell : IsWell tables clicked
clicked-IsWell = record {
  window = record {
    base = 0;
    base_tree = press;
    numbered = (refl, tt);
    ends = refl;
    plays = frame press pressed pressed first_frame [] added-Applies (at_last pressed);
    bounded = omega arith;
  };
  has_room = omega arith;
  trail_room = omega arith;
  trail_bounded = omega arith;
}

to_replay-Cut_example : Cut tables press clicked.buffer pressed 1 0
to_replay-Cut_example = to_replay-Cut tables clicked 0 clicked-IsWell (omega arith) (omega arith)
