-- ===== src/Tests/GateRuns.antt =====
-- Runs of the capability gate.
use fuaran_rs.Prelude.{◌≡◌, refl, false, not, ◌&&◌, [], ◌∷◌}
use fuaran_rs.Prelude.Counts.{contains}
use fuaran_rs.Prelude.Ordered.{set_insert, set_extend}
use fuaran_rs.Gate.{
  Action, chain, invoke, no_action, then_action, CapabilityGate, granting, allows, missing_of,
  decide_action,
}
use fuaran_rs.Gate.Laws.{calls, Escape, missing-decide_action, decide_action-Escape}
use fuaran_rs.Tree.{node, heading, leaf, mount, absent}
use fuaran_rs.Ops.{TreeOp, replace_root}
use fuaran_rs.Driven.Session.{scratch, op_gate_decision}
use fuaran_rs.Driven.Session.Vetting.{
  vetted_by, missing-op_gate_decision, OpEscape, op_gate_decision-Escape,
}
use fuaran_rs.Tests.Demo.{demo, tables, plain}

abbrev net_only : CapabilityGate
net_only = granting ("net.get" ∷ [])

abbrev get_and_post : Action
get_and_post = chain (then_action (invoke "net.get") (then_action (invoke "net.post") no_action))

missing-decide_action_example :
    contains "net.post" (missing_of (decide_action net_only get_and_post))
    ≡ (not (allows net_only "net.post") && contains "net.post" (calls get_and_post))
missing-decide_action_example = missing-decide_action net_only get_and_post "net.post"

post_ungranted : allows net_only "net.post" ≡ false
unfolding set_insert set_extend
post_ungranted = refl

decide_action-Escape_example : Escape net_only "net.post"
decide_action-Escape_example = decide_action-Escape net_only "net.post" post_ungranted

abbrev posting : TreeOp demo
posting = replace_root (scratch "m" (mount ("net.post" ∷ []) 0))

missing-op_gate_decision_example :
    contains "net.post" (missing_of (op_gate_decision net_only posting))
    ≡ (not (allows net_only "net.post") && contains "net.post" (vetted_by posting))
missing-op_gate_decision_example = missing-op_gate_decision net_only posting "net.post"

op_gate_decision-Escape_example :
    OpEscape tables net_only "net.post"
      (node "root" (leaf heading 0) absent false absent absent plain)
op_gate_decision-Escape_example =
    op_gate_decision-Escape tables heading 0 0 plain net_only "net.post" post_ungranted
