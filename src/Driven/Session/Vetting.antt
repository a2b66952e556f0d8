-- ===== src/Driven/Session/Vetting.antt =====
-- What the gate of a driven session looks at: every mount in the nodes that an op inserts by
-- InsertChild, ReplaceRoot or EditNode, in a batch too.
use fuaran_rs.Ops.Apply.{
  Tables, noted, apply_simple, apply_edit, apply_one, inserted_nodes, op_can_grow,
  check_tree_limits, check_installed_ids, apply,
}
use fuaran_rs.Tree.Walk.{ids, size, depth}
use fuaran_rs.Tree.Focus.{focus}
use fuaran_rs.Prelude.{
  eq_refl, true, false, String, ◌≡◌, refl, sym, ap, ◌∙◌, Bool, not, ◌&&◌, ◌||◌, List, [], ◌∷◌, ◌++◌,
}
use fuaran_rs.Prelude.Counts.{contains}
use fuaran_rs.Prelude.Ordered.{set_extend, contains-set_extend}
use fuaran_rs.Tree.{
  Wire, Node, node, LeafKind, leaf, mount, layout, error_boundary, switch, fragment_decl, absent,
  present, Traits,
}
use fuaran_rs.Tree.Introspect.{all_nodes}
use fuaran_rs.Driven.Session.Declared.{all_capabilities, declared, all_nodes-declared}
use fuaran_rs.Ops.{
  ok, Telemetry, TreeOp, batch, edit_node, insert_child, replace_root, update_state, Ops, done,
  then_op,
}
use fuaran_rs.Gate.{
  CapabilityGate, allow, allows, missing_of, decide_mount, audit_nodes, audit_mounts,
}
use fuaran_rs.Gate.Laws.{
  or_factor, or_and_false, contains-append, missing-decide, missing-decide_mount,
}
use fuaran_rs.Driven.Session.{
  audit_missing, collect_node_missing, collect_op_missing, collect_ops_missing, scratch,
  op_gate_decision,
}

unfoldable mutual
  pub vetted_by : {W : Wire} → TreeOp W → List String
  vetted_by (insert_child child parent_id) = declared child
  vetted_by (replace_root n) = declared n
  vetted_by (edit_node k target) = declared (scratch target k)
  vetted_by (batch ops) = vetted_by_all ops
  vetted_by _ = []

  pub vetted_by_all : {W : Wire} → Ops W → List String
  vetted_by_all done = []
  vetted_by_all (then_op op ops) = vetted_by op ++ vetted_by_all ops

module _ (g : CapabilityGate) (cap : String) where
  -- What `missing` and a list of declared capabilities add up to.
  abbrev sum_of : List String → List String → Bool
  sum_of missing caps = contains cap missing || (not (allows g cap) && contains cap caps)

  sum-append :
      (missing xs ys : List String)
      → ((contains cap missing || (not (allows g cap) && contains cap xs))
          || (not (allows g cap) && contains cap ys))
        ≡ sum_of missing (xs ++ ys)
  sum-append m xs ys =
      or_factor (contains cap m) (not (allows g cap)) (contains cap xs) (contains cap ys)
      ∙ ap (λ b. contains cap m || (not (allows g cap) && b)) (sym (contains-append cap xs ys))

module _ {W : Wire} (g : CapabilityGate) (cap : String) where
  audit-sum :
      (missing : List String) (ns : List (Node W))
      → contains cap (audit_missing missing (audit_nodes g ns))
        ≡ sum_of g cap missing (all_capabilities ns)
  audit-sum m [] = or_and_false (contains cap m) (not (allows g cap))
  audit-sum m (node i (mount cs s) e r l f t ∷ ns) =
      audit-sum (set_extend m (missing_of (decide_mount g cs))) ns
      ∙ ap (λ b. b || (not (allows g cap) && contains cap (all_capabilities ns)))
          (contains-set_extend cap m (missing_of (decide_mount g cs))
            ∙ ap (λ b. contains cap m || b) (missing-decide_mount g cs cap))
      ∙ sum-append g cap m cs (all_capabilities ns)
  audit-sum m (node i (leaf k s) e r l f t ∷ ns) = audit-sum m ns
  audit-sum m (node i (layout k s cs) e r l f t ∷ ns) = audit-sum m ns
  audit-sum m (node i (error_boundary a b) e r l f t ∷ ns) = audit-sum m ns
  audit-sum m (node i (switch s cs d) e r l f t ∷ ns) = audit-sum m ns
  audit-sum m (node i (fragment_decl s b) e r l f t ∷ ns) = audit-sum m ns

  node-sum :
      (missing : List String) (n : Node W)
      → contains cap (collect_node_missing g n missing) ≡ sum_of g cap missing (declared n)
  unfolding collect_node_missing audit_mounts
  node-sum m n = audit-sum m (all_nodes n) ∙ ap (sum_of g cap m) (all_nodes-declared n)

  mutual
    unfolding collect_op_missing vetted_by

    op-sum :
        (op : TreeOp W) (missing : List String)
        → contains cap (collect_op_missing g op missing) ≡ sum_of g cap missing (vetted_by op)
    op-sum (insert_child child parent_id) m = node-sum m child
    op-sum (replace_root n) m = node-sum m n
    op-sum (edit_node k target) m = node-sum m (scratch target k)
    op-sum (batch ops) m = ops-sum ops m
    op-sum _ m = or_and_false (contains cap m) (not (allows g cap))

    ops-sum :
        (ops : Ops W) (missing : List String)
        → contains cap (collect_ops_missing g ops missing)
          ≡ sum_of g cap missing (vetted_by_all ops)
    ops-sum done m = or_and_false (contains cap m) (not (allows g cap))
    ops-sum (then_op op ops) m =
        ops-sum ops (collect_op_missing g op m)
        ∙ ap (λ b. b || (not (allows g cap) && contains cap (vetted_by_all ops))) (op-sum op m)
        ∙ sum-append g cap m (vetted_by op) (vetted_by_all ops)

-- A driven op is refused for exactly those capabilities that are not granted and that a mount declares
-- in the nodes that the op, or an op of its batch, inserts by InsertChild, ReplaceRoot or EditNode: a
-- mount at the root of such a node, in its kind or in its loading and empty surfaces, at any depth. A
-- mount in a node's fallback is not vetted, and is not counted.
pub missing-op_gate_decision :
    {W : Wire} (g : CapabilityGate) (op : TreeOp W) (cap : String)
    → contains cap (missing_of (op_gate_decision g op))
      ≡ (not (allows g cap) && contains cap (vetted_by op))
unfolding op_gate_decision
missing-op_gate_decision g op cap =
    ap (contains cap) (missing-decide (collect_op_missing g op [])) ∙ op-sum g cap op []

-- A tree, and an op that the gate accepts and that puts a mount into it.
pub record OpEscape {W : Wire} (T : Tables W) (g : CapabilityGate) (cap : String) (root : Node W)
    : Type 0 where
  pub op : TreeOp W
  pub accepted : op_gate_decision g op ≡ allow
  pub tree : Node W
  pub telemetry : List Telemetry
  pub applied : apply T root op ≡ ok (tree, telemetry)
  pub clean : contains cap (declared root) ≡ false
  pub escapes : contains cap (declared tree) ≡ true

-- A gate that has not granted a capability accepts an op that `apply` then carries out on a tree that
-- declares no capability, and after which a mount in the tree declares that one: the gate does not look
-- into the state surfaces of UpdateState. The tree is a leaf of any kind
-- with the id `root`, without state surfaces.
pub op_gate_decision-Escape :
    {W : Wire} (T : Tables W) (k : LeafKind) (spec mount_spec : W.Spec) (traits : Traits W)
    (g : CapabilityGate) (cap : String)
    → allows g cap ≡ false
    → OpEscape T g cap (node "root" (leaf k spec) absent false absent absent traits)
unfolding op_gate_decision collect_op_missing inserted_nodes declared apply apply_one apply_simple
    apply_edit focus noted op_can_grow check_tree_limits check_installed_ids ids depth size
op_gate_decision-Escape {W} T k spec mount_spec traits g cap h =
    let m : Node W = scratch "m" (mount (cap ∷ []) mount_spec) in
    record {
      op =
          update_state (record { on_empty = absent; on_error = false; on_loading = present m })
            "root";
      accepted = refl;
      tree = node "root" (leaf k spec) absent false (present m) absent traits;
      telemetry = _;
      applied = refl;
      clean = refl;
      escapes = rw (eq_refl cap) refl;
    }
