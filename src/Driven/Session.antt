-- ===== src/Driven/Session.antt =====
-- One step of a driven session (src/serverdriven/driver.rs): the guards, the handler, the gate and the
-- ops, all or none.
pub mod Laws
pub mod Declared
pub mod Vetting
use fuaran_rs.Prelude.{
  ℕ, String, Bool, true, false, not, ◌&&◌, ◌||◌, Option, none, some, List, [], ◌∷◌, ◌++◌, ◌==◌,
}
use fuaran_rs.Prelude.Outcome.{Result, ok, err, ◌>>=◌, ◌>>◌, reject_if}
use fuaran_rs.Prelude.Ordered.{set_extend}
use fuaran_rs.Tree.{
  Wire, Node, node, Kind, leaf, mount, layout, error_boundary, switch, fragment_decl, LayoutKind,
  LeafKind, absent, kind_of, Traits,
}
use fuaran_rs.Tree.Style.{default_style}
use fuaran_rs.Tree.Introspect.{get_node}
use fuaran_rs.Ops.{
  AResult, TreeOp, batch, edit_node, insert_child, replace_root, Ops, done, then_op,
}
use fuaran_rs.Ops.Apply.{Tables, apply}
use fuaran_rs.Gate.{
  CapabilityGate, GateDecision, allow, deny, decide_missing, missing_of, audit_mounts,
}
use fuaran_rs.Driven.{Event}

pub data RejectReason : Type 0 where
  unknown_node illegitimate_event dispatch_denied capability_denied : RejectReason

-- The message is not modelled.
pub record Reject : Type 0 where
  pub reason : RejectReason
  pub node_id : String
  pub missing_capabilities : List String

-- `NodeKind::type_name`
abbrev pub layout_name : LayoutKind → String
layout_name LayoutKind.box = "Box"
layout_name LayoutKind.split_panel = "SplitPanel"
layout_name LayoutKind.tabs = "Tabs"
layout_name LayoutKind.stepper = "Stepper"
layout_name LayoutKind.summary_list = "SummaryList"
layout_name LayoutKind.disclosure = "Disclosure"
layout_name LayoutKind.modal = "Modal"
layout_name LayoutKind.scroll_area = "ScrollArea"

abbrev pub leaf_name : LeafKind → String
leaf_name LeafKind.badge = "Badge"
leaf_name LeafKind.button = "Button"
leaf_name LeafKind.callout = "Callout"
leaf_name LeafKind.chart = "Chart"
leaf_name LeafKind.code_block = "CodeBlock"
leaf_name LeafKind.custom = "Custom"
leaf_name LeafKind.data_grid = "DataGrid"
leaf_name LeafKind.drawing = "Drawing"
leaf_name LeafKind.embed = "Embed"
leaf_name LeafKind.fact = "Fact"
leaf_name LeafKind.file_upload = "FileUpload"
leaf_name LeafKind.filters = "Filters"
leaf_name LeafKind.form = "Form"
leaf_name LeafKind.fragment_ref = "FragmentRef"
leaf_name LeafKind.heading = "Heading"
leaf_name LeafKind.icon = "Icon"
leaf_name LeafKind.image = "Image"
leaf_name LeafKind.label_value_row = "LabelValueRow"
leaf_name LeafKind.link = "Link"
leaf_name LeafKind.list = "List"
leaf_name LeafKind.map = "Map"
leaf_name LeafKind.markdown = "Markdown"
leaf_name LeafKind.math = "Math"
leaf_name LeafKind.media = "Media"
leaf_name LeafKind.metric = "Metric"
leaf_name LeafKind.progress = "Progress"
leaf_name LeafKind.select = "Select"
leaf_name LeafKind.skeleton = "Skeleton"
leaf_name LeafKind.sparkline = "Sparkline"
leaf_name LeafKind.toast = "Toast"
leaf_name LeafKind.tree = "Tree"

abbrev pub type_name : {W : Wire} → Kind W → String
type_name (leaf k s) = leaf_name k
type_name (mount cs s) = "Mount"
type_name (layout k s ns) = layout_name k
type_name (error_boundary c f) = "ErrorBoundary"
type_name (switch s cs d) = "Switch"
type_name (fragment_decl s b) = "FragmentDecl"

abbrev either : String → String → String → Bool
either a b e = (e == a) || (e == b)

unfoldable pub legitimate_event : String → String → Bool
legitimate_event kind event =
    ((kind == "Button") && (event == "click"))
    || ((kind == "Select") && (event == "change"))
    || ((kind == "Form") && ((event == "submit") || either "change" "input" event))
    || ((kind == "Filters") && ((event == "change") || either "input" "click" event))
    || ((kind == "FileUpload") && either "change" "file-read" event)
    || ((kind == "Tabs") && either "click" "change" event)
    || ((kind == "Stepper") && either "click" "change" event)
    || ((kind == "Disclosure") && ((event == "click") || either "change" "toggle" event))

abbrev pub audit_missing : List String → List (String × GateDecision) → List String
audit_missing missing [] = missing
audit_missing missing ((i, d) ∷ rest) = audit_missing (set_extend missing (missing_of d)) rest

module _ {W : Wire} where
  unfoldable pub collect_node_missing : CapabilityGate → Node W → List String → List String
  collect_node_missing g n missing = audit_missing missing (audit_mounts g n)

  -- A new kind is vetted as the kind of a node of its own.
  abbrev pub scratch : String → Kind W → Node W
  scratch target k =
      node target k absent false absent absent
        (record { accessibility = none; style = default_style; tooltip = none; visible = none })

unfoldable mutual
  pub collect_op_missing : {W : Wire} → CapabilityGate → TreeOp W → List String → List String
  collect_op_missing g (insert_child child parent_id) missing = collect_node_missing g child missing
  collect_op_missing g (replace_root n) missing = collect_node_missing g n missing
  collect_op_missing g (edit_node k target) missing =
      collect_node_missing g (scratch target k) missing
  collect_op_missing g (batch ops) missing = collect_ops_missing g ops missing
  collect_op_missing g _ missing = missing

  pub collect_ops_missing : {W : Wire} → CapabilityGate → Ops W → List String → List String
  collect_ops_missing g done missing = missing
  collect_ops_missing g (then_op op ops) missing =
      collect_ops_missing g ops (collect_op_missing g op missing)

-- The handler answers an event with ops or an error text. Here it is a function of the tree and the
-- event; the boxed `Fn` of the program may also keep state of its own, which is left out.
pub record Session (W : Wire) : Type 0 where
  pub tree : Node W
  pub handler : Node W → Event → Result String (Ops W)
  pub gate : CapabilityGate

abbrev rejected {ℓ} : {A : Type ℓ} → RejectReason → Event → List String → Result Reject A
rejected reason ev missing =
    err (record { reason = reason; node_id = ev.node_id; missing_capabilities = missing })

abbrev pub vetted : Event → GateDecision → Result Reject (Unit {0})
vetted ev allow = ok tt
vetted ev (deny missing) = rejected capability_denied ev missing

abbrev pub applicable {ℓ} : {A : Type ℓ} → Event → AResult A → Result Reject A
applicable ev (ok s) = ok s
applicable ev (err e) = rejected dispatch_denied ev []

module _ {W : Wire} where
  unfoldable pub op_gate_decision : CapabilityGate → TreeOp W → GateDecision
  op_gate_decision g op = decide_missing (collect_op_missing g op [])

  abbrev pub found : Event → Option (Node W) → Result Reject (Node W)
  found ev none = rejected unknown_node ev []
  found ev (some n) = ok n

  abbrev pub dispatched : Event → Result String (Ops W) → Result Reject (Ops W)
  dispatched ev (ok ops) = ok ops
  dispatched ev (err e) = rejected dispatch_denied ev []

  -- The gate over the ops, before any is applied.
  unfoldable pub vet_all : CapabilityGate → Event → Ops W → Result Reject (Unit {0})
  vet_all g ev done = ok tt
  vet_all g ev (then_op op ops) = do vetted ev (op_gate_decision g op); vet_all g ev ops

  unfoldable pub advance : Tables W → Event → Node W → Ops W → Result Reject (Node W)
  advance T ev tree done = ok tree
  advance T ev tree (then_op op ops) = do
    (next, telem) ← applicable ev (apply T tree op)
    advance T ev next ops

  -- `step`: the ops that were applied, with the session after them.
  unfoldable pub try_step : Tables W → Session W → Event → Result Reject (Ops W × Session W)
  unfolding vet_all advance
  try_step T s ev = do
    n ← found ev (get_node s.tree ev.node_id)
    reject_if (not (legitimate_event (type_name (kind_of n)) ev.event))
        (record { reason = illegitimate_event; node_id = ev.node_id; missing_capabilities = [] })
    ops ← dispatched ev (s.handler s.tree ev)
    vet_all s.gate ev ops
    next ← advance T ev s.tree ops
    ok (ops, record s { tree = next })

  abbrev pub kept :
      Session W → Result Reject (Ops W × Session W) → Session W × Result Reject (Ops W)
  kept s (ok (ops, s')) = (s', ok ops)
  kept s (err r) = (s, err r)

  -- An early return leaves the session as it was.
  abbrev pub step : Tables W → Session W → Event → Session W × Result Reject (Ops W)
  step T s ev = kept s (try_step T s ev)
