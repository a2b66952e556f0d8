-- ===== src/Ops/Apply.antt =====
-- `apply_one`, `apply` and the guards that run on the result (src/ops/mod.rs).
use fuaran_rs.Prelude.{
  ℕ, ◌+◌, String, ◌≡◌, Bool, true, false, not, ◌&&◌, ◌||◌, Option, none, some, List, [], ◌∷◌, ◌++◌,
  any, ltb, is_some, if◌then◌else◌,
}
use fuaran_rs.Prelude.Counts.{count}
use fuaran_rs.Tree.{Wire, Node, node, Kind, Traits, Accessibility, kind_of, opt_list}
use fuaran_rs.Tree.Style.{SemanticStyle, StyleDelta, apply_to}
use fuaran_rs.Tree.Walk.{kind_child_nodes, ids, size, depth}
use fuaran_rs.Tree.Focus.{find_node, find_node_mut}
use fuaran_rs.Ops.{
  AResult, ok, err, fail, require, refuse, ◌>>=◌, ◌>>◌, StateBehaviour, Telemetry, TreeOp, batch,
  edit_node, insert_child, move_node, patch_style, remove_node, reorder_children, replace_binding,
  replace_root, update_accessibility, update_prop, update_state, update_style, update_tooltip, Ops,
  done, then_op, node_not_found, path_invalid, field_not_found, path_not_supported_yet,
  kind_mismatch, position_out_of_range, slot_not_found, batch_aborted, limit_exceeded,
  duplicate_node_id,
}
use fuaran_rs.Ops.Path.{codes, PathSeg, Parsed, parsed, refused, parse_path}
use fuaran_rs.Ops.Structural.{set_kind, apply_insert, apply_remove, apply_move, apply_reorder}

-- What the field dispatches answer (`UpdateOutcome`, `NestedOutcome`), less their texts.
pub data UpdateOutcome (W : Wire) : Type 0 where
  updated : Kind W → UpdateOutcome W
  unknown_field not_supported type_mismatch : UpdateOutcome W

pub data NestedOutcome (W : Wire) : Type 0 where
  updated : Kind W → NestedOutcome W
  missing_index index_out_of_range no_such_field unsupported mistyped : NestedOutcome W

-- What the engine calls: the id order of fuaran-core, and the per-kind tables of fields and binding
-- slots, which rewrite members of a spec that hold no node.
pub record Tables (W : Wire) : Type 0 where
  pub ordinal_le : String → String → Bool
  pub update_field : String → W.Json → Kind W → UpdateOutcome W
  pub update_nested : List PathSeg → W.Json → Kind W → NestedOutcome W
  pub replace_slot : String → W.Binding → Kind W → Option (Kind W)

-- The tables leave the child nodes of a kind as they are.
pub record KeepsChildren {W : Wire} (T : Tables W) : Type 0 where
  pub field_keeps :
      (f : String) (v : W.Json) (k k' : Kind W)
      → T.update_field f v k ≡ updated k'
      → kind_child_nodes k' ≡ kind_child_nodes k
  pub nested_keeps :
      (segs : List PathSeg) (v : W.Json) (k k' : Kind W)
      → T.update_nested segs v k ≡ NestedOutcome.updated k'
      → kind_child_nodes k' ≡ kind_child_nodes k
  pub slot_keeps :
      (s : String) (b : W.Binding) (k k' : Kind W)
      → T.replace_slot s b k ≡ some k'
      → kind_child_nodes k' ≡ kind_child_nodes k

-- The inner error of a batch is replaced by the batch's own, with the index of the op.
abbrev pub abort_batch {ℓ} : {A : Type ℓ} → ℕ → AResult A → AResult A
abort_batch i (ok a) = ok a
abort_batch i (err e) = err (record { code = batch_aborted; batch_index = some i })

abbrev pub path_or_fail : Parsed (List PathSeg) → AResult (List PathSeg)
path_or_fail (parsed segs) = ok segs
path_or_fail (refused e) = fail path_invalid

-- One segment with no index is a top-level field; any other path is nested.
abbrev pub is_top_level : List PathSeg → Bool
is_top_level (s ∷ []) = not (is_some s.index)
is_top_level _ = false

module _ {W : Wire} where
  abbrev pub with_traits : (Traits W → Traits W) → Node W → Node W
  with_traits change (node i k e r l f t) = node i k e r l f (change t)

  abbrev pub with_state : StateBehaviour W → Node W → Node W
  with_state s (node i k e r l f t) = node i k s.on_empty s.on_error s.on_loading f t

  -- `let Some(node) = find_node_mut(..) else { return fail(NodeNotFound) }`, and a write to the node.
  unfoldable pub apply_edit : (Node W → Node W) → String → Node W → AResult (Node W)
  apply_edit edit target root = do
    (n, put) ← require (find_node_mut root target) node_not_found
    ok (put (edit n))

  -- An accessibility record that sets no member is the absent slot.
  abbrev pub sets_a_member : Accessibility W → Bool
  sets_a_member a =
      is_some a.described_by
      || is_some a.hidden
      || is_some a.label
      || is_some a.labelled_by
      || is_some a.live_region
      || is_some a.role
      || is_some a.speak

  abbrev pub set_accessibility : Accessibility W → Traits W → Traits W
  set_accessibility a t = record t { accessibility = if sets_a_member a then some a else none }

  abbrev pub set_style : SemanticStyle → Traits W → Traits W
  set_style s t = record t { style = s }

  abbrev pub patch_traits : StyleDelta → Traits W → Traits W
  patch_traits d t = record t { style = apply_to d t.style }

  abbrev pub set_tooltip : Option W.TextSource → Traits W → Traits W
  set_tooltip x t = record t { tooltip = x }

  abbrev pub finish : Node W → String → UpdateOutcome W → AResult (Node W)
  finish root target (updated k) = require (set_kind root target k) node_not_found
  finish root target unknown_field = fail field_not_found
  finish root target not_supported = fail path_not_supported_yet
  finish root target type_mismatch = fail kind_mismatch

  abbrev pub finish_nested : Node W → String → NestedOutcome W → AResult (Node W)
  finish_nested root target (updated k) = require (set_kind root target k) node_not_found
  finish_nested root target missing_index = fail path_invalid
  finish_nested root target index_out_of_range = fail position_out_of_range
  finish_nested root target no_such_field = fail field_not_found
  finish_nested root target unsupported = fail path_not_supported_yet
  finish_nested root target mistyped = fail kind_mismatch

  -- What an arm pushes; `ReplaceRoot` pushes nothing.
  unfoldable pub noted : TreeOp W → List Telemetry
  noted (batch ops) = []
  noted (edit_node k target) = record { op = "EditNode"; target_id = target } ∷ []
  noted (insert_child child parent_id) = record { op = "InsertChild"; target_id = parent_id } ∷ []
  noted (move_node new_parent_id target) = record { op = "MoveNode"; target_id = target } ∷ []
  noted (patch_style d target) = record { op = "PatchStyle"; target_id = target } ∷ []
  noted (remove_node target) = record { op = "RemoveNode"; target_id = target } ∷ []
  noted (reorder_children new_order parent_id) =
      record { op = "ReorderChildren"; target_id = parent_id } ∷ []
  noted (replace_binding b slot target) = record { op = "ReplaceBinding"; target_id = target } ∷ []
  noted (replace_root n) = []
  noted (update_accessibility a target) =
      record { op = "UpdateAccessibility"; target_id = target } ∷ []
  noted (update_prop path target value) = record { op = "UpdateProp"; target_id = target } ∷ []
  noted (update_state s target) = record { op = "UpdateState"; target_id = target } ∷ []
  noted (update_style s target) = record { op = "UpdateStyle"; target_id = target } ∷ []
  noted (update_tooltip target x) = record { op = "UpdateTooltip"; target_id = target } ∷ []

module _ {W : Wire} (T : Tables W) where
  -- `TreeOp::UpdateProp`
  unfoldable pub apply_prop : String → String → W.Json → Node W → AResult (Node W)
  apply_prop path target value root = do
    segs ← path_or_fail (parse_path (codes path))
    n ← require (find_node root target) node_not_found
    if is_top_level segs
        then finish root target (T.update_field path value (kind_of n))
        else finish_nested root target (T.update_nested segs value (kind_of n))

  -- `TreeOp::ReplaceBinding`
  unfoldable pub apply_binding : W.Binding → String → String → Node W → AResult (Node W)
  apply_binding binding slot target root = do
    n ← require (find_node root target) node_not_found
    k ← require (T.replace_slot slot binding (kind_of n)) slot_not_found
    require (set_kind root target k) node_not_found

  -- The arms of `apply_one` but for `Batch`, without the telemetry record that each adds.
  unfoldable pub apply_simple : TreeOp W → Node W → AResult (Node W)
  apply_simple (batch ops) root = ok root
  apply_simple (edit_node k target) root = require (set_kind root target k) node_not_found
  apply_simple (insert_child child parent_id) root = apply_insert child parent_id root
  apply_simple (move_node new_parent_id target) root = apply_move new_parent_id target root
  apply_simple (patch_style d target) root = apply_edit (with_traits (patch_traits d)) target root
  apply_simple (remove_node target) root = apply_remove target root
  apply_simple (reorder_children new_order parent_id) root =
      apply_reorder T.ordinal_le new_order parent_id root
  apply_simple (replace_binding b slot target) root = apply_binding b slot target root
  apply_simple (replace_root n) root = ok n
  apply_simple (update_accessibility a target) root =
      apply_edit (with_traits (set_accessibility a)) target root
  apply_simple (update_prop path target value) root = apply_prop path target value root
  apply_simple (update_state s target) root = apply_edit (with_state s) target root
  apply_simple (update_style s target) root = apply_edit (with_traits (set_style s)) target root
  apply_simple (update_tooltip target x) root = apply_edit (with_traits (set_tooltip x)) target root

  abbrev pub State : Type 0
  State = Node W × List Telemetry

  -- `apply_one`: the tree with the telemetry so far. A `Batch` runs its ops in order and stops at the
  -- first that fails.
  unfoldable mutual
    pub apply_one : TreeOp W → State → AResult State
    apply_one (batch ops) s = apply_batch ops 0 s
    apply_one op s = do t ← apply_simple op s.0; ok (t, s.1 ++ noted op)

    pub apply_batch : Ops W → ℕ → State → AResult State
    apply_batch done i s = ok s
    apply_batch (then_op op ops) i s = do
      s' ← abort_batch i (apply_one op s)
      apply_batch ops (i + 1) s'

abbrev pub max_node_depth : ℕ
max_node_depth = 24

abbrev pub max_nodes : ℕ
max_nodes = 100_000

unfoldable mutual
  -- `inserted_nodes`: the subtree roots that an op puts into the tree.
  pub inserted_nodes : {W : Wire} → TreeOp W → List (Node W)
  inserted_nodes (insert_child child parent_id) = child ∷ []
  inserted_nodes (replace_root n) = n ∷ []
  inserted_nodes (edit_node k target) = kind_child_nodes k
  inserted_nodes (update_state s target) = opt_list s.on_loading ++ opt_list s.on_empty
  inserted_nodes (batch ops) = inserted_by ops
  inserted_nodes _ = []

  pub inserted_by : {W : Wire} → Ops W → List (Node W)
  inserted_by done = []
  inserted_by (then_op op ops) = inserted_nodes op ++ inserted_by ops

abbrev pub is_empty {ℓ} : {A : Type ℓ} → List A → Bool
is_empty [] = true
is_empty (x ∷ xs) = false

unfoldable mutual
  -- `op_can_grow`
  pub op_can_grow : {W : Wire} → TreeOp W → Bool
  op_can_grow (move_node new_parent_id target) = true
  op_can_grow (batch ops) = any_can_grow ops
  op_can_grow op = not (is_empty (inserted_nodes op))

  pub any_can_grow : {W : Wire} → Ops W → Bool
  any_can_grow done = false
  any_can_grow (then_op op ops) = op_can_grow op || any_can_grow ops

module _ {W : Wire} where
  -- `check_tree_limits`
  unfoldable pub check_tree_limits : Node W → AResult (Unit {0})
  check_tree_limits t = do
    refuse (ltb max_node_depth (depth t)) limit_exceeded
    refuse (ltb max_nodes (size t)) limit_exceeded

  -- `check_installed_ids`: an installed id that the result holds more than once.
  unfoldable pub repeats : List String → Node W → Bool
  repeats result n = any (λ id. ltb 1 (count id result)) (ids n)

  unfoldable pub check_installed_ids : List (Node W) → Node W → AResult (Unit {0})
  unfolding repeats
  check_installed_ids installed result =
      refuse (not (is_empty installed) && any (repeats (ids result)) installed) duplicate_node_id

module _ {W : Wire} (T : Tables W) where
  -- `apply`
  unfoldable pub apply : Node W → TreeOp W → AResult (Node W × List Telemetry)
  apply t op = do
    (t', telem) ← apply_one T op (t, [])
    if op_can_grow op then check_tree_limits t' else ok tt
    check_installed_ids (inserted_nodes op) t'
    ok (t', telem)

  -- `can_apply`
  unfoldable pub can_apply : Node W → TreeOp W → Bool
  can_apply t op = elim (apply t op) [ ok r ↦ true | err e ↦ false ]
