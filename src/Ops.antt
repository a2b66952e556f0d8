-- ===== src/Ops.antt =====
-- The tree-op apply engine of src/ops/mod.rs: the ops, the errors, and what the engine calls that is
-- modelled elsewhere or not at all.
pub mod Path
pub mod Structural
pub mod Placed
pub mod Ids
pub mod Edits
pub mod Reorder
pub mod Unique
pub mod Batch
pub mod Exact
pub mod Shrink
pub mod Limits
pub mod Apply
use fuaran_rs.Prelude.{ℕ, String, ◌≡◌, refl, Bool, true, false, Option, none, some, List}
pub use fuaran_rs.Prelude.Outcome.{Result, ok, err, ◌>>=◌, ◌>>◌, >>=-eq-ok, ok-injective}
use fuaran_rs.Tree.{Wire, Node, Nodes, Kind, OptNode, Accessibility}
use fuaran_rs.Tree.Style.{SemanticStyle, StyleDelta}

pub data ApplyErrorCode : Type 0 where
  node_not_found parent_not_found childless_kind position_out_of_range : ApplyErrorCode
  duplicate_node_id field_not_found slot_not_found kind_mismatch path_invalid : ApplyErrorCode
  path_not_supported_yet ordering_mismatch batch_aborted limit_exceeded : ApplyErrorCode

-- The message is not modelled.
pub record ApplyError : Type 0 where
  pub code : ApplyErrorCode
  pub batch_index : Option ℕ

abbrev pub AResult {ℓ} : Type ℓ → Type ℓ
AResult T = Result ApplyError T

-- `fail`
abbrev pub fail {ℓ} : {A : Type ℓ} → ApplyErrorCode → AResult A
fail c = err (record { code = c; batch_index = none })

-- `let Some(a) = o else { return fail(c) }`
abbrev pub require {ℓ} : {A : Type ℓ} → Option A → ApplyErrorCode → AResult A
require none c = fail c
require (some a) c = ok a

-- `if b { return fail(c) }`
abbrev pub refuse : Bool → ApplyErrorCode → AResult (Unit {0})
refuse true c = fail c
refuse false c = ok tt

pub require-eq-ok {ℓ} :
    {A : Type ℓ} (o : Option A) (c : ApplyErrorCode) {a : A} → require o c ≡ ok a → o ≡ some a
require-eq-ok none c h = cc
require-eq-ok (some a) c h = cc

pub refuse-eq-ok : (b : Bool) (c : ApplyErrorCode) {u : Unit {0}} → refuse b c ≡ ok u → b ≡ false
refuse-eq-ok true c h = cc
refuse-eq-ok false c h = refl

pub record StateBehaviour (W : Wire) : Type 0 where
  pub on_empty : OptNode W
  pub on_error : Bool
  pub on_loading : OptNode W

mutual
  pub data TreeOp (W : Wire) : Type 0 where
    batch : Ops W → TreeOp W
    edit_node : Kind W → String → TreeOp W
    insert_child : Node W → String → TreeOp W
    move_node : String → String → TreeOp W
    patch_style : StyleDelta → String → TreeOp W
    remove_node : String → TreeOp W
    reorder_children : List String → String → TreeOp W
    replace_binding : W.Binding → String → String → TreeOp W
    replace_root : Node W → TreeOp W
    update_accessibility : Accessibility W → String → TreeOp W
    update_prop : String → String → W.Json → TreeOp W
    update_state : StateBehaviour W → String → TreeOp W
    update_style : SemanticStyle → String → TreeOp W
    update_tooltip : String → Option W.TextSource → TreeOp W

  pub data Ops (W : Wire) : Type 0 where
    done : Ops W
    then_op : TreeOp W → Ops W → Ops W

pub record Telemetry : Type 0 where
  pub op : String
  pub target_id : String
