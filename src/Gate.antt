-- ===== src/Gate.antt =====
-- The capability gate of src/gate/mod.rs: the decision on a mount, on an action and on a tree.
pub mod Laws
use fuaran_rs.Prelude.{
  String, Bool, true, false, not, Option, none, some, List, [], ◌∷◌, ◌++◌, filter,
}
use fuaran_rs.Prelude.Counts.{contains}
use fuaran_rs.Prelude.Ordered.{set_insert, set_extend, set_of}
use fuaran_rs.Tree.{Wire, Node, node, Kind, mount}
use fuaran_rs.Tree.Introspect.{all_nodes}

-- `Action`: a chain, a capability-scoped call, a question with its two continuations (the second may be
-- absent), and the arms that hold no action and name no capability.
mutual
  pub data Action : Type 0 where
    chain : Actions → Action
    invoke : String → Action
    confirm : Action → Action
    confirm_or : Action → Action → Action
    write_to_clipboard dispatch read_file_body call navigate commit_local notify : Action
    set_state ai_tool print focus : Action

  pub data Actions : Type 0 where
    no_action : Actions
    then_action : Action → Actions → Actions

pub data GateDecision : Type 0 where
  allow : GateDecision
  deny : List String → GateDecision

abbrev pub is_allowed : GateDecision → Bool
is_allowed allow = true
is_allowed (deny missing) = false

pub record CapabilityGate : Type 0 where
  pub grants : List String

abbrev pub granting : List String → CapabilityGate
granting caps = record { grants = set_of caps }

abbrev pub grant : CapabilityGate → String → CapabilityGate
grant g cap = record { grants = set_insert cap g.grants }

abbrev pub allows : CapabilityGate → String → Bool
allows g cap = contains cap g.grants

-- `if missing.is_empty() { Allow } else { Deny { missing } }`
abbrev pub decide_missing : List String → GateDecision
decide_missing [] = allow
decide_missing (x ∷ xs) = deny (x ∷ xs)

abbrev pub missing_of : GateDecision → List String
missing_of allow = []
missing_of (deny missing) = missing

abbrev pub decide_capability : CapabilityGate → String → GateDecision
decide_capability g cap = elim (allows g cap) [ true ↦ allow | false ↦ deny (cap ∷ []) ]

unfoldable pub decide_mount : CapabilityGate → List String → GateDecision
decide_mount g capabilities = decide_missing (set_of (filter (λ c. not (allows g c)) capabilities))

unfoldable mutual
  pub decide_action : CapabilityGate → Action → GateDecision
  decide_action g (invoke cap) = decide_capability g cap
  decide_action g (chain actions) = decide_missing (chain_missing g [] actions)
  decide_action g _ = allow

  -- The loop of the `Chain` arm.
  pub chain_missing : CapabilityGate → List String → Actions → List String
  chain_missing g missing no_action = missing
  chain_missing g missing (then_action a actions) =
      chain_missing g (set_extend missing (missing_of (decide_action g a))) actions

abbrev pub cons_some : {A : Type 0} → Option A → List A → List A
cons_some none xs = xs
cons_some (some x) xs = x ∷ xs

module _ {W : Wire} where
  abbrev pub mount_decision : CapabilityGate → Node W → Option (String × GateDecision)
  mount_decision g (node i (mount capabilities s) e r l f t) = some (i, decide_mount g capabilities)
  mount_decision g _ = none

  abbrev pub audit_nodes : CapabilityGate → List (Node W) → List (String × GateDecision)
  audit_nodes g [] = []
  audit_nodes g (n ∷ ns) = cons_some (mount_decision g n) (audit_nodes g ns)

  unfoldable pub audit_mounts : CapabilityGate → Node W → List (String × GateDecision)
  audit_mounts g tree = audit_nodes g (all_nodes tree)
