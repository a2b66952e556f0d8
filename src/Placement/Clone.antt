-- ===== src/Placement/Clone.antt =====
-- The clone verbs (src/ops/placement.rs): the ids of a subtree that stand in a tree already are minted
-- anew before it is placed. A minter's loop runs on fuel, one more than the ids taken; the counter is
-- a `u32`, which that many ids do not use up.
pub mod Probe
pub mod Minters
pub mod Rename
pub mod Loop
pub mod Fresh
pub mod Verbs
use Prim.Native.String.{◌++◌ as ◌<>◌}
use fuaran_rs.Prelude.{
  and_then, ℕ, zero, suc, ◌+◌, String, Bool, not, ◌&&◌, Option, none, some, List, [], ◌∷◌, ◌++◌,
  ◌==◌, ◌=?◌, if◌then◌else◌, is_some, length, unwrap_or,
}
use fuaran_rs.Prelude.Decimal.{show_nat}
use fuaran_rs.Prelude.Counts.{contains}
use fuaran_rs.Tree.{
  Wire, Node, node, Kind, leaf, mount, layout, error_boundary, switch, fragment_decl, OptNode,
  absent, present, Nodes, nil, cons, Cases, no_case, case,
}
use fuaran_rs.Tree.Walk.{ids}
use fuaran_rs.Tree.Focus.{find_node}
use fuaran_rs.Ops.{TreeOp}
use fuaran_rs.Placement.{Target, Placing, node_not_found, place_op}
use fuaran_rs.Prelude.Outcome.{err}

-- `trait FreshIds`, with the state behind `&mut self`; the predicate is that of a set of texts.
pub record FreshIds : Type 1 where
  pub State : Type 0
  pub mint : State → String → List String → Option (String × State)

-- The loop of both minters: the first number, from `n` on, whose candidate is not taken.
unfoldable pub probe : (ℕ → String) → List String → ℕ → ℕ → Option ℕ
probe candidate taken zero n = none
probe candidate taken (suc fuel) n =
    let rest = probe candidate taken fuel (n + 1) in
    if contains (candidate n) taken then rest else some n

abbrev pub derived_candidate : String → ℕ → String
derived_candidate old n = if n =? 1 then old <> "-copy" else old <> ("-copy-" <> show_nat n)

-- `DerivedIds`
unfoldable pub mint_derived : String → List String → Option String
unfolding probe
mint_derived old taken =
    and_then (probe (derived_candidate old) taken (length taken + 1) 1)
      (λ n. some (derived_candidate old n))

abbrev pub derived_ids : FreshIds
derived_ids = record {
  State = Unit;
  mint = λ s old taken. and_then (mint_derived old taken) (λ id. some (id, s));
}

pub record SequentialIds : Type 0 where
  pub prefix : String
  pub counter : ℕ

abbrev pub sequential_candidate : String → ℕ → String
sequential_candidate prefix n = prefix <> ("-" <> show_nat n)

unfoldable pub mint_sequential : SequentialIds → List String → Option (String × SequentialIds)
unfolding probe
mint_sequential s taken =
    and_then (probe (sequential_candidate s.prefix) taken (length taken + 1) (s.counter + 1))
      (λ n. some (sequential_candidate s.prefix n, record s { counter = n }))

abbrev pub sequential_ids : FreshIds
sequential_ids = record { State = SequentialIds; mint = λ s old taken. mint_sequential s taken }

-- A `HashMap` into which each key is put once.
abbrev pub Rename : Type 0
Rename = List (String × String)

unfoldable pub renamed_to : String → Rename → Option String
renamed_to i [] = none
renamed_to i ((old, new) ∷ r) = if old == i then some new else renamed_to i r

abbrev pub renamed : Rename → String → String
renamed r i = unwrap_or (renamed_to i r) i

-- `rewrite_ids`: the walk of `child_nodes_mut`, which leaves a fallback as it is.
unfoldable mutual
  unfolding renamed_to

  pub rewrite_ids : {W : Wire} → Rename → Node W → Node W
  rewrite_ids r (node i k e b l f t) =
      node (renamed r i) (rewrite_kind r k) (rewrite_opt r e) b (rewrite_opt r l) f t

  pub rewrite_kind : {W : Wire} → Rename → Kind W → Kind W
  rewrite_kind r (layout k s ns) = layout k s (rewrite_nodes r ns)
  rewrite_kind r (error_boundary c f) = error_boundary (rewrite_ids r c) (rewrite_ids r f)
  rewrite_kind r (switch s cs d) = switch s (rewrite_cases r cs) (rewrite_ids r d)
  rewrite_kind r (fragment_decl s b) = fragment_decl s (rewrite_ids r b)
  rewrite_kind r (leaf k s) = leaf k s
  rewrite_kind r (mount cs s) = mount cs s

  pub rewrite_opt : {W : Wire} → Rename → OptNode W → OptNode W
  rewrite_opt r absent = absent
  rewrite_opt r (present n) = present (rewrite_ids r n)

  pub rewrite_nodes : {W : Wire} → Rename → Nodes W → Nodes W
  rewrite_nodes r nil = nil
  rewrite_nodes r (cons n ns) = cons (rewrite_ids r n) (rewrite_nodes r ns)

  pub rewrite_cases : {W : Wire} → Rename → Cases W → Cases W
  rewrite_cases r no_case = no_case
  rewrite_cases r (case c n cs) = case c (rewrite_ids r n) (rewrite_cases r cs)

-- Without a renamed id the subtree is taken as it is.
abbrev pub rewritten : {W : Wire} → Rename → Node W → Node W
rewritten [] incoming = incoming
rewritten (x ∷ r) incoming = rewrite_ids (x ∷ r) incoming

module _ (F : FreshIds) where
  -- The minter's state, `taken` and `rename`.
  pub record Minting : Type 0 where
    pub state : F.State
    pub taken : List String
    pub rename : Rename

  abbrev pub minted : String → Minting → Option (String × F.State) → Option Minting
  minted old m o = and_then o (λ (new, s).
      some (record { state = s; taken = new ∷ m.taken; rename = (old, new) ∷ m.rename }))

  unfoldable pub mint_all : List String → List String → Minting → Option Minting
  unfolding renamed_to
  mint_all existing [] m = some m
  mint_all existing (old ∷ olds) m =
      and_then
        (if contains old existing && not (is_some (renamed_to old m.rename))
          then minted old m (F.mint m.state old m.taken)
          else some m)
        (λ m'. mint_all existing olds m')

  module _ {W : Wire} where
    abbrev pub starting : F.State → Node W → Node W → Minting
    starting s target_root incoming = record {
      state = s;
      taken = ids target_root ++ ids incoming;
      rename = [];
    }

    unfoldable pub remap_for_insert : F.State → Node W → Node W → Option (Node W × F.State)
    unfolding mint_all rewrite_ids ids
    remap_for_insert s target_root incoming =
        and_then (mint_all (ids target_root) (ids incoming) (starting s target_root incoming))
          (λ m. some (rewritten m.rename incoming, m.state))

    -- `paste_op_with`
    unfoldable pub paste_op_with :
        F.State → Node W → Node W → Target → Option (Placing (TreeOp W) × F.State)
    unfolding remap_for_insert place_op
    paste_op_with s target_root incoming target =
        and_then (remap_for_insert s target_root incoming)
          (λ (clone, s'). some (place_op target_root clone target, s'))

    -- `duplicate_op_with`
    unfoldable pub duplicate_op_with :
        F.State → Node W → String → Target → Option (Placing (TreeOp W) × F.State)
    unfolding paste_op_with
    duplicate_op_with s root source target = elim (find_node root source) [
      | none ↦ some (err (node_not_found source), s)
      | some sub ↦ paste_op_with s root sub target
    ]

-- `paste_op` and `duplicate_op`
module _ {W : Wire} where
  unfoldable pub paste_op : Node W → Node W → Target → Option (Placing (TreeOp W))
  unfolding paste_op_with
  paste_op target_root incoming target =
      and_then (paste_op_with derived_ids tt target_root incoming target) (λ r. some r.0)

  unfoldable pub duplicate_op : Node W → String → Target → Option (Placing (TreeOp W))
  unfolding duplicate_op_with
  duplicate_op root source target =
      and_then (duplicate_op_with derived_ids tt root source target) (λ r. some r.0)
