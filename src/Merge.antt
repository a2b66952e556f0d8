-- ===== src/Merge.antt =====
-- The three-way merge of trees (src/dag/merge.rs): each facet of a node is merged on its own, and what
-- both sides changed in different ways is a conflict. The canonical encoder and the ordinal order of
-- texts are the parameter `Canonical`.
pub mod Facets
pub mod Children
pub mod Steps
pub mod Quiet
pub mod Base
pub mod News
pub mod Swap
use fuaran_rs.Prelude.{ℕ, String, Bool, true, false, Option, none, some, List, [], ◌∷◌, ◌++◌}
use fuaran_rs.Tree.{
  Wire, Node, node, Kind, layout, OptNode, absent, Accessibility, Nodes, nil, to_list,
}
use fuaran_rs.Tree.Style.{SemanticStyle, default_style}
use fuaran_rs.Ops.{StateBehaviour}

pub record Canonical (W : Wire) : Type 0 where
  pub encode_node : Node W → String
  pub ordinal_le : String → String → Bool

pub data MergeConflictClass : Type 0 where
  concurrent_edit concurrent_move delete_modify : MergeConflictClass
  kind_swap_orphans_pin reorder_vs_structural combined_cycle : MergeConflictClass

pub record MergeSide : Type 0 where
  pub value : String
  pub tag : Option String

pub record MergeConflict : Type 0 where
  pub node_id : String
  pub facet : String
  pub conflict_class : MergeConflictClass
  pub base : String
  pub a : Option MergeSide
  pub b : Option MergeSide
  pub primary : Option String
  pub secondary : Option String
  pub secondary_tag : Option String
  pub primacy_held : Bool

unfoldable pub two_sided :
    String → String → MergeConflictClass → String → String → String → MergeConflict
two_sided node_id facet c base a_value b_value = record {
  node_id = node_id;
  facet = facet;
  conflict_class = c;
  base = base;
  a = some (record { value = a_value; tag = none });
  b = some (record { value = b_value; tag = none });
  primary = none;
  secondary = none;
  secondary_tag = none;
  primacy_held = false;
}

-- A step of the merge: the conflicts it pushes, in their order, and its value.
pub record Merging {ℓ} (A : Type ℓ) : Type ℓ where
  pub conflicts : List MergeConflict
  pub value : A

infixl 5 ◌>>=◌
abbrev pub ◌>>=◌ {ℓ κ} : {A : Type ℓ} {B : Type κ} → Merging A → (A → Merging B) → Merging B
m >>= k = let n = k m.value in record { conflicts = m.conflicts ++ n.conflicts; value = n.value }

abbrev pub return {ℓ} : {A : Type ℓ} → A → Merging A
return x = record { conflicts = []; value = x }

abbrev pub refusing {ℓ} : {A : Type ℓ} → MergeConflict → A → Merging A
refusing c x = record { conflicts = c ∷ []; value = x }

pub data MergeResult (W : Wire) : Type 0 where
  merged : Node W → MergeResult W
  conflicting : List MergeConflict → MergeResult W

module _ {W : Wire} where
  -- `children_of`
  abbrev pub children_of : Node W → Nodes W
  children_of (node i (layout k s ns) e r l f t) = ns
  children_of _ = nil

  -- `with_children`
  abbrev pub with_children : Kind W → Nodes W → Kind W
  with_children (layout k s ns) children = layout k s children
  with_children k children = k

  abbrev pub childless : Kind W → Kind W
  childless k = with_children k nil

  abbrev pub state_of : Node W → StateBehaviour W
  state_of (node i k e r l f t) = record { on_empty = e; on_error = r; on_loading = l }

  abbrev pub no_state : StateBehaviour W
  no_state = record { on_empty = absent; on_error = false; on_loading = absent }

  -- `mk_node`: the tooltip, the visibility and the fallback are left out.
  abbrev pub mk_node :
      String → Kind W → SemanticStyle → StateBehaviour W → Option (Accessibility W) → Node W
  mk_node i k style state acc =
      node i k state.on_empty state.on_error state.on_loading absent
        (record { accessibility = acc; style = style; tooltip = none; visible = none })
