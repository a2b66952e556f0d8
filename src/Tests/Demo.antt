-- ===== src/Tests/Demo.antt =====
-- A wire with numbers for its opaque parts, tables over it, and small trees.
use Prim.Native.String.{compare}
use text.Mathlib.Text.{is_le}
use fuaran_rs.Prelude.{ℕ, Bool, arith, String, ◌≡◌, refl, false, Option, none, some, List, [], ◌∷◌}
use fuaran_rs.Tree.{
  Wire, Node, node, Kind, leaf, mount, layout, error_boundary, switch, fragment_decl, box, heading,
  absent, nil, cons, Traits,
}
use fuaran_rs.Tree.Style.{default_style}
use fuaran_rs.Tree.Walk.{kind_child_nodes, ids, size, depth}
use fuaran_rs.Prelude.Counts.{distinct-count}
use fuaran_rs.Ops.Unique.{IsUnique}
use fuaran_rs.Ops.Limits.{WithinLimits}
use fuaran_rs.Ops.Apply.{Tables, KeepsChildren, UpdateOutcome, updated, unknown_field, unsupported}

abbrev pub demo : Wire
demo = record { Spec = ℕ; Binding = ℕ; TextSource = String; Json = ℕ }

-- A leaf's spec is replaced by the value; no other kind has a field.
abbrev set_leaf : ℕ → Kind demo → UpdateOutcome demo
set_leaf v (leaf k s) = updated (leaf k v)
set_leaf v k = unknown_field

abbrev set_slot : ℕ → Kind demo → Option (Kind demo)
set_slot v (leaf k s) = some (leaf k v)
set_slot v k = none

abbrev pub text_le : String → String → Bool
text_le a b = is_le (compare a b)

abbrev pub tables : Tables demo
tables = record {
  ordinal_le = text_le;
  update_field = λ f v k. set_leaf v k;
  update_nested = λ segs v k. unsupported;
  replace_slot = λ s b k. set_slot b k;
}

set_leaf-keeps :
    (v : ℕ) (k k' : Kind demo)
    → set_leaf v k ≡ updated k'
    → kind_child_nodes k' ≡ kind_child_nodes k
set_leaf-keeps v (leaf l s) (leaf l' s') h = refl
set_leaf-keeps v (leaf l s) k' h = cc
set_leaf-keeps v k k' h = cc

set_slot-keeps :
    (v : ℕ) (k k' : Kind demo) → set_slot v k ≡ some k' → kind_child_nodes k' ≡ kind_child_nodes k
set_slot-keeps v (leaf l s) (leaf l' s') h = refl
set_slot-keeps v (leaf l s) k' h = cc
set_slot-keeps v k k' h = cc

pub tables-KeepsChildren : KeepsChildren tables
tables-KeepsChildren = record {
  field_keeps = λ f v k k' h. set_leaf-keeps v k k' h;
  nested_keeps = λ segs v k k' h. cc;
  slot_keeps = λ s b k k' h. set_slot-keeps b k k' h;
}

abbrev pub plain : Traits demo
plain = record { accessibility = none; style = default_style; tooltip = none; visible = none }

abbrev pub text_node : String → Node demo
text_node i = node i (leaf heading 0) absent false absent absent plain

abbrev pub box_node : String → List (Node demo) → Node demo
box_node i ns = node i (layout box 0 (fuaran_rs.Tree.of_list ns)) absent false absent absent plain

-- root { a, b { c } }
abbrev pub small : Node demo
small = box_node "root" (text_node "a" ∷ box_node "b" (text_node "c" ∷ []) ∷ [])

pub small-IsUnique : IsUnique small
unfolding ids
small-IsUnique = distinct-count (ids small) refl

pub small-WithinLimits : WithinLimits small
unfolding size depth
small-WithinLimits = omega arith
