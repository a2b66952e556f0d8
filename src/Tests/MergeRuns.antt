-- ===== src/Tests/MergeRuns.antt =====
-- Runs of the three-way merge.
use fuaran_rs.Prelude.{ℕ, zero, suc, String, false, ◌≡◌, refl, none, some, [], ◌∷◌, map}
use fuaran_rs.Tree.{Node, node, Kind, leaf, heading, absent, kind_of}
use fuaran_rs.Merge.{Canonical, MergeConflict, concurrent_edit, two_sided}
use fuaran_rs.Ops.Structural.{sort, insert_sorted, same_texts}
use fuaran_rs.Merge.Facets.{pick_field, pick_canonical, merge_style}
use fuaran_rs.Merge.Children.{
  merge3_way, merge3, merge_facets, merge_children, merge_ids, recurse_child, merge_insert, map_get,
  push_new, is_pure_addition,
}
use fuaran_rs.Merge.Quiet.{refusals, merge3_way-same}
use fuaran_rs.Merge.Swap.{transpose, merge3_way-swap}
use fuaran_rs.Tests.Demo.{demo, plain, text_le, box_node}

-- A leaf is encoded by its number.
abbrev encoded : Kind demo → String
encoded (leaf k zero) = "zero"
encoded (leaf k (suc zero)) = "one"
encoded (leaf k (suc (suc zero))) = "two"
encoded k = "other"

abbrev canonical : Canonical demo
canonical = record { encode_node = λ n. encoded (kind_of n); ordinal_le = text_le }

abbrev leaf_node : String → ℕ → Node demo
leaf_node i v = node i (leaf heading v) absent false absent absent plain

abbrev origin : Node demo
origin = box_node "root" (leaf_node "a" 0 ∷ [])

abbrev one : Node demo
one = box_node "root" (leaf_node "a" 1 ∷ [])

abbrev two : Node demo
two = box_node "root" (leaf_node "a" 2 ∷ [])

abbrev both_edited : MergeConflict
both_edited = record {
  node_id = "a";
  facet = "kind";
  conflict_class = concurrent_edit;
  base = "zero";
  a = some (record { value = "one"; tag = none });
  b = some (record { value = "two"; tag = none });
  primary = none;
  secondary = none;
  secondary_tag = none;
  primacy_held = false;
}

merge3_way-same_example : refusals (merge3_way canonical origin one one) ≡ []
merge3_way-same_example = merge3_way-same canonical origin one

merge3_way-swap_example :
    refusals (merge3_way canonical origin two one)
    ≡ map transpose (refusals (merge3_way canonical origin one two))
merge3_way-swap_example = merge3_way-swap canonical origin one two

-- Both sides edited the same leaf.
conflict_run : refusals (merge3_way canonical origin one two) ≡ both_edited ∷ []
unfolding merge3_way merge3 merge_facets merge_children merge_ids recurse_child merge_insert map_get
    push_new is_pure_addition pick_field pick_canonical merge_style two_sided sort insert_sorted
    same_texts
conflict_run = refl
