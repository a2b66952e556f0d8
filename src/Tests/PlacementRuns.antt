-- ===== src/Tests/PlacementRuns.antt =====
-- Runs of the placement verbs.
use fuaran_rs.Prelude.{◌≡◌, refl, [], ◌∷◌}
use fuaran_rs.Prelude.Decimal.{pos, negsuc}
use fuaran_rs.Prelude.Outcome.{ok, err}
use fuaran_rs.Tree.Walk.{ids}
use fuaran_rs.Tree.Focus.{focus}
use fuaran_rs.Ops.{TreeOp, batch, insert_child, move_node, reorder_children, done, then_op}
use fuaran_rs.Ops.Structural.{same_texts, is_ancestor}
use fuaran_rs.Placement.{
  Target, before, last, nudge_out_of_range, unknown_anchor, move_into_descendant, position, others,
  container_children, reposition, membership_with, can_place, place_op, move_op, nudge_op,
}
use fuaran_rs.Placement.Granted.{Granted, place_op-Granted}
use fuaran_rs.Ops.Unique.{IsUnique}
use fuaran_rs.Prelude.Counts.{distinct-count}
use fuaran_rs.Tests.Demo.{demo, tables, text_node, small, small-IsUnique}
use fuaran_rs.Tests.TextOrder.{text_le-IsOrder}

abbrev ahead_of_b : Target
ahead_of_b = record { parent_id = "root"; placement = before "b" }

abbrev placed : TreeOp demo
placed = batch (
    then_op (insert_child (text_node "n") "root")
      (then_op (reorder_children ("a" ∷ "n" ∷ "b" ∷ []) "root") done))

place_run : place_op small (text_node "n") ahead_of_b ≡ ok placed
unfolding place_op container_children reposition membership_with same_texts others position focus
    ids
place_run = refl

leaf-IsUnique : IsUnique (text_node "n")
unfolding ids
leaf-IsUnique = distinct-count (ids (text_node "n")) refl

place_op-Granted_example : Granted tables small (text_node "n") ahead_of_b placed
place_op-Granted_example =
    place_op-Granted tables small (text_node "n") ahead_of_b placed text_le-IsOrder small-IsUnique
      leaf-IsUnique place_run

-- An anchor that is no sibling is refused.
anchor_refused :
    place_op small (text_node "n") (record { parent_id = "root"; placement = before "c" })
    ≡ err (unknown_anchor "c")
unfolding place_op container_children reposition membership_with others position focus ids
anchor_refused = refl

abbrev into_b : Target
into_b = record { parent_id = "b"; placement = last }

-- The last place needs no reorder.
move_run : move_op small "a" into_b ≡ ok (move_node "b" "a")
unfolding move_op can_place container_children reposition membership_with same_texts is_ancestor
    others position focus ids
move_run = refl

move_refused : can_place small "root" into_b ≡ err (move_into_descendant "root" "b")
unfolding can_place is_ancestor focus ids
move_refused = refl

nudge_run : nudge_op small "a" (pos 1) ≡ ok (reorder_children ("b" ∷ "a" ∷ []) "root")
unfolding nudge_op position focus
nudge_run = refl

nudge_refused : nudge_op small "a" (negsuc 0) ≡ err (nudge_out_of_range "a" (negsuc 0))
unfolding nudge_op position focus
nudge_refused = refl
