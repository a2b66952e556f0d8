-- ===== src/Tests/OpsRuns.antt =====
-- Runs of the apply engine.
use fuaran_rs.Prelude.{◌+◌, ◌≡◌, refl, some, List, [], ◌∷◌}
use fuaran_rs.Tree.{Node}
use fuaran_rs.Tree.Walk.{ids, size, depth}
use fuaran_rs.Tree.Focus.{focus, find_node}
use fuaran_rs.Ops.{
  ok, err, fail, childless_kind, move_node, remove_node, batch, Ops, done, then_op, Telemetry,
}
use fuaran_rs.Ops.Structural.{
  push, retain_ne, write_children, apply_insert, apply_remove, is_ancestor, apply_move, pick,
  insert_sorted, sort, same_texts, apply_reorder,
}
use fuaran_rs.Ops.Apply.{
  apply, apply_simple, apply_one, noted, op_can_grow, inserted_nodes, check_tree_limits,
  check_installed_ids,
}
use fuaran_rs.Ops.Ids.{occurs}
use fuaran_rs.Ops.Exact.{occurs-remove_found, occurs-move_unique}
use fuaran_rs.Ops.Unique.{IsUnique, reorders, apply-IsUnique}
use fuaran_rs.Ops.Limits.{WithinLimits, apply-WithinLimits}
use fuaran_rs.Ops.Batch.{FirstFails, fails_here, fails_later, Aborted, aborted_at, batch-Aborted}
use fuaran_rs.Tests.Demo.{
  demo, text_le, tables, tables-KeepsChildren, text_node, box_node, small, small-IsUnique,
  small-WithinLimits,
}

-- "a" goes below "b".
abbrev moved : Node demo
moved = box_node "root" (box_node "b" (text_node "c" ∷ text_node "a" ∷ []) ∷ [])

move_run :
    apply tables small (move_node "b" "a")
    ≡ ok (moved, record { op = "MoveNode"; target_id = "a" } ∷ [])
unfolding apply apply_one apply_simple apply_move apply_remove apply_insert write_children
    is_ancestor focus ids push retain_ne noted op_can_grow inserted_nodes check_tree_limits
    check_installed_ids size depth
move_run = refl

apply-IsUnique_example : IsUnique moved
unfolding reorders
apply-IsUnique_example =
    apply-IsUnique tables small (move_node "b" "a") moved
      (record { op = "MoveNode"; target_id = "a" } ∷ []) tables-KeepsChildren small-IsUnique refl
      move_run

apply-WithinLimits_example : WithinLimits moved
unfolding reorders
apply-WithinLimits_example =
    apply-WithinLimits tables tables-KeepsChildren small (move_node "b" "a") moved
      (record { op = "MoveNode"; target_id = "a" } ∷ []) small-IsUnique small-WithinLimits refl
      move_run

-- The node "a" moved below "c", which holds no children.
move_refused : apply tables small (move_node "c" "a") ≡ fail childless_kind
unfolding apply apply_one apply_simple apply_move is_ancestor focus ids
move_refused = refl

abbrev with_d : Node demo
with_d = box_node "root" (text_node "a" ∷ box_node "b" (text_node "c" ∷ text_node "d" ∷ []) ∷ [])

insert_run : apply_insert (text_node "d") "b" small ≡ ok with_d
unfolding apply_insert push write_children focus ids
insert_run = refl

plain_move : apply_move "b" "a" small ≡ ok moved
unfolding apply_move apply_remove apply_insert write_children is_ancestor focus ids push retain_ne
plain_move = refl

occurs-move_unique_example : occurs "a" moved ≡ occurs "a" small
occurs-move_unique_example = occurs-move_unique "a" "b" "a" small moved small-IsUnique plain_move

abbrev a_alone : Node demo
a_alone = box_node "root" (text_node "a" ∷ [])

remove_run : apply_remove "b" small ≡ ok a_alone
unfolding apply_remove write_children focus ids retain_ne
remove_run = refl

b_found : find_node small "b" ≡ some (box_node "b" (text_node "c" ∷ []))
unfolding focus
b_found = refl

occurs-remove_found_example :
    occurs "c" a_alone + occurs "c" (box_node "b" (text_node "c" ∷ [])) ≡ occurs "c" small
occurs-remove_found_example =
    occurs-remove_found "c" "b" small a_alone (box_node "b" (text_node "c" ∷ [])) small-IsUnique
      b_found remove_run

abbrev b_first : Node demo
b_first = box_node "root" (box_node "b" (text_node "c" ∷ []) ∷ text_node "a" ∷ [])

reorder_run : apply_reorder text_le ("b" ∷ "a" ∷ []) "root" small ≡ ok b_first
unfolding apply_reorder write_children focus pick insert_sorted sort same_texts
reorder_run = refl

abbrev drop_twice : Ops demo
drop_twice = then_op (remove_node "a") (then_op (remove_node "a") done)

abbrev without_a : Node demo
without_a = box_node "root" (box_node "b" (text_node "c" ∷ []) ∷ [])

abbrev noted_drop : List Telemetry
noted_drop = record { op = "RemoveNode"; target_id = "a" } ∷ []

batch_run : apply_one tables (batch drop_twice) (small, []) ≡ err (aborted_at 1)
unfolding apply_one apply_simple apply_remove write_children focus ids retain_ne noted
batch_run = refl

batch-Aborted_example : Aborted tables drop_twice (small, []) (aborted_at 1)
batch-Aborted_example = batch-Aborted tables drop_twice (small, []) (aborted_at 1) batch_run

second-FirstFails : FirstFails tables drop_twice 1 (small, [])
unfolding apply_one apply_simple apply_remove write_children focus ids retain_ne noted
second-FirstFails =
    fails_later (remove_node "a") (then_op (remove_node "a") done) 0 (small, [])
      (without_a, noted_drop) refl
      (fails_here (remove_node "a") done (without_a, noted_drop) _ refl)
