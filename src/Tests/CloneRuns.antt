-- ===== src/Tests/CloneRuns.antt =====
-- Runs of the clone verbs.
use fuaran_rs.Prelude.{ℕ, ◌≡◌, refl, some, [], ◌∷◌}
use fuaran_rs.Prelude.Outcome.{ok}
use fuaran_rs.Prelude.Decimal.{show_nat}
use fuaran_rs.Tree.{Node}
use fuaran_rs.Tree.Walk.{ids}
use fuaran_rs.Tree.Focus.{focus, find_node}
use fuaran_rs.Ops.{TreeOp, batch, insert_child, reorder_children, done, then_op}
use fuaran_rs.Ops.Structural.{same_texts}
use fuaran_rs.Ops.Unique.{IsUnique}
use fuaran_rs.Placement.{
  Target, before, position, others, container_children, reposition, membership_with, place_op,
}
use fuaran_rs.Placement.Granted.{Granted}
use fuaran_rs.Placement.Clone.{
  probe, derived_candidate, mint_derived, sequential_ids, mint_all, renamed_to, rewrite_ids,
  remap_for_insert, paste_op_with, duplicate_op_with, duplicate_op,
}
use fuaran_rs.Placement.Clone.Probe.{FirstFree}
use fuaran_rs.Placement.Clone.Minters.{mint_derived-FirstFree, sequential_ids-Mints}
use fuaran_rs.Placement.Clone.Verbs.{IsCopy, paste_op_with-IsCopy, duplicate_op-Granted}
use fuaran_rs.Tests.Demo.{demo, tables, text_node, box_node, small, small-IsUnique}
use fuaran_rs.Tests.TextOrder.{text_le-IsOrder}

abbrev ahead_of_b : Target
ahead_of_b = record { parent_id = "root"; placement = before "b" }

third : mint_derived "a" ("a" ∷ "a-copy" ∷ "a-copy-2" ∷ []) ≡ some "a-copy-3"
unfolding mint_derived probe show_nat
third = refl

mint_derived-FirstFree_example :
    (n : ℕ) × (mint_derived "a" ("a" ∷ "a-copy" ∷ "a-copy-2" ∷ []) ≡ some (derived_candidate "a" n))
    × FirstFree (derived_candidate "a") ("a" ∷ "a-copy" ∷ "a-copy-2" ∷ []) 1 n
mint_derived-FirstFree_example = mint_derived-FirstFree "a" ("a" ∷ "a-copy" ∷ "a-copy-2" ∷ [])

-- A subtree with an id of the tree, and one of its own.
abbrev foreign : Node demo
foreign = box_node "b" (text_node "d" ∷ [])

paste_op_with-IsCopy_example :
    (clone : Node demo) × (next : sequential_ids.State) × (paste_op_with sequential_ids
        (record { prefix = "n"; counter = 0 })
        small
        foreign
        ahead_of_b
      ≡ some (place_op small clone ahead_of_b, next))
    × IsCopy small foreign clone
paste_op_with-IsCopy_example =
    paste_op_with-IsCopy sequential_ids sequential_ids-Mints (record { prefix = "n"; counter = 0 })
      small foreign ahead_of_b

abbrev doubled : TreeOp demo
doubled = batch (
    then_op (insert_child (box_node "b-copy" (text_node "c-copy" ∷ [])) "root")
      (then_op (reorder_children ("a" ∷ "b-copy" ∷ "b" ∷ []) "root") done))

duplicate_run : duplicate_op small "b" ahead_of_b ≡ some (ok doubled)
unfolding duplicate_op duplicate_op_with paste_op_with remap_for_insert mint_all mint_derived probe
    renamed_to rewrite_ids place_op container_children reposition membership_with same_texts others
    position focus ids
duplicate_run = refl

duplicate_op-Granted_example :
    (sub : Node demo) × (clone : Node demo) × (find_node small "b" ≡ some sub)
    × IsCopy small sub clone
    × IsUnique clone
    × Granted tables small clone ahead_of_b doubled
duplicate_op-Granted_example =
    duplicate_op-Granted tables small "b" ahead_of_b doubled text_le-IsOrder small-IsUnique
      duplicate_run
