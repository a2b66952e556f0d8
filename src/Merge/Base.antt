-- ===== src/Merge/Base.antt =====
-- A merge whose first side left the base as it was refuses nothing (src/dag/merge.rs, `merge3_way`).
use fuaran_rs.Prelude.{
  ◌≡◌, refl, ap, ◌∙◌, String, Bool, true, false, Bool-cases, Option-cases, inl, inr, Option, none,
  some, [], map, All, ◌==◌, if◌then◌else◌, unwrap_or, or_else,
}
use fuaran_rs.Tree.{
  Wire, Node, node, leaf, mount, layout, error_boundary, switch, fragment_decl, Nodes, nil, cons,
  id_of, kind_of, to_list,
}
use fuaran_rs.Ops.Structural.{same_texts}
use fuaran_rs.Merge.{Canonical}
use fuaran_rs.Merge.Children.{
  map_get, Child, child_map, ids_of, merge_insert, recurse_child, merge_children, merge_facets,
  merge3, base_children, base_nodes, merge3_way,
}
use fuaran_rs.Merge.Steps.{merge3-induction, map_get-All, same_texts_refl}
use fuaran_rs.Merge.Quiet.{
  IsQuiet, none-append, refusals, outcome-refusals, pick_canonical-base, merge_style-base,
  merge_ids-IsQuiet, facets-IsQuiet,
}

module _ {W : Wire} (K : Canonical W) where
  -- The base's own table of children and the one it has as a side hold the same children.
  abbrev child_of : Option (Child W) → Option (Node W)
  child_of none = none
  child_of (some c) = some c.0

  pick_child :
      (o : Option (Child W)) (b : Bool) (c : Child W)
      → or_else (child_of o) (if b then some c.0 else none)
        ≡ child_of (or_else o (if b then some c else none))
  pick_child none true c = refl
  pick_child none false c = refl
  pick_child (some d) b c = refl

  nodes_map :
      (ns : Nodes W) (i : String)
      → map_get (map (λ c. (id_of c, c)) (to_list ns)) i ≡ child_of (map_get (base_nodes K ns) i)
  unfolding map_get base_nodes
  nodes_map nil i = refl
  nodes_map (cons n ns) i =
      ap (λ o. or_else o (if id_of n == i then some n else none)) (nodes_map ns i)
      ∙ pick_child (map_get (base_nodes K ns) i) (id_of n == i) (n, merge3 K n)

  child_map-base :
      (base : Node W) (i : String)
      → map_get (child_map base) i ≡ child_of (map_get (base_children K (kind_of base)) i)
  unfolding base_children map_get
  child_map-base (node j (layout k s ns) e r l f t) i = nodes_map ns i
  child_map-base (node j (leaf k s) e r l f t) i = refl
  child_map-base (node j (mount cs s) e r l f t) i = refl
  child_map-base (node j (error_boundary c g) e r l f t) i = refl
  child_map-base (node j (switch s cs d) e r l f t) i = refl
  child_map-base (node j (fragment_decl s b) e r l f t) i = refl

  insert_one : (i : String) (o : Option (Node W)) → IsQuiet (merge_insert K i none o)
  unfolding merge_insert
  insert_one i none = refl
  insert_one i (some n) = refl

  -- The first side is the base.
  recurse_base :
      (base b : Node W) (i : String)
      → All
          (λ (c : String × Child W). (y : Node W) → IsQuiet (c.1.1 c.1.0 y))
          (base_children K (kind_of base))
      → IsQuiet (recurse_child K (base_children K (kind_of base)) base b i)
  unfolding recurse_child
  recurse_base base b i h =
      let m = base_children K (kind_of base) in
      elim (Option-cases (map_get m i)) [
        | inl e ↦
            let w : map_get (child_map base) i ≡ none = child_map-base base i ∙ ap child_of e in
            rw (e, recurse_child) (rw w (insert_one i (map_get (child_map b) i)))
        | inr ((bc, f), e) ↦
            let q =
              map_get-All (λ (c : Child W). (y : Node W) → IsQuiet (c.1 c.0 y)) m i (bc, f) h e in
            let w : map_get (child_map base) i ≡ some bc = child_map-base base i ∙ ap child_of e in
            rw (e, recurse_child)
              (rw w (none-append _ _ (q (unwrap_or (map_get (child_map b) i) bc)) refl))
      ]

  children_base :
      (base b : Node W) (id : String)
      → ((i : String) → IsQuiet (recurse_child K (base_children K (kind_of base)) base b i))
      → IsQuiet (merge_children K (base_children K (kind_of base)) base b id (ids_of base))
  unfolding merge_children
  children_base base b id h =
      let m = base_children K (kind_of base) in
      elim (Bool-cases (same_texts (ids_of b) (ids_of base))) [
        | inl e ↦
            rw (e, same_texts_refl (ids_of base)) (merge_ids-IsQuiet K m base b (ids_of base) h)
        | inr e ↦ rw (e, same_texts_refl (ids_of base)) (merge_ids-IsQuiet K m base b (ids_of b) h)
      ]

  merge3-base : (base b : Node W) → IsQuiet (merge3 K base base b)
  merge3-base base =
      merge3-induction K (λ base f. (y : Node W) → IsQuiet (f base y)) facets_base base
    where
      facets_base :
          (base : Node W)
          → All
              (λ (c : String × Child W). (y : Node W) → IsQuiet (c.1.1 c.1.0 y))
              (base_children K (kind_of base))
          → (y : Node W) → IsQuiet (merge_facets K (base_children K (kind_of base)) base base y)
      facets_base base h y =
          facets-IsQuiet K base base y (pick_canonical-base _ _ _ _) (merge_style-base _ _ _)
            (pick_canonical-base _ _ _ _) (pick_canonical-base _ _ _ _)
            (children_base base y (id_of base) (λ i. recurse_base base y i h))

  -- A merge in which the first side left the base as it was is never refused.
  pub merge3_way-base : (base b : Node W) → refusals (merge3_way K base base b) ≡ []
  unfolding merge3_way
  merge3_way-base base b = outcome-refusals (merge3 K base base b) ∙ merge3-base base b
