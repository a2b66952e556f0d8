-- ===== src/Merge/Children.antt =====
-- The structural facet and the merge itself (src/dag/merge.rs, `merge3` and `merge3_way`). The recursion
-- on the child that the base has under an id is taken from a table of the base's children.
use Prim.Native.String.{◌++◌ as append_text}
use fuaran_rs.Prelude.{
  String, Bool, not, ◌&&◌, Option, none, some, List, [], ◌∷◌, ◌++◌, map, any, filter, ◌==◌,
  if◌then◌else◌, or_else, unwrap_or,
}
use fuaran_rs.Prelude.Counts.{contains}
use fuaran_rs.Tree.{
  Wire, Node, node, Kind, layout, Nodes, nil, cons, to_list, of_list, id_of, kind_of, traits_of,
}
use fuaran_rs.Ops.Structural.{sort, same_texts}
use fuaran_rs.Merge.{
  Canonical, two_sided, concurrent_edit, reorder_vs_structural, Merging, ◌>>=◌, return, refusing,
  MergeResult, merged, conflicting, children_of, with_children, childless, state_of, mk_node,
}
use fuaran_rs.Merge.Facets.{
  pick_canonical, taken, merge_style, kind_canonical, state_canonical, accessibility_canonical,
}

-- `ids.join(",")`
abbrev pub join_commas : List String → String
join_commas [] = ""
join_commas (x ∷ []) = x
join_commas (x ∷ (y ∷ ys)) = append_text x (append_text "," (join_commas (y ∷ ys)))

-- No id of the base is removed, and none is reordered.
unfoldable pub is_pure_addition : List String → List String → Bool
unfolding same_texts
is_pure_addition base_ids head_ids =
    same_texts (filter (λ i. contains i head_ids) base_ids) base_ids
    && same_texts (filter (λ i. contains i base_ids) head_ids) base_ids

-- `new_ids`: those of `b` that `a` has not are pushed after those of `a`, each once.
unfoldable pub push_new : List String → List String → List String
push_new news [] = news
push_new news (i ∷ is) = push_new (if contains i news then news else news ++ (i ∷ [])) is

-- A map collected from the children holds the last child with an id.
module _ {ℓ} {A : Type ℓ} where
  unfoldable pub map_get : List (String × A) → String → Option A
  map_get [] i = none
  map_get ((j, x) ∷ m) i = or_else (map_get m i) (if j == i then some x else none)

-- A child of the base, and its merge with what the sides make of it.
abbrev pub Child : Wire → Type 0
Child W = Node W × (Node W → Node W → Merging (Node W))

module _ {W : Wire} where
  abbrev pub ids_of : Node W → List String
  ids_of n = map id_of (to_list (children_of n))

  abbrev pub child_map : Node W → List (String × Node W)
  child_map n = map (λ c. (id_of c, c)) (to_list (children_of n))

module _ {W : Wire} (K : Canonical W) where
  -- `recurse_child`, at a child that the base has not.
  unfoldable pub merge_insert :
      String → Option (Node W) → Option (Node W) → Merging (Option (Node W))
  merge_insert cid (some ac) (some bb) =
      let ac_c = K.encode_node ac in
      let bb_c = K.encode_node bb in
      if ac_c == bb_c
      then return (some ac)
      else refusing (two_sided cid "insert" concurrent_edit "" ac_c bb_c)
          (some (if K.ordinal_le ac_c bb_c then ac else bb))
  merge_insert cid (some ac) none = return (some ac)
  merge_insert cid none (some bb) = return (some bb)
  merge_insert cid none none = return none

  module _ (base_map : List (String × Child W)) (a b : Node W) where
    -- `recurse_child`
    unfoldable pub recurse_child : String → Merging (Option (Node W))
    unfolding merge_insert map_get
    recurse_child cid = elim (map_get base_map cid) [
      | some (bc, merge) ↦ do
        child ←
            merge (unwrap_or (map_get (child_map a) cid) bc)
              (unwrap_or (map_get (child_map b) cid) bc)
        return (some child)
      | none ↦ merge_insert cid (map_get (child_map a) cid) (map_get (child_map b) cid)
    ]

    abbrev pub push_some : Option (Node W) → List (Node W) → List (Node W)
    push_some none ns = ns
    push_some (some n) ns = n ∷ ns

    -- `filter_map(recurse_child)`
    unfoldable pub merge_ids : List String → Merging (List (Node W))
    unfolding recurse_child
    merge_ids [] = return []
    merge_ids (i ∷ is) = do
      child ← recurse_child i
      rest ← merge_ids is
      return (push_some child rest)

    unfoldable pub merge_children : String → List String → Merging (List (Node W))
    unfolding merge_ids is_pure_addition push_new sort same_texts
    merge_children id base_ids =
        let a_ids = ids_of a in
        let b_ids = ids_of b in
        let a_struct = not (same_texts a_ids base_ids) in
        let b_struct = not (same_texts b_ids base_ids) in
        let a_new = filter (λ i. not (contains i base_ids)) a_ids in
        let b_new = filter (λ i. not (contains i base_ids)) b_ids in
        let disjoint =
          is_pure_addition base_ids a_ids
          && is_pure_addition base_ids b_ids
          && not (any (λ i. contains i a_new) b_new) in
        if not a_struct && not b_struct
        then merge_ids base_ids
        else if not b_struct
        then merge_ids a_ids
        else if not a_struct
        then merge_ids b_ids
        else if same_texts a_ids b_ids
        then merge_ids a_ids
        else if disjoint
        then (do
          kept ← merge_ids base_ids
          new ← merge_ids (sort K.ordinal_le (push_new a_new b_new))
          return (kept ++ new))
        else (do
          ids ←
              refusing
                (two_sided id "children" reorder_vs_structural (join_commas base_ids)
                  (join_commas a_ids) (join_commas b_ids))
                base_ids
          merge_ids ids)

  -- All facets of one node, the children of the base with their merges given.
  unfoldable pub merge_facets :
      List (String × Child W) → Node W → Node W → Node W → Merging (Node W)
  unfolding merge_children pick_canonical merge_style
  merge_facets base_map base a b = do
    let id = id_of base
    let shell = childless (kind_of base)
    kind_pick ←
        pick_canonical id "kind" (kind_canonical K base) (kind_canonical K a) (kind_canonical K b)
    style ← merge_style id (traits_of base).style (traits_of a).style (traits_of b).style
    state_pick ←
        pick_canonical id "state" (state_canonical K shell base) (state_canonical K shell a)
          (state_canonical K shell b)
    acc_pick ←
        pick_canonical id "accessibility" (accessibility_canonical K shell base)
          (accessibility_canonical K shell a) (accessibility_canonical K shell b)
    children ← merge_children base_map a b id (ids_of base)
    return (
        mk_node id
          (with_children (childless (taken kind_pick (kind_of base) (kind_of a) (kind_of b)))
            (of_list children))
          style (taken state_pick (state_of base) (state_of a) (state_of b))
          (taken acc_pick (traits_of base).accessibility (traits_of a).accessibility
            (traits_of b).accessibility))

unfoldable mutual
  unfolding merge_facets

  -- `merge3`
  pub merge3 : {W : Wire} → Canonical W → Node W → Node W → Node W → Merging (Node W)
  merge3 K (node i k e r l f t) = merge_facets K (base_children K k) (node i k e r l f t)

  -- `base_map`
  pub base_children : {W : Wire} → Canonical W → Kind W → List (String × Child W)
  base_children K (layout k s ns) = base_nodes K ns
  base_children K k = []

  pub base_nodes : {W : Wire} → Canonical W → Nodes W → List (String × Child W)
  base_nodes K nil = []
  base_nodes K (cons n ns) = (id_of n, (n, merge3 K n)) ∷ base_nodes K ns

abbrev pub outcome : {W : Wire} → Merging (Node W) → MergeResult W
outcome m = elim m.conflicts [ [] ↦ merged m.value | c ∷ cs ↦ conflicting (c ∷ cs) ]

unfoldable pub merge3_way : {W : Wire} → Canonical W → Node W → Node W → Node W → MergeResult W
unfolding merge3
merge3_way K base a b = outcome (merge3 K base a b)
