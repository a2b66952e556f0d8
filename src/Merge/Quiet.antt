-- ===== src/Merge/Quiet.antt =====
-- When the merge of src/dag/merge.rs refuses nothing: a branch merged with itself, or with the base.
use fuaran_rs.Prelude.{
  ◌≡◌, refl, ap, ◌∙◌, String, Bool-cases, Option-cases, inl, inr, Option, none, some, List, [], ◌∷◌,
  ◌++◌, All, eq_refl, unwrap_or, arith,
}
use fuaran_rs.Tree.{Wire, Node, id_of, kind_of, traits_of}
use fuaran_rs.Tree.Style.{SemanticStyle}
use fuaran_rs.Tree.Style.Enums.{Enum, tones, weights, emphases, voices, directions, roles}
use fuaran_rs.Ops.Structural.{same_texts}
use fuaran_rs.Merge.{Canonical, MergeConflict, Merging, MergeResult, merged, conflicting, childless}
use fuaran_rs.Merge.Facets.{
  pick_field, pick_canonical, merge_style, tone_text, weight_text, emphasis_text, role_text,
  voice_text, direction_text, kind_canonical, state_canonical, accessibility_canonical,
}
use fuaran_rs.Merge.Children.{
  map_get, Child, child_map, ids_of, merge_insert, recurse_child, merge_ids, merge_children,
  merge_facets, merge3, base_children, merge3_way, outcome,
}
use fuaran_rs.Merge.Steps.{merge3-induction, map_get-All, same_texts_refl}

-- No conflict was pushed.
abbrev pub IsQuiet {ℓ} : {A : Type ℓ} → Merging A → Type 0
IsQuiet m = m.conflicts ≡ []

-- The conflicts of a chain are those of its steps, one after the other.
pub none-append {ℓ} : {A : Type ℓ} (xs ys : List A) → xs ≡ [] → ys ≡ [] → xs ++ ys ≡ []
none-append xs ys h h' = ap (λ l. l ++ ys) h ∙ h'

-- The conflicts that a merge gives back.
abbrev pub refusals : {W : Wire} → MergeResult W → List MergeConflict
refusals (merged n) = []
refusals (conflicting cs) = cs

pub outcome-refusals : {W : Wire} (m : Merging (Node W)) → refusals (outcome m) ≡ m.conflicts
outcome-refusals m = go m.conflicts refl
  where
    go : (cs : List MergeConflict) → m.conflicts ≡ cs → refusals (outcome m) ≡ m.conflicts
    go [] e = rw e refl
    go (c ∷ cs) e = rw e refl

-- A facet that one side left alone, or that both sides gave the same value, is no conflict.
module _ {A : Type 0} (E : Enum A) (spelled : A → String) (i f : String) where
  pub pick_field-same : (base a : A) → IsQuiet (pick_field E spelled i f base a a)
  unfolding pick_field
  pick_field-same base a = ground arith

  pub pick_field-base : (base b : A) → IsQuiet (pick_field E spelled i f base base b)
  unfolding pick_field
  pick_field-base base b = ground arith

pub pick_canonical-same : (i f base a : String) → IsQuiet (pick_canonical i f base a a)
unfolding pick_canonical
pick_canonical-same i f base a = ground (arith, eq_refl a)

pub pick_canonical-base : (i f base b : String) → IsQuiet (pick_canonical i f base base b)
unfolding pick_canonical
pick_canonical-base i f base b = ground (arith, eq_refl base)

pub merge_style-same : (i : String) (base a : SemanticStyle) → IsQuiet (merge_style i base a a)
unfolding merge_style
merge_style-same i base a =
    none-append _ _ (pick_field-same tones tone_text i "style.tone" base.tone a.tone) (
      none-append _ _ (pick_field-same weights weight_text i "style.weight" base.weight a.weight) (
        none-append _ _
          (pick_field-same emphases emphasis_text i "style.emphasis" base.emphasis a.emphasis)
          (none-append _ _ (pick_field-same roles role_text i "style.role" base.role a.role) (
            none-append _ _ (pick_field-same voices voice_text i "style.voice" base.voice a.voice) (
              none-append _ _
                (pick_field-same directions direction_text i "style.direction" base.direction
                  a.direction)
                refl)))))

pub merge_style-base : (i : String) (base b : SemanticStyle) → IsQuiet (merge_style i base base b)
unfolding merge_style
merge_style-base i base b =
    none-append _ _ (pick_field-base tones tone_text i "style.tone" base.tone b.tone) (
      none-append _ _ (pick_field-base weights weight_text i "style.weight" base.weight b.weight) (
        none-append _ _
          (pick_field-base emphases emphasis_text i "style.emphasis" base.emphasis b.emphasis)
          (none-append _ _ (pick_field-base roles role_text i "style.role" base.role b.role) (
            none-append _ _ (pick_field-base voices voice_text i "style.voice" base.voice b.voice) (
              none-append _ _
                (pick_field-base directions direction_text i "style.direction" base.direction
                  b.direction)
                refl)))))

module _ {W : Wire} (K : Canonical W) where
  pub merge_ids-IsQuiet :
      (m : List (String × Child W)) (a b : Node W) (is : List String)
      → ((i : String) → IsQuiet (recurse_child K m a b i))
      → IsQuiet (merge_ids K m a b is)
  unfolding merge_ids
  merge_ids-IsQuiet m a b [] h = refl
  merge_ids-IsQuiet m a b (i ∷ is) h =
      none-append _ _ (h i) (none-append _ _ (merge_ids-IsQuiet m a b is h) refl)

  insert_same : (i : String) (o : Option (Node W)) → IsQuiet (merge_insert K i o o)
  unfolding merge_insert
  insert_same i none = refl
  insert_same i (some n) = rw (eq_refl (K.encode_node n)) refl

  -- Both sides are the same node.
  recurse_same :
      (m : List (String × Child W)) (a : Node W) (i : String)
      → All (λ (c : String × Child W). (x : Node W) → IsQuiet (c.1.1 x x)) m
      → IsQuiet (recurse_child K m a a i)
  unfolding recurse_child
  recurse_same m a i h = elim (Option-cases (map_get m i)) [
    | inl e ↦ rw (e, recurse_child) (insert_same i (map_get (child_map a) i))
    | inr ((bc, f), e) ↦
        let q = map_get-All (λ (c : Child W). (x : Node W) → IsQuiet (c.1 x x)) m i (bc, f) h e in
        rw (e, recurse_child) (none-append _ _ (q (unwrap_or (map_get (child_map a) i) bc)) refl)
  ]

  children_same :
      (m : List (String × Child W)) (a : Node W) (id : String) (base_ids : List String)
      → ((i : String) → IsQuiet (recurse_child K m a a i))
      → IsQuiet (merge_children K m a a id base_ids)
  unfolding merge_children
  children_same m a id base_ids h = elim (Bool-cases (same_texts (ids_of a) base_ids)) [
    | inl e ↦ rw e (merge_ids-IsQuiet m a a base_ids h)
    | inr e ↦ rw (e, same_texts_refl (ids_of a)) (merge_ids-IsQuiet m a a (ids_of a) h)
  ]

  -- The facets of a node are merged one after the other.
  pub facets-IsQuiet :
      (base a b : Node W)
      → IsQuiet (
          pick_canonical
            (id_of base)
            "kind"
            (kind_canonical K base)
            (kind_canonical K a)
            (kind_canonical K b))
      → IsQuiet
          (merge_style (id_of base) (traits_of base).style (traits_of a).style (traits_of b).style)
      → IsQuiet (
          pick_canonical
            (id_of base)
            "state"
            (state_canonical K (childless (kind_of base)) base)
            (state_canonical K (childless (kind_of base)) a)
            (state_canonical K (childless (kind_of base)) b))
      → IsQuiet (
          pick_canonical
            (id_of base)
            "accessibility"
            (accessibility_canonical K (childless (kind_of base)) base)
            (accessibility_canonical K (childless (kind_of base)) a)
            (accessibility_canonical K (childless (kind_of base)) b))
      → IsQuiet (merge_children K (base_children K (kind_of base)) a b (id_of base) (ids_of base))
      → IsQuiet (merge_facets K (base_children K (kind_of base)) base a b)
  unfolding merge_facets
  facets-IsQuiet base a b h1 h2 h3 h4 h5 =
      none-append _ _ h1
        (none-append _ _ h2 (none-append _ _ h3 (none-append _ _ h4 (none-append _ _ h5 refl))))

  merge3-same : (base a : Node W) → IsQuiet (merge3 K base a a)
  merge3-same base = merge3-induction K (λ base f. (x : Node W) → IsQuiet (f x x)) facets_same base
    where
      facets_same :
          (base : Node W)
          → All
              (λ (c : String × Child W). (x : Node W) → IsQuiet (c.1.1 x x))
              (base_children K (kind_of base))
          → (x : Node W) → IsQuiet (merge_facets K (base_children K (kind_of base)) base x x)
      facets_same base h x =
          facets-IsQuiet base x x (pick_canonical-same _ _ _ _) (merge_style-same _ _ _)
            (pick_canonical-same _ _ _ _) (pick_canonical-same _ _ _ _)
            (children_same (base_children K (kind_of base)) x (id_of base) (ids_of base)
              (λ i. recurse_same (base_children K (kind_of base)) x i h))

  -- A branch merged with itself is never refused, whatever the base.
  pub merge3_way-same : (base a : Node W) → refusals (merge3_way K base a a) ≡ []
  unfolding merge3_way
  merge3_way-same base a = outcome-refusals (merge3 K base a a) ∙ merge3-same base a
