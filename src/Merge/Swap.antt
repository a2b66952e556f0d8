-- ===== src/Merge/Swap.antt =====
-- The merge of src/dag/merge.rs with its two sides swapped.
use fuaran_rs.Prelude.{
  ◌≡◌, refl, sym, ap, ◌∙◌, String, true, false, not, Bool-cases, Option-cases, inl, inr, Option,
  none, some, List, [], ◌∷◌, ◌++◌, map, All, eq_iff, unwrap_or, arith, any, filter,
}
use fuaran_rs.Prelude.Counts.{contains}
use fuaran_rs.Tree.{Wire, Node, id_of, kind_of, traits_of}
use fuaran_rs.Tree.Style.{SemanticStyle}
use fuaran_rs.Tree.Style.Enums.{Enum, tones, weights, emphases, voices, directions, roles}
use fuaran_rs.Ops.Structural.{same_texts}
use fuaran_rs.Merge.{Canonical, MergeConflict, reorder_vs_structural, two_sided, Merging, childless}
use fuaran_rs.Merge.Facets.{
  pick_field, pick_canonical, merge_style, tone_text, weight_text, emphasis_text, role_text,
  voice_text, direction_text, kind_canonical, state_canonical, accessibility_canonical,
}
use fuaran_rs.Merge.Children.{
  map_get, Child, child_map, ids_of, merge_insert, recurse_child, merge_ids, merge_children,
  merge_facets, merge3, base_children, merge3_way, is_pure_addition, join_commas,
}
use fuaran_rs.Merge.Steps.{merge3-induction, map_get-All, same_texts-eq, base_children-ids}
use fuaran_rs.Merge.News.{same_texts_sym, share_sym, merge_news}
use fuaran_rs.Merge.Quiet.{refusals, outcome-refusals}

-- A conflict as the merge in the opposite order reports it.
abbrev pub transpose : MergeConflict → MergeConflict
transpose c = record c { a = c.b; b = c.a }

-- The second merge reports the conflicts of the first, transposed.
abbrev pub Swapped {ℓ} : {A : Type ℓ} → Merging A → Merging A → Type 0
Swapped m m' = m'.conflicts ≡ map transpose m.conflicts

map_append :
    (xs ys xs' ys' : List MergeConflict)
    → xs' ≡ map transpose xs
    → ys' ≡ map transpose ys
    → xs' ++ ys' ≡ map transpose (xs ++ ys)
map_append [] ys xs' ys' h h' = ap (λ l. l ++ ys') h ∙ h'
map_append (x ∷ xs) ys xs' ys' h h' =
    ap (λ l. l ++ ys') h
    ∙ ap (λ l. transpose x ∷ l) (map_append xs ys (map transpose xs) ys' refl h')

module _ {A : Type 0} (E : Enum A) (spelled : A → String) (i f : String) where
  pick_field-Swapped :
      (base a b : A)
      → Swapped (pick_field E spelled i f base a b) (pick_field E spelled i f base b a)
  unfolding pick_field two_sided
  pick_field-Swapped base a b = ground arith

pick_canonical-Swapped :
    (i f base a b : String) → Swapped (pick_canonical i f base a b) (pick_canonical i f base b a)
unfolding pick_canonical two_sided
pick_canonical-Swapped i f base a b =
    ground (arith, eq_iff a base, eq_iff b base, eq_iff a b, eq_iff b a)

merge_style-Swapped :
    (i : String) (base a b : SemanticStyle)
    → Swapped (merge_style i base a b) (merge_style i base b a)
unfolding merge_style
merge_style-Swapped i base a b =
    map_append _ _ _ _ (pick_field-Swapped tones tone_text i "style.tone" base.tone a.tone b.tone) (
      map_append _ _ _ _
        (pick_field-Swapped weights weight_text i "style.weight" base.weight a.weight b.weight)
        (map_append _ _ _ _
          (pick_field-Swapped emphases emphasis_text i "style.emphasis" base.emphasis a.emphasis
            b.emphasis)
          (map_append _ _ _ _
            (pick_field-Swapped roles role_text i "style.role" base.role a.role b.role)
            (map_append _ _ _ _
              (pick_field-Swapped voices voice_text i "style.voice" base.voice a.voice b.voice)
              (map_append _ _ _ _
                (pick_field-Swapped directions direction_text i "style.direction" base.direction
                  a.direction b.direction)
                refl)))))

module _ {W : Wire} (K : Canonical W) where
  insert-Swapped :
      (i : String) (o p : Option (Node W)) → Swapped (merge_insert K i o p) (merge_insert K i p o)
  unfolding merge_insert two_sided
  insert-Swapped i none none = refl
  insert-Swapped i none (some n) = refl
  insert-Swapped i (some n) none = refl
  insert-Swapped i (some n) (some m) = ground (
    arith,
    eq_iff (K.encode_node n) (K.encode_node m),
    eq_iff (K.encode_node m) (K.encode_node n),
  )

  abbrev AllSwapped : List (String × Child W) → Type 0
  AllSwapped = All (λ (c : String × Child W). (x y : Node W) → Swapped (c.1.1 x y) (c.1.1 y x))

  recurse-Swapped :
      (m : List (String × Child W)) (a b : Node W) (i : String)
      → AllSwapped m
      → Swapped (recurse_child K m a b i) (recurse_child K m b a i)
  unfolding recurse_child
  recurse-Swapped m a b i h = elim (Option-cases (map_get m i)) [
    | inl e ↦
        rw (e, recurse_child) (insert-Swapped i (map_get (child_map a) i) (map_get (child_map b) i))
    | inr ((bc, f), e) ↦
        let q =
          map_get-All (λ (c : Child W). (x y : Node W) → Swapped (c.1 x y) (c.1 y x)) m i (bc, f) h
            e in
        rw (e, recurse_child)
          (map_append _ [] _ []
            (q (unwrap_or (map_get (child_map a) i) bc) (unwrap_or (map_get (child_map b) i) bc))
            refl)
  ]

  merge_ids-Swapped :
      (m : List (String × Child W)) (a b : Node W) (is : List String)
      → AllSwapped m
      → Swapped (merge_ids K m a b is) (merge_ids K m b a is)
  unfolding merge_ids
  merge_ids-Swapped m a b [] h = refl
  merge_ids-Swapped m a b (i ∷ is) h =
      map_append _ _ _ _ (recurse-Swapped m a b i h)
        (map_append _ [] _ [] (merge_ids-Swapped m a b is h) refl)

  abbrev keys : List (String × Child W) → List String
  keys = map (λ (e : String × Child W). e.0)

  abbrev news : List String → List String → List String
  news base_ids = filter (λ i. not (contains i base_ids))

  -- Both sides changed the children, in different ways.
  disjoint-Swapped :
      (m : List (String × Child W)) (a b : Node W) (id : String) (base_ids : List String)
      → AllSwapped m
      → keys m ≡ base_ids
      → same_texts (ids_of a) base_ids ≡ false
      → same_texts (ids_of b) base_ids ≡ false
      → same_texts (ids_of a) (ids_of b) ≡ false
      → Swapped (merge_children K m a b id base_ids) (merge_children K m b a id base_ids)
  unfolding merge_children two_sided
  disjoint-Swapped m a b id base_ids h k sa sb sab =
      let a_new = news base_ids (ids_of a) in
      let b_new = news base_ids (ids_of b) in
      let refused =
        two_sided id "children" reorder_vs_structural (join_commas base_ids)
          (join_commas (ids_of b)) (join_commas (ids_of a)) in
      let sba : same_texts (ids_of b) (ids_of a) ≡ false =
        same_texts_sym (ids_of b) (ids_of a) ∙ sab in
      elim (Bool-cases (is_pure_addition base_ids (ids_of a))) [
        | inr pa ↦ elim (Bool-cases (is_pure_addition base_ids (ids_of b))) [
          | inr pb ↦
              rw (sa, sb, sab, sba, pa, pb)
                (ap (λ l. refused ∷ l) (merge_ids-Swapped m a b base_ids h))
          | inl pb ↦
              rw (sa, sb, sab, sba, pa, pb)
                (ap (λ l. refused ∷ l) (merge_ids-Swapped m a b base_ids h))
        ]
        | inl pa ↦ elim (Bool-cases (is_pure_addition base_ids (ids_of b))) [
          | inr pb ↦
              rw (sa, sb, sab, sba, pa, pb)
                (ap (λ l. refused ∷ l) (merge_ids-Swapped m a b base_ids h))
          | inl pb ↦ elim (Bool-cases (any (λ i. contains i a_new) b_new)) [
            | inl s ↦
                let s' : any (λ i. contains i b_new) a_new ≡ true =
                  sym (share_sym a_new b_new) ∙ s in
                rw (sa, sb, sab, sba, pa, pb, s, s')
                  (ap (λ l. refused ∷ l) (merge_ids-Swapped m a b base_ids h))
            | inr s ↦
                let s' : any (λ i. contains i b_new) a_new ≡ false =
                  sym (share_sym a_new b_new) ∙ s in
                let q = merge_news K m a b base_ids k s in
                let q' = merge_news K m b a base_ids k s' in
                rw (sa, sb, sab, sba, pa, pb, s, s')
                  (map_append _ _ _ _ (merge_ids-Swapped m a b base_ids h)
                    (ap (λ l. l ++ []) q' ∙ ap (λ l. map transpose (l ++ [])) (sym q)))
          ]
        ]
      ]

  children-Swapped :
      (m : List (String × Child W)) (a b : Node W) (id : String) (base_ids : List String)
      → AllSwapped m
      → keys m ≡ base_ids
      → Swapped (merge_children K m a b id base_ids) (merge_children K m b a id base_ids)
  unfolding merge_children
  children-Swapped m a b id base_ids h k = elim (Bool-cases (same_texts (ids_of a) base_ids)) [
    | inl sa ↦ elim (Bool-cases (same_texts (ids_of b) base_ids)) [
      | inl sb ↦ rw (sa, sb) (merge_ids-Swapped m a b base_ids h)
      | inr sb ↦ rw (sa, sb) (merge_ids-Swapped m a b (ids_of b) h)
    ]
    | inr sa ↦ elim (Bool-cases (same_texts (ids_of b) base_ids)) [
      | inl sb ↦ rw (sa, sb) (merge_ids-Swapped m a b (ids_of a) h)
      | inr sb ↦ elim (Bool-cases (same_texts (ids_of a) (ids_of b))) [
        | inr sab ↦ disjoint-Swapped m a b id base_ids h k sa sb sab
        | inl sab ↦
            let sba : same_texts (ids_of b) (ids_of a) ≡ true =
              same_texts_sym (ids_of b) (ids_of a) ∙ sab in
            rw (sa, sb, sab, sba)
              (ap (λ is. (merge_ids K m b a is).conflicts)
                  (sym (same_texts-eq (ids_of a) (ids_of b) sab))
                ∙ merge_ids-Swapped m a b (ids_of a) h)
      ]
    ]
  ]

  facets-Swapped :
      (base : Node W)
      → AllSwapped (base_children K (kind_of base))
      → (a b : Node W)
      → Swapped
          (merge_facets K (base_children K (kind_of base)) base a b)
          (merge_facets K (base_children K (kind_of base)) base b a)
  unfolding merge_facets
  facets-Swapped base h a b =
      let id = id_of base in
      let shell = childless (kind_of base) in
      map_append _ _ _ _
        (pick_canonical-Swapped id "kind" (kind_canonical K base) (kind_canonical K a)
          (kind_canonical K b))
        (map_append _ _ _ _
          (merge_style-Swapped id (traits_of base).style (traits_of a).style (traits_of b).style)
          (map_append _ _ _ _
            (pick_canonical-Swapped id "state" (state_canonical K shell base)
              (state_canonical K shell a) (state_canonical K shell b))
            (map_append _ _ _ _
              (pick_canonical-Swapped id "accessibility" (accessibility_canonical K shell base)
                (accessibility_canonical K shell a) (accessibility_canonical K shell b))
              (map_append _ [] _ []
                (children-Swapped (base_children K (kind_of base)) a b id (ids_of base) h
                  (base_children-ids K base))
                refl))))

  -- Merging the sides in the opposite order gives the same conflicts, in the same order, each with the
  -- values of its two sides swapped; so one order is refused exactly when the other is.
  pub merge3_way-swap :
      (base a b : Node W)
      → refusals (merge3_way K base b a) ≡ map transpose (refusals (merge3_way K base a b))
  unfolding merge3_way
  merge3_way-swap base a b =
      outcome-refusals (merge3 K base b a)
      ∙ merge3-induction K (λ base f. (x y : Node W) → Swapped (f x y) (f y x)) facets-Swapped base
          a b
      ∙ ap (map transpose) (sym (outcome-refusals (merge3 K base a b)))
