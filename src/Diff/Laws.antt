-- ===== src/Diff/Laws.antt =====
-- A style edit takes the one style to the other, and there is none exactly where they are equal.
use fuaran_rs.Prelude.{
  ◌==◌, ◌⊎◌, true, not, ◌≡◌, refl, sym, ap, ◌∙◌, ◌↔◌, String, Option, none, some, ◌=?◌, is_some,
  unwrap_or, arith, subst, Bool-cases, and_parts, inl, inr,
}
use fuaran_rs.Tree.{Wire, Node, node, id_of, traits_of}
use fuaran_rs.Tree.Focus.{find_node_mut}
use fuaran_rs.Tree.Focus.Find.{Passes, focus-Passes}
use fuaran_rs.Tree.Focus.Put.{find_put}
use fuaran_rs.Tree.Style.{SemanticStyle, StyleDelta, apply_to}
use fuaran_rs.Ops.{ok, TreeOp, update_style, patch_style}
use fuaran_rs.Ops.Apply.{
  Tables, with_traits, patch_traits, noted, apply_simple, apply_edit, apply_one, inserted_nodes,
  op_can_grow, check_installed_ids, apply,
}
use fuaran_rs.Tree.Style.Enums.{Enum, tones, weights, emphases, voices, directions, roles}
use fuaran_rs.Diff.{moved, style_delta, is_total, is_empty_delta, style_edit}

same_code : {A : Type 0} (E : Enum A) (a b : A) → (E.code a =? E.code b) ≡ true → a ≡ b
same_code E a b h =
    let q : E.code a ≡ E.code b = ground arith in
    sym (E.decode-code a) ∙ ap E.decode q ∙ E.decode-code b

unwrap_or-moved :
    {A : Type 0} (E : Enum A) (before after : A) → unwrap_or (moved E before after) before ≡ after
unfolding moved
unwrap_or-moved E b a = elim (Bool-cases (E.code b =? E.code a)) [
  | inl h ↦ rw h (same_code E b a h)
  | inr h ↦ rw h refl
]

patched : (before after : SemanticStyle) → apply_to (style_delta before after) before ≡ after
unfolding apply_to style_delta
patched b a =
    rw
      (
        unwrap_or-moved directions b.direction a.direction,
        unwrap_or-moved emphases b.emphasis a.emphasis,
        unwrap_or-moved roles b.role a.role,
        unwrap_or-moved tones b.tone a.tone,
        unwrap_or-moved voices b.voice a.voice,
        unwrap_or-moved weights b.weight a.weight,
      )
      refl

some-none : {W : Wire} {op : TreeOp W} → some op ≡ none → ⊥
some-none h = cc

unset : {A : Type 0} (o : Option A) (x : A) → not (is_some o) ≡ true → unwrap_or o x ≡ x
unset none x h = refl
unset (some y) x h = cc

empty-apply_to : (d : StyleDelta) (s : SemanticStyle) → is_empty_delta d ≡ true → apply_to d s ≡ s
unfolding apply_to
empty-apply_to d s h =
    let (k5, h6) = and_parts _ (not (is_some d.weight)) h in
    let (k4, h5) = and_parts _ (not (is_some d.voice)) k5 in
    let (k3, h4) = and_parts _ (not (is_some d.tone)) k4 in
    let (k2, h3) = and_parts _ (not (is_some d.role)) k3 in
    let (h1, h2) = and_parts _ (not (is_some d.emphasis)) k2 in
    rw
      (
        unset d.direction s.direction h1,
        unset d.emphasis s.emphasis h2,
        unset d.role s.role h3,
        unset d.tone s.tone h4,
        unset d.voice s.voice h5,
        unset d.weight s.weight h6,
      )
      refl

empty-equal :
    (before after : SemanticStyle)
    → is_empty_delta (style_delta before after) ≡ true
    → before ≡ after
empty-equal b a h = sym (empty-apply_to (style_delta b a) b h) ∙ patched b a

-- A node in another style.
abbrev pub in_style : {W : Wire} → SemanticStyle → Node W → Node W
in_style s (node i k e r l f t) = node i k e r l f (record t { style = s })

patched_node :
    {W : Wire} (n : Node W) (d : StyleDelta) (s : SemanticStyle)
    → apply_to d (traits_of n).style ≡ s
    → with_traits (patch_traits d) n ≡ in_style s n
patched_node (node i k e r l f t) d s h = ap (λ x. node i k e r l f (record t { style = x })) h

restyled_id : {W : Wire} (n : Node W) (s : SemanticStyle) → id_of n ≡ id_of (in_style s n)
restyled_id (node i k e r l f t) s = refl

module _ {W : Wire} (T : Tables W) (root n : Node W) (put : Node W → Node W) (target : String)
    (found : find_node_mut root target ≡ some (n, put)) where
  restyle-applies :
      (s : SemanticStyle)
      → apply T root (update_style s target)
        ≡ ok (put (in_style s n), noted {W = W} (update_style s target))
  unfolding apply apply_one apply_simple apply_edit op_can_grow inserted_nodes check_installed_ids
  restyle-applies s = rw found refl

  patch-applies :
      (s : SemanticStyle) (d : StyleDelta)
      → apply_to d (traits_of n).style ≡ s
      → apply T root (patch_style d target)
        ≡ ok (put (in_style s n), noted {W = W} (patch_style d target))
  unfolding apply apply_one apply_simple apply_edit op_can_grow inserted_nodes check_installed_ids
  patch-applies s d e =
      rw found (ap (λ m. ok (put m, noted {W = W} (patch_style d target))) (patched_node n d s e))

  restyled-found :
      (s : SemanticStyle) → find_node_mut (put (in_style s n)) target ≡ some (in_style s n, put)
  restyled-found s = find_put target root n (in_style s n) put found named
    where
      named : (id_of (in_style s n) == target) ≡ true
      named =
          subst (λ i. (i == target) ≡ true) (restyled_id n s)
            (subst (Passes (λ m. id_of m == target)) found
              (focus-Passes (λ m. id_of m == target) root))

  -- A style edit between the style of a found node and another gives no op, where the two are equal, or
  -- an op that `apply` carries out: the node that is then found there, in the same place, is the node as
  -- it was but in the other style.
  pub apply-style_edit :
      (after : SemanticStyle)
      → ((style_edit {W = W} target (traits_of n).style after ≡ none)
          × ((traits_of n).style ≡ after))
        ⊎ ((op : TreeOp W) × (style_edit target (traits_of n).style after ≡ some op)
            × (apply T root op ≡ ok (put (in_style after n), noted op))
            × (find_node_mut (put (in_style after n)) target ≡ some (in_style after n, put)))
  unfolding style_edit
  apply-style_edit a =
      let b = (traits_of n).style in
      elim (Bool-cases (is_empty_delta (style_delta b a))) [
        | inl e ↦ inl (rw e refl, empty-equal b a e)
        | inr e ↦ elim (Bool-cases (is_total (style_delta b a))) [
          | inl t ↦ inr (update_style a target, rw (e, t) refl, restyle-applies a, restyled-found a)
          | inr t ↦ inr (
            patch_style (style_delta b a) target,
            rw (e, t) refl,
            patch-applies a (style_delta b a) (patched b a),
            restyled-found a,
          )
        ]
      ]

moved_same : {A : Type 0} (E : Enum A) (a : A) → moved E a a ≡ none
unfolding moved
moved_same E a = let h : (E.code a =? E.code a) ≡ true = ground arith in rw h refl

unmoved : (s : SemanticStyle) → is_empty_delta (style_delta s s) ≡ true
unfolding style_delta
unmoved s =
    rw
      (
        moved_same directions s.direction,
        moved_same emphases s.emphasis,
        moved_same roles s.role,
        moved_same tones s.tone,
        moved_same voices s.voice,
        moved_same weights s.weight,
      )
      refl

-- A style edit gives no op exactly where the two styles are equal.
pub style_edit-none :
    {W : Wire} (target : String) (before after : SemanticStyle)
    → (style_edit {W = W} target before after ≡ none) ↔ (before ≡ after)
unfolding style_edit
style_edit-none {W} target b a = (to, from)
  where
    to : style_edit {W = W} target b a ≡ none → b ≡ a
    to h = elim (Bool-cases (is_empty_delta (style_delta b a))) [
      | inl e ↦ empty-equal b a e
      | inr e ↦ elim (Bool-cases (is_total (style_delta b a))) [
        | inl t ↦ absurd (some-none (rw (e, t) at h))
        | inr t ↦ absurd (some-none (rw (e, t) at h))
      ]
    ]

    from : b ≡ a → style_edit {W = W} target b a ≡ none
    from q = subst (λ x. style_edit {W = W} target b x ≡ none) q (rw (unmoved b) refl)
