-- ===== src/Diff.antt =====
-- Part of the diff of src/diff/mod.rs: the op that takes one style to another.
pub mod Laws
use fuaran_rs.Prelude.{
  ℕ, Bool, true, false, ◌&&◌, not, ◌≡◌, refl, sym, ap, ◌∙◌, String, Option, none, some, ◌=?◌,
  is_some, if◌then◌else◌,
}
use fuaran_rs.Tree.{Wire}
use fuaran_rs.Tree.Style.{SemanticStyle, StyleDelta}
use fuaran_rs.Tree.Style.Enums.{Enum, tones, weights, emphases, voices, directions, roles}
use fuaran_rs.Ops.{TreeOp, patch_style, update_style}

-- `moved`
unfoldable pub moved : {A : Type 0} → Enum A → A → A → Option A
moved E before after = if E.code before =? E.code after then none else some after

unfoldable pub style_delta : SemanticStyle → SemanticStyle → StyleDelta
unfolding moved
style_delta before after = record {
  direction = moved directions before.direction after.direction;
  emphasis = moved emphases before.emphasis after.emphasis;
  role = moved roles before.role after.role;
  tone = moved tones before.tone after.tone;
  voice = moved voices before.voice after.voice;
  weight = moved weights before.weight after.weight;
}

abbrev pub is_total : StyleDelta → Bool
is_total d =
    is_some d.direction
    && is_some d.emphasis
    && is_some d.role
    && is_some d.tone
    && is_some d.voice
    && is_some d.weight

-- `StyleDelta::is_empty`
abbrev pub is_empty_delta : StyleDelta → Bool
is_empty_delta d =
    not (is_some d.direction)
    && not (is_some d.emphasis)
    && not (is_some d.role)
    && not (is_some d.tone)
    && not (is_some d.voice)
    && not (is_some d.weight)

unfoldable pub style_edit : {W : Wire} → String → SemanticStyle → SemanticStyle → Option (TreeOp W)
unfolding style_delta
style_edit target before after =
    let delta = style_delta before after in
    if is_empty_delta delta
    then none
    else if is_total delta
    then some (update_style after target)
    else some (patch_style delta target)
