-- ===== src/Merge/Facets.antt =====
-- The facets of a node and their merge (src/dag/merge.rs, from `kind_canonical` to `merge_style`).
use fuaran_rs.Prelude.{String, not, ◌&&◌, none, ◌==◌, ◌=?◌, if◌then◌else◌}
use fuaran_rs.Tree.{Wire, Node, Kind, id_of, kind_of, traits_of}
use fuaran_rs.Tree.Style.{
  ToneVariant, StyleWeight, Emphasis, StyleRole, FontVoice, TextDirection, SemanticStyle,
  default_style,
}
use fuaran_rs.Tree.Style.Enums.{Enum, tones, weights, emphases, voices, directions, roles}
use fuaran_rs.Merge.{
  Canonical, two_sided, concurrent_edit, Merging, ◌>>=◌, return, refusing, childless, state_of,
  no_state, mk_node,
}

-- The wire spellings (`as_str`).
abbrev pub tone_text : ToneVariant → String
tone_text ToneVariant.default = "Default"
tone_text ToneVariant.subdued = "Subdued"
tone_text ToneVariant.brand = "Brand"
tone_text ToneVariant.success = "Success"
tone_text ToneVariant.warning = "Warning"
tone_text ToneVariant.critical = "Critical"
tone_text ToneVariant.info = "Info"

abbrev pub weight_text : StyleWeight → String
weight_text StyleWeight.compact = "Compact"
weight_text StyleWeight.standard = "Standard"
weight_text StyleWeight.spacious = "Spacious"

abbrev pub emphasis_text : Emphasis → String
emphasis_text Emphasis.quiet = "Quiet"
emphasis_text Emphasis.normal = "Normal"
emphasis_text Emphasis.loud = "Loud"

abbrev pub role_text : StyleRole → String
role_text StyleRole.no_role = "None"
role_text StyleRole.eyebrow = "Eyebrow"
role_text StyleRole.data_role = "Data"
role_text StyleRole.lede = "Lede"
role_text StyleRole.caption = "Caption"

abbrev pub voice_text : FontVoice → String
voice_text FontVoice.default = "Default"
voice_text FontVoice.display = "Display"
voice_text FontVoice.structural = "Structural"

abbrev pub direction_text : TextDirection → String
direction_text TextDirection.auto = "auto"
direction_text TextDirection.ltr = "ltr"
direction_text TextDirection.rtl = "rtl"

-- One style field. Where both sides changed it in different ways, the value of the base stays.
unfoldable pub pick_field :
    {A : Type 0} → Enum A → (A → String) → String → String → A → A → A → Merging A
pick_field E spelled node_id facet base a b =
    let a_changed = not (E.code a =? E.code base) in
    let b_changed = not (E.code b =? E.code base) in
    if (a_changed && b_changed) && not (E.code a =? E.code b)
    then refusing (two_sided node_id facet concurrent_edit (spelled base) (spelled a) (spelled b))
        base
    else if a_changed
    then return a
    else if b_changed
    then return b
    else return base

-- Which side a facet compared by its canonical bytes is taken from.
pub data Side : Type 0 where
  of_base of_a of_b : Side

unfoldable pub pick_canonical : String → String → String → String → String → Merging Side
pick_canonical node_id facet base a b =
    let a_changed = not (a == base) in
    let b_changed = not (b == base) in
    if (a_changed && b_changed) && not (a == b)
    then refusing (two_sided node_id facet concurrent_edit base a b) of_base
    else if a_changed
    then return of_a
    else if b_changed
    then return of_b
    else return of_base

abbrev pub taken {ℓ} : {A : Type ℓ} → Side → A → A → A → A
taken of_base x y z = x
taken of_a x y z = y
taken of_b x y z = z

unfoldable pub merge_style :
    String → SemanticStyle → SemanticStyle → SemanticStyle → Merging SemanticStyle
unfolding pick_field
merge_style i base a b = do
  tone ← pick_field tones tone_text i "style.tone" base.tone a.tone b.tone
  weight ← pick_field weights weight_text i "style.weight" base.weight a.weight b.weight
  emphasis ←
      pick_field emphases emphasis_text i "style.emphasis" base.emphasis a.emphasis b.emphasis
  role ← pick_field roles role_text i "style.role" base.role a.role b.role
  voice ← pick_field voices voice_text i "style.voice" base.voice a.voice b.voice
  direction ←
      pick_field directions direction_text i "style.direction" base.direction a.direction
        b.direction
  return (record {
    direction = direction;
    emphasis = emphasis;
    role = role;
    tone = tone;
    voice = voice;
    weight = weight;
  })

module _ {W : Wire} (K : Canonical W) where
  -- The probes hold every other facet fixed.
  abbrev pub kind_canonical : Node W → String
  kind_canonical n =
      K.encode_node (mk_node (id_of n) (childless (kind_of n)) default_style no_state none)

  abbrev pub state_canonical : Kind W → Node W → String
  state_canonical shell n = K.encode_node (mk_node (id_of n) shell default_style (state_of n) none)

  abbrev pub accessibility_canonical : Kind W → Node W → String
  accessibility_canonical shell n =
      K.encode_node (mk_node (id_of n) shell default_style no_state (traits_of n).accessibility)
