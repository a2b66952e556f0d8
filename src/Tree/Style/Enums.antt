-- ===== src/Tree/Style/Enums.antt =====
-- The equality of the style enums (src/wire/generated.rs derives `PartialEq`).
use fuaran_rs.Prelude.{ℕ, ◌≡◌, refl, ◌=?◌, if◌then◌else◌}
use fuaran_rs.Tree.Style.{ToneVariant, StyleWeight, Emphasis, StyleRole, FontVoice, TextDirection}

-- `PartialEq` of an enum: values are numbered in their order, and no two share a number.
pub record Enum (A : Type 0) : Type 0 where
  pub code : A → ℕ
  pub decode : ℕ → A
  pub decode-code : (a : A) → decode (code a) ≡ a

abbrev pub nth_tone : ℕ → ToneVariant
nth_tone n =
    if n =? 0
    then ToneVariant.default
    else if n =? 1
    then ToneVariant.subdued
    else if n =? 2
    then ToneVariant.brand
    else if n =? 3
    then ToneVariant.success
    else if n =? 4
    then ToneVariant.warning
    else if n =? 5
    then ToneVariant.critical
    else ToneVariant.info

abbrev pub tone_code : ToneVariant → ℕ
tone_code ToneVariant.default = 0
tone_code ToneVariant.subdued = 1
tone_code ToneVariant.brand = 2
tone_code ToneVariant.success = 3
tone_code ToneVariant.warning = 4
tone_code ToneVariant.critical = 5
tone_code ToneVariant.info = 6

pub nth_tone-code : (a : ToneVariant) → nth_tone (tone_code a) ≡ a
nth_tone-code ToneVariant.default = refl
nth_tone-code ToneVariant.subdued = refl
nth_tone-code ToneVariant.brand = refl
nth_tone-code ToneVariant.success = refl
nth_tone-code ToneVariant.warning = refl
nth_tone-code ToneVariant.critical = refl
nth_tone-code ToneVariant.info = refl

-- An enum of three values.
abbrev pub pick3 : {A : Type 0} → A → A → A → ℕ → A
pick3 a b c n = if n =? 0 then a else if n =? 1 then b else c

abbrev pub weight_code : StyleWeight → ℕ
weight_code StyleWeight.compact = 0
weight_code StyleWeight.standard = 1
weight_code StyleWeight.spacious = 2

abbrev pub emphasis_code : Emphasis → ℕ
emphasis_code Emphasis.quiet = 0
emphasis_code Emphasis.normal = 1
emphasis_code Emphasis.loud = 2

abbrev pub voice_code : FontVoice → ℕ
voice_code FontVoice.default = 0
voice_code FontVoice.display = 1
voice_code FontVoice.structural = 2

abbrev pub direction_code : TextDirection → ℕ
direction_code TextDirection.auto = 0
direction_code TextDirection.ltr = 1
direction_code TextDirection.rtl = 2

abbrev pub role_code : StyleRole → ℕ
role_code StyleRole.no_role = 0
role_code StyleRole.eyebrow = 1
role_code StyleRole.data_role = 2
role_code StyleRole.lede = 3
role_code StyleRole.caption = 4

abbrev pub nth_role : ℕ → StyleRole
nth_role n =
    if n =? 3
    then StyleRole.lede
    else if n =? 4
    then StyleRole.caption
    else pick3 StyleRole.no_role StyleRole.eyebrow StyleRole.data_role n

pub weight-code :
    (a : StyleWeight)
    → pick3 StyleWeight.compact StyleWeight.standard StyleWeight.spacious (weight_code a) ≡ a
weight-code StyleWeight.compact = refl
weight-code StyleWeight.standard = refl
weight-code StyleWeight.spacious = refl

pub emphasis-code :
    (a : Emphasis) → pick3 Emphasis.quiet Emphasis.normal Emphasis.loud (emphasis_code a) ≡ a
emphasis-code Emphasis.quiet = refl
emphasis-code Emphasis.normal = refl
emphasis-code Emphasis.loud = refl

pub voice-code :
    (a : FontVoice)
    → pick3 FontVoice.default FontVoice.display FontVoice.structural (voice_code a) ≡ a
voice-code FontVoice.default = refl
voice-code FontVoice.display = refl
voice-code FontVoice.structural = refl

pub direction-code :
    (a : TextDirection)
    → pick3 TextDirection.auto TextDirection.ltr TextDirection.rtl (direction_code a) ≡ a
direction-code TextDirection.auto = refl
direction-code TextDirection.ltr = refl
direction-code TextDirection.rtl = refl

pub role-code : (a : StyleRole) → nth_role (role_code a) ≡ a
role-code StyleRole.no_role = refl
role-code StyleRole.eyebrow = refl
role-code StyleRole.data_role = refl
role-code StyleRole.lede = refl
role-code StyleRole.caption = refl

abbrev pub tones : Enum ToneVariant
tones = record { code = tone_code; decode = nth_tone; decode-code = nth_tone-code }

abbrev pub weights : Enum StyleWeight
weights = record {
  code = weight_code;
  decode = pick3 StyleWeight.compact StyleWeight.standard StyleWeight.spacious;
  decode-code = weight-code;
}

abbrev pub emphases : Enum Emphasis
emphases = record {
  code = emphasis_code;
  decode = pick3 Emphasis.quiet Emphasis.normal Emphasis.loud;
  decode-code = emphasis-code;
}

abbrev pub voices : Enum FontVoice
voices = record {
  code = voice_code;
  decode = pick3 FontVoice.default FontVoice.display FontVoice.structural;
  decode-code = voice-code;
}

abbrev pub directions : Enum TextDirection
directions = record {
  code = direction_code;
  decode = pick3 TextDirection.auto TextDirection.ltr TextDirection.rtl;
  decode-code = direction-code;
}

abbrev pub roles : Enum StyleRole
roles = record { code = role_code; decode = nth_role; decode-code = role-code }
