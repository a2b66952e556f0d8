-- ===== src/Tree/Style.antt =====
-- The node-level style record and its field-level patch (src/wire/generated.rs, src/wire/model.rs).
pub mod Enums
use fuaran_rs.Prelude.{Option, unwrap_or}

pub data ToneVariant : Type 0 where
  default subdued brand success warning critical info : ToneVariant

pub data StyleWeight : Type 0 where
  compact standard spacious : StyleWeight

pub data Emphasis : Type 0 where
  quiet normal loud : Emphasis

pub data StyleRole : Type 0 where
  no_role eyebrow data_role lede caption : StyleRole

pub data FontVoice : Type 0 where
  default display structural : FontVoice

pub data TextDirection : Type 0 where
  auto ltr rtl : TextDirection

pub record SemanticStyle : Type 0 where
  pub direction : TextDirection
  pub emphasis : Emphasis
  pub role : StyleRole
  pub tone : ToneVariant
  pub voice : FontVoice
  pub weight : StyleWeight

abbrev pub default_style : SemanticStyle
default_style = record {
  direction = auto;
  emphasis = normal;
  role = no_role;
  tone = ToneVariant.default;
  voice = FontVoice.default;
  weight = standard;
}

pub record StyleDelta : Type 0 where
  pub direction : Option TextDirection
  pub emphasis : Option Emphasis
  pub role : Option StyleRole
  pub tone : Option ToneVariant
  pub voice : Option FontVoice
  pub weight : Option StyleWeight

-- `StyleDelta::apply_to`
unfoldable pub apply_to : StyleDelta → SemanticStyle → SemanticStyle
apply_to d s = record {
  direction = unwrap_or d.direction s.direction;
  emphasis = unwrap_or d.emphasis s.emphasis;
  role = unwrap_or d.role s.role;
  tone = unwrap_or d.tone s.tone;
  voice = unwrap_or d.voice s.voice;
  weight = unwrap_or d.weight s.weight;
}
