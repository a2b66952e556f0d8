-- ===== src/Egress.antt =====
-- The URL floor (src/render/sanitize.rs, the URL functions) and the egress policy (src/render/egress.rs).
-- A text is the list of its characters' code points. The Unicode tables of the standard library are the
-- parameter `Unicode`.
pub mod Floor
pub mod Laws
pub mod Hosts
pub mod Embeds
use fuaran_rs.Prelude.{
  and_then, ℕ, ◌+◌, Bool, true, false, not, ◌&&◌, ◌||◌, Option, none, some, List, [], ◌∷◌, ◌++◌,
  any, filter, ltb, leb, ◌=?◌, if◌then◌else◌, unwrap_or, String,
}
use fuaran_rs.Egress.Floor.{
  Chars, Unicode, same_chars, member, is_empty, trim_matches, extract_scheme, sanitize_url,
  sanitize_embed_src, is_separator,
}
use fuaran_rs.Ops.Path.{codes}

pub data EgressClass : Type 0 where
  hyperlink media route download file_read embed : EgressClass

-- `EgressClass::name`
abbrev pub class_name : EgressClass → Chars
class_name hyperlink = codes "hyperlink"
class_name media = codes "media"
class_name route = codes "route"
class_name download = codes "download"
class_name file_read = codes "fileRead"
class_name embed = codes "embed"

abbrev pub same_class : EgressClass → EgressClass → Bool
same_class a b = same_chars (class_name a) (class_name b)

abbrev pub all_classes : List EgressClass
all_classes = hyperlink ∷ media ∷ route ∷ download ∷ file_read ∷ embed ∷ []

pub data EgressOrigin : Type 0 where
  exact_host host_suffix : Chars → EgressOrigin

pub record EgressRule : Type 0 where
  pub origin : EgressOrigin
  pub classes : List EgressClass

pub record EgressPolicy : Type 0 where
  pub rules : List EgressRule
  pub allow_any_origin : Bool
  pub allow_local : Bool
  pub allow_non_network : Bool

abbrev pub names_a_class : List EgressClass → Bool
names_a_class [] = false
names_a_class (c ∷ cs) = true

-- `EgressPolicy::allow_origin`
abbrev pub named_classes : List EgressClass → List EgressClass
named_classes [] = all_classes
named_classes (c ∷ cs) = c ∷ cs

unfoldable pub allow_origin : EgressOrigin → List EgressClass → EgressPolicy → EgressPolicy
allow_origin origin classes p = record p {
  rules = p.rules ++ (record { origin = origin; classes = named_classes classes } ∷ []);
}

-- `EgressPolicy::has_non_local_egress`
unfoldable pub has_non_local_egress : EgressPolicy → Bool
has_non_local_egress p =
    (p.allow_any_origin || p.allow_non_network) || any (λ r. names_a_class r.classes) p.rules

unfoldable pub deny_non_local_egress : EgressPolicy
deny_non_local_egress = record {
  rules = [];
  allow_any_origin = false;
  allow_local = true;
  allow_non_network = false;
}

unfoldable pub permissive_egress : EgressPolicy
permissive_egress = record {
  rules = [];
  allow_any_origin = true;
  allow_local = true;
  allow_non_network = true;
}

pub data Destination : Type 0 where
  local rejected : Destination
  remote non_network : Chars → Destination

pub data EgressVerdict : Type 0 where
  allowed : Chars → EgressVerdict
  unsafe_url : EgressVerdict
  undeclared_origin : Chars → EgressClass → EgressVerdict
  local_denied : EgressClass → EgressVerdict
  non_network_denied : Chars → EgressClass → EgressVerdict

abbrev pub network_schemes : List Chars
network_schemes = codes "http" ∷ codes "https" ∷ codes "ftp" ∷ codes "sftp" ∷ []

abbrev pub drop_root_dot : Chars → Chars
drop_root_dot [] = []
drop_root_dot (c ∷ []) = if c =? b'.' then [] else c ∷ []
drop_root_dot (c ∷ (d ∷ ds)) = c ∷ drop_root_dot (d ∷ ds)

-- What stands after the first `:`.
abbrev pub after_colon : Chars → Option Chars
after_colon [] = none
after_colon (c ∷ cs) = if c =? b':' then some cs else after_colon cs

-- The slashes skipped, counted.
abbrev pub skip_slashes : Chars → ℕ × Chars
skip_slashes [] = (0, [])
skip_slashes (c ∷ cs) =
    let (n, rest) = skip_slashes cs in if is_separator c then (n + 1, rest) else (0, c ∷ cs)

abbrev pub ends_authority : ℕ → Bool
ends_authority c = (is_separator c || c =? b'?') || c =? b'#'

abbrev pub take_until : (ℕ → Bool) → Chars → Chars
take_until p [] = []
take_until p (c ∷ cs) = if p c then [] else c ∷ take_until p cs

-- What stands after the last `@`: all of it, if there is none.
abbrev pub after_last_at : Chars → Chars
after_last_at [] = []
after_last_at (c ∷ cs) =
    if any (λ d. d =? b'@') cs then after_last_at cs else if c =? b'@' then cs else c ∷ cs

-- Up to the first `]`, with it.
abbrev pub through_bracket : Chars → Option Chars
through_bracket [] = none
through_bracket (c ∷ cs) =
    if c =? b']' then some (c ∷ []) else and_then (through_bracket cs) (λ s. some (c ∷ s))

abbrev pub ends_with_label : Chars → Chars → Bool
ends_with_label suffix [] = false
ends_with_label suffix (c ∷ cs) = same_chars (c ∷ cs) (b'.' ∷ suffix) || ends_with_label suffix cs

module _ (U : Unicode) where
  unfoldable pub normalize_host : Chars → Chars
  unfolding trim_matches
  normalize_host h = drop_root_dot (U.to_lowercase (trim_matches U.is_whitespace h))

  abbrev pub host_of : Chars → Option Chars
  host_of [] = none
  host_of (c ∷ cs) =
      if c =? b'['
      then and_then (through_bracket (c ∷ cs)) (λ literal. some (U.to_lowercase literal))
      else (let n = normalize_host (take_until (λ d. d =? b':') (c ∷ cs)) in
          if is_empty n then none else some n)

  unfoldable pub authority_host : Chars → Option Chars
  unfolding normalize_host
  authority_host url = and_then (after_colon url) (λ rest.
      let (slashes, hier) = skip_slashes rest in
      if ltb slashes 2 then none else host_of (after_last_at (take_until ends_authority hier)))

  unfoldable pub matches : EgressOrigin → Chars → Bool
  unfolding normalize_host
  matches (exact_host h) host = let h' = normalize_host h in not (is_empty h') && same_chars h' host
  matches (host_suffix s) host =
      let s' = normalize_host s in
      not (is_empty s') && (same_chars host s' || ends_with_label s' host)

  abbrev pub rule_matches : EgressClass → Chars → EgressRule → Bool
  rule_matches class host r = any (λ c. same_class c class) r.classes && matches r.origin host

  unfoldable pub is_declared_origin : EgressPolicy → EgressClass → Chars → Bool
  unfolding matches
  is_declared_origin policy class host =
      let h = normalize_host host in
      not (is_empty h) && (policy.allow_any_origin || any (rule_matches class h) policy.rules)

  abbrev pub remote_or_rejected : Option Chars → Destination
  remote_or_rejected none = rejected
  remote_or_rejected (some h) = remote h

  -- The destination of a URL that the floor has accepted.
  abbrev pub destination_of : Chars → Option Chars → Destination
  destination_of safe none = local
  destination_of safe (some scheme) =
      if member scheme network_schemes
      then remote_or_rejected (authority_host safe)
      else non_network scheme

  abbrev pub classified : Option Chars → Destination
  classified none = rejected
  classified (some safe) =
      if is_empty safe then local else destination_of safe (extract_scheme U safe)

  unfoldable pub classify_destination : Chars → Destination
  unfolding authority_host sanitize_url
  classify_destination url = classified (sanitize_url U url)

  abbrev pub refuse_unless : Bool → EgressVerdict → Option EgressVerdict
  refuse_unless b v = if b then none else some v

  unfoldable pub refuse_classified : EgressPolicy → EgressClass → Destination → Option EgressVerdict
  unfolding is_declared_origin
  refuse_classified policy class rejected = some unsafe_url
  refuse_classified policy class local = refuse_unless policy.allow_local (local_denied class)
  refuse_classified policy class (non_network scheme) =
      refuse_unless policy.allow_non_network (non_network_denied scheme class)
  refuse_classified policy class (remote host) =
      refuse_unless (is_declared_origin policy class host) (undeclared_origin host class)

  unfoldable pub check_destination : EgressPolicy → EgressClass → Chars → EgressVerdict
  unfolding refuse_classified classify_destination
  check_destination policy class url =
      elim (refuse_classified policy class (classify_destination url)) [
        | some refusal ↦ refusal
        | none ↦ allowed (unwrap_or (sanitize_url U url) [])
      ]

  -- The marker that a refusal leaves beside the element: its value, under one attribute name.
  unfoldable pub egress_refusal_marker : EgressVerdict → Option Chars
  egress_refusal_marker (allowed safe) = none
  egress_refusal_marker unsafe_url = some (codes "unsafe-url")
  egress_refusal_marker (undeclared_origin host class) = some (class_name class ++ (b':' ∷ host))
  egress_refusal_marker (local_denied class) = some (class_name class ++ codes ":local")
  egress_refusal_marker (non_network_denied scheme class) =
      some (class_name class ++ (b':' ∷ scheme))

  abbrev pub emitted_or : {A : Type 0} → (Chars → A) → A → EgressVerdict → A × Option Chars
  emitted_or emit refused (allowed safe) = (emit safe, none)
  emitted_or emit refused v = (refused, egress_refusal_marker v)

  unfoldable pub sanitize_url_for_egress : EgressPolicy → EgressClass → Chars → Chars × Option Chars
  unfolding check_destination egress_refusal_marker
  sanitize_url_for_egress policy class url =
      emitted_or (λ safe. safe) (codes "about:blank#fuaran-egress-refused")
        (check_destination policy class url)

  abbrev pub embedded : EgressPolicy → Option Chars → Option Chars × Option Chars
  embedded policy none = (none, some (class_name embed ++ codes ":unsafe-url"))
  embedded policy (some safe) =
      emitted_or (λ url. some url) none (check_destination policy embed safe)

  unfoldable pub sanitize_embed_src_for_egress : EgressPolicy → Chars → Option Chars × Option Chars
  unfolding check_destination egress_refusal_marker sanitize_embed_src
  sanitize_embed_src_for_egress policy url = embedded policy (sanitize_embed_src U url)
