-- ===== src/Egress/Floor.antt =====
-- The URL floor (src/render/sanitize.rs): what a URL is normalised to, its scheme, and whether it is
-- accepted.
pub mod Trimmed
use fuaran_rs.Prelude.{
  and_then, ℕ, Bool, true, false, not, ◌&&◌, ◌||◌, Option, none, some, List, [], ◌∷◌, any, filter,
  ltb, leb, ◌=?◌, if◌then◌else◌, String,
}
use fuaran_rs.Ops.Path.{codes}

abbrev pub Chars : Type 0
Chars = List ℕ

-- `char::is_whitespace` and `str::to_lowercase`
pub record Unicode : Type 0 where
  pub is_whitespace : ℕ → Bool
  pub to_lowercase : Chars → Chars

abbrev pub same_chars : Chars → Chars → Bool
same_chars [] [] = true
same_chars [] (d ∷ ds) = false
same_chars (c ∷ cs) [] = false
same_chars (c ∷ cs) (d ∷ ds) = c =? d && same_chars cs ds

abbrev pub member : Chars → List Chars → Bool
member x xs = any (λ y. same_chars y x) xs

abbrev pub is_empty : Chars → Bool
is_empty [] = true
is_empty (c ∷ cs) = false

-- `trim_matches`
unfoldable pub trim_start : (ℕ → Bool) → Chars → Chars
trim_start p [] = []
trim_start p (c ∷ cs) = let rest = trim_start p cs in if p c then rest else c ∷ cs

unfoldable pub trim_end : (ℕ → Bool) → Chars → Chars
trim_end p [] = []
trim_end p (c ∷ cs) = let rest = trim_end p cs in if is_empty rest && p c then [] else c ∷ rest

unfoldable pub trim_matches : (ℕ → Bool) → Chars → Chars
unfolding trim_start trim_end
trim_matches p url = trim_end p (trim_start p url)

abbrev pub is_edge : ℕ → Bool
is_edge c = leb c 32

-- A tab, a line feed or a carriage return.
abbrev pub is_tab_or_newline : ℕ → Bool
is_tab_or_newline c = (c =? 9 || c =? 10) || c =? 13

unfoldable pub normalize_url_for_floor : Chars → Chars
unfolding trim_matches
normalize_url_for_floor url = filter (λ c. not (is_tab_or_newline c)) (trim_matches is_edge url)

abbrev pub ends_scheme : ℕ → Bool
ends_scheme c = (c =? b'/' || c =? b'?') || c =? b'#'

-- What stands before a `:`, if no `/`, `?` or `#` comes first.
unfoldable pub scheme_candidate : Chars → Option Chars
scheme_candidate [] = none
scheme_candidate (c ∷ cs) =
    let rest = scheme_candidate cs in
    if c =? b':' then some [] else if ends_scheme c then none else and_then rest (λ s. some (c ∷ s))

abbrev pub is_separator : ℕ → Bool
is_separator c = c =? b'/' || c =? b'\\'

unfoldable pub is_protocol_relative : Chars → Bool
is_protocol_relative (c ∷ (d ∷ ds)) = is_separator c && is_separator d
is_protocol_relative _ = false

abbrev pub allowed_url_schemes : List Chars
allowed_url_schemes =
    codes "http" ∷ codes "https" ∷ codes "mailto" ∷ codes "tel" ∷ codes "ftp" ∷ codes "sftp" ∷ []

abbrev pub rejected_url_schemes : List Chars
rejected_url_schemes = codes "javascript" ∷ codes "vbscript" ∷ codes "file" ∷ []

module _ (U : Unicode) where
  unfoldable pub extract_scheme : Chars → Option Chars
  unfolding scheme_candidate trim_matches
  extract_scheme url = and_then (scheme_candidate url) (λ candidate.
      some (U.to_lowercase (trim_matches U.is_whitespace (filter (λ c. ltb 32 c) candidate))))

  -- The scheme of a normalised URL that is not empty, judged.
  abbrev pub judge : Chars → Option Chars → Option Chars
  judge trimmed none = if is_protocol_relative trimmed then none else some trimmed
  judge trimmed (some scheme) =
      if member scheme rejected_url_schemes
      then none
      else if member scheme allowed_url_schemes
      then some trimmed
      else none

  abbrev pub judged : Chars → Option Chars
  judged trimmed = if is_empty trimmed then some trimmed else judge trimmed (extract_scheme trimmed)

  unfoldable pub sanitize_url : Chars → Option Chars
  unfolding extract_scheme normalize_url_for_floor is_protocol_relative
  sanitize_url url = judged (normalize_url_for_floor url)

  abbrev pub only_https : Chars → Option Chars → Option Chars
  only_https normalised none = none
  only_https normalised (some scheme) =
      if same_chars scheme (codes "https") then some normalised else none

  unfoldable pub sanitize_embed_src : Chars → Option Chars
  unfolding extract_scheme normalize_url_for_floor
  sanitize_embed_src url =
      let normalised = normalize_url_for_floor url in
      only_https normalised (extract_scheme normalised)

  unfoldable pub sanitize_url_or_blank : Chars → Chars
  unfolding sanitize_url
  sanitize_url_or_blank url = elim (sanitize_url url) [
    | none ↦ codes "about:blank"
    | some safe ↦ safe
  ]
