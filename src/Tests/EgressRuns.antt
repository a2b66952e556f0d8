-- ===== src/Tests/EgressRuns.antt =====
-- Runs of the URL floor and of the egress policy, on ASCII texts.
use fuaran_rs.Prelude.{
  arith, ℕ, ◌+◌, ◌≡◌, refl, true, false, ◌&&◌, ◌||◌, leb, ◌=?◌, if◌then◌else◌, none, some, [], ◌∷◌,
  ◌++◌, map, ◌⊎◌, ◌↔◌,
}
use fuaran_rs.Ops.Path.{codes}
use fuaran_rs.Egress.Floor.{
  Chars, Unicode, is_empty, trim_start, trim_end, trim_matches, normalize_url_for_floor,
  scheme_candidate, is_protocol_relative, extract_scheme, sanitize_url, sanitize_embed_src,
}
use fuaran_rs.Egress.{
  EgressPolicy, hyperlink, media, embed, host_suffix, allow_origin, deny_non_local_egress, allowed,
  unsafe_url, undeclared_origin, normalize_host, authority_host, matches, is_declared_origin,
  classify_destination, refuse_classified, check_destination, egress_refusal_marker,
  sanitize_embed_src_for_egress,
}
use fuaran_rs.Egress.Laws.{
  IsAccepted, IsPermitted, check_destination-IsPermitted, deny_non_local_egress-allowed,
}
use fuaran_rs.Egress.Embeds.{sanitize_embed_src_for_egress-IsPermitted}
use fuaran_rs.Egress.Hosts.{matches-host_suffix, authority_host-userinfo}

abbrev lower : ℕ → ℕ
lower c = if leb b'A' c && leb c b'Z' then c + 32 else c

abbrev ascii : Unicode
ascii = record { is_whitespace = λ c. c =? 32 || leb 9 c && leb c 13; to_lowercase = map lower }

-- Images may come from the hosts of one site.
abbrev pictures : EgressPolicy
pictures = allow_origin (host_suffix (codes "Example.com")) (media ∷ []) deny_non_local_egress

image_run :
    check_destination ascii pictures media (codes " https://cdn.example.com/\tx ")
    ≡ allowed (codes "https://cdn.example.com/x")
unfolding check_destination refuse_classified classify_destination is_declared_origin matches
    authority_host normalize_host sanitize_url extract_scheme scheme_candidate
    normalize_url_for_floor is_protocol_relative trim_matches trim_start trim_end allow_origin
    deny_non_local_egress
image_run = refl

-- The host is what stands after the userinfo.
disguised_run :
    check_destination ascii pictures media (codes "https://cdn.example.com@evil.test/x")
    ≡ undeclared_origin (codes "evil.test") media
unfolding check_destination refuse_classified classify_destination is_declared_origin matches
    authority_host normalize_host sanitize_url extract_scheme scheme_candidate
    normalize_url_for_floor is_protocol_relative trim_matches trim_start trim_end allow_origin
    deny_non_local_egress
disguised_run = refl

script_run : check_destination ascii pictures media (codes "java\tscript:alert(1)") ≡ unsafe_url
unfolding check_destination refuse_classified classify_destination is_declared_origin matches
    authority_host normalize_host sanitize_url extract_scheme scheme_candidate
    normalize_url_for_floor is_protocol_relative trim_matches trim_start trim_end allow_origin
    deny_non_local_egress
script_run = refl

local_run :
    check_destination ascii deny_non_local_egress hyperlink (codes "/home?a:b")
    ≡ allowed (codes "/home?a:b")
unfolding check_destination refuse_classified classify_destination is_declared_origin matches
    authority_host normalize_host sanitize_url extract_scheme scheme_candidate
    normalize_url_for_floor is_protocol_relative trim_matches trim_start trim_end
    deny_non_local_egress
local_run = refl

check_destination-IsPermitted_example :
    (sanitize_url ascii (codes " https://cdn.example.com/\tx ")
      ≡ some (codes "https://cdn.example.com/x"))
    × IsAccepted ascii (codes "https://cdn.example.com/x")
    × IsPermitted ascii pictures media
        (classify_destination ascii (codes "https://cdn.example.com/x"))
    × (classify_destination ascii (codes "https://cdn.example.com/x")
        ≡ classify_destination ascii (codes " https://cdn.example.com/\tx "))
    × (check_destination ascii pictures media (codes "https://cdn.example.com/x")
        ≡ allowed (codes "https://cdn.example.com/x"))
check_destination-IsPermitted_example =
    check_destination-IsPermitted ascii pictures media (codes " https://cdn.example.com/\tx ")
      (codes "https://cdn.example.com/x") image_run

deny_non_local_egress-allowed_example :
    (extract_scheme ascii (codes "/home?a:b") ≡ none)
    × (is_protocol_relative (codes "/home?a:b") ≡ false)
deny_non_local_egress-allowed_example =
    deny_non_local_egress-allowed ascii hyperlink (codes "/home?a:b") (codes "/home?a:b") local_run

matches-host_suffix_example :
    (matches ascii (host_suffix (codes "Example.com")) (codes "cdn.example.com") ≡ true) ↔ (
      (is_empty (normalize_host ascii (codes "Example.com")) ≡ false)
      × ((codes "cdn.example.com" ≡ normalize_host ascii (codes "Example.com"))
          ⊎ ((labels : Chars) × (codes "cdn.example.com"
                ≡ labels ++ (b'.' ∷ normalize_host ascii (codes "Example.com"))))))
matches-host_suffix_example =
    matches-host_suffix ascii (codes "Example.com") (codes "cdn.example.com")

authority_host-userinfo_example :
    authority_host ascii (
      codes "https"
      ++ (b':'
          ∷ (codes "/\\"
              ++ (codes "a@b:c" ++ (b'@' ∷ ((codes "Host.test" ++ codes ":80") ++ []))))))
    ≡ some (normalize_host ascii (codes "Host.test"))
unfolding normalize_host trim_matches trim_start trim_end
authority_host-userinfo_example =
    authority_host-userinfo ascii (codes "https") (codes "/\\") (codes "a@b:c") (codes "Host.test")
      (codes ":80") [] refl refl (omega arith) refl
      (record {
        written = refl;
        not_empty = refl;
        inside = refl;
        no_user = refl;
        no_port = refl;
        no_literal = refl;
      })
      (refl, refl, refl) tt

abbrev frames : EgressPolicy
frames = allow_origin (host_suffix (codes "Example.com")) (embed ∷ []) deny_non_local_egress

frame_run :
    (sanitize_embed_src_for_egress ascii frames (codes "https://example.com/a\n")).0
    ≡ some (codes "https://example.com/a")
unfolding sanitize_embed_src_for_egress sanitize_embed_src check_destination refuse_classified
    classify_destination is_declared_origin matches authority_host normalize_host sanitize_url
    extract_scheme scheme_candidate normalize_url_for_floor is_protocol_relative trim_matches
    trim_start trim_end allow_origin deny_non_local_egress
frame_run = refl

plain_frame_refused :
    sanitize_embed_src_for_egress ascii pictures (codes "https://example.com/a")
    ≡ (none, some (codes "embed:example.com"))
unfolding sanitize_embed_src_for_egress sanitize_embed_src check_destination refuse_classified
    classify_destination is_declared_origin matches authority_host normalize_host sanitize_url
    extract_scheme scheme_candidate normalize_url_for_floor is_protocol_relative trim_matches
    trim_start trim_end allow_origin deny_non_local_egress egress_refusal_marker
plain_frame_refused = refl

sanitize_embed_src_for_egress-IsPermitted_example :
    (codes "https://example.com/a" ≡ normalize_url_for_floor (codes "https://example.com/a\n"))
    × (extract_scheme ascii (codes "https://example.com/a") ≡ some (codes "https"))
    × IsPermitted ascii frames embed (classify_destination ascii (codes "https://example.com/a"))
sanitize_embed_src_for_egress-IsPermitted_example =
    sanitize_embed_src_for_egress-IsPermitted ascii frames (codes "https://example.com/a\n")
      (codes "https://example.com/a") frame_run
