-- ===== src/Egress/Embeds.antt =====
-- The source of an embedded document (src/render/egress.rs, `sanitize_embed_src_for_egress`).
use fuaran_rs.Prelude.{
  some-injective, ◌≡◌, refl, sym, ap, ◌∙◌, Bool-cases, Option-cases, inl, inr, Option, none, some,
}
use fuaran_rs.Ops.Path.{codes}
use fuaran_rs.Egress.Floor.{
  Chars, Unicode, same_chars, normalize_url_for_floor, extract_scheme, only_https, sanitize_url,
  sanitize_embed_src,
}
use fuaran_rs.Egress.Floor.Trimmed.{normalize_twice}
use fuaran_rs.Egress.{
  EgressPolicy, EgressVerdict, embed, allowed, unsafe_url, undeclared_origin, local_denied,
  non_network_denied, classify_destination, check_destination, emitted_or, embedded,
  sanitize_embed_src_for_egress,
}
use fuaran_rs.Egress.Hosts.{same_chars-eq}
use fuaran_rs.Egress.Laws.{IsPermitted, judged-IsAccepted, check_destination-IsPermitted}

module _ (U : Unicode) (policy : EgressPolicy) where
  only_https-some :
      (t safe : Chars) (o : Option Chars)
      → only_https U t o ≡ some safe
      → (t ≡ safe) × (o ≡ some (codes "https"))
  only_https-some t safe none h = cc
  only_https-some t safe (some scheme) h = elim (Bool-cases (same_chars scheme (codes "https"))) [
    | inl e ↦
        (some-injective (sym (rw e refl) ∙ h), ap some (same_chars-eq scheme (codes "https") e))
    | inr e ↦ absurd (let w : none ≡ some safe = sym (rw e refl) ∙ h in cc)
  ]

  emitted-allowed :
      (v : EgressVerdict) (emitted : Chars)
      → (emitted_or U (λ url. some url) none v).0 ≡ some emitted
      → v ≡ allowed emitted
  emitted-allowed (allowed safe) emitted h = ap allowed (some-injective h)
  emitted-allowed unsafe_url emitted h = cc
  emitted-allowed (undeclared_origin host class) emitted h = cc
  emitted-allowed (local_denied class) emitted h = cc
  emitted-allowed (non_network_denied scheme class) emitted h = cc

  -- An embedded document's source is emitted only with the scheme `https`, at a destination that the
  -- policy permits for embedding; it is the URL as normalised.
  pub sanitize_embed_src_for_egress-IsPermitted :
      (url emitted : Chars)
      → (sanitize_embed_src_for_egress U policy url).0 ≡ some emitted
      → (emitted ≡ normalize_url_for_floor url)
        × (extract_scheme U emitted ≡ some (codes "https"))
        × IsPermitted U policy embed (classify_destination U emitted)
  unfolding sanitize_embed_src_for_egress sanitize_embed_src sanitize_url
  sanitize_embed_src_for_egress-IsPermitted url emitted h =
      elim (Option-cases (sanitize_embed_src U url)) [
        | inl e ↦
            absurd
              (let w : none ≡ some emitted = sym (ap (λ o. (embedded U policy o).0) e) ∙ h in cc)
        | inr (safe, e) ↦
            let (t, s) =
              only_https-some (normalize_url_for_floor url) safe
                (extract_scheme U (normalize_url_for_floor url)) e in
            let v =
              emitted-allowed (check_destination U policy embed safe) emitted
                (sym (ap (λ o. (embedded U policy o).0) e) ∙ h) in
            let (f, a, p, same, again) =
              check_destination-IsPermitted U policy embed safe emitted v in
            let same_text : normalize_url_for_floor safe ≡ emitted =
              (judged-IsAccepted U (normalize_url_for_floor safe) emitted f).0 in
            let given : emitted ≡ normalize_url_for_floor url =
              sym same_text ∙ ap normalize_url_for_floor (sym t) ∙ normalize_twice url in
            (given, ap (extract_scheme U) given ∙ s, p)
      ]
