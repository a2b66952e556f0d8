-- ===== src/Egress/Laws.antt =====
-- What an allowed destination has shown (src/render/egress.rs, `check_destination`).
use fuaran_rs.Prelude.{
  some-injective, ◌≡◌, refl, sym, ap, ◌∙◌, subst, Bool, true, false, not, ◌&&◌, Bool-cases,
  Option-cases, inl, inr, Option, none, some, [], ◌∷◌, if◌then◌else◌, unwrap_or,
}
use fuaran_rs.Egress.Floor.{
  Chars, Unicode, is_empty, normalize_url_for_floor, judge, judged, extract_scheme,
  scheme_candidate, sanitize_url, is_protocol_relative, member, allowed_url_schemes,
  rejected_url_schemes,
}
use fuaran_rs.Egress.Floor.Trimmed.{normalize_twice}
use fuaran_rs.Egress.{
  EgressClass, EgressPolicy, Destination, local, rejected, remote, non_network, EgressVerdict,
  allowed, unsafe_url, undeclared_origin, local_denied, non_network_denied, is_declared_origin,
  destination_of, classified, classify_destination, refuse_classified, check_destination,
  normalize_host, deny_non_local_egress, network_schemes, remote_or_rejected, authority_host,
}

-- A URL that the floor lets through: it has a scheme of the accepted ones, or none and stays on its host.
pub data IsAccepted (U : Unicode) (safe : Chars) : Type 0 where
  accepted_scheme :
      (scheme : Chars)
      → extract_scheme U safe ≡ some scheme
      → member scheme allowed_url_schemes ≡ true
      → IsAccepted U safe
  same_host : extract_scheme U safe ≡ none → is_protocol_relative safe ≡ false → IsAccepted U safe

allowed-injective : {a b : Chars} → allowed a ≡ allowed b → a ≡ b
allowed-injective h = cc

module _ (U : Unicode) where
  empty-IsAccepted : (t : Chars) → is_empty t ≡ true → IsAccepted U t
  unfolding extract_scheme scheme_candidate is_protocol_relative
  empty-IsAccepted [] h = same_host refl refl
  empty-IsAccepted (c ∷ cs) h = cc

  judge-IsAccepted :
      (t safe : Chars) (o : Option Chars)
      → extract_scheme U t ≡ o
      → judge U t o ≡ some safe
      → (t ≡ safe) × IsAccepted U t
  judge-IsAccepted t safe none e h = elim (Bool-cases (is_protocol_relative t)) [
    | inl p ↦ absurd (let w : none ≡ some safe = sym (rw p refl) ∙ h in cc)
    | inr p ↦ (some-injective (sym (rw p refl) ∙ h), same_host e p)
  ]
  judge-IsAccepted t safe (some scheme) e h =
      elim (Bool-cases (member scheme rejected_url_schemes)) [
        | inl p ↦ absurd (let w : none ≡ some safe = sym (rw p refl) ∙ h in cc)
        | inr p ↦ elim (Bool-cases (member scheme allowed_url_schemes)) [
          | inl q ↦ (some-injective (sym (rw p (rw q refl)) ∙ h), accepted_scheme scheme e q)
          | inr q ↦ absurd (let w : none ≡ some safe = sym (rw p (rw q refl)) ∙ h in cc)
        ]
      ]

  pub judged-IsAccepted : (t safe : Chars) → judged U t ≡ some safe → (t ≡ safe) × IsAccepted U t
  judged-IsAccepted t safe h = elim (Bool-cases (is_empty t)) [
    | inl e ↦ (some-injective (sym (rw e refl) ∙ h), empty-IsAccepted t e)
    | inr e ↦ judge-IsAccepted t safe (extract_scheme U t) refl (sym (rw e refl) ∙ h)
  ]

  -- The floor gives back a URL that it accepts as it stands, and that has a scheme of the accepted ones,
  -- or none and is not protocol-relative.
  pub sanitize_url-IsAccepted :
      (url safe : Chars)
      → sanitize_url U url ≡ some safe
      → (sanitize_url U safe ≡ some safe) × IsAccepted U safe
  unfolding sanitize_url
  sanitize_url-IsAccepted url safe h =
      let (w, a) = judged-IsAccepted (normalize_url_for_floor url) safe h in
      let once : normalize_url_for_floor safe ≡ normalize_url_for_floor url =
        ap normalize_url_for_floor (sym w) ∙ normalize_twice url in
      (ap (judged U) once ∙ h, subst (IsAccepted U) w a)

-- A destination that the policy permits for a class.
pub data IsPermitted (U : Unicode) (policy : EgressPolicy) (class : EgressClass)
    : Destination → Type 0 where
  at_home : policy.allow_local ≡ true → IsPermitted U policy class local
  declared :
      (host : Chars)
      → is_declared_origin U policy class host ≡ true
      → IsPermitted U policy class (remote host)
  off_network :
      (scheme : Chars)
      → policy.allow_non_network ≡ true
      → IsPermitted U policy class (non_network scheme)

refused_none : (b : Bool) (v : EgressVerdict) → (if b then none else some v) ≡ none → b ≡ true
refused_none true v h = refl
refused_none false v h = cc

refused_some : (b : Bool) (v w : EgressVerdict) → (if b then none else some v) ≡ some w → v ≡ w
refused_some true v w h = cc
refused_some false v w h = cc

module _ (U : Unicode) (policy : EgressPolicy) (class : EgressClass) where
  refuse_classified-none :
      (d : Destination) → refuse_classified U policy class d ≡ none → IsPermitted U policy class d
  unfolding refuse_classified
  refuse_classified-none local h = at_home (refused_none policy.allow_local _ h)
  refuse_classified-none rejected h = cc
  refuse_classified-none (remote host) h =
      declared host (refused_none (is_declared_origin U policy class host) _ h)
  refuse_classified-none (non_network scheme) h =
      off_network scheme (refused_none policy.allow_non_network _ h)

  -- The verdict on a destination, with the URL that an accepted one emits.
  abbrev verdict : Option EgressVerdict → Chars → EgressVerdict
  verdict o safe = elim o [ some refusal ↦ refusal | none ↦ allowed safe ]

  refusal_other :
      (d : Destination) (v : EgressVerdict) (safe : Chars)
      → refuse_classified U policy class d ≡ some v
      → v ≡ allowed safe
      → ⊥
  unfolding refuse_classified
  refusal_other local v safe h k =
      let w = refused_some policy.allow_local (local_denied class) v h ∙ k in cc
  refusal_other rejected v safe h k =
      let w : some unsafe_url ≡ some (allowed safe) = h ∙ ap some k in cc
  refusal_other (remote host) v safe h k =
      let w =
        refused_some (is_declared_origin U policy class host) (undeclared_origin host class) v h
        ∙ k in
      cc
  refusal_other (non_network scheme) v safe h k =
      let w = refused_some policy.allow_non_network (non_network_denied scheme class) v h ∙ k in cc

  -- The verdict on what the floor answers.
  abbrev checked : Option Chars → EgressVerdict
  checked o = verdict (refuse_classified U policy class (classified U o)) (unwrap_or o [])

  checked-allowed :
      (o : Option Chars) (safe : Chars)
      → checked o ≡ allowed safe
      → (o ≡ some safe) × IsPermitted U policy class (classified U o)
  unfolding refuse_classified
  checked-allowed none safe h = cc
  checked-allowed (some s) safe h =
      elim (Option-cases (refuse_classified U policy class (classified U (some s)))) [
        | inl e ↦
            let w : allowed s ≡ allowed safe = sym (ap (λ r. verdict r s) e) ∙ h in
            (ap some (allowed-injective w), refuse_classified-none _ e)
        | inr (v, e) ↦ absurd (refusal_other _ v safe e (sym (ap (λ r. verdict r s) e) ∙ h))
      ]

  check-checked :
      (url : Chars) → check_destination U policy class url ≡ checked (sanitize_url U url)
  unfolding check_destination classify_destination
  check-checked url = refl

  -- What is allowed is the URL that the floor gives, at a destination that the policy permits for the
  -- class; and the URL given out is allowed as it stands, at the same destination.
  pub check_destination-IsPermitted :
      (url safe : Chars)
      → check_destination U policy class url ≡ allowed safe
      → (sanitize_url U url ≡ some safe)
        × IsAccepted U safe
        × IsPermitted U policy class (classify_destination U safe)
        × (classify_destination U safe ≡ classify_destination U url)
        × (check_destination U policy class safe ≡ allowed safe)
  unfolding classify_destination
  check_destination-IsPermitted url safe h =
      let (e, p) = checked-allowed (sanitize_url U url) safe (sym (check-checked url) ∙ h) in
      let (again, a) = sanitize_url-IsAccepted U url safe e in
      let same : sanitize_url U safe ≡ sanitize_url U url = again ∙ sym e in
      (
        e,
        a,
        subst (λ o. IsPermitted U policy class (classified U o)) (sym same) p,
        ap (classified U) same,
        check-checked safe ∙ ap checked same ∙ sym (check-checked url) ∙ h,
      )

and_false : (b : Bool) → (b && false) ≡ true → ⊥
and_false true h = cc
and_false false h = cc

-- Under the policy for a decoded tree, only a URL without a scheme that stays on its host is allowed.
module _ (U : Unicode) (class : EgressClass) where
  deny-local : (d : Destination) → IsPermitted U deny_non_local_egress class d → d ≡ local
  unfolding deny_non_local_egress is_declared_origin
  deny-local local p = refl
  deny-local rejected p = elim p [ ]
  deny-local (remote host) (declared host' h) =
      absurd (and_false (not (is_empty (normalize_host U host))) h)
  deny-local (non_network scheme) (off_network scheme' h) = cc

  destination-local : (safe : Chars) (o : Option Chars) → destination_of U safe o ≡ local → o ≡ none
  destination-local safe none h = refl
  destination-local safe (some scheme) h = elim (Bool-cases (member scheme network_schemes)) [
    | inl e ↦ absurd (never (authority_host U safe) (sym (rw e refl) ∙ h))
    | inr e ↦ absurd (let w : non_network scheme ≡ local = sym (rw e refl) ∙ h in cc)
  ]
    where
      never : (a : Option Chars) → remote_or_rejected U a ≡ local → ⊥
      never none h = cc
      never (some host) h = cc

  local-schemeless :
      (safe : Chars) → classified U (some safe) ≡ local → extract_scheme U safe ≡ none
  unfolding extract_scheme scheme_candidate
  local-schemeless [] h = refl
  local-schemeless (c ∷ cs) h = destination-local (c ∷ cs) _ h

  schemeless_same_host :
      (safe : Chars)
      → IsAccepted U safe
      → extract_scheme U safe ≡ none
      → is_protocol_relative safe ≡ false
  schemeless_same_host safe (accepted_scheme scheme e m) h =
      absurd (let w : none ≡ some scheme = sym h ∙ e in cc)
  schemeless_same_host safe (same_host e p) h = p

  -- Under `deny_non_local_egress` no URL that is allowed, for any class, has a scheme or leaves the host.
  pub deny_non_local_egress-allowed :
      (url safe : Chars)
      → check_destination U deny_non_local_egress class url ≡ allowed safe
      → (extract_scheme U safe ≡ none) × (is_protocol_relative safe ≡ false)
  unfolding classify_destination
  deny_non_local_egress-allowed url safe h =
      let (e, a, p, same, again) =
        check_destination-IsPermitted U deny_non_local_egress class url safe h in
      let home = deny-local (classify_destination U safe) p in
      let accepted = (sanitize_url-IsAccepted U url safe e).0 in
      let bare = local-schemeless safe (sym (ap (classified U) accepted) ∙ home) in
      (bare, schemeless_same_host safe a bare)
