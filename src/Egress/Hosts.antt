-- ===== src/Egress/Hosts.antt =====
-- The host of a URL, and the hosts that a rule names (src/render/egress.rs, `authority_host`,
-- `EgressOrigin::matches`).
use fuaran_rs.Prelude.{
  ltb, every, length, ◌+◌, ◌≤◌, append-nil, append_assoc, ℕ, ◌≡◌, refl, sym, ap, ◌∙◌, Bool, true,
  false, not, ◌&&◌, ◌||◌, Bool-cases, inl, inr, ◌⊎◌, ◌↔◌, some, [], ◌∷◌, ◌++◌, any, arith, ◌=?◌,
}
use fuaran_rs.Egress.Floor.{Chars, Unicode, is_empty, same_chars, is_separator}
use fuaran_rs.Egress.{
  host_suffix, normalize_host, matches, ends_with_label, authority_host, after_colon, skip_slashes,
  take_until, ends_authority, after_last_at, host_of,
}

pub same_chars-eq : (a b : Chars) → same_chars a b ≡ true → a ≡ b
same_chars-eq [] [] h = refl
same_chars-eq [] (d ∷ ds) h = cc
same_chars-eq (c ∷ cs) [] h = cc
same_chars-eq (c ∷ cs) (d ∷ ds) h =
    let e : c ≡ d = ground arith in let w = same_chars-eq cs ds (ground arith) in λ i. e i ∷ w i

same_chars_refl : (a : Chars) → same_chars a a ≡ true
same_chars_refl [] = refl
same_chars_refl (c ∷ cs) = ground (arith, same_chars_refl cs)

or_right : (a b : Bool) → b ≡ true → (a || b) ≡ true
or_right true b h = refl
or_right false b h = h

ends_with_label-split :
    (suffix host : Chars)
    → ends_with_label suffix host ≡ true
    → (labels : Chars) × (host ≡ labels ++ (b'.' ∷ suffix))
ends_with_label-split suffix [] h = cc
ends_with_label-split suffix (c ∷ cs) h = elim (Bool-cases (same_chars (c ∷ cs) (b'.' ∷ suffix))) [
  | inl e ↦ ([], same_chars-eq (c ∷ cs) (b'.' ∷ suffix) e)
  | inr e ↦
      let (labels, w) = ends_with_label-split suffix cs (sym (rw e refl) ∙ h) in
      (c ∷ labels, ap (λ l. c ∷ l) w)
]

ends_with_label-append :
    (suffix labels : Chars) → ends_with_label suffix (labels ++ (b'.' ∷ suffix)) ≡ true
ends_with_label-append suffix [] = rw (same_chars_refl suffix) refl
ends_with_label-append suffix (c ∷ cs) = or_right _ _ (ends_with_label-append suffix cs)

-- A rule for a suffix matches exactly that host and the hosts with more labels in front of it, at a dot;
-- a suffix that is empty once normalised matches none.
pub matches-host_suffix :
    (U : Unicode) (s host : Chars)
    → (matches U (host_suffix s) host ≡ true) ↔ (
        (is_empty (normalize_host U s) ≡ false)
        × ((host ≡ normalize_host U s)
            ⊎ ((labels : Chars) × (host ≡ labels ++ (b'.' ∷ normalize_host U s)))))
unfolding matches
matches-host_suffix U s host = (there, back)
  where
    there :
        not (is_empty (normalize_host U s))
            && (same_chars host (normalize_host U s) || ends_with_label (normalize_host U s) host)
          ≡ true
        → (is_empty (normalize_host U s) ≡ false)
          × ((host ≡ normalize_host U s)
              ⊎ ((labels : Chars) × (host ≡ labels ++ (b'.' ∷ normalize_host U s))))
    there h = elim (Bool-cases (same_chars host (normalize_host U s))) [
      | inl e ↦ (ground (arith, h), inl (same_chars-eq host (normalize_host U s) e))
      | inr e ↦ (
        ground (arith, h),
        inr (ends_with_label-split (normalize_host U s) host (ground (arith, h))),
      )
    ]

    back :
        (is_empty (normalize_host U s) ≡ false)
          × ((host ≡ normalize_host U s)
              ⊎ ((labels : Chars) × (host ≡ labels ++ (b'.' ∷ normalize_host U s))))
        → not (is_empty (normalize_host U s))
            && (same_chars host (normalize_host U s) || ends_with_label (normalize_host U s) host)
          ≡ true
    back (e, inl w) =
        let m : same_chars host (normalize_host U s) ≡ true =
          ap (same_chars host) (sym w) ∙ same_chars_refl host in
        rw e (rw m refl)
    back (e, inr (labels, w)) =
        let m : ends_with_label (normalize_host U s) host ≡ true =
          ap (ends_with_label (normalize_host U s)) w
          ∙ ends_with_label-append (normalize_host U s) labels in
        rw e (or_right _ _ m)

-- No character passes the test.
abbrev pub NoneOf : (ℕ → Bool) → Chars → Type 0
NoneOf p cs = any p cs ≡ false

after_colon-append :
    (cs rest : Chars) → NoneOf (λ c. c =? b':') cs → after_colon (cs ++ (b':' ∷ rest)) ≡ some rest
after_colon-append [] rest h = refl
after_colon-append (c ∷ cs) rest h = elim (Bool-cases (c =? b':')) [
  | inl e ↦ absurd (let g = h in ground arith)
  | inr e ↦ rw e (after_colon-append cs rest (ground arith))
]

take_until-append :
    (p : ℕ → Bool) (cs rest : Chars)
    → NoneOf p cs
    → take_until p (cs ++ rest) ≡ cs ++ take_until p rest
take_until-append p [] rest h = refl
take_until-append p (c ∷ cs) rest h = elim (Bool-cases (p c)) [
  | inl e ↦ absurd (let g = h in ground arith)
  | inr e ↦ rw e (ap (λ l. c ∷ l) (take_until-append p cs rest (ground arith)))
]

any-append_right :
    (p : ℕ → Bool) (cs rest : Chars) (d : ℕ) → p d ≡ true → any p (cs ++ (d ∷ rest)) ≡ true
any-append_right p [] rest d h = rw h refl
any-append_right p (c ∷ cs) rest d h = or_right (p c) _ (any-append_right p cs rest d h)

after_last_at-append :
    (user host : Chars)
    → NoneOf (λ c. c =? b'@') host
    → after_last_at (user ++ (b'@' ∷ host)) ≡ host
after_last_at-append [] host h = rw h refl
after_last_at-append (c ∷ cs) host h =
    rw (any-append_right (λ d. d =? b'@') cs host b'@' refl) (after_last_at-append cs host h)

skip_slashes-user :
    (user rest : Chars)
    → NoneOf ends_authority user
    → skip_slashes (user ++ (b'@' ∷ rest)) ≡ (0, user ++ (b'@' ∷ rest))
skip_slashes-user [] rest h = refl
skip_slashes-user (c ∷ cs) rest h = let e : is_separator c ≡ false = ground arith in rw e refl

take_until-all : (p : ℕ → Bool) (cs : Chars) → NoneOf p cs → take_until p cs ≡ cs
take_until-all p [] h = refl
take_until-all p (c ∷ cs) h = elim (Bool-cases (p c)) [
  | inl e ↦ absurd (let g = h in ground arith)
  | inr e ↦ rw e (ap (λ l. c ∷ l) (take_until-all p cs (ground arith)))
]

-- Nothing, or something that begins with a character that passes the test.
abbrev pub Ends : (ℕ → Bool) → Chars → Type 0
Ends p [] = Unit {0}
Ends p (d ∷ rest) = p d ≡ true

take_until-stop :
    (p : ℕ → Bool) (cs tail : Chars) → NoneOf p cs → Ends p tail → take_until p (cs ++ tail) ≡ cs
take_until-stop p cs [] h e = ap (take_until p) (append-nil cs) ∙ take_until-all p cs h
take_until-stop p cs (d ∷ rest) h e =
    take_until-append p cs (d ∷ rest) h ∙ ap (λ l. cs ++ l) (rw e refl) ∙ append-nil cs

skip_slashes-all :
    (slashes user rest : Chars)
    → every is_separator slashes ≡ true
    → NoneOf ends_authority user
    → skip_slashes (slashes ++ (user ++ (b'@' ∷ rest))) ≡ (length slashes, user ++ (b'@' ∷ rest))
skip_slashes-all [] user rest h u = skip_slashes-user user rest u
skip_slashes-all (c ∷ cs) user rest h u =
    let e : is_separator c ≡ true = ground (arith, h) in
    let ih = skip_slashes-all cs user rest (ground (arith, h)) u in
    let n : length cs + 1 ≡ length (c ∷ cs) = omega arith in
    rw ih (rw e (λ i. (n i, user ++ (b'@' ∷ rest))))

-- A port as it is written after a host: nothing, or a colon and what follows it.
abbrev pub IsPort : Chars → Type 0
IsPort [] = Unit {0}
IsPort (c ∷ cs) = (c ≡ b':') × NoneOf ends_authority cs × NoneOf (λ d. d =? b'@') cs

port_inside : (port : Chars) → IsPort port → NoneOf ends_authority port
port_inside [] q = refl
port_inside (c ∷ cs) (e, a, b) = rw (e, a) refl

port_no_user : (port : Chars) → IsPort port → NoneOf (λ d. d =? b'@') port
port_no_user [] q = refl
port_no_user (c ∷ cs) (e, a, b) = rw (e, b) refl

port-Ends : (port : Chars) → IsPort port → Ends (λ d. d =? b':') port
port-Ends [] q = tt
port-Ends (c ∷ cs) (e, a, b) = rw e refl

-- A host as it is written between the userinfo and what ends the authority: no user, no port, no
-- literal in brackets.
pub record IsPlainHost (U : Unicode) (host : Chars) : Type 0 where
  pub written : is_empty host ≡ false
  pub not_empty : is_empty (normalize_host U host) ≡ false
  pub inside : NoneOf ends_authority host
  pub no_user : NoneOf (λ c. c =? b'@') host
  pub no_port : NoneOf (λ c. c =? b':') host
  pub no_literal : NoneOf (λ c. c =? b'[') host

module _ (U : Unicode) where
  host_of-plain :
      (host port : Chars)
      → IsPlainHost U host
      → IsPort port
      → host_of U (host ++ port) ≡ some (normalize_host U host)
  host_of-plain [] port q o = absurd (let w = q.written in cc)
  host_of-plain (c ∷ cs) port q o =
      let first : (c =? b'[') ≡ false = ground (arith, q.no_literal) in
      let stops = take_until-stop (λ d. d =? b':') (c ∷ cs) port q.no_port (port-Ends port o) in
      rw first (rw stops (rw q.not_empty refl))

  any-append : (p : ℕ → Bool) (cs ds : Chars) → NoneOf p cs → NoneOf p ds → NoneOf p (cs ++ ds)
  any-append p [] ds h k = k
  any-append p (c ∷ cs) ds h k = ground (arith, any-append p cs ds)

  -- In a URL with a scheme, two slashes or more of either kind, and userinfo, the host is what stands
  -- between the `@` and the port, or the end of the authority, or the end of the URL: whatever the
  -- userinfo holds that does not end an authority, another `@`, a colon or another host's name among
  -- it. The scheme holds no colon, the host is no literal in brackets and is not empty once normalised,
  -- and no `@` stands after it in the authority.
  pub authority_host-userinfo :
      (scheme slashes user host port tail : Chars)
      → NoneOf (λ c. c =? b':') scheme
      → every is_separator slashes ≡ true
      → 2 ≤ length slashes
      → NoneOf ends_authority user
      → IsPlainHost U host
      → IsPort port
      → Ends ends_authority tail
      → authority_host U
          (scheme ++ (b':' ∷ (slashes ++ (user ++ (b'@' ∷ ((host ++ port) ++ tail))))))
        ≡ some (normalize_host U host)
  unfolding authority_host
  authority_host-userinfo scheme slashes user host port tail s l two u q o e =
      let inner = host ++ port in
      let hier = user ++ (b'@' ∷ (inner ++ tail)) in
      let together : hier ≡ (user ++ (b'@' ∷ inner)) ++ tail =
        sym (append_assoc user (b'@' ∷ inner) tail) in
      let inside =
        any-append ends_authority user (b'@' ∷ inner) u
          (any-append ends_authority host port q.inside (port_inside port o)) in
      let one_user = any-append (λ c. c =? b'@') host port q.no_user (port_no_user port o) in
      let authority : take_until ends_authority hier ≡ user ++ (b'@' ∷ inner) =
        ap (take_until ends_authority) together
        ∙ take_until-stop ends_authority (user ++ (b'@' ∷ inner)) tail inside e in
      let enough : ltb (length slashes) 2 ≡ false = ground arith in
      rw (after_colon-append scheme (slashes ++ hier) s) (
        rw (skip_slashes-all slashes user (inner ++ tail) l u) (
          rw enough (
            ap (λ a. host_of U (after_last_at a)) authority
            ∙ ap (host_of U) (after_last_at-append user inner one_user)
            ∙ host_of-plain host port q o)))
