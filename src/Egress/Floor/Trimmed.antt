-- ===== src/Egress/Floor/Trimmed.antt =====
-- A URL that the floor has normalised (src/render/sanitize.rs, `normalize_url_for_floor`) is normalised
-- already.
use fuaran_rs.Prelude.{
  ℕ, ◌≡◌, refl, sym, ap, ◌∙◌, Bool, true, false, not, ◌&&◌, Bool-cases, inl, inr, [], ◌∷◌, filter,
  if◌then◌else◌, arith,
}
use fuaran_rs.Egress.Floor.{
  Chars, is_empty, trim_start, trim_end, trim_matches, is_edge, is_tab_or_newline,
  normalize_url_for_floor,
}

empty-eq : (cs : Chars) → is_empty cs ≡ true → [] ≡ cs
empty-eq [] h = refl
empty-eq (c ∷ cs) h = cc

-- `p` is trimmed at the edges, and what `q` refuses, all of it trimmed at an edge, is removed anywhere.
module _ (p q : ℕ → Bool) (edges : (c : ℕ) → p c ≡ false → q c ≡ true) where
  filter_twice : (cs : Chars) → filter q (filter q cs) ≡ filter q cs
  filter_twice [] = refl
  filter_twice (c ∷ cs) = elim (Bool-cases (q c)) [
    | inl e ↦ rw e (rw e (ap (λ l. c ∷ l) (filter_twice cs)))
    | inr e ↦ rw e (filter_twice cs)
  ]

  -- What the trimmed end keeps is not all removed.
  filter-is_empty : (cs : Chars) → is_empty (filter q (trim_end p cs)) ≡ is_empty (trim_end p cs)
  unfolding trim_end
  filter-is_empty [] = refl
  filter-is_empty (c ∷ cs) = elim (Bool-cases (is_empty (trim_end p cs))) [
    | inl e ↦ elim (Bool-cases (p c)) [
      | inl f ↦ rw e (rw f refl)
      | inr f ↦ rw e (rw f (rw (edges c f) refl))
    ]
    | inr e ↦ elim (Bool-cases (q c)) [
      | inl g ↦ rw e (rw g refl)
      | inr g ↦ rw e (rw g (filter-is_empty cs ∙ e))
    ]
  ]

  -- A character in front of a trimmed end.
  abbrev put_end : ℕ → Chars → Chars
  put_end c rest = if is_empty rest && p c then [] else c ∷ rest

  put_kept :
      (c : ℕ) (cs : Chars)
      → q c ≡ true
      → put_end c (filter q (trim_end p cs)) ≡ filter q (put_end c (trim_end p cs))
  put_kept c cs g = elim (Bool-cases (is_empty (trim_end p cs))) [
    | inl e ↦ elim (Bool-cases (p c)) [
      | inl f ↦ rw (filter-is_empty cs) (rw e (rw f refl))
      | inr f ↦ rw (filter-is_empty cs) (rw e (rw f (rw g refl)))
    ]
    | inr e ↦ rw (filter-is_empty cs) (rw e (rw g refl))
  ]

  put_removed :
      (c : ℕ) (cs : Chars)
      → q c ≡ false
      → filter q (trim_end p cs) ≡ filter q (put_end c (trim_end p cs))
  put_removed c cs g = elim (Bool-cases (p c)) [
    | inr f ↦ absurd (let w : false ≡ true = sym g ∙ edges c f in cc)
    | inl f ↦ elim (Bool-cases (is_empty (trim_end p cs))) [
      | inl e ↦ rw e (rw f (ap (filter q) (sym (empty-eq (trim_end p cs) e))))
      | inr e ↦ rw e (rw g refl)
    ]
  ]

  trim_end-filter : (cs : Chars) → trim_end p (filter q cs) ≡ filter q (trim_end p cs)
  unfolding trim_end
  trim_end-filter [] = refl
  trim_end-filter (c ∷ cs) = elim (Bool-cases (q c)) [
    | inl g ↦ rw g (ap (put_end c) (trim_end-filter cs) ∙ put_kept c cs g)
    | inr g ↦ rw g (trim_end-filter cs ∙ put_removed c cs g)
  ]

  trim_end_twice : (cs : Chars) → trim_end p (trim_end p cs) ≡ trim_end p cs
  unfolding trim_end
  trim_end_twice [] = refl
  trim_end_twice (c ∷ cs) = elim (Bool-cases (is_empty (trim_end p cs) && p c)) [
    | inl e ↦ rw e refl
    | inr e ↦ rw e (ap (put_end c) (trim_end_twice cs) ∙ rw e refl)
  ]

  -- What is left of a start that is trimmed has no start to trim.
  trim_start-kept :
      (cs : Chars)
      → trim_start p (filter q (trim_end p (trim_start p cs)))
        ≡ filter q (trim_end p (trim_start p cs))
  unfolding trim_start trim_end
  trim_start-kept [] = refl
  trim_start-kept (c ∷ cs) = elim (Bool-cases (p c)) [
    | inl e ↦ rw e (trim_start-kept cs)
    | inr e ↦ elim (Bool-cases (is_empty (trim_end p cs))) [
      | inl f ↦ rw e (rw f (rw e (rw (edges c e) (rw e refl))))
      | inr f ↦ rw e (rw f (rw (edges c e) (rw e refl)))
    ]
  ]

  pub trimmed_twice :
      (cs : Chars)
      → filter q (trim_matches p (filter q (trim_matches p cs))) ≡ filter q (trim_matches p cs)
  unfolding trim_matches
  trimmed_twice cs =
      ap (λ x. filter q (trim_end p x)) (trim_start-kept cs)
      ∙ ap (filter q) (trim_end-filter (trim_end p (trim_start p cs)))
      ∙ filter_twice (trim_end p (trim_end p (trim_start p cs)))
      ∙ ap (filter q) (trim_end_twice (trim_start p cs))

tab_at_edge : (c : ℕ) → is_edge c ≡ false → not (is_tab_or_newline c) ≡ true
tab_at_edge c h = ground arith

pub normalize_twice :
    (url : Chars)
    → normalize_url_for_floor (normalize_url_for_floor url) ≡ normalize_url_for_floor url
unfolding normalize_url_for_floor
normalize_twice url = trimmed_twice is_edge (λ c. not (is_tab_or_newline c)) tab_at_edge url
