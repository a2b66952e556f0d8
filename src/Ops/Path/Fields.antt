-- ===== src/Ops/Path/Fields.antt =====
-- Paths made of field names alone (src/ops/mod.rs, `parse_path`): joined with dots, they are read back.
use fuaran_rs.Prelude.{
  ℕ, ◌≡◌, refl, ap, true, false, none, List, [], ◌∷◌, map, ◌=?◌, ◌++◌, arith, All, and_parts,
}
use fuaran_rs.Ops.Path.{
  PathSeg, parsed, is_field, is_field_start, is_field_char, is_digit, is_whitespace, all,
  before_bracket, from_bracket, parse_bracket, parse_segment, parse_segments, split_dots,
  parse_path,
}

abbrev pub plain : List ℕ → PathSeg
plain f = record { field = f; index = none }

-- The names with a dot between each two.
unfoldable pub join_dots : List ℕ → List (List ℕ) → List ℕ
join_dots f [] = f
join_dots f (g ∷ gs) = f ++ (b'.' ∷ join_dots g gs)

field_char-not_dot : (c : ℕ) → is_field_char c ≡ true → (c =? b'.') ≡ false
unfolding is_field_char is_field_start is_digit
field_char-not_dot c h = ground arith

field_char-not_bracket : (c : ℕ) → is_field_char c ≡ true → (c =? b'[') ≡ false
unfolding is_field_char is_field_start is_digit
field_char-not_bracket c h = ground arith

field_start-not_space : (c : ℕ) → is_field_start c ≡ true → is_whitespace c ≡ false
unfolding is_whitespace is_field_start
field_start-not_space c h = ground arith

-- Cutting a name at the first `[`, and a path at its first dot.
before_bracket-all : (cs : List ℕ) → all is_field_char cs ≡ true → before_bracket cs ≡ cs
unfolding before_bracket
before_bracket-all [] h = refl
before_bracket-all (c ∷ cs) h =
    let (h0, hs) = and_parts (is_field_char c) (all is_field_char cs) h in
    rw (field_char-not_bracket c h0) (ap (λ r. c ∷ r) (before_bracket-all cs hs))

from_bracket-all : (cs : List ℕ) → all is_field_char cs ≡ true → from_bracket cs ≡ []
unfolding from_bracket
from_bracket-all [] h = refl
from_bracket-all (c ∷ cs) h =
    let (h0, hs) = and_parts (is_field_char c) (all is_field_char cs) h in
    rw (field_char-not_bracket c h0) (from_bracket-all cs hs)

split_dots-all : (cs : List ℕ) → all is_field_char cs ≡ true → split_dots cs ≡ cs ∷ []
unfolding split_dots
split_dots-all [] h = refl
split_dots-all (c ∷ cs) h =
    let (h0, hs) = and_parts (is_field_char c) (all is_field_char cs) h in
    rw (field_char-not_dot c h0) (rw (split_dots-all cs hs) refl)

split_dots-dot :
    (cs rest : List ℕ)
    → all is_field_char cs ≡ true
    → split_dots (cs ++ (b'.' ∷ rest)) ≡ cs ∷ split_dots rest
unfolding split_dots
split_dots-dot [] rest h = refl
split_dots-dot (c ∷ cs) rest h =
    let (h0, hs) = and_parts (is_field_char c) (all is_field_char cs) h in
    rw (field_char-not_dot c h0) (rw (split_dots-dot cs rest hs) refl)

start-char : (c : ℕ) → is_field_start c ≡ true → is_field_char c ≡ true
unfolding is_field_char
start-char c h = rw h refl

is_field-chars : (f : List ℕ) → is_field f ≡ true → all is_field_char f ≡ true
unfolding is_field
is_field-chars [] h = cc
is_field-chars (c ∷ cs) h =
    let (h0, hs) = and_parts (is_field_start c) (all is_field_char cs) h in rw (start-char c h0) hs

parse_segment-field : (f : List ℕ) → is_field f ≡ true → parse_segment f ≡ parsed (plain f)
unfolding parse_segment parse_bracket
parse_segment-field [] h = cc
parse_segment-field (c ∷ cs) h =
    let chars = is_field-chars (c ∷ cs) h in
    rw (before_bracket-all (c ∷ cs) chars) (rw (from_bracket-all (c ∷ cs) chars) (rw h refl))

parse_segments-fields :
    (f : List ℕ) (gs : List (List ℕ))
    → is_field f ≡ true
    → All (λ g. is_field g ≡ true) gs
    → parse_segments (split_dots (join_dots f gs)) ≡ parsed (map plain (f ∷ gs))
unfolding join_dots parse_segments
parse_segments-fields f [] h hs =
    rw (split_dots-all f (is_field-chars f h)) (rw (parse_segment-field f h) refl)
parse_segments-fields f (g ∷ gs) h (h0, hs) =
    rw (split_dots-dot f (join_dots g gs) (is_field-chars f h))
      (rw (parse_segment-field f h) (rw (parse_segments-fields g gs h0 hs) refl))

-- A path that starts with a field name is not all white space.
join_dots-not_blank :
    (f : List ℕ) (gs : List (List ℕ))
    → is_field f ≡ true
    → all is_whitespace (join_dots f gs) ≡ false
unfolding join_dots is_field
join_dots-not_blank [] gs h = cc
join_dots-not_blank (c ∷ cs) [] h =
    rw (field_start-not_space c ((and_parts (is_field_start c) _ h).0)) refl
join_dots-not_blank (c ∷ cs) (g ∷ gs) h =
    rw (field_start-not_space c ((and_parts (is_field_start c) _ h).0)) refl

-- Field names joined with dots are read back as the segments of these names, in their order and
-- without an index.
pub parse_path-join :
    (f : List ℕ) (gs : List (List ℕ))
    → is_field f ≡ true
    → All (λ g. is_field g ≡ true) gs
    → parse_path (join_dots f gs) ≡ parsed (map plain (f ∷ gs))
unfolding parse_path
parse_path-join f gs h hs = rw (join_dots-not_blank f gs h) (parse_segments-fields f gs h hs)
