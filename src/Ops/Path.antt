-- ===== src/Ops/Path.antt =====
-- The path grammar of `UpdateProp` (src/ops/mod.rs, `parse_path`): segments between dots, each a field
-- name with at most one index. A text is read as its code points.
pub mod Fields
use Prim.Native.Char.{code}
use fuaran_rs.Prelude.{
  ℕ, ◌+◌, ◌-◌, ◌*◌, ◌^◌, String, Bool, true, false, not, ◌&&◌, ◌||◌, Option, none, some, List, [],
  ◌∷◌, leb, ◌=?◌, if◌then◌else◌, length, last,
}

abbrev pub codes : String → List ℕ
codes String.[] = []
codes (String.◌∷◌ c s) = code c ∷ codes s

pub record PathSeg : Type 0 where
  pub field : List ℕ
  pub index : Option ℕ

-- The reasons that the Rust code gives as texts.
pub data PathError : Type 0 where
  empty_path empty_segment not_a_field malformed_index not_decimal leading_zero : PathError
  out_of_range : PathError

pub data Parsed {ℓ} (A : Type ℓ) : Type ℓ where
  parsed : A → Parsed A
  refused : PathError → Parsed A

abbrev in_range : ℕ → ℕ → ℕ → Bool
in_range lo hi c = leb lo c && leb c hi

unfoldable pub is_digit : ℕ → Bool
is_digit c = in_range b'0' b'9' c

unfoldable pub is_field_start : ℕ → Bool
is_field_start c = (in_range b'a' b'z' c || in_range b'A' b'Z' c) || c =? b'_'

unfoldable pub is_field_char : ℕ → Bool
unfolding is_field_start is_digit
is_field_char c = is_field_start c || is_digit c

abbrev pub all : (ℕ → Bool) → List ℕ → Bool
all p [] = true
all p (c ∷ cs) = p c && all p cs

-- `char::is_whitespace`
unfoldable pub is_whitespace : ℕ → Bool
is_whitespace c =
    in_range 0x9 0xd c
    || c =? 0x20
    || c =? 0x85
    || c =? 0xa0
    || c =? 0x1680
    || in_range 0x2000 0x200a c
    || c =? 0x2028
    || c =? 0x2029
    || c =? 0x202f
    || c =? 0x205f
    || c =? 0x3000

-- The text before the first `[` and, if there is one, the text from it on.
unfoldable pub before_bracket : List ℕ → List ℕ
before_bracket [] = []
before_bracket (c ∷ cs) = if c =? b'[' then [] else c ∷ before_bracket cs

unfoldable pub from_bracket : List ℕ → List ℕ
from_bracket [] = []
from_bracket (c ∷ cs) = if c =? b'[' then c ∷ cs else from_bracket cs

unfoldable pub is_field : List ℕ → Bool
is_field [] = false
is_field (c ∷ cs) = is_field_start c && all is_field_char cs

-- The value of decimal digits, read from the left.
unfoldable pub decimal : ℕ → List ℕ → ℕ
decimal n [] = n
decimal n (c ∷ cs) = decimal (n * 10 + (c - b'0')) cs

abbrev all_but_last : List ℕ → List ℕ
all_but_last [] = []
all_but_last (c ∷ []) = []
all_but_last (c ∷ (d ∷ cs)) = c ∷ all_but_last (d ∷ cs)

abbrev ends_with_bracket : List ℕ → Bool
ends_with_bracket cs = elim (last cs) [ none ↦ false | some c ↦ c =? b']' ]

-- The digits of an index, as a `usize` of 64 bits.
unfoldable pub parse_index : List ℕ → Parsed ℕ
unfolding decimal is_digit
parse_index [] = refused not_decimal
parse_index (c ∷ cs) =
    if not (all is_digit (c ∷ cs))
    then refused not_decimal
    else if leb 1 (length cs) && c =? b'0'
    then refused leading_zero
    else if leb (2 ^ 64) (decimal 0 (c ∷ cs))
    then refused out_of_range
    else parsed (decimal 0 (c ∷ cs))

abbrev with_index : List ℕ → Parsed ℕ → Parsed PathSeg
with_index f (parsed i) = parsed (record { field = f; index = some i })
with_index f (refused e) = refused e

-- The part from `[` on: `[` itself, the digits, and `]`.
unfoldable pub parse_bracket : List ℕ → List ℕ → Parsed PathSeg
unfolding parse_index
parse_bracket f [] = parsed (record { field = f; index = none })
parse_bracket f (b ∷ cs) =
    if leb 2 (length cs) && ends_with_bracket cs
    then with_index f (parse_index (all_but_last cs))
    else refused malformed_index

unfoldable pub parse_segment : List ℕ → Parsed PathSeg
unfolding before_bracket from_bracket is_field parse_bracket
parse_segment [] = refused empty_segment
parse_segment (c ∷ cs) =
    if is_field (before_bracket (c ∷ cs))
    then parse_bracket (before_bracket (c ∷ cs)) (from_bracket (c ∷ cs))
    else refused not_a_field

-- `str::split('.')`: always one piece more than there are dots.
abbrev push_front : ℕ → List (List ℕ) → List (List ℕ)
push_front c [] = (c ∷ []) ∷ []
push_front c (s ∷ ss) = (c ∷ s) ∷ ss

unfoldable pub split_dots : List ℕ → List (List ℕ)
split_dots [] = [] ∷ []
split_dots (c ∷ cs) = let rest = split_dots cs in if c =? b'.' then [] ∷ rest else push_front c rest

abbrev collect : Parsed PathSeg → Parsed (List PathSeg) → Parsed (List PathSeg)
collect (parsed s) (parsed ss) = parsed (s ∷ ss)
collect (parsed s) (refused e) = refused e
collect (refused e) r = refused e

unfoldable pub parse_segments : List (List ℕ) → Parsed (List PathSeg)
parse_segments [] = parsed []
parse_segments (s ∷ ss) = collect (parse_segment s) (parse_segments ss)

unfoldable pub parse_path : List ℕ → Parsed (List PathSeg)
unfolding is_whitespace split_dots parse_segments parse_segment
parse_path cs = if all is_whitespace cs then refused empty_path else parse_segments (split_dots cs)
