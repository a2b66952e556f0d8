-- ===== src/Grid/Instant.antt =====
-- The canonical instant texts (src/core/dataframe.rs, `instant_fraction_digits`), on the code points of a
-- text: every position is tested, so a text with another character than an ASCII one is refused.
use fuaran_rs.Prelude.{
  ℕ, zero, suc, ◌+◌, ◌-◌, ◌*◌, ◌%◌, Bool, false, not, ◌&&◌, ◌||◌, Option, none, some, List, [], ◌∷◌,
  leb, ◌=?◌, if◌then◌else◌, length,
}
use fuaran_rs.Ops.Path.{is_digit, all}

-- `b[i]`; every index used is below the length.
abbrev at : List ℕ → ℕ → ℕ
at [] i = 0
at (c ∷ cs) zero = c
at (c ∷ cs) (suc i) = at cs i

-- The digits of a slice, and `none` where one of them is none.
abbrev num : List ℕ → ℕ → ℕ → ℕ → Option ℕ
num cs i zero acc = some acc
num cs i (suc n) acc =
    let rest = num cs (i + 1) n (acc * 10 + (at cs i - b'0')) in
    if is_digit (at cs i) then rest else none

abbrev drop : ℕ → List ℕ → List ℕ
drop zero cs = cs
drop (suc n) [] = []
drop (suc n) (c ∷ cs) = drop n cs

abbrev all_but_last : List ℕ → List ℕ
all_but_last [] = []
all_but_last (c ∷ []) = []
all_but_last (c ∷ (d ∷ cs)) = c ∷ all_but_last (d ∷ cs)

unfoldable pub is_leap : ℕ → Bool
is_leap y = y % 4 =? 0 && (not (y % 100 =? 0) || y % 400 =? 0)

unfoldable pub days_in : ℕ → ℕ → ℕ
unfolding is_leap
days_in y mo =
    if mo =? 2
    then if is_leap y then 29 else 28
    else if ((mo =? 4 || mo =? 6) || mo =? 9) || mo =? 11
    then 30
    else 31

abbrev has_separators : List ℕ → Bool
has_separators b =
    leb 20 (length b)
    && at b 4 =? b'-'
    && at b 7 =? b'-'
    && at b 10 =? b'T'
    && at b 13 =? b':'
    && at b 16 =? b':'

-- The moment named exists.
unfoldable pub is_moment : List ℕ → Bool
unfolding days_in is_digit
is_moment b =
    elim (num b 0 4 0) [
      | none ↦ false
      | some y ↦ elim (num b 5 2 0) [
        | none ↦ false
        | some mo ↦ elim (num b 8 2 0) [
          | none ↦ false
          | some d ↦ leb 1 mo && leb mo 12 && leb 1 d && leb d (days_in y mo)
        ]
      ]
    ]
    && elim (num b 11 2 0) [ none ↦ false | some h ↦ leb h 23 ]
    && elim (num b 14 2 0) [ none ↦ false | some mi ↦ leb mi 59 ]
    && elim (num b 17 2 0) [ none ↦ false | some s ↦ leb s 59 ]

-- `none` for a text that is no canonical instant.
unfoldable pub instant_fraction_digits : List ℕ → Option ℕ
unfolding is_moment is_digit
instant_fraction_digits b =
    let n = length b in
    if not (has_separators b && is_moment b)
    then none
    else if n =? 20
    then if at b 19 =? b'Z' then some 0 else none
    else if leb 31 n || not (at b 19 =? b'.') || not (at b (n - 1) =? b'Z') || at b (n - 2) =? b'0'
    then none
    else if all is_digit (drop 20 (all_but_last b))
    then some (n - 21)
    else none
