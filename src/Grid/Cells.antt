-- ===== src/Grid/Cells.antt =====
-- Cells and their types (src/core/dataframe.rs, `ColumnType`; src/core/grid_edit.rs, `cell_fits`;
-- src/core/transform.rs, `cell_token`).
use Prim.Native.String.{◌++◌}
use fuaran_rs.Prelude.{
  ℕ, ◌≡◌, refl, sym, ap, ◌∙◌, arith, String, Bool, true, false, ◌||◌, Option, none, some, leb, ◌=?◌,
  if◌then◌else◌, unwrap_or,
}
use fuaran_rs.Prelude.Decimal.{show_int}
use fuaran_rs.Ops.Path.{codes}
use fuaran_rs.Grid.{Compute, ColumnType, Cell}
use fuaran_rs.Grid.Instant.{instant_fraction_digits}

-- `PartialEq` of `ColumnType`
abbrev type_code : ColumnType → ℕ
type_code ColumnType.int = 0
type_code ColumnType.float = 1
type_code ColumnType.bool = 2
type_code ColumnType.str = 3
type_code ColumnType.date = 4
type_code ColumnType.timestamp = 5
type_code ColumnType.decimal = 6
type_code ColumnType.timestamp_ms = 7
type_code ColumnType.timestamp_us = 8
type_code ColumnType.timestamp_ns = 9

abbrev pub same_type : ColumnType → ColumnType → Bool
same_type a b = type_code a =? type_code b

nth_type : ℕ → ColumnType
nth_type n =
    if n =? 0
    then ColumnType.int
    else if n =? 1
    then ColumnType.float
    else if n =? 2
    then ColumnType.bool
    else if n =? 3
    then ColumnType.str
    else if n =? 4
    then ColumnType.date
    else if n =? 5
    then ColumnType.timestamp
    else if n =? 6
    then ColumnType.decimal
    else if n =? 7
    then ColumnType.timestamp_ms
    else if n =? 8
    then ColumnType.timestamp_us
    else ColumnType.timestamp_ns

nth_type-code : (a : ColumnType) → nth_type (type_code a) ≡ a
unfolding nth_type
nth_type-code ColumnType.int = refl
nth_type-code ColumnType.float = refl
nth_type-code ColumnType.bool = refl
nth_type-code ColumnType.str = refl
nth_type-code ColumnType.date = refl
nth_type-code ColumnType.timestamp = refl
nth_type-code ColumnType.decimal = refl
nth_type-code ColumnType.timestamp_ms = refl
nth_type-code ColumnType.timestamp_us = refl
nth_type-code ColumnType.timestamp_ns = refl

pub same_type-eq : (a b : ColumnType) → same_type a b ≡ true → a ≡ b
same_type-eq a b h =
    let e : type_code a ≡ type_code b = ground arith in
    sym (nth_type-code a) ∙ ap nth_type e ∙ nth_type-code b

abbrev pub timestamp_digits : ColumnType → Option ℕ
timestamp_digits ColumnType.timestamp = some 0
timestamp_digits ColumnType.timestamp_ms = some 3
timestamp_digits ColumnType.timestamp_us = some 6
timestamp_digits ColumnType.timestamp_ns = some 9
timestamp_digits _ = none

abbrev pub timestamp_of_digits : ℕ → ColumnType
timestamp_of_digits n =
    if n =? 0
    then ColumnType.timestamp
    else if leb n 3
    then ColumnType.timestamp_ms
    else if leb n 6
    then ColumnType.timestamp_us
    else ColumnType.timestamp_ns

abbrev holds_digits : ℕ → Option ℕ → Bool
holds_digits n none = false
holds_digits n (some d) = leb n d

module _ {C : Compute} where
  unfoldable pub cell_fits : ColumnType → Cell C → Bool
  unfolding instant_fraction_digits
  cell_fits ty Cell.null = true
  cell_fits ty (Cell.int v) =
      same_type ty ColumnType.int
      || same_type ty ColumnType.float
      || same_type ty ColumnType.decimal
  cell_fits ty (Cell.float v) = same_type ty ColumnType.float
  cell_fits ty (Cell.bool v) = same_type ty ColumnType.bool
  cell_fits ty (Cell.str s) = same_type ty ColumnType.str
  cell_fits ty (Cell.date s) = same_type ty ColumnType.date
  cell_fits ty (Cell.decimal s) = same_type ty ColumnType.decimal
  cell_fits ty (Cell.timestamp s) =
      let digits = unwrap_or (instant_fraction_digits (codes s)) 0 in
      holds_digits (unwrap_or (timestamp_digits (timestamp_of_digits digits)) 0)
        (timestamp_digits ty)

  unfoldable pub cell_token : Cell C → String
  cell_token (Cell.int v) = "i:" ++ show_int v
  cell_token (Cell.float v) = "f:" ++ C.float_text v
  cell_token (Cell.bool true) = "b:1"
  cell_token (Cell.bool false) = "b:0"
  cell_token (Cell.str s) = "s:" ++ s
  cell_token (Cell.date s) = "d:" ++ s
  cell_token (Cell.timestamp s) = "t:" ++ s
  cell_token (Cell.decimal s) = "m:" ++ unwrap_or (C.canonical s) s
  cell_token Cell.null = "n:"
