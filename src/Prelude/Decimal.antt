-- ===== src/Prelude/Decimal.antt =====
-- `Display` of the integer types: decimal digits. A number has no more digits than its value, and one
-- more, so that much fuel is enough.
pub mod Reads
use Prim.Native.String.{◌++◌, slice}
use fuaran_rs.Prelude.{ℕ, zero, suc, ◌+◌, ◌/◌, ◌%◌, String, true, false, ltb}

-- `i64`: `negsuc n` is -(n + 1).
pub data ℤ : Type 0 where
  pos negsuc : ℕ → ℤ

abbrev pub digit : ℕ → String
digit n = slice "0123456789" n (n + 1)

unfoldable pub digits : ℕ → ℕ → String
digits zero n = ""
digits (suc fuel) n = elim (ltb n 10) [
  | true ↦ digit n
  | false ↦ digits fuel (n / 10) ++ digit (n % 10)
]

unfoldable pub show_nat : ℕ → String
unfolding digits
show_nat n = digits (n + 1) n

unfoldable pub show_int : ℤ → String
unfolding show_nat
show_int (pos n) = show_nat n
show_int (negsuc n) = "-" ++ show_nat (n + 1)
