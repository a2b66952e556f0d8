-- ===== src/Prelude/Decimal/Reads.antt =====
-- Decimal digits read back: two numbers with the same digits are the same.
use Prim.Native.Char.{code}
use Prim.Native.String.{[], ◌∷◌, ◌++◌}
use Prim.Native.String.append
use fuaran_rs.Prelude.{
  ℕ, zero, suc, ◌+◌, ◌-◌, ◌*◌, ◌/◌, ◌%◌, ◌<◌, String, ◌≡◌, refl, sym, ap, ◌∙◌, true, false, ltb,
  arith, Bool-cases, inl, inr,
}
use fuaran_rs.Prelude.Decimal.{digit, digits, show_nat}

-- The number whose decimal digits stand in a text, after the digits read so far.
read : String → ℕ → ℕ
read [] acc = acc
read (c ∷ s) acc = read s (acc * 10 + (code c - 48))

read-append : (s t : String) (acc : ℕ) → read (s ++ t) acc ≡ read t (read s acc)
unfolding read
read-append [] t acc = ap (λ u. read u acc) (append.nil t)
read-append (c ∷ s) t acc =
    ap (λ u. read u acc) (append.cons c s t) ∙ read-append s t (acc * 10 + (code c - 48))

read-digit : (d acc : ℕ) → d < 10 → read (digit d) acc ≡ acc * 10 + d
unfolding read
read-digit zero acc h = refl
read-digit (suc zero) acc h = refl
read-digit (suc (suc zero)) acc h = refl
read-digit (suc (suc (suc zero))) acc h = refl
read-digit (suc (suc (suc (suc zero)))) acc h = refl
read-digit (suc (suc (suc (suc (suc zero))))) acc h = refl
read-digit (suc (suc (suc (suc (suc (suc zero)))))) acc h = refl
read-digit (suc (suc (suc (suc (suc (suc (suc zero))))))) acc h = refl
read-digit (suc (suc (suc (suc (suc (suc (suc (suc zero)))))))) acc h = refl
read-digit (suc (suc (suc (suc (suc (suc (suc (suc (suc zero))))))))) acc h = refl
read-digit (suc (suc (suc (suc (suc (suc (suc (suc (suc (suc d)))))))))) acc h =
    absurd (omega arith)

digits_small : (fuel n : ℕ) → ltb n 10 ≡ true → digits (suc fuel) n ≡ digit n
unfolding digits
digits_small fuel n e = rw (e, digits) refl

digits_large :
    (fuel n : ℕ) → ltb n 10 ≡ false → digits (suc fuel) n ≡ digits fuel (n / 10) ++ digit (n % 10)
unfolding digits
digits_large fuel n e = rw (e, digits) refl

read-digits : (fuel n : ℕ) → n < fuel → read (digits fuel n) 0 ≡ n
unfolding digits
read-digits zero n h = absurd (omega arith)
read-digits (suc fuel) n h = elim (Bool-cases (ltb n 10)) [
  | inl e ↦ ap (λ s. read s 0) (digits_small fuel n e) ∙ read-digit n 0 (ground arith) ∙ omega arith
  | inr e ↦
      ap (λ s. read s 0) (digits_large fuel n e)
      ∙ read-append (digits fuel (n / 10)) (digit (n % 10)) 0
      ∙ read-digit (n % 10) (read (digits fuel (n / 10)) 0) (omega arith)
      ∙ omega (arith, read-digits fuel (n / 10) (ground arith))
]

pub show_nat-injective : (m n : ℕ) → show_nat m ≡ show_nat n → m ≡ n
unfolding show_nat
show_nat-injective m n h =
    sym (read-digits (m + 1) m (omega arith))
    ∙ ap (λ s. read s 0) h
    ∙ read-digits (n + 1) n (omega arith)
