-- ===== src/Teleport/Base64Url/RoundTrip.antt =====
-- Decoding what was encoded gives the bytes back.
use fuaran_rs.Prelude.{
  and_then, ℕ, zero, suc, ◌+◌, ◌*◌, ◌/◌, ◌%◌, ◌<◌, ◌≡◌, refl, ap, ◌∙◌, Bool, true, false, ◌&&◌,
  Option, none, some, List, [], ◌∷◌, ◌++◌, ◌=?◌, length, arith, All, Bool-cases, and_parts, inl,
  inr, subst,
}
use fuaran_rs.Teleport.Base64Url.{letter, encode, val, sextets, decode_chunk, decode_chunks, decode}

is_value : ℕ → Option ℕ → Bool
is_value i none = false
is_value i (some v) = v =? i

is_value-some : (i : ℕ) (o : Option ℕ) → is_value i o ≡ true → o ≡ some i
unfolding is_value
is_value-some i none h = cc
is_value-some i (some v) h = let q : v ≡ i = ground arith in ap some q

-- Every sextet below the bound is the value of its letter.
below : ℕ → Bool
below zero = true
below (suc k) = is_value k (val (letter k)) && below k

below_64 : below 64 ≡ true
unfolding below is_value val letter
below_64 = refl

below-val : (n i : ℕ) → below n ≡ true → i < n → val (letter i) ≡ some i
unfolding below
below-val zero i h l = absurd (omega arith)
below-val (suc k) i h l =
    let (v, r) = and_parts (is_value k (val (letter k))) (below k) h in
    elim (Bool-cases (i =? k)) [
      | inl e ↦
          let q : k ≡ i = ground arith in
          subst (λ j. val (letter j) ≡ some j) q (is_value-some k (val (letter k)) v)
      | inr e ↦ below-val k i r (ground arith)
    ]

val-letter : (i : ℕ) → val (letter i) ≡ some (i % 64)
unfolding letter
val-letter i =
    let q : i % 64 % 64 ≡ i % 64 = omega arith in
    let v = below-val 64 (i % 64) below_64 (omega arith) in rw q at v

sextets-letter : (n i : ℕ) (cs : List ℕ) → sextets n (letter i ∷ cs) ≡ sextets (n * 64 + i % 64) cs
unfolding sextets
sextets-letter n i cs = rw (val-letter i) refl

bytes :
    {x x' : ℕ} {w w' : List ℕ}
    → x ≡ x'
    → w ≡ w'
    → ◌≡◌ {A = Option (List ℕ)} (some (x ∷ w)) (some (x' ∷ w'))
bytes {x' = x'} {w = w} p q = ap (λ a. some (a ∷ w)) p ∙ ap (λ v. some (x' ∷ v)) q

and_more : {x x' : ℕ} {w w' : List ℕ} → x ≡ x' → w ≡ w' → x ∷ w ≡ x' ∷ w'
and_more {x' = x'} {w = w} p q = ap (λ a. a ∷ w) p ∙ ap (λ v. x' ∷ v) q

one_byte :
    (b0 n : ℕ)
    → b0 < 256
    → n ≡ b0 * 65_536
    → decode_chunk (letter (n / 262_144) ∷ letter (n / 4_096) ∷ []) ≡ some (b0 ∷ [])
unfolding sextets
one_byte b0 n h0 e =
    rw (val-letter (n / 262_144), val-letter (n / 4_096)) (bytes (omega arith) refl)

two_bytes :
    (b0 b1 n : ℕ)
    → b0 < 256
    → b1 < 256
    → n ≡ b0 * 65_536 + b1 * 256
    → decode_chunk (letter (n / 262_144) ∷ letter (n / 4_096) ∷ letter (n / 64) ∷ [])
      ≡ some (b0 ∷ b1 ∷ [])
unfolding sextets
two_bytes b0 b1 n h0 h1 e =
    rw (val-letter (n / 262_144), val-letter (n / 4_096), val-letter (n / 64))
      (bytes (omega arith) (and_more (omega arith) refl))

three_bytes :
    (b0 b1 b2 n : ℕ)
    → b0 < 256
    → b1 < 256
    → b2 < 256
    → n ≡ b0 * 65_536 + b1 * 256 + b2
    → decode_chunk (letter (n / 262_144) ∷ letter (n / 4_096) ∷ letter (n / 64) ∷ letter n ∷ [])
      ≡ some (b0 ∷ b1 ∷ b2 ∷ [])
unfolding sextets
three_bytes b0 b1 b2 n h0 h1 h2 e =
    rw (val-letter (n / 262_144), val-letter (n / 4_096), val-letter (n / 64), val-letter n)
      (bytes (omega arith) (and_more (omega arith) (and_more (omega arith) refl)))

decode_chunks-encode :
    (input : List ℕ) → All (λ b. b < 256) input → decode_chunks (encode input) ≡ some input
unfolding encode decode_chunks
decode_chunks-encode [] h = refl
decode_chunks-encode (b0 ∷ []) h = one_byte b0 _ h.0 refl
decode_chunks-encode (b0 ∷ b1 ∷ []) h = two_bytes b0 b1 _ h.0 h.1.0 refl
decode_chunks-encode (b0 ∷ b1 ∷ b2 ∷ rest) h =
    ap
      (λ o. and_then o (λ out. and_then (decode_chunks (encode rest)) (λ more. some (out ++ more))))
      (three_bytes b0 b1 b2 _ h.0 h.1.0 h.1.1.0 refl)
    ∙ ap (λ o. and_then o (λ more. some (b0 ∷ b1 ∷ b2 ∷ more))) (decode_chunks-encode rest h.1.1.1)

no_lone_sextet : (input : List ℕ) → (length (encode input) % 4 =? 1) ≡ false
unfolding encode
no_lone_sextet [] = refl
no_lone_sextet (b0 ∷ []) = refl
no_lone_sextet (b0 ∷ b1 ∷ []) = refl
no_lone_sextet (b0 ∷ b1 ∷ b2 ∷ rest) = let h = no_lone_sextet rest in ground arith

-- Decoding the encoding of a list of bytes gives the list back.
pub decode-encode : (input : List ℕ) → All (λ b. b < 256) input → decode (encode input) ≡ some input
unfolding decode
decode-encode input h = rw (no_lone_sextet input) (decode_chunks-encode input h)
