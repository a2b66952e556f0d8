-- ===== src/Teleport/Base64Url.antt =====
-- Unpadded base64url (src/teleport/base64url.rs). Bytes and characters are their numbers; where the
-- code joins disjoint bits by `|` the model adds, a shift is a product or a quotient by a power of two.
-- The `u32` holds at most 24 bits.
pub mod RoundTrip
use fuaran_rs.Prelude.{
  and_then, ℕ, suc, ◌+◌, ◌-◌, ◌*◌, ◌/◌, ◌%◌, ◌^◌, Bool, true, false, ◌&&◌, Option, none, some, List,
  [], ◌∷◌, ◌++◌, leb, ◌=?◌, length, if◌then◌else◌, unwrap_or,
}
use fuaran_rs.Ops.Path.{codes}

abbrev pub alphabet : List ℕ
alphabet = codes "ABCDEFGHIJKLMNOPQRSTUVWXYZabcdefghijklmnopqrstuvwxyz0123456789-_"

abbrev nth : List ℕ → ℕ → ℕ
nth [] i = 0
nth (x ∷ xs) i = if i =? 0 then x else nth xs (i - 1)

-- `ALPHABET[i & 63]`
unfoldable pub letter : ℕ → ℕ
letter i = nth alphabet (i % 64)

unfoldable pub encode : List ℕ → List ℕ
encode [] = []
encode (b0 ∷ []) = let n = b0 * 65_536 in letter (n / 262_144) ∷ letter (n / 4_096) ∷ []
encode (b0 ∷ b1 ∷ []) =
    let n = b0 * 65_536 + b1 * 256 in
    letter (n / 262_144) ∷ letter (n / 4_096) ∷ letter (n / 64) ∷ []
encode (b0 ∷ b1 ∷ b2 ∷ rest) =
    let n = b0 * 65_536 + b1 * 256 + b2 in
    letter (n / 262_144) ∷ letter (n / 4_096) ∷ letter (n / 64) ∷ letter n ∷ encode rest

abbrev within : ℕ → ℕ → ℕ → Bool
within lo hi c = leb lo c && leb c hi

unfoldable pub val : ℕ → Option ℕ
val c =
    if within b'A' b'Z' c
    then some (c - b'A')
    else if within b'a' b'z' c
    then some (c - b'a' + 26)
    else if within b'0' b'9' c
    then some (c - b'0' + 52)
    else if c =? b'-'
    then some 62
    else if c =? b'_'
    then some 63
    else none

-- The sextets of a chunk, accumulated.
unfoldable pub sextets : ℕ → List ℕ → Option ℕ
unfolding val
sextets n [] = some n
sextets n (c ∷ cs) = and_then (val c) (λ v. sextets (n * 64 + v) cs)

-- The whole bytes of a chunk of `k` characters.
abbrev pub whole_bytes : ℕ → ℕ → List ℕ
whole_bytes k n =
    let m = n * 2 ^ (24 - k * 6) in
    if k =? 4
    then m / 65_536 % 256 ∷ m / 256 % 256 ∷ m % 256 ∷ []
    else if k =? 3
    then m / 65_536 % 256 ∷ m / 256 % 256 ∷ []
    else if k =? 2
    then m / 65_536 % 256 ∷ []
    else []

abbrev pub decode_chunk : List ℕ → Option (List ℕ)
decode_chunk cs = and_then (sextets 0 cs) (λ n. some (whole_bytes (length cs) n))

-- The loop over the chunks of four.
unfoldable pub decode_chunks : List ℕ → Option (List ℕ)
decode_chunks [] = some []
decode_chunks (c0 ∷ []) = decode_chunk (c0 ∷ [])
decode_chunks (c0 ∷ c1 ∷ []) = decode_chunk (c0 ∷ c1 ∷ [])
decode_chunks (c0 ∷ c1 ∷ c2 ∷ []) = decode_chunk (c0 ∷ c1 ∷ c2 ∷ [])
decode_chunks (c0 ∷ c1 ∷ c2 ∷ c3 ∷ rest) =
    and_then (decode_chunk (c0 ∷ c1 ∷ c2 ∷ c3 ∷ []))
      (λ out. and_then (decode_chunks rest) (λ more. some (out ++ more)))

unfoldable pub decode : List ℕ → Option (List ℕ)
unfolding decode_chunks
decode input = if length input % 4 =? 1 then none else decode_chunks input
