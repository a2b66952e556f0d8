-- ===== src/Prelude/Outcome.antt =====
-- Rust's `Result<T, E>`, and `?` as a bind.
use fuaran_rs.Prelude.{◌≡◌, refl, ap, ◌⊎◌, inl, inr, Bool, true, false}

pub data Result {ℓ} (E : Type 0) (T : Type ℓ) : Type ℓ where
  ok : T → Result E T
  err : E → Result E T

infixl 5 ◌>>=◌ ◌>>◌
abbrev pub ◌>>=◌ {ℓ κ} :
    {E : Type 0} {T : Type ℓ} {U : Type κ} → Result E T → (T → Result E U) → Result E U
ok x >>= k = k x
err e >>= k = err e

abbrev pub ◌>>◌ {ℓ} : {E : Type 0} {U : Type ℓ} → Result E (Unit {0}) → Result E U → Result E U
r >> r' = r >>= λ _. r'

pub ok-injective {ℓ} :
    {E : Type 0} {T : Type ℓ} {x y : T} → ◌≡◌ {A = Result E T} (ok x) (ok y) → x ≡ y
ok-injective h = cc

-- What a chain that succeeded went through.
pub >>=-eq-ok {ℓ κ} :
    {E : Type 0} {U : Type κ} {T : Type ℓ} (r : Result E T) (k : T → Result E U) {y : U}
    → (r >>= k) ≡ ok y
    → (x : T) × (r ≡ ok x) × (k x ≡ ok y)
>>=-eq-ok (err e) k h = cc
>>=-eq-ok (ok x) k h = (x, refl, h)

-- `if b { return Err(e) }`
abbrev pub reject_if : {E : Type 0} → Bool → E → Result E (Unit {0})
reject_if true e = err e
reject_if false e = ok tt

-- A chain within a chain is one chain.
pub >>=-assoc {ℓ κ μ} :
    {E : Type 0} {T : Type ℓ} {U : Type κ} {V : Type μ} (r : Result E T) (f : T → Result E U)
    (g : U → Result E V) (k : T → Result E V)
    → ((x : T) → k x ≡ (f x >>= g))
    → (r >>= k) ≡ ((r >>= f) >>= g)
>>=-assoc (ok x) f g k h = h x
>>=-assoc (err e) f g k h = refl

pub Result-cases {ℓ} :
    {E : Type 0} {T : Type ℓ} (r : Result E T) → ((x : T) × (r ≡ ok x)) ⊎ ((e : E) × (r ≡ err e))
Result-cases (ok x) = inl (x, refl)
Result-cases (err e) = inr (e, refl)

pub err-injective {ℓ} :
    {E : Type 0} {T : Type ℓ} {e e' : E} → ◌≡◌ {A = Result E T} (err e) (err e') → e ≡ e'
err-injective h = cc

-- `Result::map_err`
abbrev pub map_err {ℓ} : {E F : Type 0} {T : Type ℓ} → (E → F) → Result E T → Result F T
map_err f (ok x) = ok x
map_err f (err e) = err (f e)

pub map_err-eq-ok {ℓ} :
    {E F : Type 0} {T : Type ℓ} (f : E → F) (r : Result E T) {x : T} → map_err f r ≡ ok x → r ≡ ok x
map_err-eq-ok f (ok y) h = ap ok (ok-injective h)
map_err-eq-ok f (err e) h = cc
