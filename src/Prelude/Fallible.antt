-- ===== src/Prelude/Fallible.antt =====
-- Go's `(value, error)` returns: one of the two, never both. Each function has its own error type.
use mathlib.Core.Path.{◌≡◌, refl}
use mathlib.Core.Bool.{Bool, true, false}
use native.Mathlib.Omega.{arith}
use mathlib.Core.Logic.{◌⊎◌, inl, inr}

pub data Result {ℓ κ} (E : Type ℓ) (A : Type κ) : Type (ℓ ⊔ κ) where
  ok : A → Result E A
  err : E → Result E A

-- `if err != nil { return ..., err }`: the call, then what follows it.
infixl 5 ◌>>=◌
abbrev pub ◌>>=◌ {ℓ κ μ} :
    {E : Type ℓ} {Value : Type κ} {Answer : Type μ}
    → Result E Value
    → (Value → Result E Answer)
    → Result E Answer
err e >>= rest = err e
ok value >>= rest = rest value

-- The same for a call that returns nothing but the error.
infixl 5 ◌>>◌
abbrev pub ◌>>◌ {ℓ μ} :
    {E : Type ℓ} {Answer : Type μ} → Result E (Unit {0}) → Result E Answer → Result E Answer
first >> rest = first >>= λ done. rest

-- `if cond { return ..., e }`
abbrev pub fail_if {ℓ} : {E : Type ℓ} → Bool → E → Result E (Unit {0})
fail_if true e = err e
fail_if false e = ok tt

abbrev pub map_err {ℓ κ μ} :
    {E : Type ℓ} {F : Type κ} {A : Type μ} → (E → F) → Result E A → Result F A
map_err f (ok a) = ok a
map_err f (err e) = err (f e)

pub Result-cases {ℓ κ} :
    {E : Type ℓ} {A : Type κ} (m : Result E A) → ((a : A) × (m ≡ ok a)) ⊎ ((e : E) × (m ≡ err e))
Result-cases (ok a) = inl (a, refl)
Result-cases (err e) = inr (e, refl)

-- What a successful sequence says of its two parts.
pub >>=-eq-ok {ℓ κ μ} :
    {E : Type ℓ} {Value : Type κ} {Answer : Type μ} (call : Result E Value)
    (rest : Value → Result E Answer) {answer : Answer}
    → (call >>= rest) ≡ ok answer
    → (value : Value) × (call ≡ ok value) × (rest value ≡ ok answer)
>>=-eq-ok (err e) rest went = cc
>>=-eq-ok (ok value) rest went = (value, refl, went)

pub fail_if-eq-ok {ℓ} : {E : Type ℓ} (b : Bool) (e : E) → fail_if b e ≡ ok tt → b ≡ false
fail_if-eq-ok b e h = ground arith

pub map_err-ok {ℓ κ μ} :
    {E : Type ℓ} {F : Type κ} {A : Type μ} (f : E → F) (m : Result E A) {a : A}
    → map_err f m ≡ ok a
    → m ≡ ok a
map_err-ok f (ok b) h = cc
map_err-ok f (err e) h = cc
