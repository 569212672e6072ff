-- ===== src/Prelude/Results.antt =====
-- Go's `(value, error)` pair: a value, or the error that takes its place.
use mathlib.Core.Path.{◌≡◌, refl}
use mathlib.Core.Bool.{Bool, true, false}

pub data Result {κ ℓ} (Err : Type κ) (Val : Type ℓ) : Type (κ ⊔ ℓ) where
  err : Err → Result Err Val
  ok : Val → Result Err Val

module _ {κ ℓ μ} {Err : Type κ} {Val : Type ℓ} {Out : Type μ} where
  -- The call's value goes on into `next`; its error is the caller's.
  infixl 5 ◌>>=◌
  abbrev pub ◌>>=◌ : Result Err Val → (Val → Result Err Out) → Result Err Out
  err x >>= next = err x
  ok v >>= next = next v

  pub >>=-eq-ok :
      (call : Result Err Val) (next : Val → Result Err Out) {out : Out}
      → (call >>= next) ≡ ok out
      → (v : Val) × (call ≡ ok v) × (next v ≡ ok out)
  >>=-eq-ok (err x) next h = cc
  >>=-eq-ok (ok v) next h = (v, refl, h)

-- `if !b { return e }` in front of the rest.
infixl 5 ◌>>◌
abbrev pub ◌>>◌ {κ μ} :
    {Err : Type κ} {Out : Type μ} → Result Err (Unit {0}) → Result Err Out → Result Err Out
check >> rest = check >>= λ _. rest

abbrev pub require {κ} : {Err : Type κ} → Bool → Err → Result Err (Unit {0})
require false x = err x
require true x = ok tt

pub ok_injective {κ ℓ} :
    {Err : Type κ} {Val : Type ℓ} {v w : Val} → Path (Result Err Val) (ok v) (ok w) → v ≡ w
ok_injective h = cc
