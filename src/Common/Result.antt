-- ===== src/Common/Result.antt =====
-- `Result<T, E>` of result.h: a value or an error. `std::monostate` is `Unit {0}`.
use microsoft.Base.{Bool, true, false, Option, none, some, ◌≡◌, refl, ◌⊎◌, inl, inr}

pub data Result {ℓ κ} (T : Type ℓ) (E : Type κ) : Type (ℓ ⊔ κ) where
  ok : T → Result T E
  err : E → Result T E

module _ {ℓ κ} {T : Type ℓ} {E : Type κ} where
  abbrev pub is_ok : Result T E → Bool
  is_ok (ok _) = true
  is_ok (err _) = false

  -- `none` is the `std::logic_error` of a call on the other alternative.
  abbrev pub value : Result T E → Option T
  value (ok v) = some v
  value (err _) = none

  abbrev pub error : Result T E → Option E
  error (ok _) = none
  error (err e) = some e

-- What follows a test `if (!r.IsOk()) return Err(r.Error())`.
infixl 5 ◌>>=◌
abbrev pub ◌>>=◌ {ℓ ℓ' κ} :
    {T : Type ℓ} {U : Type ℓ'} {E : Type κ} → Result T E → (T → Result U E) → Result U E
ok v >>= f = f v
err e >>= f = err e

pub >>=-eq-ok {ℓ ℓ' κ} :
    {T : Type ℓ} {U : Type ℓ'} {E : Type κ} (r : Result T E) (f : T → Result U E) {u : U}
    → (r >>= f) ≡ ok u
    → (v : T) × (r ≡ ok v) × (f v ≡ ok u)
>>=-eq-ok (ok v) f h = (v, refl, h)
>>=-eq-ok (err e) f h = cc

pub Result-cases {ℓ κ} :
    {T : Type ℓ} {E : Type κ} (r : Result T E) → ((e : E) × (r ≡ err e)) ⊎ ((v : T) × (r ≡ ok v))
Result-cases (ok v) = inr (v, refl)
Result-cases (err e) = inl (e, refl)
