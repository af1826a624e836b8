-- ===== src/Result.antt =====
-- The exceptions of the proxy as values. `out_of_fuel` belongs to the model only.
use decrypt0r_x.Prelude.{◌≡◌, refl, ap}

pub data Error : Type 0 where
  protocol_error value_error connection_reset incomplete_read timed_out out_of_fuel : Error

pub data Result {ℓ} (T : Type ℓ) : Type ℓ where
  err : Error → Result T
  ok : T → Result T

-- what follows an `await` that may raise
infixl 5 ◌>>=◌
abbrev pub ◌>>=◌ {ℓ κ} : {S : Type ℓ} {T : Type κ} → Result S → (S → Result T) → Result T
err raised >>= next = err raised
ok value >>= next = next value

-- The inversion of a bind that succeeds.
pub >>=-eq-ok {ℓ κ} :
    {S : Type ℓ} {T : Type κ} (m : Result S) (next : S → Result T) {t : T}
    → (m >>= next) ≡ ok t
    → (s : S) × (m ≡ ok s) × (next s ≡ ok t)
>>=-eq-ok (err raised) next h = cc
>>=-eq-ok (ok value) next h = (value, refl, h)

abbrev from_ok {ℓ} : {A : Type ℓ} → A → Result A → A
from_ok d (ok a) = a
from_ok d (err e) = d

pub ok-injective {ℓ} : {A : Type ℓ} {a b : A} → ok a ≡ ok b → a ≡ b
ok-injective {a = x} h = ap (from_ok x) h

pub err≢ok {ℓ} : {A : Type ℓ} {e : Error} {a : A} → ◌≡◌ {A = Result A} (err e) (ok a) → ⊥
err≢ok h = cc
