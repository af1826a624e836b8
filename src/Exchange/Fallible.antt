-- ===== src/Exchange/Fallible.antt =====
-- A part of an exchange: it passes a value on, or fails with the record as it is by then.
use decrypt0r_x.Prelude.{◌≡◌, refl, ap}
use decrypt0r_x.Result.{Result, ok, err, Error}
use decrypt0r_x.Recorder.Flows.{FlowRecord}

pub data Stage {ℓ} (A : Type ℓ) : Type ℓ where
  fails : Error → FlowRecord → Stage A
  passes : A → Stage A

infixl 5 ◌>>=◌
abbrev pub ◌>>=◌ {ℓ κ} : {S : Type ℓ} {T : Type κ} → Stage S → (S → Stage T) → Stage T
fails raised flow >>= next = fails raised flow
passes value >>= next = next value

-- a call that may raise while the record is `flow`
abbrev pub attempt {ℓ} : {A : Type ℓ} → FlowRecord → Result A → Stage A
attempt flow (err raised) = fails raised flow
attempt flow (ok value) = passes value

pub bind-eq-passes {ℓ κ} :
    {S : Type ℓ} {T : Type κ} (m : Stage S) (next : S → Stage T) {t : T}
    → (m >>= next) ≡ passes t
    → (s : S) × (m ≡ passes s) × (next s ≡ passes t)
bind-eq-passes (fails raised flow) next h = cc
bind-eq-passes (passes value) next h = (value, refl, h)

pub attempt-eq-passes {ℓ} :
    {A : Type ℓ} (flow : FlowRecord) (m : Result A) {a : A} → attempt flow m ≡ passes a → m ≡ ok a
attempt-eq-passes flow (err raised) h = cc
attempt-eq-passes flow (ok value) h = cc

abbrev from_passes {ℓ} : {A : Type ℓ} → A → Stage A → A
from_passes d (passes a) = a
from_passes d (fails e flow) = d

pub passes-injective {ℓ} : {A : Type ℓ} {a b : A} → passes a ≡ passes b → a ≡ b
passes-injective {a = x} h = ap (from_passes x) h
