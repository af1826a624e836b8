-- ===== src/Api/Reply.antt =====
-- What a handler comes to: a value, an `HTTPException` with its status, or an exception that nothing
-- catches, which the framework turns into status 500.
use decrypt0r_x.Prelude.{ℕ, ◌≡◌}

pub data Reply {ℓ} (A : Type ℓ) : Type ℓ where
  reply : A → Reply A
  http_error : ℕ → Reply A
  uncaught : Reply A

pub reply_same {ℓ} : {A : Type ℓ} {a b : A} → reply a ≡ reply b → a ≡ b
reply_same h = cc
