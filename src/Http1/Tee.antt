-- ===== src/Http1/Tee.antt =====
-- `_Tee` and `BodyResult` of services/proxy/decrypt0rx_proxy/http1.py: a bounded copy of a body.
pub mod Bounds
use decrypt0r_x.Prelude.{
  ℕ, ◌+◌, ◌-◌, Bool, true, false, [], ◌++◌, length, take, if◌then◌else◌, ltb, leb, ◌==◌,
}
use decrypt0r_x.Prelude.Int.{ℤ, pos_part}
use decrypt0r_x.Text.{Text}

pub record Tee : Type 0 where
  pub limit : ℕ
  pub buf : Text
  pub total : ℕ
  pub truncated : Bool

pub record BodyResult : Type 0 where
  pub captured : Text
  pub total : ℕ
  pub truncated : Bool

-- `_Tee(limit)`, where the limit may be negative
unfoldable pub init : ℤ → Tee
init limit = record { limit = pos_part limit; buf = []; total = 0; truncated = false }

-- `room <= 0` also where the buffer were longer than the limit: `-` stops at 0
unfoldable pub feed : Tee → Text → Tee
feed t bytes =
    let total = t.total + length bytes in
    let room = t.limit - length t.buf in
    if t.limit == 0
    then record t { total = total; truncated = true }
    else if leb room 0
    then record t { total = total; truncated = true }
    else record t {
      buf = t.buf ++ take room bytes;
      total = total;
      truncated = if ltb room (length bytes) then true else t.truncated;
    }

unfoldable pub result : Tee → BodyResult
result t = record { captured = t.buf; total = t.total; truncated = t.truncated }
