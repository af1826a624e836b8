-- ===== src/Proxy/Rate.antt =====
-- `_rate_limited` of services/proxy/decrypt0rx_proxy/proxy.py: a counter in Redis per address and minute.
use decrypt0r_x.Prelude.{ℕ, ◌+◌, ◌/◌, Bool, false, not, ◌&&◌, ◌||◌, if◌then◌else◌, ltb, ◌==◌}
use decrypt0r_x.Text.{Text, text_eq}

-- what Redis counts, by address and minute; a count outlives its minute
abbrev pub Counters : Type 0
Counters = Text → ℕ → ℕ

abbrev pub same_key : Text → ℕ → Text → ℕ → Bool
same_key ip minute ip' minute' = text_eq ip ip' && minute == minute'

abbrev pub incr : Text → ℕ → Counters → Counters
incr ip minute counters ip' minute' =
    if same_key ip minute ip' minute' then counters ip' minute' + 1 else counters ip' minute'

-- the settings that the limiter reads; `has_redis` is whether there is a connection that works
pub record LimiterSettings : Type 0 where
  pub rate_limit_enabled : Bool
  pub has_redis : Bool
  pub rate_limit_per_minute : ℕ

-- `_rate_limited(client_ip)`, at a time in seconds
unfoldable pub rate_limited : LimiterSettings → Text → ℕ → Counters → Bool × Counters
rate_limited settings ip time counters =
    let minute = time / 60 in
    if not settings.rate_limit_enabled || not settings.has_redis then (false, counters) else (
      ltb settings.rate_limit_per_minute (incr ip minute counters ip minute),
      incr ip minute counters,
    )
