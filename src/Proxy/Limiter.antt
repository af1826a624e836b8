-- ===== src/Proxy/Limiter.antt =====
-- How many requests the limiter lets pass.
use decrypt0r_x.Prelude.{
  ℕ, ◌+◌, ◌-◌, ◌/◌, ◌≤◌, ◌≡◌, true, not, ◌&&◌, List, [], ◌∷◌, arith, if◌then◌else◌, ltb, ◌==◌,
  ==_refl, ==_iff, and-eq-true, ap, ◌∙◌, Bool-cases, inl, inr,
}
use decrypt0r_x.Text.{Text, text_eq}
use decrypt0r_x.Text.Laws.{text_eq_iff, text_eq_refl}
use decrypt0r_x.Proxy.Rate.{Counters, same_key, incr, LimiterSettings, rate_limited}

same_key_refl : (ip : Text) (minute : ℕ) → same_key ip minute ip minute ≡ true
same_key_refl ip minute = rw (text_eq_refl ip, ==_refl minute)

same_count :
    (a : Text) (m : ℕ) (b : Text) (n : ℕ) (counters : Counters)
    → same_key a m b n ≡ true
    → counters a m ≡ counters b n
same_count a m b n counters h =
    let (texts, minutes) = and-eq-true (text_eq a b) (m == n) h in
    ap (λ x. counters x m) ((text_eq_iff a b).0 texts) ∙ ap (counters b) ((==_iff m n).0 minutes)

module _ (settings : LimiterSettings) (ip : Text) (minute : ℕ) where
  -- the requests from the address in the minute that pass, of a sequence of addresses and times
  pub granted : List (Text × ℕ) → Counters → ℕ
  granted [] counters = 0
  granted ((from, time) ∷ requests) counters =
      let (limited, counters') = rate_limited settings from time counters in
      let later = granted requests counters' in
      if same_key from (time / 60) ip minute && not limited then later + 1 else later

  -- Where the limiter is on and has a Redis that works, the requests from one address in one minute
  -- that pass, of any sequence of requests, are at most `rate_limit_per_minute` less those counted
  -- before.
  pub granted-le :
      (requests : List (Text × ℕ)) (counters : Counters)
      → settings.rate_limit_enabled ≡ true
      → settings.has_redis ≡ true
      → granted requests counters ≤ settings.rate_limit_per_minute - counters ip minute
  unfolding granted rate_limited
  granted-le [] counters on redis = omega arith
  granted-le ((from, time) ∷ requests) counters on redis =
      let later = granted-le requests (incr from (time / 60) counters) on redis in
      let own = same_key_refl from (time / 60) in
      elim (Bool-cases (same_key from (time / 60) ip minute)) [
        | inl hit ↦
            let at_key = same_count from (time / 60) ip minute counters hit in
            rw (on, redis, hit, own, at_key) (grant_counts _ (counters ip minute) (rw hit at later))
        | inr miss ↦ rw (on, redis, miss) (rw miss at later)
      ]
    where
      grant_counts :
          (n c : ℕ)
          → n ≤ settings.rate_limit_per_minute - (c + 1)
          → (if not (ltb settings.rate_limit_per_minute (c + 1)) then n + 1 else n)
            ≤ settings.rate_limit_per_minute - c
      grant_counts n c h = ground arith
