-- ===== src/Redaction/Url.antt =====
-- `redact_url` of packages/core/decrypt0rx_core/redaction.py: the regular expression of query parameters that
-- carry secrets, as a scan from the left.
use decrypt0r_x.Prelude.{
  ℕ, zero, suc, ◌+◌, Bool, ◌||◌, List, [], ◌∷◌, ◌++◌, Option, none, some, if◌then◌else◌, length,
  take, drop, ◌==◌,
}
use decrypt0r_x.Text.{Text, codes, lower, starts_with, is_space}
use decrypt0r_x.Redaction.{redacted}

-- the alternatives of the expression, each with the `=` behind it
abbrev secret_names : List Text
secret_names =
    codes "access_token="
    ∷ codes "token="
    ∷ codes "api_key="
    ∷ codes "apikey="
    ∷ codes "password="
    ∷ codes "secret="
    ∷ codes "code="
    ∷ []

-- `[?&]`
abbrev is_mark : ℕ → Bool
is_mark c = c == b'?' || c == b'&'

-- how far `[^&\s]+` reaches; 0 where it does not match
abbrev value_length : Text → ℕ
value_length [] = 0
value_length (c ∷ t) = if c == b'&' || is_space c then 0 else suc (value_length t)

-- the length of the name at the start, without regard to case, if a value follows it
abbrev named_by : List Text → Text → Option ℕ
named_by [] t = none
named_by (name ∷ names) t =
    if starts_with name (lower t)
    then (if value_length (drop (length name) t) == 0 then none else some (length name))
    else named_by names t

unfoldable pub secret_at : Text → Option ℕ
secret_at t = named_by secret_names t

-- the scan; `skip` characters belong to a match that was replaced
unfoldable pub redact_from : ℕ → Text → Text
unfolding secret_at
redact_from skip [] = []
redact_from (suc skip) (c ∷ t) = redact_from skip t
redact_from zero (c ∷ t) =
    let plain = c ∷ redact_from zero t in
    if is_mark c
    then elim (secret_at t) [
      | none ↦ plain
      | some n ↦ (c ∷ take n t) ++ redacted ++ redact_from (n + value_length (drop n t)) t
    ]
    else plain

unfoldable pub redact_url : Text → Text
unfolding redact_from
redact_url url = redact_from 0 url
