-- ===== src/Tests/Proxy.antt =====
-- Targets, requests and connections on which the theorems on proxy.py are tried.
use decrypt0r_x.Prelude.{
  ℕ, drop, ◌==◌, if◌then◌else◌, ◌-◌, ◌≤◌, ◌<◌, ◌≡◌, refl, Bool, true, false, List, [], ◌∷◌, Option,
  none, some,
}
use decrypt0r_x.Text.{Text, codes, lower, starts_with}
use decrypt0r_x.Text.Number.{py_int}
use decrypt0r_x.Models.{intercept}
use decrypt0r_x.Policy.{Decision}
use decrypt0r_x.Http1.Heads.{RequestHead}
use decrypt0r_x.Prelude.{length}
use decrypt0r_x.Proxy.{on_client, plain_target, handle_plain_http}
use decrypt0r_x.Proxy.Rate.{Counters, LimiterSettings}
use decrypt0r_x.Proxy.Authority.{hostname_matches, split_authority, valid_host, parse_authority}
use decrypt0r_x.Proxy.Limiter.{granted, granted-le}
use decrypt0r_x.Proxy.Targets.{parse_authority_sound}
use decrypt0r_x.Proxy.Connections.{opens}
use decrypt0r_x.Proxy.Plain.{Permitted, PlainObeys, handle_plain_http-Obeys, on_client-Permitted}
use decrypt0r_x.Http1.Stream.{Reader}
use decrypt0r_x.Http1.Headers.{get}

abbrev two_a_minute : LimiterSettings
two_a_minute = record { rate_limit_enabled = true; has_redis = true; rate_limit_per_minute = 2 }

abbrev unseen : Counters
unseen ip minute = 0

-- three requests in the first minute, one in the second, and one from elsewhere
abbrev burst : List (Text × ℕ)
burst = (codes "a", 1) ∷ (codes "a", 2) ∷ (codes "b", 3) ∷ (codes "a", 59) ∷ (codes "a", 60) ∷ []

granted-le_example : granted two_a_minute (codes "a") 0 burst unseen ≤ 2 - 0
granted-le_example = granted-le two_a_minute (codes "a") 0 burst unseen refl refl

abbrev no_address : Text → Bool
no_address t = false

target_parses :
    parse_authority no_address (codes "Example.org:443") 443 ≡ some (codes "example.org", 443)
unfolding parse_authority valid_host hostname_matches split_authority py_int
target_parses = refl

parse_authority_sound_example :
    (name : Text) × (codes "example.org" ≡ lower name)
    × (valid_host no_address name ≡ true)
    × (1 ≤ length name)
    × (length name ≤ 253)
    × (0 < 443)
    × (443 < 65536)
parse_authority_sound_example =
    parse_authority_sound no_address (codes "Example.org:443") 443 (codes "example.org") 443
      target_parses

abbrev to_example : RequestHead
to_example = record {
  method = codes "CONNECT";
  target = codes "Example.org:443";
  version = codes "HTTP/1.1";
  headers = record { items = [] };
}

abbrev always : Text → ℕ → Decision
always host port = record {
  action = intercept;
  capture_bodies = false;
  capture_max_bytes = 0;
  redact = true;
  rule_id = none;
  rule_name = none;
}

abbrev all_up : Text → ℕ → Bool
all_up host port = true

abbrev before_slash : Text → Text
before_slash [] = []
before_slash (c ∷ t) = if c == b'/' then [] else c ∷ before_slash t

abbrev netloc : Text → Option Text
netloc t = some (if starts_with (codes "http://") t then before_slash (drop 7 t) else [])

-- a plain request, and then a tunnel, from the same client
abbrev two_heads : Reader
two_heads = record {
  rest = codes "GET /a HTTP/1.1\r\nHost: Example.org\r\n\r\nCONNECT a:1 HTTP/1.1\r\n\r\n";
  sizes = [];
}

on_client-Permitted_example :
    Permitted always (opens (on_client no_address netloc always all_up true true false two_heads))
on_client-Permitted_example =
    on_client-Permitted no_address netloc always all_up true true false two_heads

abbrev plain_get : RequestHead
plain_get = record {
  method = codes "GET";
  target = codes "/a";
  version = codes "HTTP/1.1";
  headers = record { items = (codes "Host", codes "Example.org:8080") ∷ [] };
}

plain_get-target : plain_target no_address netloc plain_get ≡ some (codes "example.org", 8080)
unfolding plain_target get parse_authority valid_host hostname_matches split_authority py_int
plain_get-target = refl

handle_plain_http-Obeys_example :
    PlainObeys no_address netloc always all_up
      (codes "example.org")
      8080
      (handle_plain_http no_address netloc always all_up plain_get)
handle_plain_http-Obeys_example =
    handle_plain_http-Obeys no_address netloc always all_up plain_get (codes "example.org") 8080
      plain_get-target
