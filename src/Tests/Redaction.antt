-- ===== src/Tests/Redaction.antt =====
-- Headers and bodies on which the theorems on redaction.py are tried.
use decrypt0r_x.Prelude.{◌≡◌, refl, true, false, [], none, some}
use decrypt0r_x.Text.{codes}
use decrypt0r_x.Redaction.{
  is_sensitive, Json, leaf, object, field, no_fields, walk_json, Codecs, redact_body, redact_tokens,
}
use decrypt0r_x.Redaction.Walk.{IsClean, has_secret}
use decrypt0r_x.Redaction.Bodies.{redact_body-IsClean}

abbrev login : Json
login = object (
    field (codes "user") (leaf (codes "ann"))
      (field (codes "Password") (leaf (codes "pw")) no_fields))

-- every body is the login, and no body has a token
abbrev fixed : Codecs
fixed = record {
  loads = λ body. some login;
  dumps = λ node. codes "{}";
  parse_qsl = λ body. none;
  urlencode = λ pairs. [];
  scrub_tokens = λ body. (body, 0);
}

login-has_secret : has_secret login ≡ true
unfolding has_secret is_sensitive
login-has_secret = refl

redact_body-IsClean_example :
    (redact_body fixed (codes "{...}") (some (codes "application/JSON")) ≡ (codes "{}", true))
    × IsClean (walk_json login).0
redact_body-IsClean_example =
    redact_body-IsClean fixed b'{' (codes "...}") (codes "application/JSON") login refl refl
      login-has_secret

text_unchanged :
    redact_body fixed (codes "hello") (some (codes "text/plain")) ≡ (codes "hello", false)
unfolding redact_body redact_tokens
text_unchanged = refl
