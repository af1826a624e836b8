-- ===== src/Redaction/Bodies.antt =====
-- `redact_headers` and `redact_body`: what they mark, and what they leave as it is.
use decrypt0r_x.Prelude.{
  ℕ, ◌≡◌, refl, ap, sym, ◌∙◌, Bool, true, false, not, ◌||◌, List, [], ◌∷◌, Option, none, some,
  arith, if◌then◌else◌, Bool-cases, inl, inr, ◌==◌,
}
use decrypt0r_x.Text.{Text, codes, lower, contains}
use decrypt0r_x.Redaction.{
  redacted, is_sensitive, is_sensitive_header, redact_pairs, redact_headers, Json, walk_json,
  Codecs, or_empty, redact_tokens, json_parsed, form_parsed, json_pass, form_pass, or_else,
  redact_body,
}
use decrypt0r_x.Redaction.Walk.{
  IsClean, has_secret, walk_json-IsClean, walk_json-flag, walk_json_idem,
}

module _ (sensitive : Text → Bool) where
  -- the value of a pair after redaction
  abbrev pub marked : Text × Text → Text × Text
  marked (key, value) = if sensitive key then (key, redacted) else (key, value)

  abbrev pub all_marked : List (Text × Text) → List (Text × Text)
  all_marked [] = []
  all_marked (pair ∷ pairs) = marked pair ∷ all_marked pairs

  abbrev pub any_sensitive : List (Text × Text) → Bool
  any_sensitive [] = false
  any_sensitive ((key, value) ∷ pairs) = sensitive key || any_sensitive pairs

  pub redact_pairs-eq :
      (pairs : List (Text × Text))
      → redact_pairs sensitive pairs ≡ (all_marked pairs, any_sensitive pairs)
  redact_pairs-eq [] = refl
  redact_pairs-eq ((key, value) ∷ pairs) = elim (Bool-cases (sensitive key)) [
    | inl secret ↦ rw (secret, redact_pairs-eq pairs)
    | inr open_ ↦ rw (open_, redact_pairs-eq pairs)
  ]

-- Each header keeps its name and its place, has the mark for its value if its name in lower case is one of
-- the sensitive headers and its own value otherwise, and the flag tells whether there was such a name.
pub redact_headers-eq :
    (headers : List (Text × Text))
    → redact_headers headers
      ≡ (all_marked is_sensitive_header headers, any_sensitive is_sensitive_header headers)
unfolding redact_headers
redact_headers-eq headers = redact_pairs-eq is_sensitive_header headers

module _ (lib : Codecs) where
  open lib use {loads, dumps, parse_qsl, urlencode, scrub_tokens}

  -- A body that is not empty, has a type that mentions JSON, and parses as JSON with a sensitive key at
  -- some depth, is replaced by the print of a clean value, in which every value under a sensitive key is
  -- the mark, and is reported as changed.
  pub redact_body-IsClean :
      (c : ℕ) (body ctype : Text) (node : Json)
      → contains (codes "json") (lower ctype) ≡ true
      → loads (c ∷ body) ≡ some node
      → has_secret node ≡ true
      → (redact_body lib (c ∷ body) (some ctype) ≡ (dumps (walk_json node).0, true))
        × IsClean (walk_json node).0
  unfolding redact_body
  redact_body-IsClean c body ctype node typed parsed secret =
      let flag : (walk_json node).1 ≡ true = walk_json-flag node ∙ secret in
      (rw (typed, parsed, flag), walk_json-IsClean node)

  json_unchanged : (o : Option Json) (u : Text) → json_parsed lib o ≡ some (u, false) → ⊥
  json_unchanged none u h = cc
  json_unchanged (some node) u h = elim (Bool-cases (walk_json node).1) [
    | inl changed ↦ cc (rw changed at h)
    | inr same ↦ cc (rw same at h)
  ]

  form_unchanged :
      (o : Option (List (Text × Text))) (u : Text) → form_parsed lib o ≡ some (u, false) → ⊥
  form_unchanged none u h = cc
  form_unchanged (some pairs) u h = elim (Bool-cases (redact_pairs is_sensitive pairs).1) [
    | inl changed ↦ cc (rw changed at h)
    | inr same ↦ cc (rw same at h)
  ]

  pass_unchanged :
      (b : Bool) (o : Option (Text × Bool)) (u : Text)
      → (o ≡ some (u, false) → ⊥)
      → (if b then o else none) ≡ some (u, false)
      → ⊥
  pass_unchanged true o u never h = never h
  pass_unchanged false o u never h = cc

  or_else_unchanged :
      (o : Option (Text × Bool)) (later : Text × Bool) (u : Text)
      → (o ≡ some (u, false) → ⊥)
      → or_else lib o later ≡ (u, false)
      → later ≡ (u, false)
  or_else_unchanged none later u never h = h
  or_else_unchanged (some r) later u never h = absurd (never (ap some h))

  -- A body that is reported as unchanged is the body that was given, where the pattern for tokens counts no
  -- substitution only if there was none.
  pub redact_body-unchanged :
      ((t u : Text) → scrub_tokens t ≡ (u, 0) → u ≡ t)
      → (body u : Text) (content_type : Option Text)
      → redact_body lib body content_type ≡ (u, false)
      → u ≡ body
  unfolding redact_body redact_tokens
  redact_body-unchanged counts [] u content_type h = sym (ap (λ p. p.0) h)
  redact_body-unchanged counts (c ∷ body) u content_type h =
      let ctype = lower (or_empty content_type) in
      let after_json =
        or_else_unchanged (json_pass lib ctype (c ∷ body)) _ u
          (pass_unchanged _ (json_parsed lib (loads (c ∷ body))) u
            (json_unchanged (loads (c ∷ body)) u))
          h in
      let after_form =
        or_else_unchanged (form_pass lib ctype (c ∷ body)) _ u
          (pass_unchanged _ (form_parsed lib (parse_qsl (c ∷ body))) u
            (form_unchanged (parse_qsl (c ∷ body)) u))
          after_json in
      counts (c ∷ body) u
        (last (scrub_tokens (c ∷ body)) (ap (λ p. p.0) after_form) (ap (λ p. p.1) after_form))
    where
      last : (p : Text × ℕ) → p.0 ≡ u → not (p.1 == 0) ≡ false → p ≡ (u, 0)
      last (scrubbed, n) e k = ground arith

-- A walk leaves a value in which every value under a sensitive key is the mark, reports whether
-- some key was sensitive at any depth, and a second walk leaves the same value.
pub walk_json-laws :
    (node : Json)
    → IsClean (walk_json node).0
      × ((walk_json node).1 ≡ has_secret node)
      × ((walk_json (walk_json node).0).0 ≡ (walk_json node).0)
walk_json-laws node = (walk_json-IsClean node, walk_json-flag node, walk_json_idem node)
