-- ===== src/Redaction.antt =====
-- packages/core/decrypt0rx_core/redaction.py: credentials are scrubbed out of headers, JSON and forms. The
-- two regular expressions and the codecs of JSON and forms are the interface `Codecs`. Names are texts
-- of Latin-1 characters, as `lower` is that of such texts.
pub mod Walk
pub mod Bodies
pub mod Url
use decrypt0r_x.Prelude.{
  ℕ, Bool, true, false, not, ◌||◌, List, [], ◌∷◌, Option, none, some, if◌then◌else◌, any, ◌==◌,
}
use decrypt0r_x.Text.{Text, codes, lower, member, contains}

abbrev pub redacted : Text
redacted = codes "***REDACTED***"

abbrev pub sensitive_headers : List Text
sensitive_headers =
    codes "authorization"
    ∷ codes "proxy-authorization"
    ∷ codes "cookie"
    ∷ codes "set-cookie"
    ∷ codes "x-api-key"
    ∷ codes "x-auth-token"
    ∷ codes "x-amz-security-token"
    ∷ codes "x-csrf-token"
    ∷ codes "x-xsrf-token"
    ∷ codes "api-key"
    ∷ codes "authentication"
    ∷ []

abbrev pub sensitive_fields : List Text
sensitive_fields =
    codes "password"
    ∷ codes "passwd"
    ∷ codes "pwd"
    ∷ codes "secret"
    ∷ codes "token"
    ∷ codes "access_token"
    ∷ codes "refresh_token"
    ∷ codes "id_token"
    ∷ codes "client_secret"
    ∷ codes "api_key"
    ∷ codes "apikey"
    ∷ codes "private_key"
    ∷ codes "authorization"
    ∷ codes "session"
    ∷ codes "otp"
    ∷ codes "pin"
    ∷ codes "credit_card"
    ∷ codes "card_number"
    ∷ codes "cvv"
    ∷ codes "ssn"
    ∷ []

abbrev pub markers : List Text
markers = codes "password" ∷ codes "secret" ∷ codes "token" ∷ codes "api_key" ∷ []

-- `_is_sensitive`
unfoldable pub is_sensitive : Text → Bool
is_sensitive name =
    let lowered = lower name in
    member lowered sensitive_fields || any (λ marker. contains marker lowered) markers

unfoldable pub is_sensitive_header : Text → Bool
is_sensitive_header name = member (lower name) sensitive_headers

-- the loop that headers and form fields share, by the test on the name
abbrev pub redact_pairs : (Text → Bool) → List (Text × Text) → List (Text × Text) × Bool
redact_pairs sensitive [] = ([], false)
redact_pairs sensitive ((key, value) ∷ pairs) =
    let (out, touched) = redact_pairs sensitive pairs in
    if sensitive key then ((key, redacted) ∷ out, true) else ((key, value) ∷ out, touched)

-- over the items of a dictionary, whose keys are distinct
unfoldable pub redact_headers : List (Text × Text) → List (Text × Text) × Bool
redact_headers headers = redact_pairs is_sensitive_header headers

-- what `json.loads` returns: strings, numbers, Booleans and null are leaves
mutual
  pub data Json : Type 0 where
    leaf : Text → Json
    array : Items → Json
    object : Fields → Json

  pub data Items : Type 0 where
    no_items : Items
    item : Json → Items → Items

  pub data Fields : Type 0 where
    no_fields : Fields
    field : Text → Json → Fields → Fields

-- `_walk_json`, on a node, on the items of a list and on those of a dictionary
unfoldable mutual
  pub walk_json : Json → Json × Bool
  walk_json (leaf t) = (leaf t, false)
  walk_json (array items) = let (out, changed) = walk_items items in (array out, changed)
  walk_json (object fields) = let (out, changed) = walk_fields fields in (object out, changed)

  pub walk_items : Items → Items × Bool
  walk_items no_items = (no_items, false)
  walk_items (item node items) =
      let (sub, sub_changed) = walk_json node in
      let (out, changed) = walk_items items in (item sub out, sub_changed || changed)

  pub walk_fields : Fields → Fields × Bool
  walk_fields no_fields = (no_fields, false)
  walk_fields (field key value fields) =
      let (sub, sub_changed) = walk_json value in
      let (out, changed) = walk_fields fields in
      if is_sensitive key
      then (field key (leaf redacted) out, true)
      else (field key sub out, sub_changed || changed)

pub record Codecs : Type 0 where
  -- `json.loads(body)`; `none` is its exception
  pub loads : Text → Option Json
  -- `json.dumps(node).encode()`
  pub dumps : Json → Text
  -- `parse_qsl(body.decode(), keep_blank_values=True)`
  pub parse_qsl : Text → Option (List (Text × Text))
  -- `urlencode(pairs).encode()`
  pub urlencode : List (Text × Text) → Text
  -- `_JWT_RE.subn(REDACTED, body)`
  pub scrub_tokens : Text → Text × ℕ

abbrev pub or_empty : Option Text → Text
or_empty none = []
or_empty (some t) = t

module _ (lib : Codecs) where
  open lib use {loads, dumps, parse_qsl, urlencode, scrub_tokens}

  -- the last pass, over any body
  unfoldable pub redact_tokens : Text → Text × Bool
  redact_tokens body = let (scrubbed, count) = scrub_tokens body in (scrubbed, not (count == 0))

  -- a pass that returns: `none` where it falls through to the next
  abbrev pub if_changed {ℓ} : {A : Type ℓ} → (A → Text) → A × Bool → Option (Text × Bool)
  if_changed print (cleaned, changed) = if changed then some (print cleaned, true) else none

  abbrev pub json_parsed : Option Json → Option (Text × Bool)
  json_parsed none = none
  json_parsed (some node) = if_changed dumps (walk_json node)

  abbrev pub form_parsed : Option (List (Text × Text)) → Option (Text × Bool)
  form_parsed none = none
  form_parsed (some pairs) = if_changed urlencode (redact_pairs is_sensitive pairs)

  abbrev pub json_pass : Text → Text → Option (Text × Bool)
  json_pass ctype body = if contains (codes "json") ctype then json_parsed (loads body) else none

  abbrev pub form_pass : Text → Text → Option (Text × Bool)
  form_pass ctype body =
      if contains (codes "x-www-form-urlencoded") ctype then form_parsed (parse_qsl body) else none

  -- the first pass that returns
  abbrev pub or_else : Option (Text × Bool) → Text × Bool → Text × Bool
  or_else none later = later
  or_else (some r) later = r

  -- `redact_body(body, content_type)`
  unfoldable pub redact_body : Text → Option Text → Text × Bool
  unfolding redact_tokens
  redact_body [] content_type = ([], false)
  redact_body (c ∷ body) content_type =
      let ctype = lower (or_empty content_type) in
      or_else (json_pass ctype (c ∷ body))
        (or_else (form_pass ctype (c ∷ body)) (redact_tokens (c ∷ body)))
