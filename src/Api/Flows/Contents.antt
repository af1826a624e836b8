-- ===== src/Api/Flows/Contents.antt =====
-- `get_body` and `raw_dump` of services/api/app/routers/flows.py. The codecs of Python's standard library are the
-- interface `Encodings`, and `fetch` is the `get` of the body store, where `none` is its exception.
use decrypt0r_x.Prelude.{
  ℕ, Bool, List, [], ◌∷◌, ◌++◌, Option, none, some, if◌then◌else◌, length, any, ◌==◌, ◌||◌,
}
use decrypt0r_x.Prelude.Int.{ℤ, pos, negsuc}
use decrypt0r_x.Text.{Text, codes, text_eq, lower, contains}
use decrypt0r_x.Text.Number.Decimal.{decimal, str_int}
use decrypt0r_x.Models.{PolicyAction, intercept, bypass, block}
use decrypt0r_x.Recorder.Flows.{Flow}
use decrypt0r_x.Api.Flows.Views.{find_flow}
use decrypt0r_x.Api.Reply.{Reply, reply, http_error}

pub record Encodings : Type 0 where
  -- `data.decode("utf-8")`; `none` is a `UnicodeDecodeError`
  pub utf8 : Text → Option Text
  -- `data.decode("utf-8", "replace")`
  pub utf8_replace : Text → Text
  -- `base64.b64encode(data).decode()`
  pub base64 : Text → Text

pub record BodyResponse : Type 0 where
  pub flow_id : Text
  pub direction : Text
  pub content_type : Option Text
  pub size : ℕ
  pub truncated : Bool
  pub encoding : Text
  pub content : Text

abbrev pub textual_hints : List Text
textual_hints =
    codes "text/"
    ∷ codes "json"
    ∷ codes "xml"
    ∷ codes "javascript"
    ∷ codes "x-www-form-urlencoded"
    ∷ codes "html"
    ∷ []

abbrev pub or_empty : Option Text → Text
or_empty none = []
or_empty (some t) = t

-- `x or default`
abbrev pub or_default : Option Text → Text → Text
or_default none default = default
or_default (some []) default = default
or_default (some (c ∷ t)) default = c ∷ t

unfoldable pub is_textual : Option Text → Bool
is_textual content_type = any (λ hint. contains hint (lower (or_empty content_type))) textual_hints

abbrev pub is_request : Text → Bool
is_request direction = text_eq direction (codes "request")

abbrev pub ref_of : Text → Flow → Option Text
ref_of direction row = if is_request direction then row.request_body_ref else row.response_body_ref

abbrev pub type_of : Text → Flow → Option Text
type_of direction row =
    if is_request direction then row.facts.request_content_type else row.facts.response_content_type

-- the bearing of an action in a rendered line
abbrev pub action_value : PolicyAction → Text
action_value intercept = codes "intercept"
action_value bypass = codes "bypass"
action_value block = codes "block"

-- `status or ''`
abbrev status_text : Option ℤ → Text
status_text none = []
status_text (some (negsuc n)) = str_int (negsuc n)
status_text (some (pos n)) = if n == 0 then [] else str_int (pos n)

abbrev header_lines : Option (List (Text × Text)) → List Text
header_lines none = []
header_lines (some []) = []
header_lines (some ((key, value) ∷ headers)) =
    (key ++ codes ": " ++ value) ∷ header_lines (some headers)

-- `"\n".join(lines)`
abbrev pub join_lines : List Text → Text
join_lines [] = []
join_lines (line ∷ []) = line
join_lines (line ∷ next ∷ lines) = line ++ 10 ∷ join_lines (next ∷ lines)

module _ (enc : Encodings) (fetch : Text → Option Text) where
  open enc use {utf8, utf8_replace, base64}

  abbrev pub response : Flow → Text → Text → Text → Text → BodyResponse
  response row direction content_bytes encoding content = record {
    flow_id = row.facts.id;
    direction = direction;
    content_type = type_of direction row;
    size = length content_bytes;
    truncated = row.facts.bodies_truncated;
    encoding = encoding;
    content = content;
  }

  -- as text, if it decodes
  abbrev pub as_text : Flow → Text → Text → Option Text → BodyResponse
  as_text row direction bytes none = response row direction bytes (codes "base64") (base64 bytes)
  as_text row direction bytes (some text) = response row direction bytes (codes "utf-8") text

  abbrev pub rendered : Flow → Text → Text → BodyResponse
  rendered row direction bytes =
      if is_textual (type_of direction row)
      then as_text row direction bytes (utf8 bytes)
      else response row direction bytes (codes "base64") (base64 bytes)

  abbrev pub with_bytes : Flow → Text → Option Text → Reply BodyResponse
  with_bytes row direction none = http_error 502
  with_bytes row direction (some bytes) = reply (rendered row direction bytes)

  abbrev pub with_ref : Flow → Text → Option Text → Reply BodyResponse
  with_ref row direction none = http_error 404
  with_ref row direction (some key) = with_bytes row direction (fetch key)

  abbrev pub with_row : Text → Option Flow → Reply BodyResponse
  with_row direction none = http_error 404
  with_row direction (some row) = with_ref row direction (ref_of direction row)

  abbrev pub is_direction : Text → Bool
  is_direction direction = is_request direction || text_eq direction (codes "response")

  -- `get_body`
  unfoldable pub get_body : Text → Text → List Flow → Reply BodyResponse
  unfolding is_textual
  get_body flow_id direction rows =
      if is_direction direction then with_row direction (find_flow flow_id rows) else http_error 400

  abbrev fetched_text : Option Text → Text
  fetched_text none = codes "<body unavailable>"
  fetched_text (some bytes) = utf8_replace bytes

  -- `body_text`
  abbrev body_text : Option Text → Text
  body_text none = codes "<no body captured>"
  body_text (some []) = codes "<no body captured>"
  body_text (some (c ∷ key)) = fetched_text (fetch (c ∷ key))

  abbrev dump_lines : Flow → List Text
  dump_lines row =
      (codes "# "
          ++ or_default row.facts.method (codes "CONNECT")
          ++ codes " "
          ++ row.facts.scheme
          ++ codes "://"
          ++ row.facts.host
          ++ codes ":"
          ++ decimal row.facts.port
          ++ or_empty row.facts.path)
        ∷ (codes "# client "
            ++ row.facts.client_ip
            ++ codes ":"
            ++ decimal row.facts.client_port
            ++ codes " -> upstream "
            ++ or_default row.facts.upstream_ip (codes "?"))
        ∷ (codes "# "
            ++ or_default row.facts.tls_version (codes "no TLS")
            ++ codes " "
            ++ or_empty row.facts.tls_cipher
            ++ codes " action="
            ++ action_value row.facts.action)
        ∷ []
        ∷ (or_default row.facts.method (codes "CONNECT")
            ++ codes " "
            ++ or_empty row.facts.path
            ++ codes " "
            ++ or_default row.facts.http_version (codes "HTTP/1.1"))
        ∷ header_lines row.facts.request_headers
      ++ []
        ∷ body_text row.request_body_ref
        ∷ []
        ∷ codes "------------------------------------------------------------------------"
        ∷ []
        ∷ (or_default row.facts.http_version (codes "HTTP/1.1")
            ++ codes " "
            ++ status_text row.facts.status_code)
        ∷ header_lines row.facts.response_headers
      ++ [] ∷ body_text row.response_body_ref ∷ []

  abbrev dump_of : Option Flow → Reply Text
  dump_of none = http_error 404
  dump_of (some row) = reply (join_lines (dump_lines row))

  -- `raw_dump`
  unfoldable pub raw_dump : Text → List Flow → Reply Text
  unfolding decimal str_int
  raw_dump flow_id rows = dump_of (find_flow flow_id rows)
