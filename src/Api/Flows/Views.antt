-- ===== src/Api/Flows/Views.antt =====
-- The flows as services/api/app/schemas.py shows them.
use decrypt0r_x.Prelude.{ℕ, Bool, true, false, List, [], ◌∷◌, Option, none, some, if◌then◌else◌}
use decrypt0r_x.Prelude.Int.{ℤ}
use decrypt0r_x.Text.{Text, text_eq}
use decrypt0r_x.Models.{PolicyAction}
use decrypt0r_x.Recorder.Flows.{Flow}

pub record FlowSummary : Type 0 where
  pub id : Text
  pub started_at : ℕ
  pub duration_ms : Option ℤ
  pub client_ip : Text
  pub host : Text
  pub port : ℕ
  pub scheme : Text
  pub method : Option Text
  pub path : Option Text
  pub status_code : Option ℤ
  pub request_size : ℕ
  pub response_size : ℕ
  pub action : PolicyAction
  pub intercepted : Bool
  pub rule_name : Option Text
  pub error : Option Text

-- `FlowSummary.model_validate(row)`
unfoldable pub summary : Flow → FlowSummary
summary row = record {
  id = row.facts.id;
  started_at = row.facts.started_at;
  duration_ms = row.duration_ms;
  client_ip = row.facts.client_ip;
  host = row.facts.host;
  port = row.facts.port;
  scheme = row.facts.scheme;
  method = row.facts.method;
  path = row.facts.path;
  status_code = row.facts.status_code;
  request_size = row.facts.request_size;
  response_size = row.facts.response_size;
  action = row.facts.action;
  intercepted = row.facts.intercepted;
  rule_name = row.facts.rule_name;
  error = row.facts.error;
}

-- the fields beside those of the summary
pub record FlowDetail : Type 0 where
  pub summary_fields : FlowSummary
  pub connection_id : Text
  pub ended_at : Option ℕ
  pub client_port : ℕ
  pub sni : Option Text
  pub upstream_ip : Option Text
  pub http_version : Option Text
  pub request_headers : Option (List (Text × Text))
  pub response_headers : Option (List (Text × Text))
  pub request_content_type : Option Text
  pub response_content_type : Option Text
  pub has_request_body : Bool
  pub has_response_body : Bool
  pub bodies_truncated : Bool
  pub redacted : Bool
  pub tls_version : Option Text
  pub tls_cipher : Option Text
  pub alpn : Option Text
  pub proxy_node : Text

-- `ref is not None`
abbrev is_stored : Option Text → Bool
is_stored none = false
is_stored (some key) = true

-- `FlowDetail.model_validate(row)`, with the two flags that `get_flow` sets
unfoldable pub detail : Flow → FlowDetail
unfolding summary
detail row = record {
  summary_fields = summary row;
  connection_id = row.facts.connection_id;
  ended_at = row.facts.ended_at;
  client_port = row.facts.client_port;
  sni = row.facts.sni;
  upstream_ip = row.facts.upstream_ip;
  http_version = row.facts.http_version;
  request_headers = row.facts.request_headers;
  response_headers = row.facts.response_headers;
  request_content_type = row.facts.request_content_type;
  response_content_type = row.facts.response_content_type;
  has_request_body = is_stored row.request_body_ref;
  has_response_body = is_stored row.response_body_ref;
  bodies_truncated = row.facts.bodies_truncated;
  redacted = row.redacted;
  tls_version = row.facts.tls_version;
  tls_cipher = row.facts.tls_cipher;
  alpn = row.facts.alpn;
  proxy_node = row.proxy_node;
}

-- the session's `get` by the primary key
abbrev pub find_flow : Text → List Flow → Option Flow
find_flow id [] = none
find_flow id (row ∷ rows) = if text_eq row.facts.id id then some row else find_flow id rows
