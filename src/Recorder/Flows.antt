-- ===== src/Recorder/Flows.antt =====
-- services/proxy/decrypt0rx_proxy/recorder.py and packages/core/decrypt0rx_core/models.py: a flow as the proxy
-- sees it, as a row, and as the live view gets it. The fields that all three copy are `FlowFacts`; times
-- are microseconds, and identifiers are texts.
use decrypt0r_x.Prelude.{ℕ, Bool, List, Option}
use decrypt0r_x.Text.{Text}
use decrypt0r_x.Prelude.Int.{ℤ}
use decrypt0r_x.Models.{PolicyAction}

pub record FlowFacts : Type 0 where
  pub connection_id : Text
  pub client_ip : Text
  pub client_port : ℕ
  pub host : Text
  pub port : ℕ
  pub action : PolicyAction
  pub id : Text
  pub started_at : ℕ
  pub ended_at : Option ℕ
  pub scheme : Text
  pub sni : Option Text
  pub upstream_ip : Option Text
  pub intercepted : Bool
  pub method : Option Text
  pub path : Option Text
  pub http_version : Option Text
  pub status_code : Option ℤ
  pub request_headers : Option (List (Text × Text))
  pub response_headers : Option (List (Text × Text))
  pub request_content_type : Option Text
  pub response_content_type : Option Text
  pub request_size : ℕ
  pub response_size : ℕ
  pub bodies_truncated : Bool
  pub rule_id : Option ℕ
  pub rule_name : Option Text
  pub tls_version : Option Text
  pub tls_cipher : Option Text
  pub alpn : Option Text
  pub error : Option Text

pub record FlowRecord : Type 0 where
  pub facts : FlowFacts
  pub request_body : Option Text
  pub response_body : Option Text
  pub redacted : Bool

-- the row of the table `flows`
pub record Flow : Type 0 where
  pub facts : FlowFacts
  pub duration_ms : Option ℤ
  pub request_body_ref : Option Text
  pub response_body_ref : Option Text
  pub redacted : Bool
  pub proxy_node : Text

-- the message that the live view gets
pub record LivePayload : Type 0 where
  pub id : Text
  pub started_at : ℕ
  pub duration_ms : Option ℤ
  pub client_ip : Text
  pub host : Text
  pub port : ℕ
  pub scheme : Text
  pub method : Option Text
  pub path : Option Text
  pub status_code : Option ℤ
  pub action : PolicyAction
  pub intercepted : Bool
  pub request_size : ℕ
  pub response_size : ℕ
  pub rule_name : Option Text
  pub error : Option Text
  pub connection_id : Text

-- `_live_payload`, with the duration that floating-point arithmetic makes of the two times
unfoldable pub live_payload : (FlowRecord → Option ℤ) → FlowRecord → LivePayload
live_payload duration flow = record {
  id = flow.facts.id;
  started_at = flow.facts.started_at;
  duration_ms = duration flow;
  client_ip = flow.facts.client_ip;
  host = flow.facts.host;
  port = flow.facts.port;
  scheme = flow.facts.scheme;
  method = flow.facts.method;
  path = flow.facts.path;
  status_code = flow.facts.status_code;
  action = flow.facts.action;
  intercepted = flow.facts.intercepted;
  request_size = flow.facts.request_size;
  response_size = flow.facts.response_size;
  rule_name = flow.facts.rule_name;
  error = flow.facts.error;
  connection_id = flow.facts.connection_id;
}
