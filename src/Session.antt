-- ===== src/Session.antt =====
-- services/proxy/decrypt0rx_proxy/proxy.py: `_serve_http`, the loop over the exchanges of a pair of connections.
-- It runs on fuel: a round takes the head of a request, at least one byte, from the client, but for a
-- first round whose head was read before; so two more than the bytes that are left are enough, for streams
-- that end (Http1/Stream).
pub mod Rounds
pub mod Flows
pub mod Losses
use decrypt0r_x.Prelude.{
  ℕ, zero, suc, ◌+◌, Bool, true, false, List, [], ◌∷◌, ◌++◌, Option, none, some, if◌then◌else◌,
  length,
}
use decrypt0r_x.Text.{Text, codes, text_eq}
use decrypt0r_x.Models.{PolicyAction}
use decrypt0r_x.Policy.{Decision}
use decrypt0r_x.Result.{
  Result, ok, err, Error, protocol_error, value_error, connection_reset, incomplete_read, timed_out,
  out_of_fuel,
}
use decrypt0r_x.Recorder.Flows.{FlowRecord, FlowFacts}
use decrypt0r_x.Http1.Stream.{Reader}
use decrypt0r_x.Http1.Heads.{RequestHead, read_request_head}
use decrypt0r_x.Exchange.Links.{Library, Link, expires, later_waits}
use decrypt0r_x.Exchange.{exchange}
use decrypt0r_x.Exchange.Fallible.{Stage, fails, passes}

-- the arguments of `_serve_http` that do not change
pub record Settings : Type 0 where
  pub connection_id : Text
  pub client_ip : Text
  pub client_port : ℕ
  pub host : Text
  pub port : ℕ
  pub scheme : Text
  pub sni : Option Text
  pub tls_version : Option Text
  pub cipher : Option Text
  pub upstream_ip : Option Text

-- what a record gets from the generator of identifiers and from the clock
pub record Stamp : Type 0 where
  pub id : Text
  pub started_at : ℕ
  pub ended_at : ℕ

-- the flows that the loop has submitted, how often it has counted one in `total_flows`, and whether it
-- returns or raises
pub record Served : Type 0 where
  pub flows : List FlowRecord
  pub completed : ℕ
  pub ending : Result (Unit {0})

abbrev pub stopped : Result (Unit {0}) → Served
stopped ending = record { flows = []; completed = 0; ending = ending }

-- `record.finish()`
abbrev pub finish : Stamp → FlowRecord → FlowRecord
finish stamp flow = record flow { facts = record flow.facts { ended_at = some stamp.ended_at } }

abbrev pub with_error : Text → FlowRecord → FlowRecord
with_error text flow = record flow { facts = record flow.facts { error = some text } }

-- a round that has submitted a flow, and the rounds after it
abbrev pub served : FlowRecord → Served → Served
served flow later = record later { flows = flow ∷ later.flows; completed = later.completed + 1 }

abbrev pub failed : FlowRecord → Served
failed flow = record { flows = flow ∷ []; completed = 0; ending = ok tt }

abbrev pub is_https : Text → Bool
is_https scheme = text_eq scheme (codes "https")

-- `FlowRecord(…)`
abbrev pub new_record : Settings → Decision → Stamp → FlowRecord
new_record s decision stamp = record {
  facts = record {
    connection_id = s.connection_id;
    client_ip = s.client_ip;
    client_port = s.client_port;
    host = s.host;
    port = s.port;
    action = decision.action;
    id = stamp.id;
    started_at = stamp.started_at;
    ended_at = none;
    scheme = s.scheme;
    sni = s.sni;
    upstream_ip = s.upstream_ip;
    intercepted = is_https s.scheme;
    method = none;
    path = none;
    http_version = none;
    status_code = none;
    request_headers = none;
    response_headers = none;
    request_content_type = none;
    response_content_type = none;
    request_size = 0;
    response_size = 0;
    bodies_truncated = false;
    rule_id = decision.rule_id;
    rule_name = decision.rule_name;
    tls_version = s.tls_version;
    tls_cipher = s.cipher;
    alpn = if is_https s.scheme then some (codes "http/1.1") else none;
    error = none;
  };
  request_body = none;
  response_body = none;
  redacted = false;
}

abbrev pub with_client : Link → Option RequestHead × Reader → Option RequestHead × Link
with_client link (head, reader) =
    (head, record link { client = reader; waits = later_waits link.waits })

abbrev pub read_next :
    Link → Result (Option RequestHead × Reader) → Result (Option RequestHead × Link)
read_next link (err raised) = err raised
read_next link (ok got) = ok (with_client link got)

-- the request of a round: the one that was read before, or the next on the connection of the client; the
-- end of the connection and a wait that expires are both the end of the loop
unfoldable pub next_request : Option RequestHead → Link → Result (Option RequestHead × Link)
next_request (some head) link = ok (some head, link)
next_request none link =
    if expires link.waits then ok (none, link) else read_next link (read_request_head link.client)

module _ (lib : Library) (settings : Settings) (decision : Decision) (stamps : ℕ → Stamp) where
  open lib use {describe}

  -- what the handlers of exceptions make of one: those that they do not catch leave no flow
  abbrev pub on_failure : Stamp → Error → FlowRecord → Served
  on_failure stamp protocol_error flow =
      failed (finish stamp (with_error (describe protocol_error) flow))
  on_failure stamp connection_reset flow =
      failed
        (finish stamp (with_error (codes "connection closed: " ++ describe connection_reset) flow))
  on_failure stamp incomplete_read flow =
      failed
        (finish stamp (with_error (codes "connection closed: " ++ describe incomplete_read) flow))
  on_failure stamp value_error flow = stopped (err value_error)
  on_failure stamp timed_out flow = stopped (err timed_out)
  on_failure stamp out_of_fuel flow = stopped (err out_of_fuel)

  -- after an exchange; `next` is what the loop does if it goes on
  abbrev pub on_exchange : Stamp → (Link → Served) → Stage (Bool × FlowRecord × Link) → Served
  on_exchange stamp next (fails raised flow) = on_failure stamp raised flow
  on_exchange stamp next (passes (true, flow, link)) = served (finish stamp flow) (next link)
  on_exchange stamp next (passes (false, flow, link)) = served (finish stamp flow) (stopped (ok tt))

  abbrev pub on_request : Stamp → (Link → Served) → Result (Option RequestHead × Link) → Served
  on_request stamp next (err raised) = stopped (err raised)
  on_request stamp next (ok (none, link)) = stopped (ok tt)
  on_request stamp next (ok (some request, link)) =
      on_exchange stamp next
        (exchange lib request decision (new_record settings decision stamp) link)

  -- the loop, from its round number `k` on
  pub rounds : ℕ → ℕ → Option RequestHead → Link → Served
  rounds zero k pending link = stopped (err out_of_fuel)
  rounds (suc fuel) k pending link =
      on_request (stamps k) (λ link'. rounds fuel (suc k) none link') (next_request pending link)

  -- `_serve_http(…, first_request=pending)`
  unfoldable pub serve_http : Option RequestHead → Link → Served
  unfolding rounds next_request
  serve_http pending link = rounds (suc (suc (length link.client.rest))) 0 pending link
