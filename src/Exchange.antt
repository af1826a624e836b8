-- ===== src/Exchange.antt =====
-- services/proxy/decrypt0rx_proxy/proxy.py: `_exchange`, one request and its response between the client and
-- the origin. The two connections are explicit, a wait with a timeout takes the next answer of `waits`,
-- and what the code uses of urlsplit and of the texts of exceptions is the interface `Library`.
pub mod Fallible
pub mod Links
pub mod Recording
pub mod Relay
pub mod Copies
pub mod Inversion
pub mod Directions
pub mod Answers
pub mod Forwards
pub mod Ensures
pub mod Invariants
use decrypt0r_x.Prelude.{
  ℕ, ◌+◌, Bool, true, false, not, ◌&&◌, ◌||◌, List, [], ◌∷◌, ◌++◌, Option, none, some,
  if◌then◌else◌, ◌==◌,
}
use decrypt0r_x.Prelude.Int.{ℤ, pos, negsuc}
use decrypt0r_x.Text.{Text, codes, text_eq, lower, contains, starts_with}
use decrypt0r_x.Result.{Result, ok, err, Error, protocol_error, value_error, timed_out}
use decrypt0r_x.Policy.{Decision}
use decrypt0r_x.Recorder.Flows.{FlowRecord, FlowFacts}
use decrypt0r_x.Redaction.{redact_headers}
use decrypt0r_x.Redaction.Url.{redact_url}
use decrypt0r_x.Http1.Headers.{Headers, get, to_dict, strip_hop_by_hop}
use decrypt0r_x.Http1.Stream.{Reader, Writer, write, drain}
use decrypt0r_x.Http1.Tee.{BodyResult}
use decrypt0r_x.Http1.Framing.{
  Framing, until_eof, no_body, chunked, by_length, body_framing, or_empty,
}
use decrypt0r_x.Http1.Pump.{pump_body}
use decrypt0r_x.Http1.Heads.{
  RequestHead, ResponseHead, serialize_request, serialize_response, read_response_head,
}
use decrypt0r_x.Http1.Content.{Inflate, decode_content}
use decrypt0r_x.Exchange.Fallible.{Stage, fails, passes, attempt, ◌>>=◌}
use decrypt0r_x.Exchange.Relay.{relay_all}
use decrypt0r_x.Exchange.Links.{Url, Library, Link, expires, later_waits}
use decrypt0r_x.Exchange.Recording.{
  snapshot, capture_limit, with_request, with_response, body_of, with_request_body,
  with_response_body,
}

abbrev pub is_absolute : Text → Bool
is_absolute target =
    starts_with (codes "http://") (lower target) || starts_with (codes "https://") (lower target)

-- `path or "/"`
abbrev pub or_slash : Text → Text
or_slash [] = codes "/"
or_slash (c ∷ path) = c ∷ path

abbrev pub with_query : Text → Text → Text
with_query path [] = path
with_query path (c ∷ query) = path ++ b'?' ∷ c ∷ query

abbrev pub origin_form : Option Url → Result Text
origin_form none = err value_error
origin_form (some url) = ok (with_query (or_slash url.path) url.query)

-- `"close" in (connection or "").lower()`
abbrev pub mentions : Text → Headers → Bool
mentions word h = contains word (lower (or_empty (get h (codes "connection"))))

abbrev pub is_101 : ℤ → Bool
is_101 (pos n) = n == 101
is_101 (negsuc n) = false

abbrev pub is_until_eof : Framing → Bool
is_until_eof until_eof = true
is_until_eof no_body = false
is_until_eof chunked = false
is_until_eof by_length = false

-- what `_exchange` returns after a response that is not a 101; `request` has lost its hop-by-hop headers
unfoldable pub keep_alive : Framing → RequestHead → Bool → Bool → Bool
keep_alive framing request client_close server_close =
    if is_until_eof framing
    then false
    else if text_eq request.version (codes "HTTP/1.0")
        && not (mentions (codes "keep-alive") request.headers)
    then false
    else not (client_close || server_close)

-- `drain` after `write`
abbrev pub send : Text → Option Writer → Result (Option Writer)
send bytes w = drain (write bytes w)

abbrev pub stripped : RequestHead → RequestHead
stripped request = record request { headers = strip_hop_by_hop request.headers }

abbrev pub stripped_response : ResponseHead → ResponseHead
stripped_response response = record response { headers = strip_hop_by_hop response.headers }

module _ (lib : Library) where
  open lib use {urlsplit, inflate, describe}

  unfoldable pub target_of : Text → Result Text
  target_of target = if is_absolute target then origin_form (urlsplit target) else ok target

  -- the request to the origin, head and body; `request` is the head without its hop-by-hop headers
  unfoldable pub forward_request :
      Text → RequestHead → Decision → FlowRecord → Link → Stage (FlowRecord × Link)
  forward_request target request decision flow link = do
    out ← attempt flow (send (serialize_request request (some target)) link.origin_out)
    (framing, n) ← attempt flow (body_framing request.headers false none none)
    (body, s) ← attempt flow (pump_body link.client out framing n (capture_limit decision))
    passes (
      with_request_body lib request.headers body flow,
      record link { client = s.reader; origin_out = s.writer },
    )

  abbrev pub or_closed : FlowRecord → Option ResponseHead × Reader → Stage (ResponseHead × Reader)
  or_closed flow (none, reader) = fails protocol_error flow
  or_closed flow (some response, reader) = passes (response, reader)

  abbrev pub on_response :
      Bool → FlowRecord → Link → ResponseHead × Reader → Stage (ResponseHead × FlowRecord × Link)
  on_response redact flow link (response, reader) = passes (
    response,
    with_response response (snapshot redact response.headers) flow,
    record link { origin = reader; waits = later_waits link.waits },
  )

  -- once the wait has not expired
  abbrev pub read_response : Bool → FlowRecord → Link → Stage (ResponseHead × FlowRecord × Link)
  read_response redact flow link = do
    got ← attempt flow (read_response_head link.origin)
    answer ← or_closed flow got
    on_response redact flow link answer

  -- the wait for the head of the response
  unfoldable pub await_response :
      Decision → FlowRecord → Link → Stage (ResponseHead × FlowRecord × Link)
  await_response decision flow link =
      if expires link.waits then fails timed_out flow else read_response decision.redact flow link

  -- a 101: from here on the two directions are relayed
  unfoldable pub upgrade : ResponseHead → FlowRecord → Link → Stage (Bool × FlowRecord × Link)
  upgrade response flow link = do
    out ← attempt flow (send (serialize_response response) link.client_out)
    let flow' = record flow { facts = record flow.facts { error = none } }
    (sent, client, origin_out) ← attempt flow' (relay_all link.client link.origin_out)
    (received, origin, client_out) ← attempt flow' (relay_all link.origin out)
    passes (
      false,
      record flow' {
        facts = record flow'.facts {
          request_size = flow'.facts.request_size + sent;
          response_size = flow'.facts.response_size + received;
        };
      },
      record link {
        client = client;
        client_out = client_out;
        origin = origin;
        origin_out = origin_out;
      },
    )

  -- any other response, head and body; `response` is the head without its hop-by-hop headers
  unfoldable pub forward_response :
      RequestHead
      → ResponseHead
      → Decision
      → FlowRecord
      → Link
      → Stage (Framing × FlowRecord × Link)
  forward_response request response decision flow link = do
    out ← attempt flow (send (serialize_response response) link.client_out)
    (framing, n) ←
        attempt flow
          (body_framing response.headers true (some response.status) (some request.method))
    (body, s) ← attempt flow (pump_body link.origin out framing n (capture_limit decision))
    passes (
      framing,
      with_response_body lib response.headers body flow,
      record link { origin = s.reader; client_out = s.writer },
    )

  -- after a response: whether the connection is kept
  abbrev pub on_answer :
      RequestHead
      → Bool
      → ResponseHead
      → Framing × FlowRecord × Link
      → Stage (Bool × FlowRecord × Link)
  on_answer request client_close response (framing, flow, link) = passes (
    keep_alive framing request client_close (mentions (codes "close") response.headers),
    flow,
    link,
  )

  abbrev pub respond :
      RequestHead
      → Bool
      → ResponseHead
      → Decision
      → FlowRecord
      → Link
      → Stage (Bool × FlowRecord × Link)
  respond request client_close response decision flow link = do
    sent ← forward_response request (stripped_response response) decision flow link
    on_answer request client_close response sent

  -- after the head of the response
  unfoldable pub answer_client :
      RequestHead
      → Bool
      → ResponseHead
      → Decision
      → FlowRecord
      → Link
      → Stage (Bool × FlowRecord × Link)
  unfolding upgrade forward_response
  answer_client request client_close response decision flow link =
      if is_101 response.status
      then upgrade response flow link
      else respond request client_close response decision flow link

  -- `_exchange(request, record, decision, …)`
  unfoldable pub exchange :
      RequestHead → Decision → FlowRecord → Link → Stage (Bool × FlowRecord × Link)
  unfolding target_of forward_request await_response answer_client
  exchange request decision flow link = do
    target ← attempt flow (target_of request.target)
    let flow' =
        with_request target request decision.redact (snapshot decision.redact request.headers) flow
    (sent, link') ← forward_request target (stripped request) decision flow' link
    (response, answered, link'') ← await_response decision sent link'
    answer_client (stripped request) (mentions (codes "close") request.headers) response decision
        answered link''
