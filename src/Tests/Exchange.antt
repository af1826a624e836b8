-- ===== src/Tests/Exchange.antt =====
-- A request, its response and a connection on which the theorems on exchanges are tried.
use decrypt0r_x.Prelude.{ℕ, ◌≡◌, refl, true, [], ◌∷◌, Option, none, some, ◌⊎◌}
use decrypt0r_x.Prelude.Int.{pos}
use decrypt0r_x.Text.{Text, codes}
use decrypt0r_x.Text.Number.{py_int}
use decrypt0r_x.Text.Number.Decimal.{decimal, str_int}
use decrypt0r_x.Models.{intercept}
use decrypt0r_x.Policy.{Decision}
use decrypt0r_x.Result.{ok, err, timed_out}
use decrypt0r_x.Recorder.Flows.{FlowRecord}
use decrypt0r_x.Redaction.{redact_headers, is_sensitive, is_sensitive_header}
use decrypt0r_x.Redaction.Url.{redact_url, redact_from, secret_at}
use decrypt0r_x.Http1.Headers.{
  get, get_all, to_dict, serialize, strip_hop_by_hop, drop_set, dropped_token,
}
use decrypt0r_x.Http1.Stream.{Writer, read, readline, readexactly, write, drain}
use decrypt0r_x.Http1.Tee.{init, feed, result}
use decrypt0r_x.Http1.Framing.{body_framing}
use decrypt0r_x.Http1.Pump.{pump_body, pump, copy, pass_on}
use decrypt0r_x.Http1.Content.{decode_content}
use decrypt0r_x.Http1.Heads.{
  RequestHead, ResponseHead, serialize_request, serialize_response, read_response_head,
  read_head_lines, head_lines, head_round, parse_headers, parse_response,
}
use decrypt0r_x.Exchange.Links.{Library, Link}
use decrypt0r_x.Exchange.Recording.{snapshot}
use decrypt0r_x.Exchange.{
  target_of, stripped, forward_request, await_response, answer_client, forward_response, keep_alive,
  exchange,
}
use decrypt0r_x.Exchange.Fallible.{passes}
use decrypt0r_x.Exchange.Directions.{Asked}
use decrypt0r_x.Exchange.Answers.{Answered, Upgraded}
use decrypt0r_x.Exchange.Forwards.{exchange-Forwards}
use decrypt0r_x.Session.{Settings, Stamp, stopped, new_record, serve_http}
use decrypt0r_x.Session.Rounds.{AllFlows}
use decrypt0r_x.Session.Flows.{IsPrivate, serve_http-IsPrivate}
use decrypt0r_x.Session.Losses.{asking, serve_http-slow_origin}

abbrev deaf : Text → Option Text
deaf t = none

abbrev tools : Library
tools = record {
  urlsplit = λ t. none;
  inflate = record {
    gunzip = deaf;
    inflate = deaf;
    inflate_raw = deaf;
    unbrotli = deaf;
    unzstd = deaf;
  };
  describe = λ e. codes "error";
}

abbrev capturing : Decision
capturing = record {
  action = intercept;
  capture_bodies = true;
  capture_max_bytes = 4;
  redact = true;
  rule_id = some 1;
  rule_name = some (codes "all");
}

abbrev connection : Settings
connection = record {
  connection_id = codes "c1";
  client_ip = codes "10.0.0.1";
  client_port = 5000;
  host = codes "example.org";
  port = 443;
  scheme = codes "https";
  sni = some (codes "example.org");
  tls_version = some (codes "TLSv1.3");
  cipher = none;
  upstream_ip = none;
}

abbrev stamp : ℕ → Stamp
stamp k = record { id = codes "f"; started_at = 10; ended_at = 20 }

abbrev ask : RequestHead
ask = record {
  method = codes "GET";
  target = codes "/a";
  version = codes "HTTP/1.1";
  headers = record {
    items = (codes "Host", codes "example.org") ∷ (codes "Cookie", codes "a=b") ∷ [];
  };
}

abbrev open_writer : Option Writer
open_writer = some (record { sent = []; resets = [] })

-- the origin answers with a body of two bytes
abbrev both : Link
both = record {
  client = record { rest = []; sizes = [] };
  client_out = open_writer;
  origin = record { rest = codes "HTTP/1.1 200 OK\r\nContent-Length: 2\r\n\r\nhi"; sizes = [] };
  origin_out = open_writer;
  waits = [];
}

abbrev started : FlowRecord
started = new_record connection capturing (stamp 0)

abbrev finished : FlowRecord
finished = record started {
  facts = record started.facts {
    method = some (codes "GET");
    path = some (codes "/a");
    http_version = some (codes "HTTP/1.1");
    request_headers =
        some ((codes "Host", codes "example.org") ∷ (codes "Cookie", codes "***REDACTED***") ∷ []);
    status_code = some (pos 200);
    response_headers = some ((codes "Content-Length", codes "2") ∷ []);
    response_size = 2;
  };
  response_body = some (codes "hi");
  redacted = true;
}

abbrev after : Link
after = record {
  client = record { rest = []; sizes = [] };
  client_out =
      some (record { sent = codes "HTTP/1.1 200 OK\r\nContent-Length: 2\r\n\r\nhi"; resets = [] });
  origin = record { rest = []; sizes = [] };
  origin_out = some (record {
    sent = codes "GET /a HTTP/1.1\r\nHost: example.org\r\nCookie: a=b\r\n\r\n";
    resets = [];
  });
  waits = [];
}

ask-passes : exchange tools ask capturing started both ≡ passes (true, finished, after)
unfolding exchange target_of forward_request await_response answer_client forward_response
    keep_alive snapshot redact_headers is_sensitive is_sensitive_header redact_url redact_from
    secret_at get get_all to_dict serialize strip_hop_by_hop drop_set dropped_token read readline
    readexactly write drain init feed result body_framing pump_body pump copy pass_on decode_content
    serialize_request serialize_response read_response_head read_head_lines head_lines head_round
    parse_headers parse_response py_int decimal str_int
ask-passes = refl

exchange-Forwards_example :
    (response : ResponseHead) × (mid : FlowRecord) × (between : Link) × Asked tools capturing ask
      started both response mid between
    × (Answered tools capturing ask response mid between true finished after
        ⊎ Upgraded tools capturing response mid between true finished after)
exchange-Forwards_example =
    exchange-Forwards tools capturing ask started both true finished after ask-passes

-- the client sends one more request, and then nothing
abbrev twice : Link
twice = record both { client = record { rest = codes "GET /b HTTP/1.0\r\n\r\n"; sizes = [] } }

serve_http-IsPrivate_example :
    AllFlows
      (IsPrivate capturing)
      (serve_http tools connection capturing stamp (some ask) twice).flows
serve_http-IsPrivate_example =
    serve_http-IsPrivate tools connection capturing stamp (some ask) twice

-- the wait for the head of the response expires
abbrev slow : Link
slow = record both { waits = true ∷ [] }

abbrev slow_sent : Link
slow_sent = record slow {
  origin_out = some (record {
    sent = codes "GET /a HTTP/1.1\r\nHost: example.org\r\nCookie: a=b\r\n\r\n";
    resets = [];
  });
}

ask-target_of : target_of tools ask.target ≡ ok (codes "/a")
unfolding target_of
ask-target_of = refl

ask-forward_request :
    forward_request tools
      (codes "/a")
      (stripped ask)
      capturing
      (asking tools connection capturing stamp (codes "/a") ask)
      slow
    ≡ passes (asking tools connection capturing stamp (codes "/a") ask, slow_sent)
unfolding forward_request snapshot redact_headers is_sensitive is_sensitive_header redact_url
    redact_from secret_at get get_all to_dict serialize strip_hop_by_hop drop_set dropped_token read
    write drain init feed result body_framing pump_body pump copy pass_on serialize_request
ask-forward_request = refl

serve_http-slow_origin_example :
    serve_http tools connection capturing stamp (some ask) slow ≡ stopped (err timed_out)
serve_http-slow_origin_example =
    serve_http-slow_origin tools connection capturing stamp ask slow (codes "/a")
      (asking tools connection capturing stamp (codes "/a") ask) slow_sent ask-target_of
      ask-forward_request refl
