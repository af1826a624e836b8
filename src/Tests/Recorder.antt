-- ===== src/Tests/Recorder.antt =====
-- Flows and steps of workers on which the theorems on recorder.py are tried.
use decrypt0r_x.Prelude.{
  ◌+◌, ◌++◌, length, refl, Bool, true, false, List, [], ◌∷◌, Option, none, some,
}
use decrypt0r_x.Prelude.Int.{ℤ}
use decrypt0r_x.Text.{Text, codes}
use decrypt0r_x.Models.{intercept}
use decrypt0r_x.Redaction.{Codecs}
use decrypt0r_x.Recorder
use decrypt0r_x.Recorder.Flows.{FlowRecord}
use decrypt0r_x.Recorder.{Settings, failed, committed, Event, submitted, collected, settled, run}
use decrypt0r_x.Recorder.Counts.{IsConsistent, submissions, run-IsConsistent}
use decrypt0r_x.Recorder.Bodies.{flows_in, AllRedacted, run-AllRedacted}
use mathlib.Core.List.{Memᴰ}
use decrypt0r_x.Recorder.Drains.{Written, in_hands, finishing, working, run-Written}

abbrev none_parsed : Codecs
none_parsed = record {
  loads = λ body. none;
  dumps = λ node. [];
  parse_qsl = λ body. none;
  urlencode = λ pairs. [];
  scrub_tokens = λ body. (body, 0);
}

-- the store takes every body
abbrev stores : Text → Text → Bool
stores key bytes = true

abbrev untimed : FlowRecord → Option ℤ
untimed flow = none

abbrev post : FlowRecord
post = record {
  facts = record {
    connection_id = codes "c1";
    client_ip = codes "10.0.0.7";
    client_port = 5000;
    host = codes "bank";
    port = 443;
    action = intercept;
    id = codes "f1";
    started_at = 1;
    ended_at = some 2;
    scheme = codes "https";
    sni = none;
    upstream_ip = none;
    intercepted = true;
    method = some (codes "POST");
    path = some (codes "/");
    http_version = some (codes "HTTP/1.1");
    status_code = none;
    request_headers = none;
    response_headers = none;
    request_content_type = none;
    response_content_type = none;
    request_size = 2;
    response_size = 0;
    bodies_truncated = false;
    rule_id = none;
    rule_name = none;
    tls_version = none;
    tls_cipher = none;
    alpn = none;
    error = none;
  };
  request_body = some (codes "hi");
  response_body = none;
  redacted = false;
}

-- a queue of two, batches of one
abbrev tight : Settings
tight = record { record_queue_size = 2; record_batch_size = 1; node_id = codes "n1" }

-- three flows, of which one is dropped; one batch is written and one fails
abbrev busy : List Event
busy =
    submitted post
    ∷ submitted post
    ∷ submitted post
    ∷ collected
    ∷ collected
    ∷ settled 1 (committed true)
    ∷ settled 0 failed
    ∷ []

init-IsConsistent : IsConsistent tight 0 Recorder.init
unfolding Recorder.init
init-IsConsistent = record { counted = refl; stored = refl; bounded = refl }

run-IsConsistent_example :
    IsConsistent tight
      (0 + submissions none_parsed stores (codes "2026/01/01") untimed tight busy)
      (run none_parsed stores (codes "2026/01/01") untimed tight busy Recorder.init)
run-IsConsistent_example =
    run-IsConsistent none_parsed stores (codes "2026/01/01") untimed tight busy 0 Recorder.init
      init-IsConsistent

run-AllRedacted_example :
    AllRedacted none_parsed stores
      (codes "2026/01/01")
      untimed
      tight
      (λ flow. Memᴰ flow (flows_in busy))
      (run none_parsed stores (codes "2026/01/01") untimed tight busy Recorder.init).puts
run-AllRedacted_example = run-AllRedacted none_parsed stores (codes "2026/01/01") untimed tight busy

-- one flow in the hands of a worker, and three that wait
abbrev behind : Recorder.Recorder
behind = record Recorder.init { queue = post ∷ post ∷ post ∷ []; batches = (post ∷ []) ∷ [] }

run-Written_example :
    Written none_parsed stores
      (codes "2026/01/01")
      untimed
      tight
      (in_hands behind.batches ++ behind.queue)
      behind
      (run none_parsed stores
        (codes "2026/01/01")
        untimed
        tight
        (finishing (length behind.batches) ++ working (length behind.queue))
        behind)
run-Written_example = run-Written none_parsed stores (codes "2026/01/01") untimed tight behind
