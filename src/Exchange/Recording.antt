-- ===== src/Exchange/Recording.antt =====
-- What `_exchange` of services/proxy/decrypt0rx_proxy/proxy.py writes into its record.
use decrypt0r_x.Prelude.{Bool, false, ◌||◌, List, [], ◌∷◌, Option, some, if◌then◌else◌}
use decrypt0r_x.Prelude.Int.{ℤ, pos}
use decrypt0r_x.Text.{Text, codes}
use decrypt0r_x.Policy.{Decision}
use decrypt0r_x.Recorder.Flows.{FlowRecord}
use decrypt0r_x.Redaction.{redact_headers}
use decrypt0r_x.Redaction.Url.{redact_url}
use decrypt0r_x.Http1.Headers.{Headers, get, to_dict}
use decrypt0r_x.Http1.Tee.{BodyResult}
use decrypt0r_x.Http1.Heads.{RequestHead, ResponseHead}
use decrypt0r_x.Http1.Content.{decode_content}
use decrypt0r_x.Exchange.Links.{Library}

-- the headers as the record keeps them, and whether one was redacted
unfoldable pub snapshot : Bool → Headers → List (Text × Text) × Bool
snapshot redact h = if redact then redact_headers (to_dict h) else (to_dict h, false)

abbrev pub capture_limit : Decision → ℤ
capture_limit decision = pos (if decision.capture_bodies then decision.capture_max_bytes else 0)

-- the record with the head of the request
abbrev pub with_request :
    Text → RequestHead → Bool → List (Text × Text) × Bool → FlowRecord → FlowRecord
with_request target request redact (headers, touched) flow = record flow {
  facts = record flow.facts {
    method = some request.method;
    path = some (if redact then redact_url target else target);
    http_version = some request.version;
    request_headers = some headers;
    request_content_type = get request.headers (codes "content-type");
  };
  redacted = flow.redacted || touched;
}

-- the record with the head of the response
abbrev pub with_response : ResponseHead → List (Text × Text) × Bool → FlowRecord → FlowRecord
with_response response (headers, touched) flow = record flow {
  facts = record flow.facts {
    status_code = some response.status;
    response_headers = some headers;
    response_content_type = get response.headers (codes "content-type");
  };
  redacted = flow.redacted || touched;
}

module _ (lib : Library) where
  open lib use {inflate}

  -- the body in the record, if some of it was captured
  abbrev pub body_of : Text → Headers → Option Text → Option Text
  body_of [] h before = before
  body_of (c ∷ captured) h before =
      some (decode_content inflate (c ∷ captured) (get h (codes "content-encoding")))

  abbrev pub with_request_body : Headers → BodyResult → FlowRecord → FlowRecord
  with_request_body h body flow = record flow {
    facts = record flow.facts {
      request_size = body.total;
      bodies_truncated = flow.facts.bodies_truncated || body.truncated;
    };
    request_body = body_of body.captured h flow.request_body;
  }

  abbrev pub with_response_body : Headers → BodyResult → FlowRecord → FlowRecord
  with_response_body h body flow = record flow {
    facts = record flow.facts {
      response_size = body.total;
      bodies_truncated = flow.facts.bodies_truncated || body.truncated;
    };
    response_body = body_of body.captured h flow.response_body;
  }
