-- ===== src/Exchange/Directions.antt =====
-- `_exchange` up to the head of the response: what went to the origin, and what is recorded of it.
use decrypt0r_x.Prelude.{◌≡◌, true, false, ◌++◌, Option, none, some, length, take}
use decrypt0r_x.Prelude.Int.{ℤ, pos_part}
use decrypt0r_x.Text.{Text}
use decrypt0r_x.Result.{ok}
use decrypt0r_x.Policy.{Decision}
use decrypt0r_x.Recorder.Flows.{FlowRecord}
use decrypt0r_x.Http1.Stream.{Reader, Writer}
use decrypt0r_x.Http1.Stream.Laws.{Sends, Sends-trans}
use decrypt0r_x.Http1.Tee.{BodyResult}
use decrypt0r_x.Http1.Framing.{Framing, body_framing}
use decrypt0r_x.Http1.Pump.{State}
use decrypt0r_x.Http1.Pump.Verbatim.{write_drain-Sends}
use decrypt0r_x.Http1.Pump.Forwarding.{Delimits, pump_body-forwards}
use decrypt0r_x.Http1.Heads.{RequestHead, ResponseHead, serialize_request, read_response_head}
use decrypt0r_x.Exchange.Fallible.{passes}
use decrypt0r_x.Exchange.Inversion.{Pumped, forward_request-passes, await_response-passes}
use decrypt0r_x.Exchange.Links.{Library, Link, expires}
use decrypt0r_x.Exchange.Recording.{
  snapshot, capture_limit, with_request, with_response, with_request_body,
}
use decrypt0r_x.Exchange.{stripped, target_of, forward_request, await_response}

-- One direction: the writer has sent the head `text` and a body behind it, which was taken from the reader and is
-- delimited as the framing has it; its payload was counted and captured up to the limit.
pub record Forwarded (text : Text) (limit : ℤ) (framing : Framing) (n : ℤ) (r : Reader)
    (w : Option Writer) (r' : Reader) (w' : Option Writer) (body : BodyResult) : Type 0 where
  pub wire : Text
  pub payload : Text
  pub taken : r.rest ≡ wire ++ r'.rest
  pub sent : Sends (text ++ wire) w w'
  pub delimits : Delimits framing n wire payload r'.rest
  pub counted : body.total ≡ length payload
  pub captured : body.captured ≡ take (pos_part limit) payload

pub Pumped-Forwarded :
    (text : Text) (limit : ℤ) (r : Reader) (w : Option Writer) (framing : Framing) (n : ℤ)
    (body : BodyResult) (s : State)
    → Pumped text limit r w framing n body s
    → Forwarded text limit framing n r w s.reader s.writer body
Pumped-Forwarded text limit r w framing n body s p =
    let (wire, payload, taken, sent, delimits, captured, counted, cut) =
      pump_body-forwards r p.out framing n limit body s p.body_pumped in
    record {
      wire = wire;
      payload = payload;
      taken = taken;
      sent =
          Sends-trans text wire w p.out s.writer (write_drain-Sends true text w p.out p.head_sent)
            sent;
      delimits = delimits;
      counted = counted;
      captured = captured;
    }

module _ (lib : Library) (decision : Decision) where
  -- Up to the head of the response: the request was forwarded without its hop-by-hop headers, and the
  -- response was read in time. `mid` and `link'` are the record and the connections by then.
  pub record Asked (request : RequestHead) (flow : FlowRecord) (link : Link)
      (response : ResponseHead) (mid : FlowRecord) (link' : Link) : Type 0 where
    pub target : Text
    pub targeted : target_of lib request.target ≡ ok target
    pub framing : Framing
    pub n : ℤ
    pub framed : body_framing (stripped request).headers false none none ≡ ok (framing, n)
    pub body : BodyResult
    pub forwarded :
        Forwarded
          (serialize_request (stripped request) (some target))
          (capture_limit decision)
          framing
          n
          link.client
          link.origin_out
          link'.client
          link'.origin_out
          body
    pub in_time : expires link.waits ≡ false
    pub head_read : read_response_head link.origin ≡ ok (some response, link'.origin)
    pub client_waits : link'.client_out ≡ link.client_out
    pub recorded :
        mid
        ≡ with_response response (snapshot decision.redact response.headers) (
            with_request_body lib (stripped request).headers body (
              with_request target request decision.redact
                (snapshot decision.redact request.headers)
                flow))

  pub asked :
      (request : RequestHead) (flow : FlowRecord) (link : Link) (target : Text) (sent : FlowRecord)
      (link' : Link) (response : ResponseHead) (mid : FlowRecord) (link'' : Link)
      → target_of lib request.target ≡ ok target
      → forward_request lib target
          (stripped request)
          decision
          (with_request target request decision.redact
            (snapshot decision.redact request.headers)
            flow)
          link
        ≡ passes (sent, link')
      → await_response lib decision sent link' ≡ passes (response, mid, link'')
      → Asked request flow link response mid link''
  asked request flow link target sent link' response mid link'' targeted f a =
      let before =
        with_request target request decision.redact (snapshot decision.redact request.headers)
          flow in
      let (framing, n, body, s, framed, pumped, flow_is, link_is) =
        forward_request-passes lib decision target (stripped request) before sent link link' f in
      let (early, (reader, got, mid_is, last_is)) =
        await_response-passes lib decision response sent mid link' link'' a in
      let forwarded =
        Pumped-Forwarded (serialize_request (stripped request) (some target))
          (capture_limit decision) link.client link.origin_out framing n body s pumped in
      record {
        target = target;
        targeted = targeted;
        framing = framing;
        n = n;
        framed = framed;
        body = body;
        forwarded = rw (last_is, link_is) forwarded;
        in_time = rw link_is at early;
        head_read = rw last_is (rw link_is at got);
        client_waits = rw (last_is, link_is);
        recorded = rw (mid_is, flow_is);
      }
