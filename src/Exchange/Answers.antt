-- ===== src/Exchange/Answers.antt =====
-- `_exchange` from the head of the response on: what went to the client, and the relay after a 101.
use decrypt0r_x.Prelude.{
  ℕ, ◌+◌, ◌≡◌, ap, sym, ◌∙◌, subst, Bool, true, false, Option, none, some, length,
}
use decrypt0r_x.Prelude.Int.{ℤ}
use decrypt0r_x.Text.{Text, codes}
use decrypt0r_x.Result.{ok, ok-injective}
use decrypt0r_x.Policy.{Decision}
use decrypt0r_x.Recorder.Flows.{FlowRecord}
use decrypt0r_x.Http1.Stream.{Reader, Writer}
use decrypt0r_x.Http1.Stream.Laws.{Sends}
use decrypt0r_x.Http1.Tee.{BodyResult}
use decrypt0r_x.Http1.Framing.{Framing, body_framing}
use decrypt0r_x.Http1.Pump.Verbatim.{write_drain-Sends}
use decrypt0r_x.Http1.Heads.{RequestHead, ResponseHead, serialize_response}
use decrypt0r_x.Exchange.Fallible.{
  passes, attempt, bind-eq-passes, attempt-eq-passes, passes-injective,
}
use decrypt0r_x.Exchange.Relay.{relay_all}
use decrypt0r_x.Exchange.Copies.{Copied, relay_all-Copied}
use decrypt0r_x.Exchange.Inversion.{forward_response-passes}
use decrypt0r_x.Exchange.Links.{Library, Link}
use decrypt0r_x.Exchange.Recording.{capture_limit, with_response_body}
use decrypt0r_x.Exchange.{
  is_101, keep_alive, send, stripped, stripped_response, mentions, forward_response, upgrade,
  respond,
}
use decrypt0r_x.Exchange.Directions.{Forwarded, Pumped-Forwarded}

module _ (lib : Library) (decision : Decision) where
  -- After the head of a response that is not a 101: it was forwarded without its hop-by-hop headers.
  pub record Answered (request : RequestHead) (response : ResponseHead) (mid : FlowRecord)
      (link : Link) (keep : Bool) (flow' : FlowRecord) (link' : Link) : Type 0 where
    pub framing : Framing
    pub n : ℤ
    pub framed :
        body_framing
          (stripped_response response).headers
          true
          (some response.status)
          (some request.method)
        ≡ ok (framing, n)
    pub body : BodyResult
    pub forwarded :
        Forwarded
          (serialize_response (stripped_response response))
          (capture_limit decision)
          framing
          n
          link.origin
          link.client_out
          link'.origin
          link'.client_out
          body
    pub client_kept : link'.client ≡ link.client
    pub origin_kept : link'.origin_out ≡ link.origin_out
    pub recorded : flow' ≡ with_response_body lib (stripped_response response).headers body mid
    pub kept :
        keep
        ≡ keep_alive framing
            (stripped request)
            (mentions (codes "close") request.headers)
            (mentions (codes "close") response.headers)

  -- After the head of a 101: it was forwarded as it was, and the two directions were relayed.
  pub record Upgraded (response : ResponseHead) (mid : FlowRecord) (link : Link) (keep : Bool)
      (flow' : FlowRecord) (link' : Link) : Type 0 where
    pub switches : is_101 response.status ≡ true
    pub closes : keep ≡ false
    pub out : Option Writer
    pub head_sent : Sends (serialize_response response) link.client_out out
    pub up : Text
    pub up_copied : Copied up link.client link.origin_out link'.client link'.origin_out
    pub down : Text
    pub down_copied : Copied down link.origin out link'.origin link'.client_out
    pub up_counted : flow'.facts.request_size ≡ mid.facts.request_size + length up
    pub down_counted : flow'.facts.response_size ≡ mid.facts.response_size + length down

  pub answered :
      (request : RequestHead) (response : ResponseHead) (mid : FlowRecord) (link : Link)
      (keep : Bool) (flow' : FlowRecord) (link' : Link)
      → respond lib
          (stripped request)
          (mentions (codes "close") request.headers)
          response
          decision
          mid
          link
        ≡ passes (keep, flow', link')
      → Answered request response mid link keep flow' link'
  answered request response mid link keep flow' link' h =
      let ((framing, flow'', link''), f, e) =
        bind-eq-passes
          (forward_response lib (stripped request) (stripped_response response) decision mid link) _
          h in
      let (n, body, s, framed, pumped, flow_is, link_is) =
        forward_response-passes lib decision (stripped request) (stripped_response response) framing
          mid flow'' link link'' f in
      let q = passes-injective e in
      let link_same : link'' ≡ link' = ap (λ (x : Bool × FlowRecord × Link). x.2) q in
      let whole : link' ≡ record link { origin = s.reader; client_out = s.writer } =
        sym link_same ∙ link_is in
      let forwarded =
        Pumped-Forwarded (serialize_response (stripped_response response)) (capture_limit decision)
          link.origin link.client_out framing n body s pumped in
      record {
        framing = framing;
        n = n;
        framed = framed;
        body = body;
        forwarded = rw whole forwarded;
        client_kept = rw whole;
        origin_kept = rw whole;
        recorded = sym (ap (λ (x : Bool × FlowRecord × Link). x.1) q) ∙ flow_is;
        kept = sym (ap (λ (x : Bool × FlowRecord × Link). x.0) q);
      }

  pub upgraded :
      (response : ResponseHead) (mid : FlowRecord) (link : Link) (keep : Bool) (flow' : FlowRecord)
      (link' : Link)
      → is_101 response.status ≡ true
      → upgrade lib response mid link ≡ passes (keep, flow', link')
      → Upgraded response mid link keep flow' link'
  unfolding upgrade
  upgraded response mid link keep flow' link' switches h =
      let flow = record mid { facts = record mid.facts { error = none } } in
      let (out, o, h1) =
        bind-eq-passes (attempt mid (send (serialize_response response) link.client_out)) _ h in
      let ((sent, client, origin_out), u, h2) =
        bind-eq-passes (attempt flow (relay_all link.client link.origin_out)) _ h1 in
      let ((received, origin, client_out), d, h3) =
        bind-eq-passes (attempt flow (relay_all link.origin out)) _ h2 in
      let (up, client', origin_out', up_ran, up_copied) =
        relay_all-Copied link.client link.origin_out in
      let (down, origin', client_out', down_ran, down_copied) = relay_all-Copied link.origin out in
      let up_same : (length up, client', origin_out') ≡ (sent, client, origin_out) =
        ok-injective (sym up_ran ∙ attempt-eq-passes flow _ u) in
      let down_same : (length down, origin', client_out') ≡ (received, origin, client_out) =
        ok-injective (sym down_ran ∙ attempt-eq-passes flow _ d) in
      let q = passes-injective h3 in
      let link_is = sym (ap (λ (x : Bool × FlowRecord × Link). x.2) q) in
      let flow_is = sym (ap (λ (x : Bool × FlowRecord × Link). x.1) q) in
      record {
        switches = switches;
        closes = sym (ap (λ (x : Bool × FlowRecord × Link). x.0) q);
        out = out;
        head_sent =
            write_drain-Sends true (serialize_response response) link.client_out out
              (attempt-eq-passes mid _ o);
        up = up;
        up_copied = rw link_is (
            subst
              (λ (x : ℕ × Reader × Option Writer). Copied up link.client link.origin_out x.1 x.2)
              up_same up_copied);
        down = down;
        down_copied = rw link_is (
            subst (λ (x : ℕ × Reader × Option Writer). Copied down link.origin out x.1 x.2)
              down_same down_copied);
        up_counted = rw (flow_is, ap (λ (x : ℕ × Reader × Option Writer). x.0) up_same);
        down_counted = rw (flow_is, ap (λ (x : ℕ × Reader × Option Writer). x.0) down_same);
      }
