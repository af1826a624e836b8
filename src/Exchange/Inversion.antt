-- ===== src/Exchange/Inversion.antt =====
-- What the parts of an exchange have done when they pass.
use decrypt0r_x.Prelude.{◌≡◌, ap, sym, subst, true, false, Option, none, some, Bool-cases, inl, inr}
use decrypt0r_x.Prelude.Int.{ℤ}
use decrypt0r_x.Text.{Text}
use decrypt0r_x.Result.{ok, timed_out}
use decrypt0r_x.Policy.{Decision}
use decrypt0r_x.Recorder.Flows.{FlowRecord}
use decrypt0r_x.Http1.Stream.{Reader, Writer}
use decrypt0r_x.Http1.Tee.{BodyResult}
use decrypt0r_x.Http1.Framing.{Framing, body_framing}
use decrypt0r_x.Http1.Pump.{State, pump_body}
use decrypt0r_x.Http1.Heads.{
  RequestHead, ResponseHead, serialize_request, serialize_response, read_response_head,
}
use decrypt0r_x.Exchange.Fallible.{
  Stage, fails, passes, attempt, ◌>>=◌, bind-eq-passes, attempt-eq-passes, passes-injective,
}
use decrypt0r_x.Exchange.Links.{Library, Link, expires, later_waits}
use decrypt0r_x.Exchange.Recording.{
  snapshot, capture_limit, with_response, with_request_body, with_response_body,
}
use decrypt0r_x.Exchange.{
  send, forward_request, or_closed, on_response, read_response, await_response, forward_response,
}

-- a head that was sent, and a body that was pumped behind it
pub record Pumped (text : Text) (limit : ℤ) (r : Reader) (w : Option Writer) (framing : Framing)
    (n : ℤ) (body : BodyResult) (s : State) : Type 0 where
  pub out : Option Writer
  pub head_sent : send text w ≡ ok out
  pub body_pumped : pump_body r out framing n limit ≡ ok (body, s)

module _ (lib : Library) (decision : Decision) where
  pub forward_request-passes :
      (target : Text) (request : RequestHead) (flow flow' : FlowRecord) (link link' : Link)
      → forward_request lib target request decision flow link ≡ passes (flow', link')
      → (framing : Framing) × (n : ℤ) × (body : BodyResult) × (s : State) × (body_framing
            request.headers false none none
          ≡ ok (framing, n))
        × Pumped
            (serialize_request request (some target))
            (capture_limit decision)
            link.client
            link.origin_out
            framing
            n
            body
            s
        × (flow' ≡ with_request_body lib request.headers body flow)
        × (link' ≡ record link { client = s.reader; origin_out = s.writer })
  unfolding forward_request
  forward_request-passes target request flow flow' link link' h =
      let (out, o, h1) =
        bind-eq-passes
          (attempt flow (send (serialize_request request (some target)) link.origin_out)) _ h in
      let ((framing, n), f, h2) =
        bind-eq-passes (attempt flow (body_framing request.headers false none none)) _ h1 in
      let ((body, s), p, h3) =
        bind-eq-passes (attempt flow (pump_body link.client out framing n (capture_limit decision)))
          _ h2 in
      let e = passes-injective h3 in
      (
        framing,
        n,
        body,
        s,
        attempt-eq-passes flow _ f,
        record {
          out = out;
          head_sent = attempt-eq-passes flow _ o;
          body_pumped = attempt-eq-passes flow _ p;
        },
        sym (ap (λ (x : FlowRecord × Link). x.0) e),
        sym (ap (λ (x : FlowRecord × Link). x.1) e),
      )

  pub forward_response-passes :
      (request : RequestHead) (response : ResponseHead) (framing : Framing)
      (flow flow' : FlowRecord) (link link' : Link)
      → forward_response lib request response decision flow link ≡ passes (framing, flow', link')
      → (n : ℤ) × (body : BodyResult) × (s : State) × (body_framing response.headers true
            (some response.status)
            (some request.method)
          ≡ ok (framing, n))
        × Pumped
            (serialize_response response)
            (capture_limit decision)
            link.origin
            link.client_out
            framing
            n
            body
            s
        × (flow' ≡ with_response_body lib response.headers body flow)
        × (link' ≡ record link { origin = s.reader; client_out = s.writer })
  unfolding forward_response
  forward_response-passes request response framing flow flow' link link' h =
      let (out, o, h1) =
        bind-eq-passes (attempt flow (send (serialize_response response) link.client_out)) _ h in
      let ((framing', n), f, h2) =
        bind-eq-passes
          (attempt flow
            (body_framing response.headers true (some response.status) (some request.method)))
          _ h1 in
      let ((body, s), p, h3) =
        bind-eq-passes
          (attempt flow (pump_body link.origin out framing' n (capture_limit decision))) _ h2 in
      let e = passes-injective h3 in
      let same : framing' ≡ framing = ap (λ (x : Framing × FlowRecord × Link). x.0) e in
      (
        n,
        body,
        s,
        subst
            (λ x.
              body_framing response.headers true (some response.status) (some request.method)
              ≡ ok (x, n))
            same (attempt-eq-passes flow _ f),
        record {
          out = out;
          head_sent = attempt-eq-passes flow _ o;
          body_pumped =
              subst (λ x. pump_body link.origin out x n (capture_limit decision) ≡ ok (body, s))
                same (attempt-eq-passes flow _ p);
        },
        sym (ap (λ (x : Framing × FlowRecord × Link). x.1) e),
        sym (ap (λ (x : Framing × FlowRecord × Link). x.2) e),
      )

  -- how `read_response` has come to its result
  abbrev pub Answers : ResponseHead → FlowRecord → FlowRecord → Link → Link → Type 0
  Answers response flow flow' link link' =
      (reader : Reader) × (read_response_head link.origin ≡ ok (some response, reader))
      × (flow' ≡ with_response response (snapshot decision.redact response.headers) flow)
      × (link' ≡ record link { origin = reader; waits = later_waits link.waits })

  found-Answers :
      (got : Option ResponseHead × Reader) (response : ResponseHead) (flow flow' : FlowRecord)
      (link link' : Link)
      → read_response_head link.origin ≡ ok got
      → (or_closed lib flow got >>= on_response lib decision.redact flow link)
        ≡ passes (response, flow', link')
      → Answers response flow flow' link link'
  found-Answers (none, reader) response flow flow' link link' g e = cc
  found-Answers (some answer, reader) response flow flow' link link' g e =
      let q = passes-injective e in
      let same : answer ≡ response = ap (λ (x : ResponseHead × FlowRecord × Link). x.0) q in
      (
        reader,
        subst (λ x. read_response_head link.origin ≡ ok (some x, reader)) same g,
        subst (λ x. flow' ≡ with_response x (snapshot decision.redact x.headers) flow) same
            (sym (ap (λ (x : ResponseHead × FlowRecord × Link). x.1) q)),
        sym (ap (λ (x : ResponseHead × FlowRecord × Link). x.2) q),
      )

  pub await_response-passes :
      (response : ResponseHead) (flow flow' : FlowRecord) (link link' : Link)
      → await_response lib decision flow link ≡ passes (response, flow', link')
      → (expires link.waits ≡ false) × Answers response flow flow' link link'
  unfolding await_response
  await_response-passes response flow flow' link link' h = elim (Bool-cases (expires link.waits)) [
    | inl late ↦
        let raised : ◌≡◌ {A = Stage (ResponseHead × FlowRecord × Link)} (fails timed_out flow)
            (passes (response, flow', link')) =
          rw late at h in
        cc
    | inr early ↦
        let e : read_response lib decision.redact flow link ≡ passes (response, flow', link') =
          rw early at h in
        let (got, g, e') = bind-eq-passes (attempt flow (read_response_head link.origin)) _ e in
        (early, found-Answers got response flow flow' link link' (attempt-eq-passes flow _ g) e')
  ]
