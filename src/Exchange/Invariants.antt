-- ===== src/Exchange/Invariants.antt =====
-- What an exchange leaves true of its record, whether it passes or fails; and that it always ends.
use decrypt0r_x.Prelude.{
  ℕ, ◌+◌, ◌≤◌, ◌≡◌, ap, Bool, true, false, Option, none, some, Bool-cases, inl, inr, length,
  length-take, arith,
}
use decrypt0r_x.Prelude.Int.{ℤ, pos_part}
use decrypt0r_x.Text.{Text, codes}
use decrypt0r_x.Result.{ok}
use decrypt0r_x.Policy.{Decision}
use decrypt0r_x.Recorder.Flows.{FlowRecord}
use decrypt0r_x.Http1.Headers.{Headers}
use decrypt0r_x.Http1.Stream.{Reader, Writer}
use decrypt0r_x.Http1.Tee.{BodyResult}
use decrypt0r_x.Http1.Framing.{Framing, body_framing}
use decrypt0r_x.Http1.Pump.{State, pump_body}
use decrypt0r_x.Http1.Pump.Total.{pump_body-Fueled}
use decrypt0r_x.Http1.Pump.Forwarding.{pump_body-forwards}
use decrypt0r_x.Http1.Heads.{
  RequestHead, ResponseHead, read_response_head, serialize_request, serialize_response,
}
use decrypt0r_x.Http1.Heads.Total.{read_response_head-Fueled}
use decrypt0r_x.Exchange.Fallible.{◌>>=◌}
use decrypt0r_x.Exchange.Relay.{relay_all}
use decrypt0r_x.Exchange.Links.{Library, Link, expires}
use decrypt0r_x.Exchange.Recording.{
  snapshot, capture_limit, with_request, with_response, with_request_body, with_response_body,
}
use decrypt0r_x.Exchange.{
  is_101, send, stripped, stripped_response, mentions, target_of, forward_request, forward_response,
  or_closed, on_response, await_response, upgrade, on_answer, answer_client, exchange,
}
use decrypt0r_x.Exchange.Ensures.{
  Ensures, Ensures-bind, attempt-Ensures, send-Fueled, body_framing-Fueled, target_of-Fueled,
  relay_all-Fueled,
}

-- a predicate on records that every change of an exchange keeps
pub record Stable (lib : Library) (decision : Decision) (P : FlowRecord → Type 0) : Type 0 where
  pub requested :
      (target : Text) (request : RequestHead) (flow : FlowRecord)
      → P flow
      → P (
          with_request target request decision.redact
            (snapshot decision.redact request.headers)
            flow)
  pub request_copied :
      (h : Headers) (body : BodyResult) (flow : FlowRecord)
      → length body.captured ≤ pos_part (capture_limit decision)
      → P flow
      → P (with_request_body lib h body flow)
  pub responded :
      (response : ResponseHead) (flow : FlowRecord)
      → P flow
      → P (with_response response (snapshot decision.redact response.headers) flow)
  pub response_copied :
      (h : Headers) (body : BodyResult) (flow : FlowRecord)
      → length body.captured ≤ pos_part (capture_limit decision)
      → P flow
      → P (with_response_body lib h body flow)
  pub cleared :
      (flow : FlowRecord) → P flow → P (record flow { facts = record flow.facts { error = none } })
  pub relayed :
      (up down : ℕ) (flow : FlowRecord)
      → P flow
      → P (record flow {
        facts = record flow.facts {
          request_size = flow.facts.request_size + up;
          response_size = flow.facts.response_size + down;
        };
      })

captured-le :
    (r : Reader) (w : Option Writer) (f : Framing) (n limit : ℤ) (body : BodyResult) (s : State)
    → pump_body r w f n limit ≡ ok (body, s)
    → length body.captured ≤ pos_part limit
captured-le r w f n limit body s h =
    let (wire, payload, taken, sent, delimits, captured, counted, cut) =
      pump_body-forwards r w f n limit body s h in
    omega (arith, ap length captured, length-take (pos_part limit) payload)

module _ (lib : Library) (decision : Decision) (P : FlowRecord → Type 0)
    (stable : Stable lib decision P) where
  -- the record of a part that passes it on as the second of three, and as the first of two
  abbrev Second {ℓ} : {A : Type ℓ} → A × FlowRecord × Link → Type 0
  Second r = P r.1

  abbrev First : FlowRecord × Link → Type 0
  First r = P r.0

  forward_request-Ensures :
      (target : Text) (request : RequestHead) (flow : FlowRecord) (link : Link)
      → P flow
      → Ensures P First (forward_request lib target request decision flow link)
  unfolding forward_request
  forward_request-Ensures target request flow link p =
      attempt-Ensures P First flow (send (serialize_request request (some target)) link.origin_out)
        _ (send-Fueled (serialize_request request (some target)) link.origin_out) p
        (λ out o.
          attempt-Ensures P First flow (body_framing request.headers false none none) _
            (body_framing-Fueled request.headers false none none) p
            (λ (framing, n) e.
              attempt-Ensures P First flow
                (pump_body link.client out framing n (capture_limit decision)) _
                (pump_body-Fueled link.client out framing n (capture_limit decision)) p
                (λ (body, s) pumped.
                  stable.request_copied request.headers body flow
                    (captured-le link.client out framing n (capture_limit decision) body s pumped)
                    p)))

  forward_response-Ensures :
      (request : RequestHead) (response : ResponseHead) (flow : FlowRecord) (link : Link)
      → P flow
      → Ensures P Second (forward_response lib request response decision flow link)
  unfolding forward_response
  forward_response-Ensures request response flow link p =
      attempt-Ensures P Second flow (send (serialize_response response) link.client_out) _
        (send-Fueled (serialize_response response) link.client_out) p
        (λ out o.
          attempt-Ensures P Second flow
            (body_framing response.headers true (some response.status) (some request.method)) _
            (body_framing-Fueled response.headers true (some response.status) (some request.method))
            p
            (λ (framing, n) e.
              attempt-Ensures P Second flow
                (pump_body link.origin out framing n (capture_limit decision)) _
                (pump_body-Fueled link.origin out framing n (capture_limit decision)) p
                (λ (body, s) pumped.
                  stable.response_copied response.headers body flow
                    (captured-le link.origin out framing n (capture_limit decision) body s pumped)
                    p)))

  await_response-Ensures :
      (flow : FlowRecord) (link : Link)
      → P flow
      → Ensures P Second (await_response lib decision flow link)
  unfolding await_response
  await_response-Ensures flow link p = elim (Bool-cases (expires link.waits)) [
    | inl late ↦ rw late (λ q. cc, p)
    | inr early ↦ rw early (
        attempt-Ensures P Second flow (read_response_head link.origin) _
          (read_response_head-Fueled link.origin) p (λ got e. found got))
  ]
    where
      found :
          (got : Option ResponseHead × Reader)
          → Ensures P Second (or_closed lib flow got >>= on_response lib decision.redact flow link)
      found (none, reader) = (λ q. cc, p)
      found (some response, reader) = stable.responded response flow p

  upgrade-Ensures :
      (response : ResponseHead) (flow : FlowRecord) (link : Link)
      → P flow
      → Ensures P Second (upgrade lib response flow link)
  unfolding upgrade
  upgrade-Ensures response flow link p =
      let flow' = record flow { facts = record flow.facts { error = none } } in
      attempt-Ensures P Second flow (send (serialize_response response) link.client_out) _
        (send-Fueled (serialize_response response) link.client_out) p
        (λ out o.
          attempt-Ensures P Second flow' (relay_all link.client link.origin_out) _
            (relay_all-Fueled link.client link.origin_out) (stable.cleared flow p)
            (λ (up, client, origin_out) u.
              attempt-Ensures P Second flow' (relay_all link.origin out) _
                (relay_all-Fueled link.origin out) (stable.cleared flow p)
                (λ (down, origin, client_out) d.
                  stable.relayed up down flow' (stable.cleared flow p))))

  answer_client-Ensures :
      (request : RequestHead) (client_close : Bool) (response : ResponseHead) (flow : FlowRecord)
      (link : Link)
      → P flow
      → Ensures P Second (answer_client lib request client_close response decision flow link)
  unfolding answer_client
  answer_client-Ensures request client_close response flow link p =
      elim (Bool-cases (is_101 response.status)) [
        | inl switches ↦ rw switches (upgrade-Ensures response flow link p)
        | inr ordinary ↦ rw ordinary (
            Ensures-bind P Second Second
              (forward_response lib request (stripped_response response) decision flow link)
              (on_answer lib request client_close response)
              (forward_response-Ensures request (stripped_response response) flow link p)
              (λ (framing, flow', link') q. q))
      ]

  -- An exchange keeps every predicate on its record that each of its changes keeps, also where it fails, and it
  -- never fails for want of fuel.
  pub exchange-Ensures :
      (request : RequestHead) (flow : FlowRecord) (link : Link)
      → P flow
      → Ensures P Second (exchange lib request decision flow link)
  unfolding exchange
  exchange-Ensures request flow link p =
      attempt-Ensures P Second flow (target_of lib request.target) _
        (target_of-Fueled lib request.target) p
        (λ target t.
          let before =
            with_request target request decision.redact (snapshot decision.redact request.headers)
              flow in
          Ensures-bind P First Second
            (forward_request lib target (stripped request) decision before link) _
            (forward_request-Ensures target (stripped request) before link
              (stable.requested target request flow p))
            (λ (sent, link') q.
              Ensures-bind P Second Second (await_response lib decision sent link') _
                (await_response-Ensures sent link' q)
                (λ (response, answered, link'') r.
                  answer_client-Ensures (stripped request)
                    (mentions (codes "close") request.headers) response answered link'' r)))
