-- ===== src/Session/Rounds.antt =====
-- The loop of `_serve_http`: it ends, it accounts for its flows, and what its exchanges keep true of them.
use decrypt0r_x.Prelude.{
  ℕ, zero, suc, ◌+◌, ◌≤◌, ◌<◌, ◌≡◌, ◌≢◌, refl, ap, Bool, true, false, List, [], ◌∷◌, ◌++◌, Option,
  none, some, ◌⊎◌, inl, inr, length, length-append, arith, Bool-cases,
}
use decrypt0r_x.Text.{Text, codes}
use decrypt0r_x.Policy.{Decision}
use decrypt0r_x.Result.{
  Result, ok, err, Error, ok-injective, protocol_error, value_error, connection_reset,
  incomplete_read, timed_out, out_of_fuel,
}
use decrypt0r_x.Recorder.Flows.{FlowRecord}
use decrypt0r_x.Http1.Stream.{Reader}
use decrypt0r_x.Http1.Heads.{RequestHead, read_request_head}
use decrypt0r_x.Http1.Heads.Total.{read_request_head-ne-out_of_fuel}
use decrypt0r_x.Http1.Heads.Progress.{read_request_head-takes}
use decrypt0r_x.Exchange.Links.{Library, Link, expires}
use decrypt0r_x.Exchange.{exchange}
use decrypt0r_x.Exchange.Fallible.{Stage, fails, passes}
use decrypt0r_x.Exchange.Forwards.{exchange-Forwards}
use decrypt0r_x.Exchange.Ensures.{Ensures}
use decrypt0r_x.Exchange.Invariants.{Stable, exchange-Ensures}
use decrypt0r_x.Session.{
  Settings, Stamp, Served, stopped, finish, with_error, served, failed, new_record, read_next,
  next_request, on_failure, on_exchange, on_request, rounds, serve_http,
}

-- An exchange only takes from the connection of the client.
exchange-client-le :
    (lib : Library) (decision : Decision) (request : RequestHead) (flow : FlowRecord) (link : Link)
    (keep : Bool) (flow' : FlowRecord) (link' : Link)
    → exchange lib request decision flow link ≡ passes (keep, flow', link')
    → length link'.client.rest ≤ length link.client.rest
exchange-client-le lib decision request flow link keep flow' link' h =
    let (response, mid, between, asked, after) =
      exchange-Forwards lib decision request flow link keep flow' link' h in
    let body = asked.forwarded in
    elim after [
      | inl answered ↦
          let same = ap (λ (r : Reader). length r.rest) answered.client_kept in
          omega (arith, ap length body.taken, length-append body.wire between.client.rest)
      | inr upgraded ↦
          let copied = upgraded.up_copied in
          omega (
            arith,
            ap length body.taken,
            length-append body.wire between.client.rest,
            ap length copied.taken,
            length-append upgraded.up link'.client.rest,
          )
    ]

-- how many bytes the head of the next request stands for, if it was read before
abbrev ahead : Option RequestHead → ℕ
ahead none = 0
ahead (some head) = 1

err_same {ℓ} : {A : Type ℓ} {d e : Error} → ◌≡◌ {A = Result A} (err d) (err e) → d ≡ e
err_same h = cc

next_request-ends :
    (pending : Option RequestHead) (link : Link) → next_request pending link ≢ err out_of_fuel
unfolding next_request
next_request-ends (some head) link h = cc
next_request-ends none link h = elim (Bool-cases (expires link.waits)) [
  | inl late ↦
      let e : ◌≡◌ {A = Result (Option RequestHead × Link)} (ok (none, link)) (err out_of_fuel) =
        rw late at h in
      cc
  | inr early ↦
      go (read_request_head link.client) (read_request_head-ne-out_of_fuel link.client)
        (rw early at h)
]
  where
    go :
        (m : Result (Option RequestHead × Reader))
        → m ≢ err out_of_fuel
        → read_next link m ≡ err out_of_fuel
        → ⊥
    go (err e) k q = k (ap err (err_same q))
    go (ok got) k q = cc

next_request-less :
    (pending : Option RequestHead) (link : Link) (request : RequestHead) (link' : Link)
    → next_request pending link ≡ ok (some request, link')
    → length link'.client.rest < ahead pending + length link.client.rest
unfolding next_request
next_request-less (some head) link request link' h =
    let same : link ≡ link' = ap (λ (x : Option RequestHead × Link). x.1) (ok-injective h) in
    omega (arith, ap (λ (l : Link). length l.client.rest) same)
next_request-less none link request link' h = elim (Bool-cases (expires link.waits)) [
  | inl late ↦
      let e : ◌≡◌ {A = Result (Option RequestHead × Link)} (ok (none, link))
          (ok (some request, link')) =
        rw late at h in
      cc
  | inr early ↦ go (read_request_head link.client) refl (rw early at h)
]
  where
    go :
        (m : Result (Option RequestHead × Reader))
        → read_request_head link.client ≡ m
        → read_next link m ≡ ok (some request, link')
        → length link'.client.rest < 0 + length link.client.rest
    go (err e) k q = cc
    go (ok (none, reader)) k q = cc
    go (ok (some head, reader)) k q =
        let same =
          ap (λ (x : Option RequestHead × Link). length x.1.client.rest) (ok-injective q) in
        omega (arith, read_request_head-takes link.client reader head k, same)

abbrev pub AllFlows : (FlowRecord → Type 0) → List FlowRecord → Type 0
AllFlows P [] = Unit {0}
AllFlows P (flow ∷ flows) = P flow × AllFlows P flows

-- The loop has ended by itself; its flows have the predicate; and each counted exchange has left one flow, besides
-- at most one of an exchange that failed, after which the loop returns.
pub record IsServed (P : FlowRecord → Type 0) (s : Served) : Type 0 where
  pub ended : s.ending ≢ err out_of_fuel
  pub all : AllFlows P s.flows
  pub counted :
      (length s.flows ≡ s.completed) ⊎ ((length s.flows ≡ s.completed + 1) × (s.ending ≡ ok tt))

module _ (P : FlowRecord → Type 0) where
  stopped-IsServed :
      (ending : Result (Unit {0})) → ending ≢ err out_of_fuel → IsServed P (stopped ending)
  stopped-IsServed ending h = record { ended = h; all = tt; counted = inl refl }

  served-IsServed :
      (flow : FlowRecord) (later : Served)
      → P flow
      → IsServed P later
      → IsServed P (served flow later)
  served-IsServed flow later p h = record {
    ended = h.ended;
    all = (p, h.all);
    counted = elim h.counted [ inl e ↦ inl (omega arith) | inr q ↦ inr (omega (arith, q.0), q.1) ];
  }

  failed-IsServed : (flow : FlowRecord) → P flow → IsServed P (failed flow)
  failed-IsServed flow p = record {
    ended = λ q. cc;
    all = (p, tt);
    counted = inr (omega arith, refl);
  }

module _ (lib : Library) (settings : Settings) (decision : Decision) (stamps : ℕ → Stamp)
    (P : FlowRecord → Type 0) (stable : Stable lib decision P)
    (start : (stamp : Stamp) → P (new_record settings decision stamp))
    (finished : (stamp : Stamp) (flow : FlowRecord) → P flow → P (finish stamp flow))
    (errs : (text : Text) (flow : FlowRecord) → P flow → P (with_error text flow)) where
  on_failure-IsServed :
      (stamp : Stamp) (e : Error) (flow : FlowRecord)
      → e ≢ out_of_fuel
      → P flow
      → IsServed P (on_failure lib settings decision stamps stamp e flow)
  on_failure-IsServed stamp protocol_error flow h p =
      failed-IsServed P _ (finished stamp _ (errs (lib.describe protocol_error) flow p))
  on_failure-IsServed stamp connection_reset flow h p = failed-IsServed P _ (
      finished stamp _ (errs (codes "connection closed: " ++ lib.describe connection_reset) flow p))
  on_failure-IsServed stamp incomplete_read flow h p =
      failed-IsServed P _ (
        finished stamp _
          (errs (codes "connection closed: " ++ lib.describe incomplete_read) flow p))
  on_failure-IsServed stamp value_error flow h p = stopped-IsServed P (err value_error) (λ q. cc)
  on_failure-IsServed stamp timed_out flow h p = stopped-IsServed P (err timed_out) (λ q. cc)
  on_failure-IsServed stamp out_of_fuel flow h p = absurd (h refl)

  on_exchange-IsServed :
      (stamp : Stamp) (next : Link → Served) (m : Stage (Bool × FlowRecord × Link))
      → Ensures P (λ (r : Bool × FlowRecord × Link). P r.1) m
      → ((flow : FlowRecord) (link : Link) → m ≡ passes (true, flow, link) → IsServed P (next link))
      → IsServed P (on_exchange lib settings decision stamps stamp next m)
  on_exchange-IsServed stamp next (fails e flow) h k = on_failure-IsServed stamp e flow h.0 h.1
  on_exchange-IsServed stamp next (passes (true, flow, link)) h k =
      served-IsServed P _ (next link) (finished stamp flow h) (k flow link refl)
  on_exchange-IsServed stamp next (passes (false, flow, link)) h k =
      served-IsServed P _ (stopped (ok tt)) (finished stamp flow h)
        (stopped-IsServed P (ok tt) (λ q. cc))

  on_request-IsServed :
      (stamp : Stamp) (next : Link → Served) (bound : ℕ) (got : Result (Option RequestHead × Link))
      → got ≢ err out_of_fuel
      → ((request : RequestHead) (link : Link)
          → got ≡ ok (some request, link)
          → length link.client.rest < bound)
      → ((link : Link) → length link.client.rest < bound → IsServed P (next link))
      → IsServed P (on_request lib settings decision stamps stamp next got)
  on_request-IsServed stamp next bound (err e) h less k =
      stopped-IsServed P (err e) (λ q. h (ap err (err_same q)))
  on_request-IsServed stamp next bound (ok (none, link)) h less k =
      stopped-IsServed P (ok tt) (λ q. cc)
  on_request-IsServed stamp next bound (ok (some request, link)) h less k =
      let fresh = new_record settings decision stamp in
      on_exchange-IsServed stamp next (exchange lib request decision fresh link)
        (exchange-Ensures lib decision P stable request fresh link (start stamp))
        (λ flow link' passed. k link' (
          omega (
            arith,
            less request link refl,
            exchange-client-le lib decision request fresh link true flow link' passed,
          )))

  rounds-IsServed :
      (fuel k : ℕ) (pending : Option RequestHead) (link : Link)
      → ahead pending + length link.client.rest < fuel
      → IsServed P (rounds lib settings decision stamps fuel k pending link)
  unfolding rounds
  rounds-IsServed zero k pending link h = absurd (omega arith)
  rounds-IsServed (suc fuel) k pending link h =
      on_request-IsServed (stamps k) _ fuel (next_request pending link)
        (next_request-ends pending link)
        (λ request link' got. omega (arith, next_request-less pending link request link' got))
        (λ link' less. rounds-IsServed fuel (suc k) none link' (omega arith))

  -- On connections whose streams end at some point, `_serve_http` ends by itself; all flows that it has submitted
  -- have a predicate that
  -- new records have and that every change of an exchange, the end and the error of a record keep; and it has
  -- submitted as many flows as it has counted exchanges, or one more, and then it returns.
  pub serve_http-IsServed :
      (pending : Option RequestHead) (link : Link)
      → IsServed P (serve_http lib settings decision stamps pending link)
  unfolding serve_http
  serve_http-IsServed pending link = rounds-IsServed _ 0 pending link (go pending)
    where
      go :
          (pending : Option RequestHead)
          → ahead pending + length link.client.rest < suc (suc (length link.client.rest))
      go none = omega arith
      go (some head) = omega arith
