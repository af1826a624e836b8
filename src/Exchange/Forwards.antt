-- ===== src/Exchange/Forwards.antt =====
-- `_exchange` as a whole: what goes over the two connections, and what is recorded of it.
use decrypt0r_x.Prelude.{◌≡◌, Bool, ◌⊎◌, inl, inr, Bool-cases}
use decrypt0r_x.Policy.{Decision}
use decrypt0r_x.Recorder.Flows.{FlowRecord}
use decrypt0r_x.Http1.Heads.{RequestHead, ResponseHead}
use decrypt0r_x.Exchange.Fallible.{passes, attempt, bind-eq-passes, attempt-eq-passes}
use decrypt0r_x.Exchange.Links.{Library, Link}
use decrypt0r_x.Exchange.Recording.{snapshot, with_request}
use decrypt0r_x.Exchange.{
  is_101, stripped, target_of, forward_request, await_response, answer_client, exchange,
}
use decrypt0r_x.Exchange.Directions.{Asked, asked}
use decrypt0r_x.Exchange.Answers.{Answered, Upgraded, answered, upgraded}

module _ (lib : Library) (decision : Decision) where
  -- When an exchange passes, the request was forwarded without its hop-by-hop headers to the target that the
  -- code makes of its own, with a body as `body_framing` has it; the head of the response was read from the
  -- origin in time; and then either it is no 101, and was forwarded likewise, and the connection is kept as
  -- `keep_alive` says, or it is a 101, was forwarded as it was, and the two directions were relayed and
  -- counted. The record has the two heads and the bodies as they were before, up to the limit of capture.
  pub exchange-Forwards :
      (request : RequestHead) (flow : FlowRecord) (link : Link) (keep : Bool) (flow' : FlowRecord)
      (link' : Link)
      → exchange lib request decision flow link ≡ passes (keep, flow', link')
      → (response : ResponseHead) × (mid : FlowRecord) × (between : Link) × Asked lib decision
          request flow link response mid between
        × (Answered lib decision request response mid between keep flow' link'
            ⊎ Upgraded lib decision response mid between keep flow' link')
  unfolding exchange answer_client
  exchange-Forwards request flow link keep flow' link' h =
      let (target, t, h1) = bind-eq-passes (attempt flow (target_of lib request.target)) _ h in
      let before =
        with_request target request decision.redact (snapshot decision.redact request.headers)
          flow in
      let ((sent, mid_link), f, h2) =
        bind-eq-passes (forward_request lib target (stripped request) decision before link) _ h1 in
      let ((response, mid, between), a, h3) =
        bind-eq-passes (await_response lib decision sent mid_link) _ h2 in
      let first =
        asked lib decision request flow link target sent mid_link response mid between
          (attempt-eq-passes flow _ t) f a in
      elim (Bool-cases (is_101 response.status)) [
        | inl switches ↦ (
          response,
          mid,
          between,
          first,
          inr (
              upgraded lib decision response mid between keep flow' link' switches
                (rw switches at h3)),
        )
        | inr ordinary ↦ (
          response,
          mid,
          between,
          first,
          inl (
              answered lib decision request response mid between keep flow' link'
                (rw ordinary at h3)),
        )
      ]
