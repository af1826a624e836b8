-- ===== src/Session/Flows.antt =====
-- The flows that `_serve_http` submits: whose they are, and what they may hold.
use decrypt0r_x.Prelude.{
  ℕ, ◌≤◌, ◌≡◌, refl, Bool, true, false, List, [], ◌∷◌, Option, none, some, ◌⊎◌, inl, inr, length,
  arith, Bool-cases, if◌then◌else◌,
}
use decrypt0r_x.Prelude.Int.{pos_part}
use decrypt0r_x.Text.{Text}
use decrypt0r_x.Policy.{Decision}
use decrypt0r_x.Recorder.Flows.{FlowRecord}
use decrypt0r_x.Redaction.{redacted, is_sensitive_header}
use decrypt0r_x.Redaction.Bodies.{all_marked, redact_headers-eq}
use decrypt0r_x.Http1.Headers.{Headers, to_dict}
use decrypt0r_x.Http1.Heads.{RequestHead}
use decrypt0r_x.Exchange.Links.{Library, Link}
use decrypt0r_x.Exchange.Recording.{snapshot, capture_limit, body_of}
use decrypt0r_x.Exchange.Invariants.{Stable}
use decrypt0r_x.Session.{Settings, Stamp, new_record, is_https, serve_http}
use decrypt0r_x.Session.Rounds.{AllFlows, serve_http-IsServed}

-- the facts that a flow takes from its connection and from the decision of the policy
abbrev pub IsFrom : Settings → Decision → FlowRecord → Type 0
IsFrom settings decision flow =
    (flow.facts.connection_id ≡ settings.connection_id)
    × (flow.facts.client_ip ≡ settings.client_ip)
    × (flow.facts.client_port ≡ settings.client_port)
    × (flow.facts.host ≡ settings.host)
    × (flow.facts.port ≡ settings.port)
    × (flow.facts.scheme ≡ settings.scheme)
    × (flow.facts.intercepted ≡ is_https settings.scheme)
    × (flow.facts.action ≡ decision.action)
    × (flow.facts.rule_id ≡ decision.rule_id)
    × (flow.facts.rule_name ≡ decision.rule_name)

-- each header with a sensitive name has the mark for its value
abbrev pub AllMarked : List (Text × Text) → Type 0
AllMarked [] = Unit {0}
AllMarked ((key, value) ∷ headers) =
    ((is_sensitive_header key ≡ false) ⊎ (value ≡ redacted)) × AllMarked headers

abbrev pub MarkedIf : Bool → Option (List (Text × Text)) → Type 0
MarkedIf true (some headers) = AllMarked headers
MarkedIf true none = Unit {0}
MarkedIf false headers = Unit {0}

abbrev pub HeldIf : Bool → Option Text → Type 0
HeldIf false (some body) = ⊥
HeldIf false none = Unit {0}
HeldIf true body = Unit {0}

-- what a decision asks of its flows: no sensitive header without the mark if it redacts, and no body if it does not
-- capture
abbrev pub IsPrivate : Decision → FlowRecord → Type 0
IsPrivate decision flow =
    MarkedIf decision.redact flow.facts.request_headers
    × MarkedIf decision.redact flow.facts.response_headers
    × HeldIf decision.capture_bodies flow.request_body
    × HeldIf decision.capture_bodies flow.response_body

all_marked-AllMarked :
    (headers : List (Text × Text)) → AllMarked (all_marked is_sensitive_header headers)
all_marked-AllMarked [] = tt
all_marked-AllMarked ((key, value) ∷ headers) = elim (Bool-cases (is_sensitive_header key)) [
  | inl sensitive ↦ rw sensitive (inr refl, all_marked-AllMarked headers)
  | inr plain ↦ rw plain (inl plain, all_marked-AllMarked headers)
]

snapshot-marked : (redact : Bool) (h : Headers) → MarkedIf redact (some (snapshot redact h).0)
unfolding snapshot
snapshot-marked false h = tt
snapshot-marked true h = rw (redact_headers-eq (to_dict h)) (all_marked-AllMarked (to_dict h))

body_of-held :
    (lib : Library) (decision : Decision) (captured : Text) (h : Headers) (before : Option Text)
    → length captured ≤ pos_part (capture_limit decision)
    → HeldIf decision.capture_bodies before
    → HeldIf decision.capture_bodies (body_of lib captured h before)
body_of-held lib decision [] h before small held = held
body_of-held lib decision (c ∷ captured) h before small held = go decision.capture_bodies small
  where
    go :
        (capture : Bool)
        → length (c ∷ captured) ≤ (if capture then decision.capture_max_bytes else 0)
        → HeldIf capture (body_of lib (c ∷ captured) h before)
    go true fits = tt
    go false fits = absurd (omega arith)

module _ (lib : Library) (settings : Settings) (decision : Decision) (stamps : ℕ → Stamp) where
  IsPrivate-Stable : Stable lib decision (IsPrivate decision)
  IsPrivate-Stable = record {
    requested =
        λ target request flow p. (snapshot-marked decision.redact request.headers, p.1, p.2, p.3);
    request_copied = λ h body flow small p.
        (p.0, p.1, body_of-held lib decision body.captured h flow.request_body small p.2, p.3);
    responded =
        λ response flow p. (p.0, snapshot-marked decision.redact response.headers, p.2, p.3);
    response_copied = λ h body flow small p.
        (p.0, p.1, p.2, body_of-held lib decision body.captured h flow.response_body small p.3);
    cleared = λ flow p. p;
    relayed = λ up down flow p. p;
  }

  new_record-IsPrivate : (stamp : Stamp) → IsPrivate decision (new_record settings decision stamp)
  new_record-IsPrivate stamp = go decision.redact decision.capture_bodies
    where
      go :
          (redact capture : Bool)
          → MarkedIf redact none × MarkedIf redact none × HeldIf capture none × HeldIf capture none
      go true true = (tt, tt, tt, tt)
      go true false = (tt, tt, tt, tt)
      go false true = (tt, tt, tt, tt)
      go false false = (tt, tt, tt, tt)

  -- No flow that `_serve_http` submits, also after an error, has a sensitive header without the mark if the decision
  -- says to redact, and none has a body if it does not say to capture.
  pub serve_http-IsPrivate :
      (pending : Option RequestHead) (link : Link)
      → AllFlows (IsPrivate decision) (serve_http lib settings decision stamps pending link).flows
  serve_http-IsPrivate pending link =
      let held =
        serve_http-IsServed lib settings decision stamps (IsPrivate decision) IsPrivate-Stable
          new_record-IsPrivate (λ stamp flow p. p) (λ text flow p. p) pending link in
      held.all
