-- ===== src/Recorder/Bodies.antt =====
-- The bodies that reach the store.
use mathlib.Core.List.{Memᴰ}
use decrypt0r_x.Prelude.{
  ℕ, zero, suc, ◌≡◌, refl, Bool, ◌⊎◌, List, [], ◌∷◌, ◌++◌, Option, none, some, take, drop,
  Bool-cases, inl, inr,
}
use decrypt0r_x.Prelude.Int.{ℤ}
use decrypt0r_x.Text.{Text, codes}
use decrypt0r_x.Redaction.{Codecs, redact_body}
use decrypt0r_x.Storage.{body_key}
use decrypt0r_x.Recorder
use decrypt0r_x.Recorder.Flows.{FlowRecord}
use decrypt0r_x.Recorder.{
  Settings, Recorder, batch_size, is_full, submit, collect_from, collect, persist_body,
  persist_bodies, puts_of, Outcome, failed, committed, flush, pick, settle_with, settle, Event,
  submitted, collected, settled, step, run,
}

module _ (P : FlowRecord → Type 0) where
  abbrev pub All : List FlowRecord → Type 0
  All [] = Unit {0}
  All (flow ∷ flows) = P flow × All flows

  abbrev pub AllIn : List (List FlowRecord) → Type 0
  AllIn [] = Unit {0}
  AllIn (batch ∷ batches) = All batch × AllIn batches

  All-append : (a b : List FlowRecord) → All a → All b → All (a ++ b)
  All-append [] b h k = k
  All-append (flow ∷ a) b h k = (h.0, All-append a b h.1 k)

  All-take : (n : ℕ) (flows : List FlowRecord) → All flows → All (take n flows)
  All-take zero flows h = tt
  All-take (suc n) [] h = tt
  All-take (suc n) (flow ∷ flows) h = (h.0, All-take n flows h.1)

  All-drop : (n : ℕ) (flows : List FlowRecord) → All flows → All (drop n flows)
  All-drop zero flows h = h
  All-drop (suc n) [] h = tt
  All-drop (suc n) (flow ∷ flows) h = All-drop n flows h.1

  AllIn-append :
      (a : List (List FlowRecord)) (batch : List FlowRecord)
      → AllIn a
      → All batch
      → AllIn (a ++ batch ∷ [])
  AllIn-append [] batch h k = (k, tt)
  AllIn-append (b ∷ a) batch h k = (h.0, AllIn-append a batch h.1 k)

  abbrev Picked : Option (List FlowRecord × List (List FlowRecord)) → Type 0
  Picked none = Unit {0}
  Picked (some (batch, others)) = All batch × AllIn others

  pick-AllIn : (k : ℕ) (batches : List (List FlowRecord)) → AllIn batches → Picked (pick k batches)
  pick-AllIn zero [] h = tt
  pick-AllIn (suc k) [] h = tt
  pick-AllIn zero (b ∷ batches) h = h
  pick-AllIn (suc k) (b ∷ batches) h = go (pick k batches) (pick-AllIn k batches h.1)
    where
      go :
          (o : Option (List FlowRecord × List (List FlowRecord)))
          → Picked o
          → Picked (elim o [ none ↦ none | some (c, others) ↦ some (c, b ∷ others) ])
      go none q = tt
      go (some (c, others)) q = (q.0, (h.0, q.1))

-- the flows that are submitted
abbrev pub flows_in : List Event → List FlowRecord
flows_in [] = []
flows_in (submitted flow ∷ events) = flow ∷ flows_in events
flows_in (collected ∷ events) = flows_in events
flows_in (settled k outcome ∷ events) = flows_in events

module _ (lib : Codecs) (stores : Text → Text → Bool) (day : Text)
    (duration : FlowRecord → Option ℤ) (settings : Settings) where
  -- a call of the store for a body of this flow in one direction: the key is the one of both, and the bytes are what
  -- `redact_body` returns for that body and its own content type
  abbrev pub IsRedacted : FlowRecord → Text × Text → Type 0
  IsRedacted flow (key, bytes) =
      (body : Text) × (((flow.request_body ≡ some body)
          × (key ≡ body_key day flow.facts.id (codes "request"))
          × (bytes ≡ (redact_body lib body flow.facts.request_content_type).0))
        ⊎ ((flow.response_body ≡ some body)
            × (key ≡ body_key day flow.facts.id (codes "response"))
            × (bytes ≡ (redact_body lib body flow.facts.response_content_type).0)))

  -- every call is for a body of one of the flows
  abbrev pub AllRedacted : (FlowRecord → Type 0) → List (Text × Text) → Type 0
  AllRedacted P [] = Unit {0}
  AllRedacted P (put ∷ puts) =
      ((flow : FlowRecord) × P flow × IsRedacted flow put) × AllRedacted P puts

  module _ (P : FlowRecord → Type 0) where
    AllRedacted-append :
        (a b : List (Text × Text)) → AllRedacted P a → AllRedacted P b → AllRedacted P (a ++ b)
    AllRedacted-append [] b h k = k
    AllRedacted-append (put ∷ a) b h k = (h.0, AllRedacted-append a b h.1 k)

    abbrev request_puts : FlowRecord → Option Text → List (Text × Text)
    request_puts flow body =
        (persist_body lib stores day duration flow.facts.id (codes "request") body
          flow.facts.request_content_type).2

    abbrev response_puts : FlowRecord → Option Text → List (Text × Text)
    response_puts flow body =
        (persist_body lib stores day duration flow.facts.id (codes "response") body
          flow.facts.response_content_type).2

    request_puts-AllRedacted :
        (flow : FlowRecord) (body : Option Text)
        → P flow
        → flow.request_body ≡ body
        → AllRedacted P (request_puts flow body)
    request_puts-AllRedacted flow none p e = tt
    request_puts-AllRedacted flow (some []) p e = tt
    request_puts-AllRedacted flow (some (c ∷ body)) p e =
        ((flow, p, (c ∷ body, inl (e, refl, refl))), tt)

    response_puts-AllRedacted :
        (flow : FlowRecord) (body : Option Text)
        → P flow
        → flow.response_body ≡ body
        → AllRedacted P (response_puts flow body)
    response_puts-AllRedacted flow none p e = tt
    response_puts-AllRedacted flow (some []) p e = tt
    response_puts-AllRedacted flow (some (c ∷ body)) p e =
        ((flow, p, (c ∷ body, inr (e, refl, refl))), tt)

    puts_of-AllRedacted :
        (flows : List FlowRecord)
        → All P flows
        → AllRedacted P (puts_of lib stores day duration settings flows)
    unfolding puts_of persist_bodies
    puts_of-AllRedacted [] h = tt
    puts_of-AllRedacted (flow ∷ flows) h =
        AllRedacted-append _ (puts_of lib stores day duration settings flows)
          (AllRedacted-append _ _ (request_puts-AllRedacted flow flow.request_body h.0 refl)
            (response_puts-AllRedacted flow flow.response_body h.0 refl))
          (puts_of-AllRedacted flows h.1)

    -- the flows that wait and those in the hands of workers are among the flows, and so are those of the calls
    record IsSafe (r : Recorder) : Type 0 where
      waiting : All P r.queue
      held : AllIn P r.batches
      stored : AllRedacted P r.puts

    flush-IsSafe :
        (batch : List FlowRecord) (outcome : Outcome) (r : Recorder)
        → All P batch
        → IsSafe r
        → IsSafe (flush lib stores day duration settings batch outcome r)
    unfolding flush
    flush-IsSafe batch failed r b h = record {
      waiting = h.waiting;
      held = h.held;
      stored = AllRedacted-append r.puts _ h.stored (puts_of-AllRedacted batch b);
    }
    flush-IsSafe batch (committed sends) r b h = record {
      waiting = h.waiting;
      held = h.held;
      stored = AllRedacted-append r.puts _ h.stored (puts_of-AllRedacted batch b);
    }

    settle-IsSafe :
        (o : Option (List FlowRecord × List (List FlowRecord))) (outcome : Outcome) (r : Recorder)
        → Picked P o
        → IsSafe r
        → IsSafe (settle_with lib stores day duration settings o outcome r)
    settle-IsSafe none outcome r q h = h
    settle-IsSafe (some (batch, others)) outcome r q h =
        flush-IsSafe batch outcome (record r { batches = others }) q.0
          (record { waiting = h.waiting; held = q.1; stored = h.stored })

    submit-IsSafe :
        (flow : FlowRecord) (r : Recorder) → P flow → IsSafe r → IsSafe (submit settings flow r)
    unfolding submit
    submit-IsSafe flow r p h = elim (Bool-cases (is_full settings r)) [
      | inl full ↦ rw full (record { waiting = h.waiting; held = h.held; stored = h.stored })
      | inr room ↦ rw room (record {
        waiting = All-append P r.queue (flow ∷ []) h.waiting (p, tt);
        held = h.held;
        stored = h.stored;
      })
    ]

    collect-IsSafe :
        (q : List FlowRecord) (r : Recorder)
        → All P q
        → IsSafe r
        → IsSafe (collect_from settings r q)
    collect-IsSafe [] r k h = h
    collect-IsSafe (flow ∷ flows) r k h = record {
      waiting = All-drop P (batch_size settings) (flow ∷ flows) k;
      held = AllIn-append P r.batches _ h.held (All-take P (batch_size settings) (flow ∷ flows) k);
      stored = h.stored;
    }

    run-IsSafe :
        (events : List Event) (r : Recorder)
        → All P (flows_in events)
        → IsSafe r
        → IsSafe (run lib stores day duration settings events r)
    unfolding run step settle collect
    run-IsSafe [] r p h = h
    run-IsSafe (submitted flow ∷ events) r p h =
        run-IsSafe events (submit settings flow r) p.1 (submit-IsSafe flow r p.0 h)
    run-IsSafe (collected ∷ events) r p h =
        run-IsSafe events (collect_from settings r r.queue) p (collect-IsSafe r.queue r h.waiting h)
    run-IsSafe (settled k outcome ∷ events) r p h =
        run-IsSafe events
          (settle_with lib stores day duration settings (pick k r.batches) outcome r) p
          (settle-IsSafe (pick k r.batches) outcome r (pick-AllIn P k r.batches h.held) h)

  members :
      (flows all : List FlowRecord)
      → ((flow : FlowRecord) → Memᴰ flow flows → Memᴰ flow all)
      → All (λ flow. Memᴰ flow all) flows
  members [] all h = tt
  members (flow ∷ flows) all h =
      (h flow (Memᴰ.head refl), members flows all (λ f m. h f (Memᴰ.tail m)))

  -- Whatever is submitted, and in whatever order the workers take their steps, each call of the store is for the body
  -- of a request or of a response of one of the submitted flows: its key is that of the flow and of the direction, and
  -- its bytes are what `redact_body` returns for that body and the content type that the flow has for it.
  pub run-AllRedacted :
      (events : List Event)
      → AllRedacted
          (λ flow. Memᴰ flow (flows_in events))
          (run lib stores day duration settings events Recorder.init).puts
  unfolding Recorder.init
  run-AllRedacted events =
      (run-IsSafe (λ flow. Memᴰ flow (flows_in events)) events Recorder.init
        (members (flows_in events) (flows_in events) (λ flow m. m))
        (record { waiting = tt; held = tt; stored = tt })).stored
