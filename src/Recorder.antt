-- ===== src/Recorder.antt =====
-- services/proxy/decrypt0rx_proxy/recorder.py: flows wait in a bounded queue until a worker takes a batch of
-- them, stores their redacted bodies and commits their rows. The steps of several workers are events in
-- any order: a worker takes a batch in one step, and what becomes of the batch is a later one.
pub mod Flows
pub mod Counts
pub mod Bodies
pub mod Drains
use decrypt0r_x.Prelude.{
  ℕ, zero, suc, ◌+◌, Bool, true, false, ◌||◌, List, [], ◌∷◌, ◌++◌, map, Option, none, some,
  if◌then◌else◌, length, take, drop, leb, ◌==◌,
}
use decrypt0r_x.Prelude.Int.{ℤ}
use decrypt0r_x.Text.{Text, codes}
use decrypt0r_x.Redaction.{Codecs, redact_body}
use decrypt0r_x.Storage.{body_key}
use decrypt0r_x.Recorder.Flows.{FlowRecord, Flow, LivePayload, live_payload}

-- the settings that the recorder reads; the size of a queue that is 0 is without bound
pub record Settings : Type 0 where
  pub record_queue_size : ℕ
  pub record_batch_size : ℕ
  pub node_id : Text

-- `rows`, `puts` and `published` are the committed rows, the calls of the body store and the messages on
-- the channel of flows. `batches` are in the hands of workers, and `lost` counts those that failed.
pub record Recorder : Type 0 where
  pub queue : List FlowRecord
  pub batches : List (List FlowRecord)
  pub dropped : ℕ
  pub written : ℕ
  pub lost : ℕ
  pub rows : List Flow
  pub puts : List (Text × Text)
  pub published : List LivePayload

unfoldable pub init : Recorder
init = record {
  queue = [];
  batches = [];
  dropped = 0;
  written = 0;
  lost = 0;
  rows = [];
  puts = [];
  published = [];
}

-- `put_nowait` raises `QueueFull`
abbrev pub is_full : Settings → Recorder → Bool
is_full settings r =
    if settings.record_queue_size == 0
    then false
    else leb settings.record_queue_size (length r.queue)

unfoldable pub submit : Settings → FlowRecord → Recorder → Recorder
submit settings flow r =
    if is_full settings r
    then record r { dropped = r.dropped + 1 }
    else record r { queue = r.queue ++ flow ∷ [] }

-- the size of a batch: the record that the worker waited for, and more up to the setting
abbrev pub batch_size : Settings → ℕ
batch_size settings = if settings.record_batch_size == 0 then 1 else settings.record_batch_size

abbrev pub collect_from : Settings → Recorder → List FlowRecord → Recorder
collect_from settings r [] = r
collect_from settings r (flow ∷ flows) = record r {
  queue = drop (batch_size settings) (flow ∷ flows);
  batches = r.batches ++ take (batch_size settings) (flow ∷ flows) ∷ [];
}

-- a worker gets a batch, or times out on an empty queue
unfoldable pub collect : Settings → Recorder → Recorder
collect settings r = collect_from settings r r.queue

-- what becomes of a batch: the commit raises, or it returns and the messages are sent or not
pub data Outcome : Type 0 where
  failed : Outcome
  committed : Bool → Outcome

-- the batch in the k-th place, if there is one, and the others
abbrev pub pick : ℕ → List (List FlowRecord) → Option (List FlowRecord × List (List FlowRecord))
pick k [] = none
pick zero (b ∷ batches) = some (b, batches)
pick (suc k) (b ∷ batches) = elim (pick k batches) [
  | none ↦ none
  | some (c, others) ↦ some (c, b ∷ others)
]

pub data Event : Type 0 where
  submitted : FlowRecord → Event
  collected : Event
  settled : ℕ → Outcome → Event

-- `stores` tells which calls of the body store return, and `day` is the day of the key
module _ (lib : Codecs) (stores : Text → Text → Bool) (day : Text)
    (duration : FlowRecord → Option ℤ) where
  -- the key that the row refers to, whether the body changed, and the call of the store
  abbrev pub Persisted : Type 0
  Persisted = Option Text × Bool × List (Text × Text)

  abbrev pub put_body : Text → Text × Bool → Persisted
  put_body key (bytes, changed) =
      ((if stores key bytes then some key else none), changed, (key, bytes) ∷ [])

  -- `if record.request_body`, and the same for the response
  abbrev pub persist_body : Text → Text → Option Text → Option Text → Persisted
  persist_body flow_id direction none content_type = (none, false, [])
  persist_body flow_id direction (some []) content_type = (none, false, [])
  persist_body flow_id direction (some (c ∷ body)) content_type =
      put_body (body_key day flow_id direction) (redact_body lib (c ∷ body) content_type)

  -- `_persist_bodies`: the row, and the calls of the store
  unfoldable pub persist_bodies : Settings → FlowRecord → Flow × List (Text × Text)
  persist_bodies settings flow =
      let (request_ref, request_changed, request_puts) =
        persist_body flow.facts.id (codes "request") flow.request_body
          flow.facts.request_content_type in
      let (response_ref, response_changed, response_puts) =
        persist_body flow.facts.id (codes "response") flow.response_body
          flow.facts.response_content_type in
      (
        record {
          facts = flow.facts;
          duration_ms = duration flow;
          request_body_ref = request_ref;
          response_body_ref = response_ref;
          redacted = flow.redacted || request_changed || response_changed;
          proxy_node = settings.node_id;
        },
        request_puts ++ response_puts,
      )

  abbrev pub rows_of : Settings → List FlowRecord → List Flow
  rows_of settings flows = map (λ flow. (persist_bodies settings flow).0) flows

  pub puts_of : Settings → List FlowRecord → List (Text × Text)
  unfolding persist_bodies
  puts_of settings [] = []
  puts_of settings (flow ∷ flows) = (persist_bodies settings flow).1 ++ puts_of settings flows

  -- `_flush` of one batch, and the handler of its exception
  unfoldable pub flush : Settings → List FlowRecord → Outcome → Recorder → Recorder
  unfolding puts_of
  flush settings batch failed r = record r {
    puts = r.puts ++ puts_of settings batch;
    lost = r.lost + length batch;
  }
  flush settings batch (committed sends) r = record r {
    puts = r.puts ++ puts_of settings batch;
    rows = r.rows ++ rows_of settings batch;
    written = r.written + length batch;
    published = r.published ++ (if sends then map (live_payload duration) batch else []);
  }

  abbrev pub settle_with :
      Settings → Option (List FlowRecord × List (List FlowRecord)) → Outcome → Recorder → Recorder
  settle_with settings none outcome r = r
  settle_with settings (some (batch, others)) outcome r =
      flush settings batch outcome (record r { batches = others })

  -- the worker with the k-th batch finishes it
  unfoldable pub settle : Settings → ℕ → Outcome → Recorder → Recorder
  unfolding flush
  settle settings k outcome r = settle_with settings (pick k r.batches) outcome r

  unfoldable pub step : Settings → Event → Recorder → Recorder
  unfolding submit collect settle
  step settings (submitted flow) r = submit settings flow r
  step settings collected r = collect settings r
  step settings (settled k outcome) r = settle settings k outcome r

  unfoldable pub run : Settings → List Event → Recorder → Recorder
  unfolding step
  run settings [] r = r
  run settings (e ∷ events) r = run settings events (step settings e r)
