-- ===== src/Recorder/Counts.antt =====
-- Where a submitted flow can be, and the counters of the recorder.
use decrypt0r_x.Prelude.{
  ℕ, zero, suc, ◌+◌, ◌-◌, ◌≡◌, refl, ap, subst, Bool, true, ◌||◌, List, [], ◌∷◌, ◌++◌, Option, none,
  some, arith, length, length-append, length-take, length-drop, take, leb, ◌==◌, Bool-cases, inl,
  inr,
}
use decrypt0r_x.Prelude.Int.{ℤ}
use decrypt0r_x.Text.{Text}
use decrypt0r_x.Redaction.{Codecs}
use decrypt0r_x.Recorder.Flows.{FlowRecord}
use decrypt0r_x.Recorder.{
  Settings, Recorder, is_full, submit, batch_size, collect_from, collect, rows_of, Outcome, failed,
  committed, flush, pick, settle_with, settle, Event, submitted, collected, settled, step, run,
}

abbrev pub in_batches : List (List FlowRecord) → ℕ
in_batches [] = 0
in_batches (batch ∷ batches) = length batch + in_batches batches

-- where a flow can be: waiting, in the hands of a worker, dropped, written or lost
abbrev pub accounted : Recorder → ℕ
accounted r = length r.queue + in_batches r.batches + r.dropped + r.written + r.lost

abbrev pub within : Settings → Recorder → Bool
within settings r =
    settings.record_queue_size == 0 || leb (length r.queue) settings.record_queue_size

pub record IsConsistent (settings : Settings) (n : ℕ) (r : Recorder) : Type 0 where
  pub counted : accounted r ≡ n
  pub stored : length r.rows ≡ r.written
  pub bounded : within settings r ≡ true

in_batches-append :
    (batches : List (List FlowRecord)) (batch : List FlowRecord)
    → in_batches (batches ++ batch ∷ []) ≡ in_batches batches + length batch
in_batches-append [] batch = omega arith
in_batches-append (b ∷ batches) batch = omega (arith, in_batches-append batches batch)

submit-IsConsistent :
    (settings : Settings) (flow : FlowRecord) (n : ℕ) (r : Recorder)
    → IsConsistent settings n r
    → IsConsistent settings (n + 1) (submit settings flow r)
unfolding submit
submit-IsConsistent settings flow n r h = elim (Bool-cases (is_full settings r)) [
  | inl full ↦
      rw full
        (record { counted = omega (arith, h.counted); stored = h.stored; bounded = h.bounded })
  | inr room ↦ rw room (record {
    counted = omega (arith, h.counted, length-append r.queue (flow ∷ []));
    stored = h.stored;
    bounded = ground (arith, length-append r.queue (flow ∷ []), h.bounded);
  })
]

collect-IsConsistent :
    (settings : Settings) (n : ℕ) (r : Recorder)
    → IsConsistent settings n r
    → IsConsistent settings n (collect settings r)
unfolding collect
collect-IsConsistent settings n r h = go r.queue refl
  where
    go : (q : List FlowRecord) → r.queue ≡ q → IsConsistent settings n (collect_from settings r q)
    go [] e = h
    go (flow ∷ flows) e =
        let dropped = length-drop (batch_size settings) (flow ∷ flows) in
        let taken = length-take (batch_size settings) (flow ∷ flows) in
        let same : length r.queue ≡ length (flow ∷ flows) = ap length e in
        let more = in_batches-append r.batches (take (batch_size settings) (flow ∷ flows)) in
        record {
          counted = omega (arith, h.counted, dropped, taken, same, more);
          stored = h.stored;
          bounded = ground (arith, h.bounded, dropped, same);
        }

module _ (lib : Codecs) (stores : Text → Text → Bool) (day : Text)
    (duration : FlowRecord → Option ℤ) (settings : Settings) where
  length-rows_of :
      (flows : List FlowRecord)
      → length (rows_of lib stores day duration settings flows) ≡ length flows
  length-rows_of [] = refl
  length-rows_of (flow ∷ flows) = omega (arith, length-rows_of flows)

  flush-IsConsistent :
      (batch : List FlowRecord) (outcome : Outcome) (n : ℕ) (r : Recorder)
      → IsConsistent settings n r
      → IsConsistent settings
          (n + length batch)
          (flush lib stores day duration settings batch outcome r)
  unfolding flush
  flush-IsConsistent batch failed n r h = record {
    counted = omega (arith, h.counted);
    stored = h.stored;
    bounded = h.bounded;
  }
  flush-IsConsistent batch (committed sends) n r h = record {
    counted = omega (arith, h.counted);
    stored = omega (
      arith,
      h.stored,
      length-append r.rows (rows_of lib stores day duration settings batch),
      length-rows_of batch,
    );
    bounded = h.bounded;
  }

  -- what is left when a batch is taken
  abbrev Picked :
      List (List FlowRecord) → Option (List FlowRecord × List (List FlowRecord)) → Type 0
  Picked batches none = Unit {0}
  Picked batches (some (batch, others)) = in_batches batches ≡ length batch + in_batches others

  pick-Picked : (k : ℕ) (batches : List (List FlowRecord)) → Picked batches (pick k batches)
  pick-Picked k [] = tt
  pick-Picked zero (b ∷ batches) = refl
  pick-Picked (suc k) (b ∷ batches) = go (pick k batches) (pick-Picked k batches)
    where
      go :
          (o : Option (List FlowRecord × List (List FlowRecord)))
          → Picked batches o
          → Picked (b ∷ batches) (elim o [ none ↦ none | some (c, others) ↦ some (c, b ∷ others) ])
      go none h = tt
      go (some (c, others)) h = omega (arith, h)

  settle_with-IsConsistent :
      (o : Option (List FlowRecord × List (List FlowRecord))) (outcome : Outcome) (n : ℕ)
      (r : Recorder)
      → Picked r.batches o
      → IsConsistent settings n r
      → IsConsistent settings n (settle_with lib stores day duration settings o outcome r)
  settle_with-IsConsistent none outcome n r p h = h
  settle_with-IsConsistent (some (batch, others)) outcome n r p h =
      let before : IsConsistent settings (n - length batch) (record r { batches = others }) =
        record { counted = omega (arith, h.counted, p); stored = h.stored; bounded = h.bounded } in
      let whole : (n - length batch) + length batch ≡ n = omega (arith, h.counted, p) in
      subst
        (λ m.
          IsConsistent settings m
            (flush lib stores day duration settings batch outcome (record r { batches = others })))
        whole
        (flush-IsConsistent batch outcome (n - length batch) (record r { batches = others }) before)

  abbrev pub submissions : List Event → ℕ
  submissions [] = 0
  submissions (submitted flow ∷ events) = suc (submissions events)
  submissions (collected ∷ events) = submissions events
  submissions (settled k outcome ∷ events) = submissions events

  -- In any order of submissions and of the workers' steps, from a state that accounts for `n`
  -- flows: the flows that wait, are in the hands of workers, were dropped, were written or were
  -- lost with their batch are `n` and those submitted since, together; there are as many rows as
  -- flows written; and the queue is within its size.
  pub run-IsConsistent :
      (events : List Event) (n : ℕ) (r : Recorder)
      → IsConsistent settings n r
      → IsConsistent settings
          (n + submissions events)
          (run lib stores day duration settings events r)
  unfolding run step settle
  run-IsConsistent [] n r h = subst (λ m. IsConsistent settings m r) (omega arith) h
  run-IsConsistent (submitted flow ∷ events) n r h =
      subst
        (λ m.
          IsConsistent settings m
            (run lib stores day duration settings events (submit settings flow r)))
        (omega arith)
        (run-IsConsistent events (n + 1) (submit settings flow r)
          (submit-IsConsistent settings flow n r h))
  run-IsConsistent (collected ∷ events) n r h =
      run-IsConsistent events n (collect settings r) (collect-IsConsistent settings n r h)
  run-IsConsistent (settled k outcome ∷ events) n r h =
      run-IsConsistent events n
        (settle_with lib stores day duration settings (pick k r.batches) outcome r)
        (settle_with-IsConsistent (pick k r.batches) outcome n r (pick-Picked k r.batches) h)
