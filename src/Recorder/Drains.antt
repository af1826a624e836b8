-- ===== src/Recorder/Drains.antt =====
-- What is waiting can always be written: the work that empties the queue.
use mathlib.Core.List.{map-append}
use decrypt0r_x.Prelude.{
  ℕ, zero, suc, ◌≤◌, ◌<◌, ◌≡◌, refl, ap, sym, ◌∙◌, subst, Bool, true, List, [], ◌∷◌, ◌++◌,
  append-nil, append_assoc, Option, arith, length, take, drop, length-drop, take-append-drop,
}
use decrypt0r_x.Prelude.Int.{ℤ}
use decrypt0r_x.Text.{Text}
use decrypt0r_x.Redaction.{Codecs}
use decrypt0r_x.Recorder.Flows.{FlowRecord}
use decrypt0r_x.Recorder.{
  Settings, Recorder, batch_size, collect, rows_of, committed, flush, settle, Event, collected,
  settled, run,
}

-- the flows in the hands of the workers
abbrev pub in_hands : List (List FlowRecord) → List FlowRecord
in_hands [] = []
in_hands (batch ∷ batches) = batch ++ in_hands batches

-- a worker finishes each of `m` batches, and then `n` times one is collected and finished; the commits return
abbrev pub finishing : ℕ → List Event
finishing zero = []
finishing (suc m) = settled 0 (committed true) ∷ finishing m

abbrev pub working : ℕ → List Event
working zero = []
working (suc n) = collected ∷ settled 0 (committed true) ∷ working n

module _ (lib : Codecs) (stores : Text → Text → Bool) (day : Text)
    (duration : FlowRecord → Option ℤ) (settings : Settings) where
  abbrev runs : List Event → Recorder → Recorder
  runs = run lib stores day duration settings

  -- nothing waits any more, and these flows have been written
  pub record Written (flows : List FlowRecord) (r r' : Recorder) : Type 0 where
    pub empty : r'.queue ≡ []
    pub idle : r'.batches ≡ []
    pub rows : r'.rows ≡ r.rows ++ rows_of lib stores day duration settings flows
    pub dropped : r'.dropped ≡ r.dropped
    pub lost : r'.lost ≡ r.lost

  batch_size-pos : 0 < batch_size settings
  batch_size-pos = ground arith

  -- the recorder with this queue and these batches
  abbrev pub state : List FlowRecord → List (List FlowRecord) → Recorder → Recorder
  state queue batches r = record r { queue = queue; batches = batches }

  -- the recorder after a batch is written
  abbrev written_batch : List FlowRecord → Recorder → Recorder
  written_batch batch r = flush lib stores day duration settings batch (committed true) r

  then_rest :
      (batch flows : List FlowRecord) (r r' : Recorder)
      → Written flows (written_batch batch r) r'
      → Written (batch ++ flows) r r'
  unfolding flush
  then_rest batch flows r r' w = record {
    empty = w.empty;
    idle = w.idle;
    rows =
        w.rows
        ∙ append_assoc r.rows (rows_of lib stores day duration settings batch)
            (rows_of lib stores day duration settings flows)
        ∙ ap (λ rows. r.rows ++ rows) (sym (map-append _ batch flows));
    dropped = w.dropped;
    lost = w.lost;
  }

  shorter :
      (k : ℕ) (flow : FlowRecord) (flows : List FlowRecord) (n : ℕ)
      → 0 < k
      → length (flow ∷ flows) ≤ suc n
      → length (drop k (flow ∷ flows)) ≤ n
  shorter k flow flows n pos enough = omega (arith, length-drop k (flow ∷ flows))

  working-Written :
      (n : ℕ) (queue : List FlowRecord) (r : Recorder)
      → length queue ≤ n
      → Written queue r (runs (working n) (state queue [] r))
  unfolding run collect settle flush
  working-Written zero [] r enough = record {
    empty = refl;
    idle = refl;
    rows = sym (append-nil r.rows);
    dropped = refl;
    lost = refl;
  }
  working-Written (suc n) [] r enough = working-Written n [] r (omega arith)
  working-Written zero (flow ∷ flows) r enough = ground (arith, enough)
  working-Written (suc n) (flow ∷ flows) r enough =
      let k = batch_size settings in
      subst (λ all. Written all r (runs (working (suc n)) (state (flow ∷ flows) [] r)))
        (take-append-drop k (flow ∷ flows))
        (then_rest (take k (flow ∷ flows)) (drop k (flow ∷ flows)) r _ (
          working-Written n (drop k (flow ∷ flows)) (written_batch (take k (flow ∷ flows)) r)
            (shorter k flow flows n batch_size-pos enough)))

  drains :
      (batches : List (List FlowRecord)) (queue : List FlowRecord) (r : Recorder)
      → Written
          (in_hands batches ++ queue)
          r
          (runs (finishing (length batches) ++ working (length queue)) (state queue batches r))
  unfolding run settle flush
  drains [] queue r = working-Written (length queue) queue r (omega arith)
  drains (batch ∷ batches) queue r =
      subst
        (λ all. Written all r (
          runs (finishing (length (batch ∷ batches)) ++ working (length queue))
            (state queue (batch ∷ batches) r)))
        (sym (append_assoc batch (in_hands batches) queue))
        (then_rest batch (in_hands batches ++ queue) r _
          (drains batches queue (written_batch batch r)))

-- From any state of the recorder, if the workers finish each batch they hold, and then take and finish
-- one batch for each flow that waits, while the commits return, then no flow waits or is held any more,
-- the flows that were held and that waited have been written as rows in that order, and none is dropped
-- or lost.
pub run-Written :
    (lib : Codecs) (stores : Text → Text → Bool) (day : Text) (duration : FlowRecord → Option ℤ)
    (settings : Settings) (r : Recorder)
    → Written lib stores day duration settings (in_hands r.batches ++ r.queue) r (
        run lib stores day duration settings
          (finishing (length r.batches) ++ working (length r.queue))
          r)
run-Written lib stores day duration settings r =
    drains lib stores day duration settings r.batches r.queue r
