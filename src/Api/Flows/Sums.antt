-- ===== src/Api/Flows/Sums.antt =====
-- What the figures of `flow_stats` are.
use mathlib.Core.List.{Memᴰ}
use decrypt0r_x.Prelude.{ℕ, ◌≤◌, ◌≡◌, List, ◌⊎◌, length, ◌==◌}
use decrypt0r_x.Prelude.Int.{ℤ}
use decrypt0r_x.Prelude.Order.{IsSorted}
use decrypt0r_x.Text.{Text, text_eq}
use decrypt0r_x.Models.{bypass, block}
use decrypt0r_x.Recorder.Flows.{Flow}
use decrypt0r_x.Api.Flows.{Sql, action_eq, int_eq, is_some, holds_for}
use decrypt0r_x.Api.Flows.Stats.{
  FlowStats, sum_of, more_often, earlier_bucket, earlier_minute, bucket_of,
}
use decrypt0r_x.Api.Flows.Groups.{rows_with}
use decrypt0r_x.Api.Flows.Columns.{Counts}

module _ (sql : Sql) where
  open sql use {minute_of}

  -- the rows of a minute, of a bucket of status codes, and of a host
  abbrev pub rows_in_minute : List Flow → ℕ → ℕ
  rows_in_minute rows minute = rows_with (λ row. minute_of row.facts.started_at == minute) rows

  abbrev pub rows_in_bucket : List Flow → ℤ → ℕ
  rows_in_bucket rows bucket =
      rows_with
        (λ row. holds_for (λ code. int_eq (bucket_of sql code) bucket) row.facts.status_code) rows

  abbrev pub rows_of_host : List Flow → Text → ℕ
  rows_of_host rows host = rows_with (λ row. text_eq row.facts.host host) rows

  -- at most ten hosts with their rows, the most frequent first, and no other host has more rows
  abbrev pub AreTop : List Flow → List (Text × ℕ) → Type 0
  AreTop rows top =
      (length top ≤ 10)
      × IsSorted more_often top
      × ((host : Text) (n : ℕ) → Memᴰ (host, n) top → (n ≡ rows_of_host rows host) × (1 ≤ n))
      × ((host : Text) (n : ℕ) (other : Text)
          → Memᴰ (host, n) top
          → Memᴰ (other, rows_of_host rows other) top ⊎ (rows_of_host rows other ≤ n))

  -- the figures are those of these rows
  abbrev pub AddsUp : List Flow → FlowStats → Type 0
  AddsUp rows s =
      (s.total ≡ length rows)
      × (s.intercepted ≡ rows_with (λ row. row.facts.intercepted) rows)
      × (s.blocked ≡ rows_with (λ row. action_eq row.facts.action block) rows)
      × (s.bypassed ≡ rows_with (λ row. action_eq row.facts.action bypass) rows)
      × (s.errors ≡ rows_with (λ row. is_some row.facts.error) rows)
      × (s.bytes_in ≡ sum_of (λ row. row.facts.request_size) rows)
      × (s.bytes_out ≡ sum_of (λ row. row.facts.response_size) rows)
      × (Counts ◌==◌ (rows_in_minute rows) s.timeline × IsSorted earlier_minute s.timeline)
      × (Counts int_eq (rows_in_bucket rows) s.status_breakdown
          × IsSorted earlier_bucket s.status_breakdown)
      × AreTop rows s.top_hosts
