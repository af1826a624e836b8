-- ===== src/Api/Flows/Purging.antt =====
-- What `purge_flows` leaves of the table.
use mathlib.Core.List.{Memᴰ}
use decrypt0r_x.Prelude.{ℕ, ◌+◌, ◌<◌, ◌≤◌, ◌↔◌, List, ◌==◌, arith, Bool-cases, inl, inr}
use decrypt0r_x.Prelude.Order.{select-Memᴰ, Memᴰ-select}
use decrypt0r_x.Recorder.Flows.{Flow}
use decrypt0r_x.Api.Flows.{minutes, is_since, purge_flows}

-- A row is left exactly if it was there, an age is given, and the row is not older.
pub purge_flows-keeps :
    (now older_than : ℕ) (rows : List Flow) (row : Flow)
    → Memᴰ row (purge_flows now older_than rows)
      ↔ (Memᴰ row rows × (0 < older_than) × (now ≤ row.facts.started_at + minutes older_than))
unfolding purge_flows
purge_flows-keeps now older_than rows row = elim (Bool-cases (older_than == 0)) [
  | inl none_given ↦ rw none_given (λ m. elim m [ ], λ (m, given, recent). absurd (ground arith))
  | inr given ↦ rw given (
    λ m.
        let (n, e) = select-Memᴰ (λ r. is_since now older_than r.facts.started_at) rows m in
        (n, ground arith, ground arith),
    λ (m, positive, recent).
        Memᴰ-select (λ r. is_since now older_than r.facts.started_at) rows m (ground arith),
  )
]
