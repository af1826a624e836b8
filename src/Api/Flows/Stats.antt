-- ===== src/Api/Flows/Stats.antt =====
-- `flow_stats` of services/api/app/routers/flows.py: counts over a window of time, and groups.
use decrypt0r_x.Prelude.{
  ℕ, ◌+◌, ◌*◌, Bool, true, false, ◌&&◌, List, [], ◌∷◌, Option, none, some, if◌then◌else◌, length,
  take, select, map, leb, ◌==◌,
}
use decrypt0r_x.Prelude.Int.{ℤ, pos, negsuc}
use decrypt0r_x.Prelude.Order.{sort_by}
use decrypt0r_x.Text.{Text, text_eq}
use decrypt0r_x.Models.{bypass, block}
use decrypt0r_x.Recorder.Flows.{Flow}
use decrypt0r_x.Api.Reply.{Reply, reply, http_error}
use decrypt0r_x.Api.Flows.{Sql, is_since, action_eq, int_eq, is_some}

pub record FlowStats : Type 0 where
  pub window_minutes : ℕ
  pub total : ℕ
  pub intercepted : ℕ
  pub blocked : ℕ
  pub bypassed : ℕ
  pub errors : ℕ
  pub bytes_in : ℕ
  pub bytes_out : ℕ
  pub top_hosts : List (Text × ℕ)
  pub status_breakdown : List (ℤ × ℕ)
  pub timeline : List (ℕ × ℕ)

-- `GROUP BY`: the values with how often they occur
module _ {A : Type 0} (same : A → A → Bool) where
  abbrev pub count_in : A → List (A × ℕ) → List (A × ℕ)
  count_in x [] = (x, 1) ∷ []
  count_in x ((y, n) ∷ groups) =
      let rest = count_in x groups in if same y x then (y, n + 1) ∷ groups else (y, n) ∷ rest

  abbrev pub group_by : List A → List (A × ℕ)
  group_by [] = []
  group_by (x ∷ xs) = count_in x (group_by xs)

-- `COUNT` and `SUM(CASE …)`
abbrev pub count_if : (Flow → Bool) → List Flow → ℕ
count_if p rows = length (select p rows)

abbrev pub sum_of : (Flow → ℕ) → List Flow → ℕ
sum_of f [] = 0
sum_of f (row ∷ rows) = f row + sum_of f rows

-- the codes that are not null
abbrev pub codes_of : List Flow → List (Option ℤ)
codes_of [] = []
codes_of (row ∷ rows) = row.facts.status_code ∷ codes_of rows

abbrev pub present : List (Option ℤ) → List ℤ
present [] = []
present (none ∷ codes) = present codes
present (some code ∷ codes) = code ∷ present codes

-- the orders of the groups: by count downwards, and by key upwards
abbrev pub more_often : Text × ℕ → Text × ℕ → Bool
more_often a b = leb b.1 a.1

abbrev pub int_le : ℤ → ℤ → Bool
int_le (pos m) (pos n) = leb m n
int_le (negsuc m) (pos n) = true
int_le (pos m) (negsuc n) = false
int_le (negsuc m) (negsuc n) = leb n m

abbrev pub earlier_bucket : ℤ × ℕ → ℤ × ℕ → Bool
earlier_bucket a b = int_le a.0 b.0

abbrev pub earlier_minute : ℕ × ℕ → ℕ × ℕ → Bool
earlier_minute a b = leb a.0 b.0

-- `… * 100`
abbrev pub times_hundred : ℤ → ℤ
times_hundred (pos n) = pos (n * 100)
times_hundred (negsuc n) = negsuc (n * 100 + 99)

module _ (sql : Sql) where
  open sql use {hundreds, minute_of, by_count}

  abbrev pub bucket_of : ℤ → ℤ
  bucket_of code = times_hundred (hundreds code)

  -- the rows of the window
  abbrev pub window : ℕ → ℕ → List Flow → List Flow
  window now n rows = select (λ row. is_since now n row.facts.started_at) rows

  abbrev pub stats_of : ℕ → List Flow → FlowStats
  stats_of n rows = record {
    window_minutes = n;
    total = length rows;
    intercepted = count_if (λ row. row.facts.intercepted) rows;
    blocked = count_if (λ row. action_eq row.facts.action block) rows;
    bypassed = count_if (λ row. action_eq row.facts.action bypass) rows;
    errors = count_if (λ row. is_some row.facts.error) rows;
    bytes_in = sum_of (λ row. row.facts.request_size) rows;
    bytes_out = sum_of (λ row. row.facts.response_size) rows;
    top_hosts = take 10 (by_count (group_by text_eq (map (λ row. row.facts.host) rows)));
    status_breakdown =
        sort_by earlier_bucket (group_by int_eq (map bucket_of (present (codes_of rows))));
    timeline =
        sort_by earlier_minute (group_by ◌==◌ (map (λ row. minute_of row.facts.started_at) rows));
  }

  -- `flow_stats`
  unfoldable pub flow_stats : ℕ → ℕ → List Flow → Reply FlowStats
  flow_stats now n rows =
      if leb 1 n && leb n 10080 then reply (stats_of n (window now n rows)) else http_error 422
