-- ===== src/Api/Flows.antt =====
-- services/api/app/routers/flows.py: browsing the flows. The table is a list of rows; times are microseconds,
-- and `now` is what the clock says. What the code uses of the database's own functions is the interface
-- `Sql`.
pub mod Views
pub mod Contents
pub mod Paging
pub mod Stats
pub mod Groups
pub mod Columns
pub mod Sums
pub mod Purging
pub mod Bodies
use decrypt0r_x.Prelude.{
  ℕ, ◌+◌, ◌*◌, Bool, true, false, not, ◌&&◌, ◌||◌, List, [], ◌∷◌, ◌++◌, Option, none, some,
  if◌then◌else◌, length, take, drop, select, map, ltb, leb, ◌==◌,
}
use decrypt0r_x.Prelude.Int.{ℤ, pos, negsuc}
use decrypt0r_x.Prelude.Order.{sort_by}
use decrypt0r_x.Text.{Text, codes, text_eq, upper}
use decrypt0r_x.Models.{PolicyAction, intercept, bypass, block}
use decrypt0r_x.Recorder.Flows.{Flow, FlowFacts}
use decrypt0r_x.Api.Reply.{Reply, reply, http_error}
use decrypt0r_x.Api.Flows.Views.{FlowSummary, summary, FlowDetail, detail, find_flow}

pub record Sql : Type 0 where
  -- `text ILIKE pattern`
  pub ilike : Text → Text → Bool
  -- `CAST(code / 100 AS INTEGER)`
  pub hundreds : ℤ → ℤ
  -- `date_trunc('minute', time)`
  pub minute_of : ℕ → ℕ
  -- `ORDER BY started_at DESC`; the order of the rows of one time is the database's own
  pub by_time : List Flow → List Flow
  -- `ORDER BY count DESC`; the order of the hosts of one count is the database's own
  pub by_count : List (Text × ℕ) → List (Text × ℕ)

pub record FlowQuery : Type 0 where
  pub host : Option Text
  pub method : Option Text
  pub status_code : Option ℤ
  pub action : Option PolicyAction
  pub client_ip : Option Text
  pub search : Option Text
  pub errors_only : Bool
  pub since_minutes : Option ℕ
  pub limit : ℕ
  pub offset : ℕ

pub record FlowPage : Type 0 where
  pub items : List FlowSummary
  pub total : ℕ
  pub limit : ℕ
  pub offset : ℕ

abbrev pub minutes : ℕ → ℕ
minutes n = n * 60000000

-- `time >= now - timedelta(minutes=n)`
abbrev pub is_since : ℕ → ℕ → ℕ → Bool
is_since now n time = leb now (time + minutes n)

abbrev pub action_eq : PolicyAction → PolicyAction → Bool
action_eq intercept intercept = true
action_eq bypass bypass = true
action_eq block block = true
action_eq _ _ = false

abbrev pub int_eq : ℤ → ℤ → Bool
int_eq (pos m) (pos n) = m == n
int_eq (negsuc m) (negsuc n) = m == n
int_eq _ _ = false

-- an equation with a column that may be null, which is then not true
abbrev pub holds_for {ℓ} : {A : Type ℓ} → (A → Bool) → Option A → Bool
holds_for p none = false
holds_for p (some a) = p a

-- a filter that is set unless the parameter is missing or an empty text
abbrev pub if_text : Option Text → (Text → Bool) → Bool
if_text none p = true
if_text (some []) p = true
if_text (some (c ∷ t)) p = p (c ∷ t)

abbrev pub if_some {ℓ} : {A : Type ℓ} → Option A → (A → Bool) → Bool
if_some none p = true
if_some (some a) p = p a

abbrev pub is_some {ℓ} : {A : Type ℓ} → Option A → Bool
is_some none = false
is_some (some a) = true

abbrev pub within_text : Text → Text
within_text t = b'%' ∷ t ++ b'%' ∷ []

-- what `ORDER BY started_at DESC` asks of two rows
abbrev pub newer : Flow → Flow → Bool
newer a b = leb b.facts.started_at a.facts.started_at

-- the constraints on the parameters
abbrev pub since_valid : Option ℕ → Bool
since_valid none = true
since_valid (some n) = leb 1 n && leb n 43200

abbrev pub query_valid : FlowQuery → Bool
query_valid q = leb 1 q.limit && leb q.limit 500 && since_valid q.since_minutes

module _ (sql : Sql) where
  open sql use {ilike, by_time}

  -- the conjunction of the filters
  unfoldable pub passes : ℕ → FlowQuery → Flow → Bool
  passes now q row =
      if_text q.host (λ t. ilike (within_text t) row.facts.host)
      && if_text q.method (λ t. holds_for (text_eq (upper t)) row.facts.method)
      && if_some q.status_code (λ n. holds_for (int_eq n) row.facts.status_code)
      && if_some q.action (λ a. action_eq a row.facts.action)
      && if_text q.client_ip (λ t. text_eq t row.facts.client_ip)
      && if_text q.search (λ t. holds_for (ilike (within_text t)) row.facts.path)
      && (not q.errors_only || is_some row.facts.error)
      && if_some q.since_minutes (λ n. is_since now n row.facts.started_at)

  -- all rows that pass, the newest first
  unfoldable pub found : ℕ → FlowQuery → List Flow → List Flow
  unfolding passes
  found now q rows = by_time (select (passes now q) rows)

  -- `list_flows`
  unfoldable pub list_flows : ℕ → FlowQuery → List Flow → Reply FlowPage
  unfolding found
  list_flows now q rows =
      if query_valid q
      then reply (record {
        items = map summary (take q.limit (drop q.offset (found now q rows)));
        total = length (select (passes now q) rows);
        limit = q.limit;
        offset = q.offset;
      })
      else http_error 422

abbrev detail_of : Option Flow → Reply FlowDetail
detail_of none = http_error 404
detail_of (some row) = reply (detail row)

-- `get_flow`
unfoldable pub get_flow : Text → List Flow → Reply FlowDetail
get_flow id rows = detail_of (find_flow id rows)

-- `purge_flows`
unfoldable pub purge_flows : ℕ → ℕ → List Flow → List Flow
purge_flows now older_than rows =
    if older_than == 0
    then []
    else select (λ row. is_since now older_than row.facts.started_at) rows
