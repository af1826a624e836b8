-- ===== src/Tests/Flows.antt =====
-- Rows, and functions in place of the database's own, on which the theorems on the flows router are tried.
use mathlib.Core.List.{Memᴰ, Permᴰ}
use decrypt0r_x.Prelude.{
  ℕ, ◌≡◌, ◌↔◌, refl, true, false, List, [], ◌∷◌, map, length, select, Option, none, some, arith,
}
use decrypt0r_x.Prelude.Int.{pos}
use decrypt0r_x.Prelude.Order.{IsSorted, sort_by, sort_by-IsSorted, sort_by-Permᴰ}
use decrypt0r_x.Text.{Text, codes, contains}
use decrypt0r_x.Models.{intercept}
use decrypt0r_x.Recorder.Flows.{Flow}
use decrypt0r_x.Api.Reply.{reply}
use decrypt0r_x.Api.Flows.{Sql, FlowQuery, newer, passes, found, list_flows}
use decrypt0r_x.Api.Flows.Views.{summary}
use decrypt0r_x.Api.Flows.Contents.{Encodings, BodyResponse, is_textual, is_direction, get_body}
use decrypt0r_x.Api.Flows.Bodies.{Found, get_body-Found}
use decrypt0r_x.Api.Flows.Paging.{pages, total_of, list_flows-pages}
use decrypt0r_x.Api.Flows.Stats.{FlowStats, more_often, window, stats_of}

abbrev sql : Sql
sql = record {
  ilike = λ pattern text. contains pattern text;
  hundreds = λ code. pos 2;
  minute_of = λ time. time;
  by_time = sort_by newer;
  by_count = sort_by more_often;
}

by_time-IsSorted : (xs : List Flow) → IsSorted newer (sql.by_time xs)
by_time-IsSorted xs = sort_by-IsSorted newer newer_total newer_trans xs
  where
    newer_total : (a b : Flow) → newer a b ≡ false → newer b a ≡ true
    newer_total a b h = ground arith

    newer_trans : (a b c : Flow) → newer a b ≡ true → newer b c ≡ true → newer a c ≡ true
    newer_trans a b c h k = ground arith

abbrev everything : FlowQuery
everything = record {
  host = none;
  method = none;
  status_code = none;
  action = some intercept;
  client_ip = none;
  search = none;
  errors_only = false;
  since_minutes = some 1;
  limit = 2;
  offset = 0;
}

abbrev row_at : Text → ℕ → Flow
row_at id time = record {
  facts = record {
    connection_id = codes "c1";
    client_ip = codes "10.0.0.7";
    client_port = 5000;
    host = codes "bank";
    port = 443;
    action = intercept;
    id = id;
    started_at = time;
    ended_at = none;
    scheme = codes "https";
    sni = none;
    upstream_ip = none;
    intercepted = true;
    method = some (codes "POST");
    path = some (codes "/");
    http_version = some (codes "HTTP/1.1");
    status_code = some (pos 200);
    request_headers = none;
    response_headers = none;
    request_content_type = some (codes "text/plain");
    response_content_type = none;
    request_size = 2;
    response_size = 0;
    bodies_truncated = false;
    rule_id = none;
    rule_name = none;
    tls_version = none;
    tls_cipher = none;
    alpn = none;
    error = none;
  };
  duration_ms = none;
  request_body_ref = some (codes "k");
  response_body_ref = none;
  redacted = false;
  proxy_node = codes "n1";
}

abbrev rows : List Flow
rows = row_at (codes "a") 5 ∷ row_at (codes "b") 9 ∷ row_at (codes "c") 7 ∷ []

abbrev last_row : Flow
last_row = row_at (codes "c") 7

three_found : total_of (list_flows sql 10 everything rows) ≡ 3
unfolding list_flows found passes
three_found = refl

-- two pages of two
list_flows-pages_example :
    (pages sql 2 10 everything rows ≡ map summary (found sql 10 everything rows))
    × (total_of (list_flows sql 10 everything rows) ≡ length (pages sql 2 10 everything rows))
    × IsSorted newer (found sql 10 everything rows)
    × Permᴰ (found sql 10 everything rows) (select (passes sql 10 everything) rows)
    × (Memᴰ last_row (found sql 10 everything rows)
        ↔ (Memᴰ last_row rows × (passes sql 10 everything last_row ≡ true)))
list_flows-pages_example =
    list_flows-pages sql by_time-IsSorted (sort_by-Permᴰ newer) 10 rows everything 2 last_row refl
      refl (omega (arith, three_found))

abbrev figures : FlowStats
figures = stats_of sql 5 (window sql 10 5 rows)

-- texts are their own encodings
abbrev same : Encodings
same = record { utf8 = λ t. some t; utf8_replace = λ t. t; base64 = λ t. t }

abbrev fetch : Text → Option Text
fetch key = some (codes "hi")

abbrev itself : Text → Text
itself t = t

itself-utf8 : (bytes text : Text) → same.utf8 bytes ≡ some text → itself text ≡ bytes
itself-utf8 bytes text e = cc

itself-base64 : (bytes : Text) → itself (same.base64 bytes) ≡ bytes
itself-base64 bytes = refl

abbrev shown : BodyResponse
shown = record {
  flow_id = codes "b";
  direction = codes "request";
  content_type = some (codes "text/plain");
  size = 2;
  truncated = false;
  encoding = codes "utf-8";
  content = codes "hi";
}

body_shown : get_body same fetch (codes "b") (codes "request") rows ≡ reply shown
unfolding get_body is_textual
body_shown = refl

get_body-Found_example :
    Found same fetch itself itself itself-utf8 itself-base64
      (codes "b")
      (codes "request")
      rows
      shown
    × (is_direction same fetch (codes "request") ≡ true)
get_body-Found_example =
    get_body-Found same fetch itself itself itself-utf8 itself-base64 (codes "b") (codes "request")
      rows shown body_shown
