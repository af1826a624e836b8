-- ===== src/Api/Flows/Paging.antt =====
-- The pages of `list_flows`, one after the other.
use mathlib.Core.List.{map-append, Memᴰ, Permᴰ}
use mathlib.Core.List.Permᴰ
use decrypt0r_x.Prelude.{
  ℕ, zero, suc, ◌+◌, ◌*◌, ◌≤◌, ◌≡◌, ◌↔◌, refl, sym, ap, ◌∙◌, true, List, [], ◌∷◌, ◌++◌, map, length,
  take, drop, select, take-append-drop, arith,
}
use decrypt0r_x.Prelude.Order.{IsSorted, Permᴰ-length, Permᴰ-Memᴰ, select-Memᴰ, Memᴰ-select}
use decrypt0r_x.Recorder.Flows.{Flow}
use decrypt0r_x.Api.Reply.{Reply, reply, http_error, uncaught}
use decrypt0r_x.Api.Flows.Views.{FlowSummary, summary}
use decrypt0r_x.Api.Flows.{Sql, FlowQuery, FlowPage, newer, query_valid, passes, found, list_flows}

abbrev items_of : Reply FlowPage → List FlowSummary
items_of (reply page) = page.items
items_of (http_error n) = []
items_of uncaught = []

abbrev pub total_of : Reply FlowPage → ℕ
total_of (reply page) = page.total
total_of (http_error n) = 0
total_of uncaught = 0

-- the items of `k` pages, each with the offset behind the one before
abbrev pub pages : Sql → ℕ → ℕ → FlowQuery → List Flow → List FlowSummary
pages sql zero now q rows = []
pages sql (suc k) now q rows =
    items_of (list_flows sql now q rows)
    ++ pages sql k now (record q { offset = q.offset + q.limit }) rows

module _ {A : Type 0} where
  drop_nil : (n : ℕ) → drop n (drop 0 (drop {A = A} 0 [])) ≡ []
  drop_nil zero = refl
  drop_nil (suc n) = refl

  drop-drop : (m n : ℕ) (xs : List A) → drop n (drop m xs) ≡ drop (m + n) xs
  drop-drop zero n xs = let e : 0 + n ≡ n = omega arith in rw e
  drop-drop (suc m) n [] = drop_nil n ∙ sym (drop_nil (suc m + n))
  drop-drop (suc m) n (x ∷ xs) =
      let e : suc m + n ≡ suc (m + n) = omega arith in rw e (drop-drop m n xs)

  drop_all : (n : ℕ) (xs : List A) → length xs ≤ n → drop n xs ≡ []
  drop_all zero [] h = refl
  drop_all zero (x ∷ xs) h = absurd (omega arith)
  drop_all (suc n) [] h = refl
  drop_all (suc n) (x ∷ xs) h = drop_all n xs (omega arith)

module _ (sql : Sql) (by_time-IsSorted : (xs : List Flow) → IsSorted newer (sql.by_time xs))
    (by_time-Permᴰ : (xs : List Flow) → Permᴰ (sql.by_time xs) xs) (now : ℕ)
    (rows : List Flow) where
  -- the rows behind an offset
  abbrev behind : FlowQuery → List FlowSummary
  behind q = map summary (drop q.offset (found sql now q rows))

  items-list_flows :
      (q : FlowQuery)
      → query_valid q ≡ true
      → items_of (list_flows sql now q rows)
        ≡ map summary (take q.limit (drop q.offset (found sql now q rows)))
  unfolding list_flows
  items-list_flows q valid = rw valid

  -- the next page is that of the rows behind this one
  pages-behind :
      (k : ℕ) (q : FlowQuery)
      → query_valid q ≡ true
      → length (found sql now q rows) ≤ q.offset + k * q.limit
      → pages sql k now q rows ≡ behind q
  unfolding found passes
  pages-behind zero q valid enough =
      let e : drop q.offset (found sql now q rows) ≡ [] =
        drop_all q.offset (found sql now q rows) (omega arith) in
      rw e
  pages-behind (suc k) q valid enough =
      let next = record q { offset = q.offset + q.limit } in
      let rest = drop q.offset (found sql now q rows) in
      rw (
        items-list_flows q valid,
        pages-behind k next valid (grind arith),
        ← drop-drop q.offset q.limit (found sql now q rows),
        ← map-append summary (take q.limit rest) (drop q.limit rest),
        take-append-drop q.limit rest,
      )

  total-list_flows :
      (q : FlowQuery)
      → query_valid q ≡ true
      → total_of (list_flows sql now q rows) ≡ length (found sql now q rows)
  unfolding list_flows found
  total-list_flows q valid =
      rw valid (sym (Permᴰ-length (by_time-Permᴰ (select (passes sql now q) rows))))

  -- Let all pages be asked for of one table and at one time of the clock, and let the database sort the rows by their
  -- time, keep every row, and order rows of one time the same way for every page. Then as many pages as the reported
  -- total asks for, one after the other from the offset 0, are together the rows that pass the filters, each as often
  -- as it stands in the table, the newest first; the reported total is their number; and a row is among them exactly
  -- if it is in the table and passes.
  pub list_flows-pages :
      (q : FlowQuery) (k : ℕ) (row : Flow)
      → query_valid q ≡ true
      → q.offset ≡ 0
      → total_of (list_flows sql now q rows) ≤ k * q.limit
      → (pages sql k now q rows ≡ map summary (found sql now q rows))
        × (total_of (list_flows sql now q rows) ≡ length (pages sql k now q rows))
        × IsSorted newer (found sql now q rows)
        × Permᴰ (found sql now q rows) (select (passes sql now q) rows)
        × (Memᴰ row (found sql now q rows) ↔ (Memᴰ row rows × (passes sql now q row ≡ true)))
  unfolding found
  list_flows-pages q k row valid first enough =
      let whole = found sql now q rows in
      let all : pages sql k now q rows ≡ map summary whole =
        pages-behind k q valid (omega (arith, total-list_flows q valid))
        ∙ ap (λ n. map summary (drop n whole)) first in
      (
        all,
        total-list_flows q valid ∙ sym (ap length all ∙ length-map' whole),
        by_time-IsSorted (select (passes sql now q) rows),
        by_time-Permᴰ (select (passes sql now q) rows),
        (
          λ m.
              select-Memᴰ (passes sql now q) rows
                (Permᴰ-Memᴰ (by_time-Permᴰ (select (passes sql now q) rows)) m),
          λ (m, e).
              Permᴰ-Memᴰ (Permᴰ.symm (by_time-Permᴰ (select (passes sql now q) rows)))
                (Memᴰ-select (passes sql now q) rows m e),
        ),
      )
    where
      length-map' : (xs : List Flow) → length (map summary xs) ≡ length xs
      length-map' [] = refl
      length-map' (x ∷ xs) = ap suc (length-map' xs)
