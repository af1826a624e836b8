-- ===== src/Policy/Rules.antt =====
-- Which row of the table decides in `PolicyEngine.evaluate`.
use mathlib.Core.List.{Memᴰ}
use decrypt0r_x.Prelude.{
  ℕ, ◌≡◌, refl, ap, ◌∙◌, Bool, true, false, List, [], ◌∷◌, Option, none, some, map, select, arith,
  Bool-cases, Option-cases, ◌⊎◌, inl, inr,
}
use decrypt0r_x.Prelude.Order.{
  first, IsSorted, sort_by-IsSorted, sort_by-Memᴰ, Memᴰ-sort_by, first-Memᴰ, first-le, first-none,
  select-Memᴰ, Memᴰ-select,
}
use decrypt0r_x.Text.{Text}
use decrypt0r_x.Models.{PolicyRule}
use decrypt0r_x.Policy.{
  Matching, Decision, Engine, row_le, enabled_rows, matches, compile, decision, evaluate_from,
  evaluate, refresh,
}
use decrypt0r_x.Policy.Refresh.{rules-refresh, default-refresh}

row_le_refl : (a : PolicyRule) → row_le a a ≡ true
row_le_refl a = ground arith

row_le_total : (a b : PolicyRule) → row_le a b ≡ false → row_le b a ≡ true
row_le_total a b h = ground arith

row_le_trans : (a b c : PolicyRule) → row_le a b ≡ true → row_le b c ≡ true → row_le a c ≡ true
row_le_trans a b c h k = ground arith

enabled_rows-IsSorted : (db : List PolicyRule) → IsSorted row_le (enabled_rows db)
unfolding enabled_rows
enabled_rows-IsSorted db =
    sort_by-IsSorted row_le row_le_total row_le_trans (select (λ row. row.enabled) db)

module _ (lib : Matching) (host : Text) (port : ℕ) (client_ip : Text) where
  abbrev pub row_matches : PolicyRule → Bool
  row_matches row = matches lib (compile lib row) host port client_ip

  -- what the first matching row, or none, decides
  abbrev decide_by : Option PolicyRule → Decision → Decision
  decide_by none default = default
  decide_by (some row) default = decision lib (compile lib row)

  evaluate_from-first :
      (rows : List PolicyRule) (default : Decision)
      → evaluate_from lib (map (compile lib) rows) default host port client_ip
        ≡ decide_by (first row_matches rows) default
  unfolding evaluate_from
  evaluate_from-first [] default = refl
  evaluate_from-first (row ∷ rows) default = elim (Bool-cases (row_matches row)) [
    | inl hit ↦ rw hit
    | inr miss ↦ rw miss (evaluate_from-first rows default)
  ]

  evaluate-first :
      (db : List PolicyRule) (e : Engine lib)
      → evaluate lib (refresh lib db e) host port client_ip
        ≡ decide_by (first row_matches (enabled_rows db)) e.default
  unfolding evaluate
  evaluate-first db e =
      rw (rules-refresh lib db e, default-refresh lib db e)
        (evaluate_from-first (enabled_rows db) e.default)

  pub enabled_rows-Memᴰ :
      (db : List PolicyRule) {row : PolicyRule}
      → Memᴰ row (enabled_rows db)
      → Memᴰ row db × (row.enabled ≡ true)
  unfolding enabled_rows
  enabled_rows-Memᴰ db m = select-Memᴰ (λ r. r.enabled) db (sort_by-Memᴰ row_le _ m)

  Memᴰ-enabled_rows :
      (db : List PolicyRule) {row : PolicyRule}
      → Memᴰ row db
      → row.enabled ≡ true
      → Memᴰ row (enabled_rows db)
  unfolding enabled_rows
  Memᴰ-enabled_rows db m on = Memᴰ-sort_by row_le _ (Memᴰ-select (λ r. r.enabled) db m on)

  -- After a refresh from the database, a connection is decided either by an enabled row that matches it
  -- and comes, by priority and then id, before every other enabled row that matches; or, if no enabled
  -- row matches, by the default of the settings.
  pub evaluate_least :
      (db : List PolicyRule) (e : Engine lib)
      → ((row : PolicyRule) × Memᴰ row db
          × (row.enabled ≡ true)
          × (row_matches row ≡ true)
          × (evaluate lib (refresh lib db e) host port client_ip ≡ decision lib (compile lib row))
          × ((other : PolicyRule)
              → Memᴰ other db
              → other.enabled ≡ true
              → row_matches other ≡ true
              → row_le row other ≡ true))
        ⊎ ((evaluate lib (refresh lib db e) host port client_ip ≡ e.default)
            × ((other : PolicyRule)
                → Memᴰ other db
                → other.enabled ≡ true
                → row_matches other ≡ false))
  evaluate_least db e = elim (Option-cases (first row_matches (enabled_rows db))) [
    | inl nothing ↦ inr (
      evaluate-first db e ∙ ap (λ o. decide_by o e.default) nothing,
      λ other m on. first-none row_matches (enabled_rows db) nothing (Memᴰ-enabled_rows db m on),
    )
    | inr (row, found) ↦
        let (m, hit) = first-Memᴰ row_matches (enabled_rows db) found in
        let (n, on) = enabled_rows-Memᴰ db m in
        inl (
          row,
          n,
          on,
          hit,
          evaluate-first db e ∙ ap (λ o. decide_by o e.default) found,
          λ other k other_on passes.
              first-le row_matches row_le row_le_refl (enabled_rows db) (enabled_rows-IsSorted db)
                found (Memᴰ-enabled_rows db k other_on) passes,
        )
  ]
