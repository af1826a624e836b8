-- ===== src/Policy/Refresh.antt =====
-- `PolicyEngine.refresh`: the snapshot of the rules and its version.
use mathlib.Core.Logic.{if_pos, if_neg}
use decrypt0r_x.Prelude.{◌+◌, ◌≡◌, ◌≢◌, sym, ap, ◌∙◌, List, map, ◌⊎◌, inl, inr}
use decrypt0r_x.Models.{PolicyRule}
use decrypt0r_x.Policy.{
  Matching, CompiledRule, CompiledRule-discrete, Engine, enabled_rows, compile, refresh,
}

module _ (lib : Matching) where
  open lib use {Network, Network-discrete}

  abbrev compiled : List PolicyRule → List (CompiledRule Network)
  compiled db = map (compile lib) (enabled_rows db)

  module _ (db : List PolicyRule) (e : Engine lib) where
    refresh_same : compiled db ≡ e.rules → refresh lib db e ≡ e
    unfolding refresh
    refresh_same same =
        if_pos (CompiledRule-discrete Network-discrete (compiled db) e.rules) same _ _

    refresh_new :
        compiled db ≢ e.rules
        → refresh lib db e ≡ record e { rules = compiled db; version = e.version + 1 }
    unfolding refresh
    refresh_new differs =
        if_neg (CompiledRule-discrete Network-discrete (compiled db) e.rules) differs _ _

    -- whether or not anything changed, the rules are those of the database
    pub rules-refresh : (refresh lib db e).rules ≡ map (compile lib) (enabled_rows db)
    rules-refresh = elim (CompiledRule-discrete Network-discrete (compiled db) e.rules) [
      | yes same ↦ ap (λ x. x.rules) (refresh_same same) ∙ sym same
      | no differs ↦ ap (λ x. x.rules) (refresh_new differs)
    ]

    pub default-refresh : (refresh lib db e).default ≡ e.default
    default-refresh = elim (CompiledRule-discrete Network-discrete (compiled db) e.rules) [
      | yes same ↦ ap (λ x. x.default) (refresh_same same)
      | no differs ↦ ap (λ x. x.default) (refresh_new differs)
    ]

    -- A refresh leaves the engine as it is, version included, if the database compiles to the rules at
    -- hand; otherwise it takes the new rules and counts the version up by one. The default stays.
    pub refresh_version :
        ((map (compile lib) (enabled_rows db) ≡ e.rules) × (refresh lib db e ≡ e))
        ⊎ ((map (compile lib) (enabled_rows db) ≢ e.rules)
            × ((refresh lib db e).version ≡ e.version + 1)
            × ((refresh lib db e).rules ≡ map (compile lib) (enabled_rows db))
            × ((refresh lib db e).default ≡ e.default))
    refresh_version = elim (CompiledRule-discrete Network-discrete (compiled db) e.rules) [
      | yes same ↦ inl (same, refresh_same same)
      | no differs ↦
          inr (differs, ap (λ x. x.version) (refresh_new differs), rules-refresh, default-refresh)
    ]

  -- Refreshing twice from one database leaves the engine as refreshing once does, version included.
  pub refresh_idem :
      (db : List PolicyRule) (e : Engine lib) → refresh lib db (refresh lib db e) ≡ refresh lib db e
  refresh_idem db e = refresh_same db (refresh lib db e) (sym (rules-refresh db e))
