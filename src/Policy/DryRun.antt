-- ===== src/Policy/DryRun.antt =====
-- `test_policy` of services/api/app/routers/policies.py, which says that it mirrors
-- `PolicyEngine.evaluate` exactly, and how far it does.
use mathlib.Core.List.{Memᴰ}
use decrypt0r_x.Prelude.{
  ℕ, ◌≡◌, ◌≢◌, refl, ap, ◌∙◌, sym, Bool, true, false, not, List, [], ◌∷◌, Option, none, some, map,
  if◌then◌else◌, Bool-cases, Option-cases, inl, inr, select,
}
use decrypt0r_x.Prelude.Order.{sort_by}
use decrypt0r_x.Text.{Text, lower}
use decrypt0r_x.Models.{PolicyAction, intercept, PolicyRule}
use decrypt0r_x.Policy.{
  Matching, Decision, Settings, Engine, row_le, enabled_rows, pattern_of, wrong_port, init,
  address_within, network_allows, network_of, matches, compile, evaluate_from, evaluate, refresh,
}
use decrypt0r_x.Policy.Refresh.{rules-refresh, default-refresh}

-- `PolicyTestResponse`
pub record PolicyTestResponse : Type 0 where
  pub action : PolicyAction
  pub capture_bodies : Bool
  pub redact : Bool
  pub matched_rule_id : Option ℕ
  pub matched_rule_name : Option Text

module _ (lib : Matching) where
  open lib use {Address, Network, fnmatch, ip_address, ip_network, within}

  -- the test in the `try`, false where either call raises
  pub cidr_holds : Option Address → Option Network → Bool
  cidr_holds none n = false
  cidr_holds (some a) none = false
  cidr_holds (some a) (some n) = within a n

  -- `if rule.client_cidr`
  pub cidr_allows : Option Text → Text → Bool
  unfolding cidr_holds
  cidr_allows none client_ip = true
  cidr_allows (some []) client_ip = true
  cidr_allows (some (c ∷ t)) client_ip = cidr_holds (ip_address client_ip) (ip_network (c ∷ t))

  -- the tests of one round, each with its `continue`
  pub row_applies : PolicyRule → Text → ℕ → Text → Bool
  unfolding cidr_allows
  row_applies row host port client_ip =
      if wrong_port row.port port
      then false
      else if not (fnmatch (lower host) (lower (pattern_of row.host_pattern)))
      then false
      else cidr_allows row.client_cidr client_ip

  pub test_rows : List PolicyRule → Text → ℕ → Text → PolicyTestResponse
  unfolding row_applies
  test_rows [] host port client_ip = record {
    action = intercept;
    capture_bodies = false;
    redact = true;
    matched_rule_id = none;
    matched_rule_name = none;
  }
  test_rows (row ∷ rows) host port client_ip =
      if row_applies row host port client_ip
      then record {
        action = row.action;
        capture_bodies = row.capture_bodies;
        redact = row.redact;
        matched_rule_id = some row.id;
        matched_rule_name = some row.name;
      }
      else test_rows rows host port client_ip

  -- over the database, for one `PolicyTestRequest`
  unfoldable pub test_policy : List PolicyRule → Text → ℕ → Text → PolicyTestResponse
  unfolding test_rows enabled_rows
  test_policy db host port client_ip = test_rows (enabled_rows db) host port client_ip

  -- the range is missing, empty or one that `ip_network` reads
  abbrev pub ValidCidr : Option Text → Type 0
  ValidCidr none = Unit {0}
  ValidCidr (some []) = Unit {0}
  ValidCidr (some (c ∷ t)) = ip_network (c ∷ t) ≢ none

  -- what the dry run reports of a decision
  abbrev pub Verdict : Type 0
  Verdict = PolicyAction × Bool × Bool × Option ℕ

  abbrev pub verdict : Decision → Verdict
  verdict d = (d.action, d.capture_bodies, d.redact, d.rule_id)

  abbrev pub reported : PolicyTestResponse → Verdict
  reported r = (r.action, r.capture_bodies, r.redact, r.matched_rule_id)

  holds-within : (a : Option Address) (n : Network) → cidr_holds a (some n) ≡ address_within lib a n
  unfolding cidr_holds
  holds-within none n = refl
  holds-within (some a) n = refl

  cidr_allows-valid :
      (cidr : Option Text) (client_ip : Text)
      → ValidCidr cidr
      → cidr_allows cidr client_ip ≡ network_allows lib (network_of lib cidr) client_ip
  unfolding cidr_allows
  cidr_allows-valid none client_ip valid = refl
  cidr_allows-valid (some []) client_ip valid = refl
  cidr_allows-valid (some (c ∷ t)) client_ip valid = elim (Option-cases (ip_network (c ∷ t))) [
    | inl refused ↦ absurd (valid refused)
    | inr (n, read) ↦ rw read (holds-within (ip_address client_ip) n)
  ]

  row_applies-matches :
      (row : PolicyRule) (host : Text) (port : ℕ) (client_ip : Text)
      → ValidCidr row.client_cidr
      → row_applies row host port client_ip ≡ matches lib (compile lib row) host port client_ip
  unfolding row_applies matches compile
  row_applies-matches row host port client_ip valid =
      rw (cidr_allows-valid row.client_cidr client_ip valid)

  test_rows-evaluate_from :
      (rows : List PolicyRule) (default : Decision) (host : Text) (port : ℕ) (client_ip : Text)
      → ((row : PolicyRule) → Memᴰ row rows → ValidCidr row.client_cidr)
      → verdict default ≡ (intercept, false, true, none)
      → reported (test_rows rows host port client_ip)
        ≡ verdict (evaluate_from lib (map (compile lib) rows) default host port client_ip)
  unfolding test_rows evaluate_from
  test_rows-evaluate_from [] default host port client_ip valid usual = sym usual
  test_rows-evaluate_from (row ∷ rows) default host port client_ip valid usual =
      let same = row_applies-matches row host port client_ip (valid row (Memᴰ.head refl)) in
      let rest =
        test_rows-evaluate_from rows default host port client_ip (λ r m. valid r (Memᴰ.tail m))
          usual in
      elim (Bool-cases (matches lib (compile lib row) host port client_ip)) [
        | inl hit ↦ rw (same, hit) (unfold compile in refl)
        | inr miss ↦ rw (same, miss) rest
      ]

  -- Where every enabled rule has a valid range, or none, and the proxy's default is to intercept without
  -- capture, the dry run reports the action, the capture, the redaction and the rule that the proxy
  -- decides by after a refresh from the same database.
  pub test_policy-evaluate :
      (db : List PolicyRule) (e : Engine lib) (settings : Settings) (host : Text) (port : ℕ)
      (client_ip : Text)
      → ((row : PolicyRule) → Memᴰ row (enabled_rows db) → ValidCidr row.client_cidr)
      → settings.default_action ≡ intercept
      → settings.default_capture_bodies ≡ false
      → e.default ≡ (init lib settings).default
      → reported (test_policy db host port client_ip)
        ≡ verdict (evaluate lib (refresh lib db e) host port client_ip)
  unfolding test_policy evaluate
  test_policy-evaluate db e settings host port client_ip valid action capture usual =
      rw (rules-refresh lib db e, default-refresh lib db e)
        (test_rows-evaluate_from (enabled_rows db) e.default host port client_ip valid
          (ap verdict usual ∙ unfold init in rw (action, capture)))

  cidr_allows-invalid :
      (cidr client_ip : Text)
      → cidr ≢ []
      → ip_network cidr ≡ none
      → cidr_allows (some cidr) client_ip ≡ false
  unfolding cidr_allows cidr_holds
  cidr_allows-invalid [] client_ip some_text refused = absurd (some_text refl)
  cidr_allows-invalid (c ∷ t) client_ip some_text refused =
      rw refused (elim (Option-cases (ip_address client_ip)) [
        | inl none_ ↦ rw none_
        | inr (a, read) ↦ rw read
      ])

  network_of-invalid :
      (cidr : Text) → cidr ≢ [] → ip_network cidr ≡ none → network_of lib (some cidr) ≡ none
  network_of-invalid [] some_text refused = absurd (some_text refl)
  network_of-invalid (c ∷ t) some_text refused = refused

  select_one :
      (p : PolicyRule → Bool) (row : PolicyRule) → p row ≡ true → select p (row ∷ []) ≡ row ∷ []
  select_one p row h = rw h

  enabled_rows_one : (row : PolicyRule) → row.enabled ≡ true → enabled_rows (row ∷ []) ≡ row ∷ []
  unfolding enabled_rows
  enabled_rows_one row on = ap (sort_by row_le) (select_one (λ r. r.enabled) row on)

  test_rows_miss :
      (row : PolicyRule) (host : Text) (port : ℕ) (client_ip : Text)
      → row_applies row host port client_ip ≡ false
      → (test_rows (row ∷ []) host port client_ip).matched_rule_id ≡ none
  unfolding test_rows
  test_rows_miss row host port client_ip miss = rw miss

  evaluate_from_hit :
      (row : PolicyRule) (default : Decision) (host : Text) (port : ℕ) (client_ip : Text)
      → matches lib (compile lib row) host port client_ip ≡ true
      → (evaluate_from lib (compile lib row ∷ []) default host port client_ip).rule_id ≡ some row.id
  unfolding evaluate_from
  evaluate_from_hit row default host port client_ip hit = rw hit (unfold compile in refl)

  -- A rule that is alone in the database, matches by port and pattern, and has a range that `ip_network`
  -- refuses: the proxy drops the range and decides by the rule for every client, and the dry run reports
  -- that no rule matches.
  pub test_policy-invalid_cidr :
      (row : PolicyRule) (e : Engine lib) (host : Text) (port : ℕ) (client_ip cidr : Text)
      → row.enabled ≡ true
      → row.client_cidr ≡ some cidr
      → cidr ≢ []
      → ip_network cidr ≡ none
      → wrong_port row.port port ≡ false
      → fnmatch (lower host) (lower (pattern_of row.host_pattern)) ≡ true
      → ((test_policy (row ∷ []) host port client_ip).matched_rule_id ≡ none)
        × ((evaluate lib (refresh lib (row ∷ []) e) host port client_ip).rule_id ≡ some row.id)
  unfolding test_policy evaluate
  test_policy-invalid_cidr row e host port client_ip cidr on given some_text refused right fits = (
    rw (enabled_rows_one row on) (test_rows_miss row host port client_ip misses),
    rw (rules-refresh lib (row ∷ []) e, enabled_rows_one row on)
        (evaluate_from_hit row _ host port client_ip hits),
  )
    where
      misses : row_applies row host port client_ip ≡ false
      misses =
          unfold row_applies in
          rw (right, fits)
            (ap (λ c. cidr_allows c client_ip) given
              ∙ cidr_allows-invalid cidr client_ip some_text refused)

      hits : matches lib (compile lib row) host port client_ip ≡ true
      hits =
          unfold matches compile in
          rw (right, fits)
            (ap (λ n. network_allows lib n client_ip)
              (ap (network_of lib) given ∙ network_of-invalid cidr some_text refused))
