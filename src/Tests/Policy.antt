-- ===== src/Tests/Policy.antt =====
-- Rules and connections on which the theorems on policy.py are tried.
use mathlib.Core.List.{Memᴰ}
use native.Mathlib.Decide.{ℕ_discrete}
use decrypt0r_x.Prelude.{
  ℕ, ◌≡◌, refl, sym, subst, if◌then◌else◌, ◌&&◌, ◌||◌, true, false, List, [], ◌∷◌, Option, none,
  some, ◌⊎◌, leb,
}
use decrypt0r_x.Text.{Text, codes, text_eq}
use decrypt0r_x.Prelude.Int.{pos}
use decrypt0r_x.Models.{operator, intercept, block, PolicyRule, User}
use decrypt0r_x.Policy.{
  Matching, Settings, Engine, init, row_le, enabled_rows, compile, decision, refresh, evaluate,
}
use decrypt0r_x.Policy.Rules.{row_matches, evaluate_least}
use decrypt0r_x.Policy.DryRun.{test_policy, ValidCidr, reported, verdict, test_policy-invalid_cidr}
use decrypt0r_x.Api.Policies.{Db}
use decrypt0r_x.Api.Policies.Payloads.{PolicyRuleCreate}
use decrypt0r_x.Api.Policies.Requests.{Call, create, delete, perform_all}
use decrypt0r_x.Api.Policies.Valid.{test_policy-perform_all}

-- patterns are `*` or a host, an address is its first character, and a network holds the addresses from
-- its own up
abbrev simple : Matching
simple = record {
  Address = ℕ;
  Network = ℕ;
  Network-discrete = ℕ_discrete;
  fnmatch = λ name pattern. text_eq pattern (codes "*") || text_eq name pattern;
  ip_address = first_char;
  ip_network = first_char;
  within = λ a n. leb n a;
}
  where
    first_char : Text → Option ℕ
    first_char [] = none
    first_char (c ∷ t) = if leb b'0' c && leb c b'9' then some c else none

abbrev block_bank : PolicyRule
block_bank = record {
  id = 2;
  name = codes "bank";
  description = none;
  priority = 10;
  enabled = true;
  host_pattern = codes "bank";
  client_cidr = some (codes "5");
  port = some 443;
  action = block;
  capture_bodies = false;
  capture_max_bytes = 0;
  redact = true;
}

abbrev capture_all : PolicyRule
capture_all = record block_bank {
  id = 1;
  name = codes "all";
  priority = 20;
  host_pattern = [];
  client_cidr = none;
  port = none;
  action = intercept;
  capture_bodies = true;
}

-- its range is not an address
abbrev misspelt : PolicyRule
misspelt = record block_bank { id = 3; client_cidr = some (codes "x") }

abbrev table : List PolicyRule
table = capture_all ∷ block_bank ∷ []

abbrev settings : Settings
settings = record {
  default_action = intercept;
  default_capture_bodies = false;
  default_capture_max_bytes = 1024;
}

abbrev engine : Engine simple
engine = init simple settings

evaluate_least_example :
    ((row : PolicyRule) × Memᴰ row table
      × (row.enabled ≡ true)
      × (row_matches simple (codes "bank") 443 (codes "7") row ≡ true)
      × (evaluate simple (refresh simple table engine) (codes "bank") 443 (codes "7")
          ≡ decision simple (compile simple row))
      × ((other : PolicyRule)
          → Memᴰ other table
          → other.enabled ≡ true
          → row_matches simple (codes "bank") 443 (codes "7") other ≡ true
          → row_le row other ≡ true))
    ⊎ ((evaluate simple (refresh simple table engine) (codes "bank") 443 (codes "7")
          ≡ engine.default)
        × ((other : PolicyRule)
            → Memᴰ other table
            → other.enabled ≡ true
            → row_matches simple (codes "bank") 443 (codes "7") other ≡ false))
evaluate_least_example = evaluate_least simple (codes "bank") 443 (codes "7") table engine

table-ValidCidr :
    (row : PolicyRule) → Memᴰ row (enabled_rows table) → ValidCidr simple row.client_cidr
unfolding enabled_rows
table-ValidCidr row (Memᴰ.head e) = subst (λ r. ValidCidr simple r.client_cidr) (sym e) (λ h. cc)
table-ValidCidr row (Memᴰ.tail (Memᴰ.head e)) =
    subst (λ r. ValidCidr simple r.client_cidr) (sym e) tt
table-ValidCidr row (Memᴰ.tail (Memᴰ.tail m)) = elim m [ ]

test_policy-invalid_cidr_example :
    ((test_policy simple (misspelt ∷ []) (codes "bank") 443 (codes "7")).matched_rule_id ≡ none)
    × ((evaluate simple
          (refresh simple (misspelt ∷ []) engine)
          (codes "bank")
          443
          (codes "7")).rule_id
        ≡ some 3)
test_policy-invalid_cidr_example =
    test_policy-invalid_cidr simple misspelt engine (codes "bank") 443 (codes "7") (codes "x") refl
      refl (λ h. cc) refl refl refl

abbrev ann : User
ann = record {
  id = 1;
  email = codes "ann@x";
  full_name = none;
  password_hash = codes "h";
  role = operator;
  is_active = true;
  last_login_at = none;
}

abbrev wanted : PolicyRuleCreate
wanted = record {
  name = codes "bank";
  description = none;
  priority = pos 10;
  enabled = true;
  host_pattern = codes "bank";
  client_cidr = some (codes "5");
  port = some (pos 443);
  action = block;
  capture_bodies = false;
  capture_max_bytes = pos 0;
  redact = true;
}

-- a rule, the same with a range that is refused, and the first one deleted
abbrev asked : List (User × Call)
asked =
    (ann, create wanted)
    ∷ (ann, create (record wanted { client_cidr = some (codes "x") }))
    ∷ (ann, delete 1)
    ∷ []

abbrev no_rules : Db
no_rules = record { rules = []; audit = []; next_id = 1 }

test_policy-perform_all_example :
    reported simple (
      test_policy simple
        (perform_all simple (codes "ip") asked no_rules).rules
        (codes "bank")
        443
        (codes "7"))
    ≡ verdict simple (
        evaluate simple
          (refresh simple (perform_all simple (codes "ip") asked no_rules).rules engine)
          (codes "bank")
          443
          (codes "7"))
test_policy-perform_all_example =
    test_policy-perform_all simple (codes "ip") asked no_rules engine settings (codes "bank") 443
      (codes "7") tt refl refl refl
