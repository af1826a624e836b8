-- ===== src/Policy.antt =====
-- services/proxy/decrypt0rx_proxy/policy.py: the access policy of the data plane, and its database
-- query. What it uses of `fnmatch` and `ipaddress` is the interface `Matching`.
pub mod Rules
pub mod Refresh
pub mod DryRun
use mathlib.Core.Logic.{ite}
use native.Mathlib.Decide.{ℕ_discrete}
use decrypt0r_x.Prelude.{
  ℕ, ◌+◌, Bool, true, false, not, ◌&&◌, ◌||◌, List, [], ◌∷◌, Option, none, some, if◌then◌else◌,
  select, ltb, leb, ◌==◌, map,
}
use decrypt0r_x.Prelude.Order.{sort_by, first}
use decrypt0r_x.Text.{Text, codes, lower}
use decrypt0r_x.Models.{PolicyAction, intercept, PolicyRule}

pub record Matching : Type 1 where
  pub Address : Type 0
  pub Network : Type 0
  pub Network-discrete : Discrete Network
  -- `fnmatch.fnmatch(name, pattern)`
  pub fnmatch : Text → Text → Bool
  -- `ipaddress.ip_address(text)`; `none` is a `ValueError`
  pub ip_address : Text → Option Address
  -- `ipaddress.ip_network(text, strict=False)`; `none` is a `ValueError`
  pub ip_network : Text → Option Network
  -- `address in network`
  pub within : Address → Network → Bool

pub record Decision : Type 0 where
  pub action : PolicyAction
  pub capture_bodies : Bool
  pub capture_max_bytes : ℕ
  pub redact : Bool
  pub rule_id : Option ℕ
  pub rule_name : Option Text

-- the settings that the engine reads
pub record Settings : Type 0 where
  pub default_action : PolicyAction
  pub default_capture_bodies : Bool
  pub default_capture_max_bytes : ℕ

pub record CompiledRule (Network : Type 0) : Type 0 where
  pub id : ℕ
  pub name : Text
  pub priority : ℕ
  pub host_pattern : Text
  pub network : Option Network
  pub port : Option ℕ
  pub action : PolicyAction
  pub capture_bodies : Bool
  pub capture_max_bytes : ℕ
  pub redact : Bool

-- dataclass equality, `compiled != self._rules`
pub CompiledRule-discrete :
    {Network : Type 0} → Discrete Network → Discrete (List (CompiledRule Network))
CompiledRule-discrete d = hlevel (d, ℕ_discrete)

-- `ORDER BY priority ASC, id ASC`
abbrev pub row_le : PolicyRule → PolicyRule → Bool
row_le a b = ltb a.priority b.priority || (a.priority == b.priority && leb a.id b.id)

-- the rows of the query: enabled, in order
unfoldable pub enabled_rows : List PolicyRule → List PolicyRule
enabled_rows db = sort_by row_le (select (λ row. row.enabled) db)

-- `row.host_pattern or "*"`
abbrev pub pattern_of : Text → Text
pattern_of [] = codes "*"
pattern_of (c ∷ t) = c ∷ t

-- `self.port is not None and self.port != port`
abbrev pub wrong_port : Option ℕ → ℕ → Bool
wrong_port none port = false
wrong_port (some p) port = not (p == port)

module _ (lib : Matching) where
  open lib use {Address, Network, Network-discrete, fnmatch, ip_address, ip_network, within}

  pub record Engine : Type 0 where
    pub rules : List (CompiledRule Network)
    pub version : ℕ
    pub default : Decision

  unfoldable pub init : Settings → Engine
  init settings = record {
    rules = [];
    version = 0;
    default = record {
      action = settings.default_action;
      capture_bodies = settings.default_capture_bodies;
      capture_max_bytes = settings.default_capture_max_bytes;
      redact = true;
      rule_id = none;
      rule_name = some (codes "default");
    };
  }

  -- `ip_address(client_ip) in network`, false on a `ValueError`
  abbrev pub address_within : Option Address → Network → Bool
  address_within none network = false
  address_within (some a) network = within a network

  abbrev pub network_allows : Option Network → Text → Bool
  network_allows none client_ip = true
  network_allows (some network) client_ip = address_within (ip_address client_ip) network

  unfoldable pub matches : CompiledRule Network → Text → ℕ → Text → Bool
  matches rule host port client_ip =
      if wrong_port rule.port port
      then false
      else if not (fnmatch (lower host) (lower rule.host_pattern))
      then false
      else network_allows rule.network client_ip

  -- `if row.client_cidr`: an invalid one is logged and dropped
  abbrev pub network_of : Option Text → Option Network
  network_of none = none
  network_of (some []) = none
  network_of (some (c ∷ t)) = ip_network (c ∷ t)

  unfoldable pub compile : PolicyRule → CompiledRule Network
  compile row = record {
    id = row.id;
    name = row.name;
    priority = row.priority;
    host_pattern = pattern_of row.host_pattern;
    network = network_of row.client_cidr;
    port = row.port;
    action = row.action;
    capture_bodies = row.capture_bodies;
    capture_max_bytes = row.capture_max_bytes;
    redact = row.redact;
  }

  unfoldable pub refresh : List PolicyRule → Engine → Engine
  unfolding enabled_rows compile
  refresh db e =
      let compiled = map compile (enabled_rows db) in
      ite (CompiledRule-discrete Network-discrete compiled e.rules) e
        (record e { rules = compiled; version = e.version + 1 })

  abbrev pub decision : CompiledRule Network → Decision
  decision rule = record {
    action = rule.action;
    capture_bodies = rule.capture_bodies;
    capture_max_bytes = rule.capture_max_bytes;
    redact = rule.redact;
    rule_id = some rule.id;
    rule_name = some rule.name;
  }

  -- the loop of `evaluate`
  pub evaluate_from : List (CompiledRule Network) → Decision → Text → ℕ → Text → Decision
  evaluate_from [] default host port client_ip = default
  evaluate_from (rule ∷ rules) default host port client_ip =
      if matches rule host port client_ip
      then decision rule
      else evaluate_from rules default host port client_ip

  unfoldable pub evaluate : Engine → Text → ℕ → Text → Decision
  unfolding evaluate_from
  evaluate e host port client_ip = evaluate_from e.rules e.default host port client_ip
