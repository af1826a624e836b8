-- ===== src/Api/Policies.antt =====
-- services/api/app/routers/policies.py: create_policy, update_policy and delete_policy, with the
-- validation that services/api/app/schemas.py declares for their payloads. `ip_network` stands for the
-- library's, as in the interface of the policy engine.
pub mod Payloads
pub mod Requests
pub mod Fields
pub mod Valid
use decrypt0r_x.Api.Policies.Payloads.{
  PolicyRuleCreate, PolicyRuleUpdate, in_range, in_range_or_none, change_in_range, length_within,
  max_priority, max_port, max_capture, changed_or_null, Numbers, NumberChanges, numbers, numbers_of,
  number_changes, changes_of, texts_valid, Columns, columns, columns_of,
}
use decrypt0r_x.Prelude.{
  ℕ, ◌+◌, Bool, true, false, not, ◌&&◌, List, [], ◌∷◌, ◌++◌, Option, none, some, if◌then◌else◌,
  length, select, leb, ◌==◌,
}
use decrypt0r_x.Prelude.Int.{ℤ, pos, negsuc}
use decrypt0r_x.Text.{Text, codes}
use decrypt0r_x.Models.{PolicyAction, PolicyRule, User, AuditLog}
use decrypt0r_x.Policy.{Matching}
use decrypt0r_x.Api.Reply.{Reply, reply, http_error, uncaught}
use decrypt0r_x.Api.Users.{Change, unset, null, to, changed}

pub record Db : Type 0 where
  pub rules : List PolicyRule
  pub audit : List AuditLog
  pub next_id : ℕ

abbrev pub find_rule : ℕ → List PolicyRule → Option PolicyRule
find_rule id [] = none
find_rule id (rule ∷ rules) = if rule.id == id then some rule else find_rule id rules

abbrev pub replace_rule : PolicyRule → List PolicyRule → List PolicyRule
replace_rule new [] = []
replace_rule new (rule ∷ rules) = (if rule.id == new.id then new else rule) ∷ replace_rule new rules

-- the reply, the database and the id that is published
abbrev pub Outcome : Type 0
Outcome = Reply PolicyRule × Db × Option ℕ

module _ (lib : Matching) (client_ip : Text) where
  open lib use {Network, ip_network}

  abbrev pub if_network : Text → Option Network → Option (Option Text)
  if_network t none = none
  if_network t (some n) = some (some t)

  -- `_valid_cidr` of a new rule: an empty range is none
  abbrev pub valid_cidr : Option Text → Option (Option Text)
  valid_cidr none = some none
  valid_cidr (some []) = some none
  valid_cidr (some (c ∷ t)) = if_network (c ∷ t) (ip_network (c ∷ t))

  abbrev pub is_network : Option Network → Bool
  is_network none = false
  is_network (some n) = true

  -- the test of `update_policy` on the range
  abbrev pub cidr_accepted : Change Text → Bool
  cidr_accepted unset = true
  cidr_accepted null = true
  cidr_accepted (to []) = true
  cidr_accepted (to (c ∷ t)) = is_network (ip_network (c ∷ t))

  abbrev pub audit_row : Text → User → Text → AuditLog
  audit_row action actor name = record {
    actor = actor.email;
    action = action;
    target = some name;
    client_ip = client_ip;
  }

  abbrev pub new_rule : PolicyRuleCreate → Numbers → Option Text → ℕ → PolicyRule
  new_rule payload n cidr id = record {
    id = id;
    name = payload.name;
    description = payload.description;
    priority = n.priority;
    enabled = payload.enabled;
    host_pattern = payload.host_pattern;
    client_cidr = cidr;
    port = n.port;
    action = payload.action;
    capture_bodies = payload.capture_bodies;
    capture_max_bytes = n.capture_max_bytes;
    redact = payload.redact;
  }

  abbrev pub create_valid :
      User → PolicyRuleCreate → Db → Option Numbers → Option (Option Text) → Outcome
  create_valid actor payload db none cidr = (http_error 422, db, none)
  create_valid actor payload db (some n) none = (http_error 422, db, none)
  create_valid actor payload db (some n) (some cidr) =
      let rule = new_rule payload n cidr db.next_id in
      (
        reply rule,
        record {
          rules = db.rules ++ rule ∷ [];
          audit = db.audit ++ audit_row (codes "policy.created") actor payload.name ∷ [];
          next_id = db.next_id + 1;
        },
        some rule.id,
      )

  unfoldable pub create_policy : User → PolicyRuleCreate → Db → Outcome
  create_policy actor payload db =
      if not (texts_valid payload)
      then (http_error 422, db, none)
      else create_valid actor payload db (numbers_of payload) (valid_cidr payload.client_cidr)

  abbrev pub patched : PolicyRuleUpdate → NumberChanges → PolicyRule → Columns → PolicyRule
  patched payload n rule c = record {
    id = rule.id;
    name = c.name;
    description = changed_or_null payload.description rule.description;
    priority = c.priority;
    enabled = c.enabled;
    host_pattern = c.host_pattern;
    client_cidr = changed_or_null payload.client_cidr rule.client_cidr;
    port = changed_or_null n.port rule.port;
    action = c.action;
    capture_bodies = c.capture_bodies;
    capture_max_bytes = c.capture_max_bytes;
    redact = c.redact;
  }

  abbrev pub commit_patch :
      User → PolicyRuleUpdate → Db → NumberChanges → PolicyRule → Option Columns → Outcome
  commit_patch actor payload db n rule none = (uncaught, db, none)
  commit_patch actor payload db n rule (some c) =
      let new = patched payload n rule c in
      (
        reply new,
        record db {
          rules = replace_rule new db.rules;
          audit = db.audit ++ audit_row (codes "policy.updated") actor new.name ∷ [];
        },
        some new.id,
      )

  abbrev pub update_found :
      User → PolicyRuleUpdate → Db → NumberChanges → Option PolicyRule → Outcome
  update_found actor payload db n none = (http_error 404, db, none)
  update_found actor payload db n (some rule) =
      if not (cidr_accepted payload.client_cidr)
      then (http_error 422, db, none)
      else commit_patch actor payload db n rule (columns_of payload n rule)

  abbrev pub update_valid : User → ℕ → PolicyRuleUpdate → Db → Option NumberChanges → Outcome
  update_valid actor rule_id payload db none = (http_error 422, db, none)
  update_valid actor rule_id payload db (some n) =
      update_found actor payload db n (find_rule rule_id db.rules)

  unfoldable pub update_policy : User → ℕ → PolicyRuleUpdate → Db → Outcome
  update_policy actor rule_id payload db =
      update_valid actor rule_id payload db (changes_of payload)

  abbrev pub delete_found : User → Db → Option PolicyRule → Outcome
  delete_found actor db none = (http_error 404, db, none)
  delete_found actor db (some rule) = (
    reply rule,
    record db {
      rules = select (λ r. not (r.id == rule.id)) db.rules;
      audit = db.audit ++ audit_row (codes "policy.deleted") actor rule.name ∷ [];
    },
    some rule.id,
  )

  -- the row in the reply stands for the empty 204
  unfoldable pub delete_policy : User → ℕ → Db → Outcome
  delete_policy actor rule_id db = delete_found actor db (find_rule rule_id db.rules)
