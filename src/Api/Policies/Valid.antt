-- ===== src/Api/Policies/Valid.antt =====
-- The rules that services/api/app/routers/policies.py stores, and the dry run on them.
use mathlib.Core.List.{Memᴰ}
use decrypt0r_x.Prelude.{
  ℕ, ◌≤◌, ◌≡◌, refl, sym, subst, Bool, true, false, List, [], ◌∷◌, ◌++◌, Option, none, some, select,
  ◌==◌, Bool-cases, inl, inr,
}
use decrypt0r_x.Text.{Text}
use decrypt0r_x.Models.{intercept, PolicyRule, User}
use decrypt0r_x.Policy
use decrypt0r_x.Policy.{Matching, Engine, enabled_rows, refresh, evaluate}
use decrypt0r_x.Policy.Rules.{enabled_rows-Memᴰ}
use decrypt0r_x.Policy.DryRun.{test_policy, ValidCidr, reported, verdict, test_policy-evaluate}
use decrypt0r_x.Api.Users.{Change, unset, null, to}
use decrypt0r_x.Api.Policies.{
  Db, find_rule, replace_rule, if_network, valid_cidr, is_network, cidr_accepted, create_valid,
  create_policy, commit_patch, update_found, update_valid, update_policy, delete_found,
  delete_policy,
}
use decrypt0r_x.Api.Policies.Payloads.{
  PolicyRuleCreate, PolicyRuleUpdate, changed_or_null, Numbers, NumberChanges, numbers_of,
  changes_of, texts_valid, Columns, columns_of,
}
use decrypt0r_x.Api.Policies.Requests.{Call, create, update, delete, perform, perform_all}
use decrypt0r_x.Api.Policies.Fields.{
  PortIsValid, some_same, in_range-bounds, in_range_or_none-PortIsValid, changed_port-PortIsValid,
  changed_number-le, numbers-parts, number_changes-parts, columns-parts,
}

module _ (lib : Matching) where
  open lib use {Network, ip_network}

  pub record IsValid (rule : PolicyRule) : Type 0 where
    pub cidr : ValidCidr lib rule.client_cidr
    pub port : PortIsValid rule.port
    pub priority : rule.priority ≤ 100000
    pub capture : rule.capture_max_bytes ≤ 67108864

  abbrev pub AllValid : List PolicyRule → Type 0
  AllValid [] = Unit {0}
  AllValid (rule ∷ rules) = IsValid rule × AllValid rules

  AllValid-append :
      (rules : List PolicyRule) (new : PolicyRule)
      → AllValid rules
      → IsValid new
      → AllValid (rules ++ new ∷ [])
  AllValid-append [] new h k = (k, tt)
  AllValid-append (rule ∷ rules) new h k = (h.0, AllValid-append rules new h.1 k)

  AllValid-replace :
      (new : PolicyRule) (rules : List PolicyRule)
      → AllValid rules
      → IsValid new
      → AllValid (replace_rule new rules)
  AllValid-replace new [] h k = tt
  AllValid-replace new (rule ∷ rules) h k = elim (Bool-cases (rule.id == new.id)) [
    | inl hit ↦ rw hit (k, AllValid-replace new rules h.1 k)
    | inr miss ↦ rw miss (h.0, AllValid-replace new rules h.1 k)
  ]

  AllValid-select :
      (p : PolicyRule → Bool) (rules : List PolicyRule) → AllValid rules → AllValid (select p rules)
  AllValid-select p [] h = tt
  AllValid-select p (rule ∷ rules) h = elim (Bool-cases (p rule)) [
    | inl kept ↦ rw kept (h.0, AllValid-select p rules h.1)
    | inr gone ↦ rw gone (AllValid-select p rules h.1)
  ]

  AllValid-find :
      (id : ℕ) (rules : List PolicyRule) (rule : PolicyRule)
      → find_rule id rules ≡ some rule
      → AllValid rules
      → IsValid rule
  AllValid-find id [] rule e h = cc
  AllValid-find id (r ∷ rules) rule e h = elim (Bool-cases (r.id == id)) [
    | inl hit ↦ subst IsValid (some_same (rw hit at e)) h.0
    | inr miss ↦ AllValid-find id rules rule (rw miss at e) h.1
  ]

  AllValid-Memᴰ :
      (rules : List PolicyRule) (rule : PolicyRule)
      → Memᴰ rule rules
      → AllValid rules
      → IsValid rule
  AllValid-Memᴰ [] rule m h = elim m [ ]
  AllValid-Memᴰ (r ∷ rules) rule (Memᴰ.head e) h = subst IsValid (sym e) h.0
  AllValid-Memᴰ (r ∷ rules) rule (Memᴰ.tail m) h = AllValid-Memᴰ rules rule m h.1

  valid_cidr-ValidCidr :
      (client_ip : Text) (o c : Option Text) → valid_cidr lib client_ip o ≡ some c → ValidCidr lib c
  valid_cidr-ValidCidr client_ip none c h = subst (ValidCidr lib) (some_same h) tt
  valid_cidr-ValidCidr client_ip (some []) c h = subst (ValidCidr lib) (some_same h) tt
  valid_cidr-ValidCidr client_ip (some (x ∷ t)) c h = go (ip_network (x ∷ t)) refl h
    where
      go :
          (o : Option Network)
          → ip_network (x ∷ t) ≡ o
          → if_network lib client_ip (x ∷ t) o ≡ some c
          → ValidCidr lib c
      go none refused e = cc
      go (some n) read e = subst (ValidCidr lib) (some_same e) (λ q. cc)

  changed_cidr-ValidCidr :
      (client_ip : Text) (c : Change Text) (old : Option Text)
      → cidr_accepted lib client_ip c ≡ true
      → ValidCidr lib old
      → ValidCidr lib (changed_or_null c old)
  changed_cidr-ValidCidr client_ip unset old h k = k
  changed_cidr-ValidCidr client_ip null old h k = tt
  changed_cidr-ValidCidr client_ip (to []) old h k = tt
  changed_cidr-ValidCidr client_ip (to (x ∷ t)) old h k =
      λ refused. cc (subst (λ o. is_network lib client_ip o ≡ true) refused h)

  module _ (client_ip : Text) where
    create_valid-AllValid :
        (actor : User) (payload : PolicyRuleCreate) (db : Db) (o : Option Numbers)
        (c : Option (Option Text))
        → numbers_of payload ≡ o
        → valid_cidr lib client_ip payload.client_cidr ≡ c
        → AllValid db.rules
        → AllValid (create_valid lib client_ip actor payload db o c).1.rules
    create_valid-AllValid actor payload db none c e q h = h
    create_valid-AllValid actor payload db (some n) none e q h = h
    create_valid-AllValid actor payload db (some n) (some cidr) e q h =
        let (priority, port, capture) = numbers-parts _ _ _ n e in
        AllValid-append db.rules _ h (record {
          cidr = valid_cidr-ValidCidr client_ip payload.client_cidr cidr q;
          port = in_range_or_none-PortIsValid payload.port n.port port;
          priority = (in_range-bounds 0 100000 payload.priority n.priority priority).1;
          capture =
              (in_range-bounds 0 67108864 payload.capture_max_bytes n.capture_max_bytes capture).1;
        })

    create_policy-AllValid :
        (actor : User) (payload : PolicyRuleCreate) (db : Db)
        → AllValid db.rules
        → AllValid (create_policy lib client_ip actor payload db).1.rules
    unfolding create_policy
    create_policy-AllValid actor payload db h = elim (Bool-cases (texts_valid payload)) [
      | inl good ↦ rw good (create_valid-AllValid actor payload db _ _ refl refl h)
      | inr bad ↦ rw bad h
    ]

    commit_patch-AllValid :
        (actor : User) (payload : PolicyRuleUpdate) (db : Db) (n : NumberChanges)
        (rule : PolicyRule) (o : Option Columns)
        → changes_of payload ≡ some n
        → cidr_accepted lib client_ip payload.client_cidr ≡ true
        → columns_of payload n rule ≡ o
        → IsValid rule
        → AllValid db.rules
        → AllValid (commit_patch lib client_ip actor payload db n rule o).1.rules
    commit_patch-AllValid actor payload db n rule none e a q v h = h
    commit_patch-AllValid actor payload db n rule (some c) e a q v h =
        let (priority, port, capture) = number_changes-parts _ _ _ n e in
        let (new_priority, new_capture) = columns-parts _ _ _ _ _ _ _ _ c q in
        AllValid-replace _ db.rules h (record {
          cidr = changed_cidr-ValidCidr client_ip payload.client_cidr rule.client_cidr a v.cidr;
          port = changed_port-PortIsValid payload.port n.port rule.port port v.port;
          priority =
              changed_number-le 100000 payload.priority n.priority rule.priority c.priority priority
                v.priority new_priority;
          capture =
              changed_number-le 67108864 payload.capture_max_bytes n.capture_max_bytes
                rule.capture_max_bytes c.capture_max_bytes capture v.capture new_capture;
        })

    update_policy-AllValid :
        (actor : User) (rule_id : ℕ) (payload : PolicyRuleUpdate) (db : Db)
        → AllValid db.rules
        → AllValid (update_policy lib client_ip actor rule_id payload db).1.rules
    unfolding update_policy
    update_policy-AllValid actor rule_id payload db h = go (changes_of payload) refl
      where
        found :
            (n : NumberChanges) (o : Option PolicyRule)
            → changes_of payload ≡ some n
            → find_rule rule_id db.rules ≡ o
            → AllValid (update_found lib client_ip actor payload db n o).1.rules
        found n none e q = h
        found n (some rule) e q =
            elim (Bool-cases (cidr_accepted lib client_ip payload.client_cidr)) [
              | inl good ↦ rw good (
                  commit_patch-AllValid actor payload db n rule (columns_of payload n rule) e good
                    refl (AllValid-find rule_id db.rules rule q h) h)
              | inr bad ↦ rw bad h
            ]

        go :
            (o : Option NumberChanges)
            → changes_of payload ≡ o
            → AllValid (update_valid lib client_ip actor rule_id payload db o).1.rules
        go none e = h
        go (some n) e = found n (find_rule rule_id db.rules) e refl

    delete_policy-AllValid :
        (actor : User) (rule_id : ℕ) (db : Db)
        → AllValid db.rules
        → AllValid (delete_policy lib client_ip actor rule_id db).1.rules
    unfolding delete_policy
    delete_policy-AllValid actor rule_id db h = go (find_rule rule_id db.rules)
      where
        go : (o : Option PolicyRule) → AllValid (delete_found lib client_ip actor db o).1.rules
        go none = h
        go (some rule) = AllValid-select _ db.rules h

    -- If every rule of the table has a range that the library reads, or none, a port from 1 to
    -- 65535, or none, and a priority and a capture limit within those of the schema, then so it is
    -- after any requests of any users.
    pub perform_all-AllValid :
        (calls : List (User × Call)) (db : Db)
        → AllValid db.rules
        → AllValid (perform_all lib client_ip calls db).rules
    unfolding perform_all perform
    perform_all-AllValid [] db h = h
    perform_all-AllValid ((actor, create payload) ∷ calls) db h =
        perform_all-AllValid calls (create_policy lib client_ip actor payload db).1
          (create_policy-AllValid actor payload db h)
    perform_all-AllValid ((actor, update id payload) ∷ calls) db h =
        perform_all-AllValid calls (update_policy lib client_ip actor id payload db).1
          (update_policy-AllValid actor id payload db h)
    perform_all-AllValid ((actor, delete id) ∷ calls) db h =
        perform_all-AllValid calls (delete_policy lib client_ip actor id db).1
          (delete_policy-AllValid actor id db h)

    -- After any requests on a table whose rules are valid, with the proxy's default to intercept
    -- without capture, the dry run reports the action, the capture, the redaction and the rule that
    -- the proxy decides by once it has refreshed.
    pub test_policy-perform_all :
        (calls : List (User × Call)) (db : Db) (e : Engine lib) (settings : Policy.Settings)
        (host : Text) (port : ℕ) (from : Text)
        → AllValid db.rules
        → settings.default_action ≡ intercept
        → settings.default_capture_bodies ≡ false
        → e.default ≡ (Policy.init lib settings).default
        → reported lib (test_policy lib (perform_all lib client_ip calls db).rules host port from)
          ≡ verdict lib (
              evaluate lib
                (refresh lib (perform_all lib client_ip calls db).rules e)
                host
                port
                from)
    test_policy-perform_all calls db e settings host port from h action capture usual =
        test_policy-evaluate lib (perform_all lib client_ip calls db).rules e settings host port
          from
          (λ row m.
            (AllValid-Memᴰ (perform_all lib client_ip calls db).rules row
              (enabled_rows-Memᴰ lib host port from (perform_all lib client_ip calls db).rules m).0
              (perform_all-AllValid calls db h)).cidr)
          action capture usual
