-- ===== src/Api/Policies/Payloads.antt =====
-- services/api/app/schemas.py: the payloads of the requests on rules, and the constraints on their fields.
use decrypt0r_x.Prelude.{ℕ, Bool, ◌&&◌, [], Option, none, some, if◌then◌else◌, length, leb}
use decrypt0r_x.Prelude.Int.{ℤ, pos, negsuc}
use decrypt0r_x.Text.{Text}
use decrypt0r_x.Models.{PolicyAction, PolicyRule}
use decrypt0r_x.Api.Users.{Change, unset, null, to, changed}

pub record PolicyRuleCreate : Type 0 where
  pub name : Text
  pub description : Option Text
  pub priority : ℤ
  pub enabled : Bool
  pub host_pattern : Text
  pub client_cidr : Option Text
  pub port : Option ℤ
  pub action : PolicyAction
  pub capture_bodies : Bool
  pub capture_max_bytes : ℤ
  pub redact : Bool

pub record PolicyRuleUpdate : Type 0 where
  pub name : Change Text
  pub description : Change Text
  pub priority : Change ℤ
  pub enabled : Change Bool
  pub host_pattern : Change Text
  pub client_cidr : Change Text
  pub port : Change ℤ
  pub action : Change PolicyAction
  pub capture_bodies : Change Bool
  pub capture_max_bytes : Change ℤ
  pub redact : Change Bool

-- `Field(ge=low, le=high)`
abbrev pub in_range : ℕ → ℕ → ℤ → Option ℕ
in_range low high (pos n) = if leb low n && leb n high then some n else none
in_range low high (negsuc n) = none

-- the same of a value that may be missing
abbrev pub in_range_or_none : ℕ → ℕ → Option ℤ → Option (Option ℕ)
in_range_or_none low high none = some none
in_range_or_none low high (some z) = elim (in_range low high z) [
  | none ↦ none
  | some n ↦ some (some n)
]

-- and of a field of a patch
abbrev pub change_in_range : ℕ → ℕ → Change ℤ → Option (Change ℕ)
change_in_range low high unset = some unset
change_in_range low high null = some null
change_in_range low high (to z) = elim (in_range low high z) [ none ↦ none | some n ↦ some (to n) ]

abbrev pub length_within : ℕ → ℕ → Text → Bool
length_within low high t = leb low (length t) && leb (length t) high

abbrev pub max_priority : ℕ
max_priority = 100000

abbrev pub max_port : ℕ
max_port = 65535

abbrev pub max_capture : ℕ
max_capture = 67108864

-- a column that may be null
abbrev pub changed_or_null {ℓ} : {A : Type ℓ} → Change A → Option A → Option A
changed_or_null unset old = old
changed_or_null null old = none
changed_or_null (to a) old = some a

-- the numbers of a payload, once they are in their ranges
pub record Numbers : Type 0 where
  pub priority : ℕ
  pub port : Option ℕ
  pub capture_max_bytes : ℕ

pub record NumberChanges : Type 0 where
  pub priority : Change ℕ
  pub port : Change ℕ
  pub capture_max_bytes : Change ℕ

abbrev pub numbers : Option ℕ → Option (Option ℕ) → Option ℕ → Option Numbers
numbers (some priority) (some port) (some capture) =
    some (record { priority = priority; port = port; capture_max_bytes = capture })
numbers none port capture = none
numbers (some priority) none capture = none
numbers (some priority) (some port) none = none

abbrev pub numbers_of : PolicyRuleCreate → Option Numbers
numbers_of payload =
    numbers (in_range 0 max_priority payload.priority) (in_range_or_none 1 max_port payload.port)
      (in_range 0 max_capture payload.capture_max_bytes)

abbrev pub number_changes :
    Option (Change ℕ) → Option (Change ℕ) → Option (Change ℕ) → Option NumberChanges
number_changes (some priority) (some port) (some capture) =
    some (record { priority = priority; port = port; capture_max_bytes = capture })
number_changes none port capture = none
number_changes (some priority) none capture = none
number_changes (some priority) (some port) none = none

abbrev pub changes_of : PolicyRuleUpdate → Option NumberChanges
changes_of payload =
    number_changes (change_in_range 0 max_priority payload.priority)
      (change_in_range 1 max_port payload.port)
      (change_in_range 0 max_capture payload.capture_max_bytes)

-- the constraints on the texts of a new rule
abbrev pub texts_valid : PolicyRuleCreate → Bool
texts_valid payload =
    length_within 1 200 payload.name
    && length_within 0 300 payload.host_pattern
    && length_within 0 64 (text_or_empty payload.client_cidr)
  where
    text_or_empty : Option Text → Text
    text_or_empty none = []
    text_or_empty (some t) = t

-- the row with a patch's values; `none` is the `IntegrityError` of a null in a column that may not be
pub record Columns : Type 0 where
  pub name : Text
  pub priority : ℕ
  pub enabled : Bool
  pub host_pattern : Text
  pub action : PolicyAction
  pub capture_bodies : Bool
  pub capture_max_bytes : ℕ
  pub redact : Bool

abbrev pub columns :
    Option Text
    → Option ℕ
    → Option Bool
    → Option Text
    → Option PolicyAction
    → Option Bool
    → Option ℕ
    → Option Bool
    → Option Columns
columns (some name) (some priority) (some on) (some pattern) (some action) (some capture)
      (some most) (some r) =
    some (record {
      name = name;
      priority = priority;
      enabled = on;
      host_pattern = pattern;
      action = action;
      capture_bodies = capture;
      capture_max_bytes = most;
      redact = r;
    })
columns _ _ _ _ _ _ _ _ = none

abbrev pub columns_of : PolicyRuleUpdate → NumberChanges → PolicyRule → Option Columns
columns_of payload n rule =
    columns (changed payload.name rule.name) (changed n.priority rule.priority)
      (changed payload.enabled rule.enabled) (changed payload.host_pattern rule.host_pattern)
      (changed payload.action rule.action) (changed payload.capture_bodies rule.capture_bodies)
      (changed n.capture_max_bytes rule.capture_max_bytes) (changed payload.redact rule.redact)
