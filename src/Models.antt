-- ===== src/Models.antt =====
-- packages/core/decrypt0rx_core/models.py: the enumerations and the rows that both services read.
-- The time stamps `created_at` and `updated_at` of rules and users are left out: no code reads them.
use decrypt0r_x.Prelude.{ℕ, Bool, Option}
use decrypt0r_x.Text.{Text}

pub data Role : Type 0 where
  admin operator viewer : Role

pub Role-discrete : Discrete Role
Role-discrete = hlevel

pub data PolicyAction : Type 0 where
  intercept bypass block : PolicyAction

pub PolicyAction-discrete : Discrete PolicyAction
PolicyAction-discrete = hlevel

pub data CaSource : Type 0 where
  generated imported : CaSource

pub record PolicyRule : Type 0 where
  pub id : ℕ
  pub name : Text
  pub description : Option Text
  pub priority : ℕ
  pub enabled : Bool
  pub host_pattern : Text
  pub client_cidr : Option Text
  pub port : Option ℕ
  pub action : PolicyAction
  pub capture_bodies : Bool
  pub capture_max_bytes : ℕ
  pub redact : Bool

pub record User : Type 0 where
  pub id : ℕ
  pub email : Text
  pub full_name : Option Text
  pub password_hash : Text
  pub role : Role
  pub is_active : Bool
  pub last_login_at : Option ℕ

-- a row of the audit trail; `detail` and the time stamp are left out
pub record AuditLog : Type 0 where
  pub actor : Text
  pub action : Text
  pub target : Option Text
  pub client_ip : Text

-- The certificate's own fields `subject`, `key_algorithm` and `not_before` are only displayed, and are
-- left out. Times are seconds.
pub record CertificateAuthority : Type 0 where
  pub id : ℕ
  pub name : Text
  pub cert_pem : Text
  pub key_encrypted : Text
  pub fingerprint : Text
  pub not_after : ℕ
  pub is_active : Bool
  pub source : CaSource
  pub created_by : Option Text
