-- ===== src/Api/Auth.antt =====
-- services/api/app/routers/auth.py and security.py: login and the change of a password. argon2 and JWT are the
-- interface `Crypto`. A handler takes the database as the request finds it, and returns its reply with the database
-- as it leaves it.
pub mod Sessions
use decrypt0r_x.Prelude.{
  ℕ, ◌+◌, ◌*◌, Bool, true, false, not, ◌&&◌, ◌||◌, List, [], ◌∷◌, ◌++◌, Option, none, some,
  if◌then◌else◌, length, leb,
}
use decrypt0r_x.Text.{Text, codes, lower, split_on, strip}
use decrypt0r_x.Models.{Role, User, AuditLog}
use decrypt0r_x.Api.Reply.{Reply, reply, http_error, uncaught}
use decrypt0r_x.Api.Access.{by_email}
use decrypt0r_x.Api.Users.{Db, replace_user, record_audit}

-- `VerifyMismatchError`, `VerificationError` and `InvalidHashError`
pub data HashError : Type 0 where
  mismatch verification invalid_hash : HashError

pub data Checked : Type 0 where
  checked : Bool → Checked
  raised : HashError → Checked

pub record Crypto : Type 0 where
  -- `PasswordHasher().hash(password)`
  pub hash : Text → Text
  -- `verify(password_hash, password)`
  pub verify : Text → Text → Checked
  -- `check_needs_rehash(password_hash)`; `none` is an `InvalidHashError`
  pub check_needs_rehash : Text → Option Bool
  -- the token for a subject, a role and the second at which it expires
  pub encode : Text → Role → ℕ → Text

pub record LoginRequest : Type 0 where
  pub email : Text
  pub password : Text

pub record PasswordChange : Type 0 where
  pub current_password : Text
  pub new_password : Text

pub record TokenResponse : Type 0 where
  pub access_token : Text
  pub expires_at : ℕ
  pub user : User

abbrev in_length : ℕ → ℕ → Text → Bool
in_length low high t = leb low (length t) && leb (length t) high

-- the constraints on the two payloads
abbrev pub login_valid : LoginRequest → Bool
login_valid payload = in_length 3 320 payload.email && in_length 1 256 payload.password

abbrev pub change_valid : PasswordChange → Bool
change_valid payload = in_length 12 256 payload.new_password

-- `client_ip(request)`, by the header `X-Forwarded-For` and the address of the connection
abbrev first_of : List Text → Text
first_of [] = []
first_of (part ∷ parts) = strip part

abbrev peer_or_unknown : Option Text → Text
peer_or_unknown none = codes "unknown"
peer_or_unknown (some host) = host

unfoldable pub client_ip : Option Text → Option Text → Text
client_ip none peer = peer_or_unknown peer
client_ip (some []) peer = peer_or_unknown peer
client_ip (some (c ∷ forwarded)) peer = first_of (split_on b',' (c ∷ forwarded))

module _ (crypto : Crypto) where
  open crypto use {hash, verify, check_needs_rehash, encode}

  abbrev verified : Checked → Bool
  verified (checked b) = b
  verified (raised mismatch) = false
  verified (raised verification) = false
  verified (raised invalid_hash) = false

  unfoldable pub verify_password : Text → Text → Bool
  verify_password password password_hash = verified (verify password_hash password)

  abbrev rehash_if : Option Bool → Bool
  rehash_if none = true
  rehash_if (some b) = b

  unfoldable pub needs_rehash : Text → Bool
  needs_rehash password_hash = rehash_if (check_needs_rehash password_hash)

  -- `create_access_token`
  unfoldable pub create_access_token : Text → Role → ℕ → ℕ → Text × ℕ
  create_access_token subject role minutes now =
      let expires = now + minutes * 60 in (encode subject role expires, expires)

  module _ (ip : Text) (token_minutes now : ℕ) where
    -- the column of the address in the audit log has 45 characters
    abbrev pub fits : Bool
    fits = leb (length ip) 45

    -- the commit with the audit entry; where it fails, nothing is stored and the exception is not caught
    abbrev pub commit {ℓ} : {A : Type ℓ} → Db → Reply A × Db → Reply A × Db
    commit db outcome = if fits then outcome else (uncaught, db)

    -- the same reply for an unknown address and for a wrong password
    abbrev pub refused : LoginRequest → Db → Reply TokenResponse × Db
    refused payload db = commit db (
      http_error 401,
      record_audit
          (record {
            actor = payload.email;
            action = codes "auth.login.failed";
            target = none;
            client_ip = ip;
          })
          db,
    )

    -- the user as a login leaves it
    abbrev pub logged_in : LoginRequest → User → User
    logged_in payload user = record user {
      password_hash =
          if needs_rehash user.password_hash then hash payload.password else user.password_hash;
      last_login_at = some now;
    }

    abbrev pub admitted : LoginRequest → User → Db → Reply TokenResponse × Db
    admitted payload user db =
        let new = logged_in payload user in
        let (token, expires) = create_access_token user.email user.role token_minutes now in
        commit db (
          reply (record { access_token = token; expires_at = expires; user = new }),
          record_audit
              (record {
                actor = user.email;
                action = codes "auth.login";
                target = none;
                client_ip = ip;
              })
              (record db { users = replace_user new db.users }),
        )

    abbrev pub login_found : LoginRequest → Db → Option User → Reply TokenResponse × Db
    login_found payload db none = refused payload db
    login_found payload db (some user) =
        if not (verify_password payload.password user.password_hash)
        then refused payload db
        else if not user.is_active
        then (http_error 403, db)
        else admitted payload user db

    -- `login`
    unfoldable pub login : LoginRequest → Db → Reply TokenResponse × Db
    unfolding verify_password needs_rehash create_access_token
    login payload db =
        if login_valid payload
        then login_found payload db (by_email (lower payload.email) db.users)
        else (http_error 422, db)

    -- the user with the new password, and the commit
    abbrev pub with_password : PasswordChange → User → User
    with_password payload user = record user { password_hash = hash payload.new_password }

    abbrev pub store_password : PasswordChange → User → Db → Reply (Unit {0}) × Db
    store_password payload user db = commit db (
      reply tt,
      record_audit
          (record {
            actor = user.email;
            action = codes "auth.password_changed";
            target = none;
            client_ip = ip;
          })
          (record db { users = replace_user (with_password payload user) db.users }),
    )

    -- `change_password` of the current user
    unfoldable pub change_password : PasswordChange → User → Db → Reply (Unit {0}) × Db
    unfolding verify_password
    change_password payload user db =
        if not (change_valid payload)
        then (http_error 422, db)
        else if not (verify_password payload.current_password user.password_hash)
        then (http_error 400, db)
        else store_password payload user db
