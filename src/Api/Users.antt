-- ===== src/Api/Users.antt =====
-- services/api/app/routers/users.py: the administration of users. A handler takes the database as the
-- request finds it, and returns its reply with the database as it leaves it; a request that raises has
-- committed nothing. Requests are modelled one after the other.
pub mod Requests
pub mod Store
pub mod Lockout
pub mod Keys
pub mod Unique
use decrypt0r_x.Prelude.{
  ℕ, ◌+◌, Bool, true, false, not, ◌&&◌, ◌||◌, List, [], ◌∷◌, ◌++◌, Option, none, some,
  if◌then◌else◌, any, select, ◌==◌,
}
use decrypt0r_x.Text.{Text, codes, text_eq, lower}
use decrypt0r_x.Models.{Role, admin, operator, viewer, User, AuditLog}
use decrypt0r_x.Api.Reply.{Reply, reply, http_error, uncaught}

pub record Db : Type 0 where
  pub users : List User
  pub audit : List AuditLog
  pub next_id : ℕ

pub record UserCreate : Type 0 where
  pub email : Text
  pub password : Text
  pub full_name : Option Text
  pub role : Role

-- a field of `model_dump(exclude_unset=True)`: absent, null or a value
pub data Change {ℓ} (A : Type ℓ) : Type ℓ where
  unset null : Change A
  to : A → Change A

pub record UserUpdate : Type 0 where
  pub full_name : Change Text
  pub role : Change Role
  pub is_active : Change Bool
  pub password : Change Text

-- `session.get(User, id)`
abbrev pub find_user : ℕ → List User → Option User
find_user id [] = none
find_user id (u ∷ users) = if u.id == id then some u else find_user id users

abbrev pub replace_user : User → List User → List User
replace_user new [] = []
replace_user new (u ∷ users) = (if u.id == new.id then new else u) ∷ replace_user new users

abbrev pub delete_row : ℕ → List User → List User
delete_row id users = select (λ u. not (u.id == id)) users

abbrev pub has_email : Text → List User → Bool
has_email email users = any (λ u. text_eq u.email email) users

abbrev pub is_admin : Role → Bool
is_admin admin = true
is_admin operator = false
is_admin viewer = false

abbrev pub record_audit : AuditLog → Db → Db
record_audit row db = record db { audit = db.audit ++ row ∷ [] }

-- `changes.get("is_active") is False`
abbrev pub deactivates : Change Bool → Bool
deactivates unset = false
deactivates null = false
deactivates (to b) = not b

-- `changes.get("role") not in (None, Role.ADMIN)`
abbrev pub demotes : Change Role → Bool
demotes unset = false
demotes null = false
demotes (to role) = not (is_admin role)

-- an active administrator other than the user
abbrev pub other_admin : ℕ → User → Bool
other_admin id u = is_admin u.role && u.is_active && not (u.id == id)

-- what `setattr` leaves in a column that may be null
abbrev changed_name : Change Text → Option Text → Option Text
changed_name unset old = old
changed_name null old = none
changed_name (to t) old = some t

-- in a column that may not: `none` is the `IntegrityError` of the commit
abbrev pub changed {ℓ} : {A : Type ℓ} → Change A → A → Option A
changed unset old = some old
changed null old = none
changed (to a) old = some a

-- the parameters that argon2 implements
module _ (hash_password : Text → Text) (client_ip : Text) where
  abbrev pub created_user : UserCreate → ℕ → User
  created_user payload id = record {
    id = id;
    email = lower payload.email;
    full_name = payload.full_name;
    password_hash = hash_password payload.password;
    role = payload.role;
    is_active = true;
    last_login_at = none;
  }

  -- the audit row is added before the commit that may fail
  unfoldable pub create_user : User → UserCreate → Db → Reply User × Db
  create_user actor payload db =
      if has_email (lower payload.email) db.users then (http_error 409, db) else (
        reply (created_user payload db.next_id),
        record {
          users = db.users ++ created_user payload db.next_id ∷ [];
          audit =
              db.audit
              ++ record {
                actor = actor.email;
                action = codes "user.created";
                target = some (lower payload.email);
                client_ip = client_ip;
              }
                ∷ [];
          next_id = db.next_id + 1;
        },
      )

  -- `if password`
  abbrev new_hash : Change Text → Text → Text
  new_hash unset old = old
  new_hash null old = old
  new_hash (to []) old = old
  new_hash (to (c ∷ t)) old = hash_password (c ∷ t)

  abbrev pub apply_changes : UserUpdate → User → Role → Bool → User
  apply_changes payload user role is_active = record user {
    full_name = changed_name payload.full_name user.full_name;
    password_hash = new_hash payload.password user.password_hash;
    role = role;
    is_active = is_active;
  }

  abbrev pub commit_update : User → User → Db → Reply User × Db
  commit_update actor user db = (
    reply user,
    record db {
      users = replace_user user db.users;
      audit =
          db.audit
          ++ record {
            actor = actor.email;
            action = codes "user.updated";
            target = some user.email;
            client_ip = client_ip;
          }
            ∷ [];
    },
  )

  abbrev pub commit_with :
      User → UserUpdate → User → Db → Option Role → Option Bool → Reply User × Db
  commit_with actor payload user db none is_active = (uncaught, db)
  commit_with actor payload user db (some role) none = (uncaught, db)
  commit_with actor payload user db (some role) (some is_active) =
      commit_update actor (apply_changes payload user role is_active) db

  -- the assignments and the commit
  pub write_changes : User → UserUpdate → User → Db → Reply User × Db
  write_changes actor payload user db =
      commit_with actor payload user db (changed payload.role user.role)
        (changed payload.is_active user.is_active)

  -- the two guards
  pub update_found : User → UserUpdate → User → Db → Reply User × Db
  unfolding write_changes
  update_found actor payload user db =
      let loses_admin = deactivates payload.is_active || demotes payload.role in
      if user.id == actor.id && loses_admin
      then (http_error 400, db)
      else if loses_admin && is_admin user.role && not (any (other_admin user.id) db.users)
      then (http_error 400, db)
      else write_changes actor payload user db

  unfoldable pub update_user : User → ℕ → UserUpdate → Db → Reply User × Db
  unfolding update_found
  update_user actor user_id payload db = elim (find_user user_id db.users) [
    | none ↦ (http_error 404, db)
    | some user ↦ update_found actor payload user db
  ]

  abbrev pub delete_found : User → User → Db → Reply (Unit {0}) × Db
  delete_found actor user db = if user.id == actor.id then (http_error 400, db) else (
    reply tt,
    record db {
      users = delete_row user.id db.users;
      audit =
          db.audit
          ++ record {
            actor = actor.email;
            action = codes "user.deleted";
            target = some user.email;
            client_ip = client_ip;
          }
            ∷ [];
    },
  )

  unfoldable pub delete_user : User → ℕ → Db → Reply (Unit {0}) × Db
  delete_user actor user_id db = elim (find_user user_id db.users) [
    | none ↦ (http_error 404, db)
    | some user ↦ delete_found actor user db
  ]
