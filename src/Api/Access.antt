-- ===== src/Api/Access.antt =====
-- services/api/app/deps.py: the current user and the roles, as a dependency of the handlers.
use decrypt0r_x.Prelude.{
  ℕ, ◌≤◌, ◌≡◌, refl, true, List, [], ◌∷◌, Option, none, some, if◌then◌else◌, ltb, arith,
}
use decrypt0r_x.Text.{Text, text_eq}
use decrypt0r_x.Models.{Role, admin, operator, viewer, User}
use decrypt0r_x.Api.Reply.{Reply, reply, http_error}

-- `_ROLE_RANK`
abbrev pub role_rank : Role → ℕ
role_rank viewer = 0
role_rank operator = 1
role_rank admin = 2

-- `require_role(minimum)`, after the current user is known
unfoldable pub require_role : Role → User → Reply User
require_role minimum user =
    if ltb (role_rank user.role) (role_rank minimum) then http_error 403 else reply user

-- the first user with the address
abbrev pub by_email : Text → List User → Option User
by_email email [] = none
by_email email (u ∷ users) = if text_eq u.email email then some u else by_email email users

-- `decode_access_token`: the subject of a valid token, or one of its two errors
pub data Token : Type 0 where
  missing expired invalid : Token
  subject : Text → Token

abbrev active_user : Option User → Reply User
active_user none = http_error 401
active_user (some u) = if u.is_active then reply u else http_error 401

unfoldable pub get_current_user : List User → Token → Reply User
get_current_user users missing = http_error 401
get_current_user users expired = http_error 401
get_current_user users invalid = http_error 401
get_current_user users (subject email) = active_user (by_email email users)

abbrev pub then_require : Role → Reply User → Reply User
then_require minimum (reply user) = require_role minimum user
then_require minimum other = other

-- the dependency as a whole
unfoldable pub dependency : Role → List User → Token → Reply User
unfolding get_current_user require_role
dependency minimum users token = then_require minimum (get_current_user users token)

-- A request passes the dependency only with the token of a user of the database who is active and
-- whose role ranks at least as high as the one required.
pub dependency_sound :
    (minimum : Role) (users : List User) (token : Token) (u : User)
    → dependency minimum users token ≡ reply u
    → (email : Text) × (token ≡ subject email)
      × (by_email email users ≡ some u)
      × (u.is_active ≡ true)
      × (role_rank minimum ≤ role_rank u.role)
unfolding dependency
dependency_sound minimum users missing u h = cc
dependency_sound minimum users expired u h = cc
dependency_sound minimum users invalid u h = cc
dependency_sound minimum users (subject email) u h =
    (email, refl, ground arith, ground arith, ground arith)

-- Whoever passes the requirement of a role passes that of every role that ranks no higher.
pub dependency_mono :
    (low high : Role) (users : List User) (token : Token) (u : User)
    → role_rank low ≤ role_rank high
    → dependency high users token ≡ reply u
    → dependency low users token ≡ reply u
unfolding dependency
dependency_mono low high users missing u le h = cc
dependency_mono low high users expired u le h = cc
dependency_mono low high users invalid u le h = cc
dependency_mono low high users (subject email) u le h = ground arith
