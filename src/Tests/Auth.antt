-- ===== src/Tests/Auth.antt =====
-- A user, a hash and tokens on which the theorems on logins are tried.
use decrypt0r_x.Prelude.{
  ℕ, ◌<◌, ◌≡◌, refl, true, false, [], ◌∷◌, none, some, if◌then◌else◌, ltb, arith,
}
use decrypt0r_x.Text.{Text, codes, text_eq}
use decrypt0r_x.Models.{Role, admin, User}
use decrypt0r_x.Api.Reply.{reply}
use decrypt0r_x.Api.Access.{Token, invalid, expired, subject, get_current_user}
use decrypt0r_x.Api.Users.{Db}
use decrypt0r_x.Api.Auth.{
  Crypto, checked, LoginRequest, PasswordChange, TokenResponse, verify_password, needs_rehash,
  create_access_token, login,
}
use decrypt0r_x.Api.Auth.Sessions.{Outcome, login-Outcome, login-session}

-- a hash that hides nothing, and a token that starts with its end
abbrev open_crypto : Crypto
open_crypto = record {
  hash = λ p. p;
  verify = λ h p. checked (text_eq h p);
  check_needs_rehash = λ h. some false;
  encode = λ s role e. e ∷ s;
}

abbrev decode : Text → ℕ → Token
decode [] t = invalid
decode (e ∷ s) t = if ltb t e then subject s else expired

decode-encode :
    (s : Text) (role : Role) (e t : ℕ) → t < e → decode (open_crypto.encode s role e) t ≡ subject s
decode-encode s role e t before = ground (arith, before)

abbrev ann : User
ann = record {
  id = 1;
  email = codes "ann@x";
  full_name = none;
  password_hash = codes "old";
  role = admin;
  is_active = true;
  last_login_at = none;
}

abbrev one_user : Db
one_user = record { users = ann ∷ []; audit = []; next_id = 2 }

abbrev by_ann : LoginRequest
by_ann = record { email = codes "Ann@x"; password = codes "old" }

abbrev ann_seen : User
ann_seen = record ann { last_login_at = some 100 }

abbrev seen : Db
seen = record {
  users = ann_seen ∷ [];
  audit =
      (record {
        actor = codes "ann@x";
        action = codes "auth.login";
        target = none;
        client_ip = codes "ip";
      })
      ∷ [];
  next_id = 2;
}

-- a session of an hour
abbrev session : TokenResponse
session = record { access_token = 3700 ∷ codes "ann@x"; expires_at = 3700; user = ann_seen }

ann_logs_in : login open_crypto (codes "ip") 60 100 by_ann one_user ≡ (reply session, seen)
unfolding login verify_password needs_rehash create_access_token
ann_logs_in = refl

login-Outcome_example :
    Outcome open_crypto
      (codes "ip")
      60
      100
      by_ann
      one_user
      (login open_crypto (codes "ip") 60 100 by_ann one_user)
login-Outcome_example = login-Outcome open_crypto (codes "ip") 60 100 by_ann one_user

login-session_example :
    get_current_user seen.users (decode session.access_token 3699) ≡ reply session.user
login-session_example =
    login-session open_crypto (codes "ip") 60 100 decode decode-encode by_ann one_user seen session
      3699 ann_logs_in (omega arith)

abbrev to_new : PasswordChange
to_new = record { current_password = codes "old"; new_password = codes "correct horse" }

abbrev renewed : Db
renewed = record {
  users = record ann { password_hash = codes "correct horse" } ∷ [];
  audit =
      (record {
        actor = codes "ann@x";
        action = codes "auth.password_changed";
        target = none;
        client_ip = codes "ip";
      })
      ∷ [];
  next_id = 2;
}

abbrev with_new : LoginRequest
with_new = record { email = codes "ANN@x"; password = codes "correct horse" }
