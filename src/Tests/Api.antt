-- ===== src/Tests/Api.antt =====
-- Databases and requests on which the theorems on the API are tried.
use decrypt0r_x.Prelude.{◌≡◌, ◌≤◌, refl, true, List, [], ◌∷◌, ◌++◌, none, some, arith}
use decrypt0r_x.Text.{Text, codes}
use decrypt0r_x.Models.{admin, viewer, User}
use decrypt0r_x.Api.Reply.{reply}
use decrypt0r_x.Api.Access.{
  role_rank, by_email, subject, dependency, get_current_user, require_role, dependency_sound,
}
use decrypt0r_x.Api.Users
use decrypt0r_x.Api.Users.{UserCreate, UserUpdate, unset, to, find_user}
use decrypt0r_x.Api.Users.Requests
use decrypt0r_x.Api.Users.Requests.{create, update}
use decrypt0r_x.Api.Users.Lockout.{IsActiveAdmin, perform_all-IsActiveAdmin}
use decrypt0r_x.Api.Users.Unique.{IsKeyed}

abbrev reversed : Text → Text
reversed [] = []
reversed (c ∷ t) = reversed t ++ c ∷ []

abbrev ip : Text
ip = codes "10.0.0.1"

abbrev ann : User
ann = record {
  id = 1;
  email = codes "ann@x";
  full_name = none;
  password_hash = codes "h";
  role = admin;
  is_active = true;
  last_login_at = none;
}

abbrev users : Users.Db
users = record { users = ann ∷ []; audit = []; next_id = 2 }

-- ann adds bob, then tries to give up her own role, then demotes bob
abbrev asked : List Requests.Call
asked =
    create (record { email = codes "Bob@x"; password = codes "p"; full_name = none; role = admin })
    ∷ update 1 (record { full_name = unset; role = to viewer; is_active = unset; password = unset })
    ∷ Requests.delete 1
    ∷ update 2 (record { full_name = unset; role = to viewer; is_active = unset; password = unset })
    ∷ []

users-IsKeyed : IsKeyed users
users-IsKeyed = record { distinct = (refl, refl, tt); below = (omega arith, tt) }

perform_all-IsActiveAdmin_example :
    IsActiveAdmin 1 (Requests.perform_all reversed ip ann asked users).users
perform_all-IsActiveAdmin_example =
    perform_all-IsActiveAdmin reversed ip ann asked users (ann, refl, refl, refl)

ann_enters : dependency admin users.users (subject (codes "ann@x")) ≡ reply ann
unfolding dependency get_current_user require_role
ann_enters = refl

dependency_sound_example :
    (email : Text) × (subject (codes "ann@x") ≡ subject email)
    × (by_email email users.users ≡ some ann)
    × (ann.is_active ≡ true)
    × (role_rank admin ≤ role_rank ann.role)
dependency_sound_example =
    dependency_sound admin users.users (subject (codes "ann@x")) ann ann_enters
