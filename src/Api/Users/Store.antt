-- ===== src/Api/Users/Store.antt =====
-- What a lookup by id finds after each of the three writes to the table of users.
use decrypt0r_x.Prelude.{
  ℕ, ◌≡◌, List, [], ◌∷◌, ◌++◌, Option, none, some, arith, if◌then◌else◌, ◌==◌,
}
use decrypt0r_x.Models.{User}
use decrypt0r_x.Api.Users.{find_user, replace_user, delete_row}

pub id-find_user : (id : ℕ) (users : List User) (u : User) → find_user id users ≡ some u → u.id ≡ id
id-find_user id [] u h = cc
id-find_user id (v ∷ users) u h = ground (arith, id-find_user id users u)

abbrev replaced : User → Option User → Option User
replaced new none = none
replaced new (some u) = some new

pub find-replace_user :
    (new : User) (id : ℕ) (users : List User)
    → find_user id (replace_user new users)
      ≡ (if new.id == id then replaced new (find_user id users) else find_user id users)
find-replace_user new id [] = ground arith
find-replace_user new id (u ∷ users) = ground (arith, find-replace_user new id users)

pub find-delete_row :
    (k id : ℕ) (users : List User)
    → find_user id (delete_row k users) ≡ (if k == id then none else find_user id users)
find-delete_row k id [] = ground arith
find-delete_row k id (u ∷ users) = ground (arith, find-delete_row k id users)

pub find-append_some :
    (id : ℕ) (users more : List User) (u : User)
    → find_user id users ≡ some u
    → find_user id (users ++ more) ≡ some u
find-append_some id [] more u h = cc
find-append_some id (v ∷ users) more u h = ground (arith, find-append_some id users more u)
