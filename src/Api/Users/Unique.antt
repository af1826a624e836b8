-- ===== src/Api/Users/Unique.antt =====
-- The keys of the table of users under the requests of services/api/app/routers/users.py.
use decrypt0r_x.Prelude.{
  ℕ, ◌≡◌, refl, sym, subst, Bool, true, false, not, ◌&&◌, ◌||◌, List, [], ◌∷◌, Option, none, some,
  arith, ◌==◌, Bool-cases, Option-cases, inl, inr, ◌⊎◌, any,
}
use decrypt0r_x.Text.{Text, lower}
use decrypt0r_x.Models.{Role, User}
use decrypt0r_x.Api.Users.{
  Db, UserCreate, UserUpdate, find_user, has_email, is_admin, other_admin, deactivates, demotes,
  create_user, update_user, update_found, write_changes, commit_with, apply_changes, delete_user,
  delete_found,
}
use decrypt0r_x.Api.Users.Store.{id-find_user}
use decrypt0r_x.Api.Users.Requests.{Call, create, update, delete, perform, perform_all}
use decrypt0r_x.Api.Users.Keys.{
  Distinct, Below, has_id-Below, Below-append, Distinct-append, Distinct-replace, Below-replace,
  found-Fits, Distinct-delete, Below-delete,
}

pub record IsKeyed (db : Db) : Type 0 where
  pub distinct : Distinct db.users
  pub below : Below db.next_id db.users

module _ (hash_password : Text → Text) (client_ip : Text) where
  create-IsKeyed :
      (actor : User) (payload : UserCreate) (db : Db)
      → IsKeyed db
      → IsKeyed (create_user hash_password client_ip actor payload db).1
  unfolding create_user
  create-IsKeyed actor payload db h = elim (Bool-cases (has_email (lower payload.email) db.users)) [
    | inl taken ↦ rw taken h
    | inr free ↦ rw free (record {
      distinct =
          Distinct-append db.users _ h.distinct free (has_id-Below db.next_id db.users h.below);
      below = Below-append db.next_id db.users _ h.below (omega arith);
    })
  ]

  commit-IsKeyed :
      (actor : User) (payload : UserUpdate) (user : User) (db : Db) (r : Option Role)
      (a : Option Bool)
      → IsKeyed db
      → find_user user.id db.users ≡ some user
      → IsKeyed (commit_with hash_password client_ip actor payload user db r a).1
  commit-IsKeyed actor payload user db none a h found = h
  commit-IsKeyed actor payload user db (some role) none h found = h
  commit-IsKeyed actor payload user db (some role) (some is_active) h found =
      let new = apply_changes hash_password client_ip payload user role is_active in
      record {
        distinct =
            Distinct-replace new db.users h.distinct
              (found-Fits new user db.users h.distinct found refl);
        below = Below-replace db.next_id new db.users h.below;
      }

  update-IsKeyed :
      (actor : User) (user_id : ℕ) (payload : UserUpdate) (db : Db)
      → IsKeyed db
      → IsKeyed (update_user hash_password client_ip actor user_id payload db).1
  unfolding update_user update_found write_changes
  update-IsKeyed actor user_id payload db h = elim (Option-cases (find_user user_id db.users)) [
    | inl missing ↦ rw (missing, update_user) h
    | inr (user, there) ↦
        rw (there, update_user)
          (guards user
            (subst (λ i. find_user i db.users ≡ some user)
              (sym (id-find_user user_id db.users user there)) there)
            (Bool-cases _) (Bool-cases _))
  ]
    where
      loses : Bool
      loses = deactivates payload.is_active || demotes payload.role

      guards :
          (user : User)
          → find_user user.id db.users ≡ some user
          → ((user.id == actor.id && loses) ≡ true) ⊎ ((user.id == actor.id && loses) ≡ false)
          → ((loses && is_admin user.role && not (any (other_admin user.id) db.users)) ≡ true)
            ⊎ ((loses && is_admin user.role && not (any (other_admin user.id) db.users)) ≡ false)
          → IsKeyed (update_found hash_password client_ip actor payload user db).1
      guards user found (inl self) second = rw self h
      guards user found (inr safe) (inl last_one) = rw (safe, last_one) h
      guards user found (inr safe) (inr others) =
          rw (safe, others) (commit-IsKeyed actor payload user db _ _ h found)

  delete-IsKeyed :
      (actor : User) (user_id : ℕ) (db : Db)
      → IsKeyed db
      → IsKeyed (delete_user hash_password client_ip actor user_id db).1
  unfolding delete_user
  delete-IsKeyed actor user_id db h = elim (Option-cases (find_user user_id db.users)) [
    | inl missing ↦ rw (missing, delete_user) h
    | inr (user, there) ↦ rw (there, delete_user) (go user (Bool-cases (user.id == actor.id)))
  ]
    where
      go :
          (user : User)
          → ((user.id == actor.id) ≡ true) ⊎ ((user.id == actor.id) ≡ false)
          → IsKeyed (delete_found hash_password client_ip actor user db).1
      go user (inl self) = rw self h
      go user (inr other) = rw other (record {
        distinct = Distinct-delete user.id db.users h.distinct;
        below = Below-delete db.next_id user.id db.users h.below;
      })

  perform-IsKeyed :
      (actor : User) (call : Call) (db : Db)
      → IsKeyed db
      → IsKeyed (perform hash_password client_ip actor call db)
  unfolding perform
  perform-IsKeyed actor (create payload) db h = create-IsKeyed actor payload db h
  perform-IsKeyed actor (update id payload) db h = update-IsKeyed actor id payload db h
  perform-IsKeyed actor (delete id) db h = delete-IsKeyed actor id db h

  -- A table in which no two users have the same id or the same address, and every id is below the
  -- next one to be given, is still one after any requests of a user.
  pub perform_all-IsKeyed :
      (actor : User) (calls : List Call) (db : Db)
      → IsKeyed db
      → IsKeyed (perform_all hash_password client_ip actor calls db)
  unfolding perform_all
  perform_all-IsKeyed actor [] db h = h
  perform_all-IsKeyed actor (call ∷ calls) db h =
      perform_all-IsKeyed actor calls (perform hash_password client_ip actor call db)
        (perform-IsKeyed actor call db h)
