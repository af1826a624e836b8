-- ===== src/Api/Users/Lockout.antt =====
-- What requests to services/api/app/routers/users.py leave of the administrator who makes them.
use decrypt0r_x.Prelude.{
  some_same, ℕ, ◌≡◌, refl, ap, sym, ◌∙◌, subst, Bool, true, false, not, ◌&&◌, ◌||◌, List, [], ◌∷◌,
  Option, none, some, arith, ◌==◌, ==_iff, Bool-cases, Option-cases, inl, inr, ◌⊎◌, any,
}
use decrypt0r_x.Text.{Text, lower}
use decrypt0r_x.Models.{Role, admin, User}
use decrypt0r_x.Api.Users.{
  Db, UserCreate, UserUpdate, Change, find_user, has_email, replace_user, is_admin, other_admin,
  deactivates, demotes, changed, create_user, update_user, update_found, write_changes, commit_with,
  apply_changes, delete_user, delete_found,
}
use decrypt0r_x.Api.Users.Requests.{Call, create, update, delete, perform, perform_all}
use decrypt0r_x.Api.Users.Store.{id-find_user, find-replace_user, find-delete_row, find-append_some}

-- the user with this id is an active administrator
abbrev pub IsActiveAdmin : ℕ → List User → Type 0
IsActiveAdmin id users =
    (u : User) × (find_user id users ≡ some u) × (u.role ≡ admin) × (u.is_active ≡ true)

module _ (hash_password : Text → Text) (client_ip : Text) where
  create-keeps :
      (actor : User) (payload : UserCreate) (id : ℕ) (db : Db)
      → IsActiveAdmin id db.users
      → IsActiveAdmin id (create_user hash_password client_ip actor payload db).1.users
  unfolding create_user
  create-keeps actor payload id db (u, found, role, active) =
      elim (Bool-cases (has_email (lower payload.email) db.users)) [
        | inl taken ↦ rw taken (u, found, role, active)
        | inr free ↦ rw free (u, find-append_some id db.users (_ ∷ []) u found, role, active)
      ]

  delete-keeps :
      (actor : User) (user_id : ℕ) (db : Db)
      → IsActiveAdmin actor.id db.users
      → IsActiveAdmin actor.id (delete_user hash_password client_ip actor user_id db).1.users
  unfolding delete_user
  delete-keeps actor user_id db (u, found, role, active) =
      elim (Option-cases (find_user user_id db.users)) [
        | inl missing ↦ rw (missing, delete_user) (u, found, role, active)
        | inr (t, there) ↦ rw (there, delete_user) (go t (Bool-cases (t.id == actor.id)))
      ]
    where
      go :
          (t : User)
          → ((t.id == actor.id) ≡ true) ⊎ ((t.id == actor.id) ≡ false)
          → IsActiveAdmin actor.id (delete_found hash_password client_ip actor t db).1.users
      go t (inl self) = rw self (u, found, role, active)
      go t (inr other) =
          rw other (u, rw (find-delete_row t.id actor.id db.users, other) found, role, active)

  -- the fields that the guard lets through keep an administrator active
  admin_stays :
      (payload : UserUpdate) (role : Role) (is_active : Bool)
      → (deactivates payload.is_active || demotes payload.role) ≡ false
      → changed payload.role admin ≡ some role
      → changed payload.is_active true ≡ some is_active
      → (role ≡ admin) × (is_active ≡ true)
  admin_stays payload role is_active safe r a = go payload.role payload.is_active safe r a
    where
      go :
          (cr : Change Role) (ca : Change Bool)
          → (deactivates ca || demotes cr) ≡ false
          → changed cr admin ≡ some role
          → changed ca true ≡ some is_active
          → (role ≡ admin) × (is_active ≡ true)
      go cr ca safe r a = ground arith

  replaced-keeps :
      (id : ℕ) (new : User) (users : List User)
      → IsActiveAdmin id users
      → (new.id ≡ id → (new.role ≡ admin) × (new.is_active ≡ true))
      → IsActiveAdmin id (replace_user new users)
  replaced-keeps id new users (u, found, role, active) keeps = elim (Bool-cases (new.id == id)) [
    | inl same ↦
        let (new_role, new_active) = keeps ((==_iff new.id id).0 same) in
        (new, rw (find-replace_user new id users, same, found), new_role, new_active)
    | inr other ↦ (u, rw (find-replace_user new id users, other) found, role, active)
  ]

  commit-keeps :
      (id : ℕ) (actor : User) (payload : UserUpdate) (user : User) (db : Db)
      → IsActiveAdmin id db.users
      → (r : Option Role) (a : Option Bool)
      → ((role : Role) (is_active : Bool)
          → user.id ≡ id
          → r ≡ some role
          → a ≡ some is_active
          → (role ≡ admin) × (is_active ≡ true))
      → IsActiveAdmin id (commit_with hash_password client_ip actor payload user db r a).1.users
  commit-keeps id actor payload user db h none a keeps = h
  commit-keeps id actor payload user db h (some role) none keeps = h
  commit-keeps id actor payload user db h (some role) (some is_active) keeps =
      replaced-keeps id (apply_changes hash_password client_ip payload user role is_active) db.users
        h (λ same. keeps role is_active same refl refl)

  update_found-keeps :
      (actor : User) (payload : UserUpdate) (user : User) (db : Db)
      → find_user user.id db.users ≡ some user
      → IsActiveAdmin actor.id db.users
      → IsActiveAdmin actor.id (update_found hash_password client_ip actor payload user db).1.users
  unfolding update_found write_changes
  update_found-keeps actor payload user db found h =
      go (Bool-cases (user.id == actor.id && loses))
        (Bool-cases (loses && is_admin user.role && not (any (other_admin user.id) db.users)))
    where
      loses : Bool
      loses = deactivates payload.is_active || demotes payload.role

      mine : user.id ≡ actor.id → (user.role ≡ admin) × (user.is_active ≡ true)
      mine same =
          let (u, there, role, active) = h in
          let e : user ≡ u = some_same (sym found ∙ ap (λ i. find_user i db.users) same ∙ there) in
          (ap (λ x. x.role) e ∙ role, ap (λ x. x.is_active) e ∙ active)

      keeps :
          (user.id == actor.id && loses) ≡ false
          → (role : Role) (is_active : Bool) → user.id ≡ actor.id
          → changed payload.role user.role ≡ some role
          → changed payload.is_active user.is_active ≡ some is_active
          → (role ≡ admin) × (is_active ≡ true)
      keeps safe role is_active same r a =
          let (was_admin, was_active) = mine same in
          let self : (user.id == actor.id) ≡ true = (==_iff user.id actor.id).1 same in
          admin_stays payload role is_active (subst (λ b. (b && loses) ≡ false) self safe)
            (subst (λ x. changed payload.role x ≡ some role) was_admin r)
            (subst (λ x. changed payload.is_active x ≡ some is_active) was_active a)

      go :
          ((user.id == actor.id && loses) ≡ true) ⊎ ((user.id == actor.id && loses) ≡ false)
          → ((loses && is_admin user.role && not (any (other_admin user.id) db.users)) ≡ true)
            ⊎ ((loses && is_admin user.role && not (any (other_admin user.id) db.users)) ≡ false)
          → IsActiveAdmin actor.id
              (update_found hash_password client_ip actor payload user db).1.users
      go (inl self) second = rw self h
      go (inr safe) (inl last_one) = rw (safe, last_one) h
      go (inr safe) (inr others) =
          rw (safe, others)
            (commit-keeps actor.id actor payload user db h (changed payload.role user.role)
              (changed payload.is_active user.is_active) (keeps safe))

  update-keeps :
      (actor : User) (user_id : ℕ) (payload : UserUpdate) (db : Db)
      → IsActiveAdmin actor.id db.users
      → IsActiveAdmin actor.id
          (update_user hash_password client_ip actor user_id payload db).1.users
  unfolding update_user
  update-keeps actor user_id payload db h = elim (Option-cases (find_user user_id db.users)) [
    | inl missing ↦ rw (missing, update_user) h
    | inr (user, there) ↦
        rw (there, update_user)
          (update_found-keeps actor payload user db
            (subst (λ i. find_user i db.users ≡ some user)
              (sym (id-find_user user_id db.users user there)) there)
            h)
  ]

  -- Whatever an active administrator asks for, granted or refused, that user is still an active
  -- administrator afterwards.
  pub perform-IsActiveAdmin :
      (actor : User) (call : Call) (db : Db)
      → IsActiveAdmin actor.id db.users
      → IsActiveAdmin actor.id (perform hash_password client_ip actor call db).users
  unfolding perform
  perform-IsActiveAdmin actor (create payload) db h = create-keeps actor payload actor.id db h
  perform-IsActiveAdmin actor (update id payload) db h = update-keeps actor id payload db h
  perform-IsActiveAdmin actor (delete id) db h = delete-keeps actor id db h

  -- If the row with the actor's id is that of an active administrator, it is after any sequence of
  -- the actor's requests, granted or refused.
  pub perform_all-IsActiveAdmin :
      (actor : User) (calls : List Call) (db : Db)
      → IsActiveAdmin actor.id db.users
      → IsActiveAdmin actor.id (perform_all hash_password client_ip actor calls db).users
  unfolding perform_all
  perform_all-IsActiveAdmin actor [] db h = h
  perform_all-IsActiveAdmin actor (call ∷ calls) db h =
      perform_all-IsActiveAdmin actor calls (perform hash_password client_ip actor call db)
        (perform-IsActiveAdmin actor call db h)
