-- ===== src/Api/Auth/Sessions.antt =====
-- What a login gives, and what it needs: the session behind a token, and the password after a change.
use decrypt0r_x.Prelude.{
  some_same, ℕ, ◌+◌, ◌*◌, ◌<◌, ◌≡◌, refl, ap, sym, ◌∙◌, subst, Bool, true, false, not, List, [],
  ◌∷◌, Option, none, some, ◌⊎◌, inl, inr, if◌then◌else◌, Bool-cases, arith, ◌==◌, ==_refl,
}
use decrypt0r_x.Text.{Text, text_eq, lower}
use decrypt0r_x.Text.Laws.{text_eq→eq, text_eq_refl}
use decrypt0r_x.Models.{Role, User}
use decrypt0r_x.Api.Reply.{reply_same, Reply, reply, http_error, uncaught}
use decrypt0r_x.Api.Access.{Token, subject, by_email, get_current_user}
use decrypt0r_x.Api.Users.{Db, replace_user}
use decrypt0r_x.Api.Auth.{
  fits, Crypto, LoginRequest, TokenResponse, login_valid, verify_password, create_access_token,
  refused, logged_in, admitted, login_found, login,
}

if_true {ℓ} : {A : Type ℓ} {x : A} (b : Bool) (y : A) → b ≡ true → (if b then x else y) ≡ x
if_true true y h = refl
if_true false y h = cc

pub by_email-email :
    (email : Text) (users : List User) (u : User) → by_email email users ≡ some u → u.email ≡ email
by_email-email email [] u h = cc
by_email-email email (v ∷ users) u h = elim (Bool-cases (text_eq v.email email)) [
  | inl hit ↦ rw (← some_same (rw hit at h)) (text_eq→eq v.email email hit)
  | inr miss ↦ by_email-email email users u (rw miss at h)
]

-- a row that takes the place of the one found, under the same id and address, is found
by_email-replace :
    (email : Text) (users : List User) (u new : User)
    → by_email email users ≡ some u
    → new.email ≡ email
    → new.id ≡ u.id
    → by_email email (replace_user new users) ≡ some new
by_email-replace email [] u new h e i = cc
by_email-replace email (v ∷ users) u new h e i = elim (Bool-cases (v.id == new.id)) [
  | inl same ↦ rw (same, e, text_eq_refl email)
  | inr differs ↦ rw differs (elim (Bool-cases (text_eq v.email email)) [
    | inl hit ↦ absurd (never (ap (λ (w : User). w.id) (some_same (rw hit at h))) differs)
    | inr miss ↦ rw miss (by_email-replace email users u new (rw miss at h) e i)
  ])
]
  where
    never : v.id ≡ u.id → (v.id == new.id) ≡ false → ⊥
    never p q = let r : (v.id == new.id) ≡ true = rw (p, i, ==_refl u.id) in cc

module _ (crypto : Crypto) (ip : Text) (minutes now : ℕ) where
  -- a login that was admitted: whose it is, and what it leaves
  pub record Admits (payload : LoginRequest) (db : Db) (r : TokenResponse) (db' : Db) : Type 0 where
    pub user : User
    pub known : by_email (lower payload.email) db.users ≡ some user
    pub proved : verify_password crypto payload.password user.password_hash ≡ true
    pub active : user.is_active ≡ true
    pub shown : r.user ≡ logged_in crypto ip minutes now payload user
    pub token :
        (r.access_token, r.expires_at) ≡ create_access_token crypto user.email user.role minutes now
    pub users : db'.users ≡ replace_user (logged_in crypto ip minutes now payload user) db.users

  -- a login that was not: the users are as before
  abbrev pub Refuses : Db → Reply TokenResponse → Db → Type 0
  Refuses db (reply r) db' = ⊥
  Refuses db (http_error n) db' = db'.users ≡ db.users
  Refuses db uncaught db' = db'.users ≡ db.users

  abbrev pub Outcome : LoginRequest → Db → Reply TokenResponse × Db → Type 0
  Outcome payload db (answer, db') =
      ((r : TokenResponse) × (answer ≡ reply r) × Admits payload db r db') ⊎ Refuses db answer db'

  refused-Outcome :
      (payload : LoginRequest) (db : Db)
      → Outcome payload db (refused crypto ip minutes now payload db)
  refused-Outcome payload db = elim (Bool-cases (fits crypto ip minutes now)) [
    | inl short ↦ rw short (inr refl)
    | inr long ↦ rw long (inr refl)
  ]

  -- A login replies with a token only to the password of an active user whose address is that of the request in lower
  -- case; it then changes that user alone, in the time of the last login and perhaps the hash. In every other
  -- case, the constraints on the request and a commit that fails included, it is an error and leaves the users as they are.
  pub login-Outcome :
      (payload : LoginRequest) (db : Db)
      → Outcome payload db (login crypto ip minutes now payload db)
  unfolding login
  login-Outcome payload db = elim (Bool-cases (login_valid payload)) [
    | inl valid ↦ rw valid (found (by_email (lower payload.email) db.users) refl)
    | inr invalid ↦ rw invalid (inr refl)
  ]
    where
      found :
          (o : Option User)
          → by_email (lower payload.email) db.users ≡ o
          → Outcome payload db (login_found crypto ip minutes now payload db o)
      found none e = refused-Outcome payload db
      found (some user) e =
          tested (verify_password crypto payload.password user.password_hash) user.is_active refl
            refl
        where
          tested :
              (right active : Bool)
              → verify_password crypto payload.password user.password_hash ≡ right
              → user.is_active ≡ active
              → Outcome payload db (
                  if not right
                  then refused crypto ip minutes now payload db
                  else if not active
                  then (http_error 403, db)
                  else admitted crypto ip minutes now payload user db)
          tested false active r a = refused-Outcome payload db
          tested true false r a = inr refl
          tested true true r a = elim (Bool-cases (fits crypto ip minutes now)) [
            | inl short ↦ rw short (
                inl (
                  record {
                    access_token = (create_access_token crypto user.email user.role minutes now).0;
                    expires_at = (create_access_token crypto user.email user.role minutes now).1;
                    user = logged_in crypto ip minutes now payload user;
                  },
                  refl,
                  record {
                    user = user;
                    known = e;
                    proved = r;
                    active = a;
                    shown = refl;
                    token = refl;
                    users = refl;
                  },
                ))
            | inr long ↦ rw long (inr refl)
          ]

  -- Where a token gives back its subject until it expires, the token of a login is that of the user as the login has left
  -- it: until then, the handlers that ask for the current user get this one.
  pub login-session :
      (decode : Text → ℕ → Token)
      (decode_law : (s : Text) (role : Role) (e t : ℕ)
        → t < e
        → decode (crypto.encode s role e) t ≡ subject s)
      (payload : LoginRequest) (db db' : Db) (r : TokenResponse) (t : ℕ)
      → login crypto ip minutes now payload db ≡ (reply r, db')
      → t < r.expires_at
      → get_current_user db'.users (decode r.access_token t) ≡ reply r.user
  unfolding get_current_user create_access_token
  login-session decode decode_law payload db db' r t h early =
      admitted_as (subst (Outcome payload db) h (login-Outcome payload db))
    where
      session :
          Admits payload db r db'
          → get_current_user db'.users (decode r.access_token t) ≡ reply r.user
      session a =
          let user = a.user in
          let new = logged_in crypto ip minutes now payload user in
          let address = by_email-email (lower payload.email) db.users user a.known in
          let there : by_email user.email (replace_user new db.users) ≡ some new =
            by_email-replace user.email db.users user new
              (ap (λ x. by_email x db.users) address ∙ a.known) refl refl in
          let late : r.expires_at ≡ now + minutes * 60 = ap (λ (x : Text × ℕ). x.1) a.token in
          let named : r.access_token ≡ crypto.encode user.email user.role (now + minutes * 60) =
            ap (λ (x : Text × ℕ). x.0) a.token in
          rw
            (
              named,
              decode_law user.email user.role (now + minutes * 60) t (omega arith),
              a.users,
              there,
              a.shown,
            )
            (if_true user.is_active (http_error 401) a.active)

      admitted_as :
          Outcome payload db (reply r, db')
          → get_current_user db'.users (decode r.access_token t) ≡ reply r.user
      admitted_as (inl (q, same, a)) =
          session (subst (λ x. Admits payload db x db') (sym (reply_same same)) a)
      admitted_as (inr refused) = absurd refused
