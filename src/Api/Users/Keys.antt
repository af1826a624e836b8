-- ===== src/Api/Users/Keys.antt =====
-- The ids and the addresses of a table of users: distinct, and the ids below a bound.
use decrypt0r_x.Prelude.{
  some_same, ℕ, ◌+◌, ◌<◌, ◌≡◌, refl, ap, sym, ◌∙◌, subst, Bool, true, false, ◌||◌, List, [], ◌∷◌,
  ◌++◌, some, arith, ◌==◌, ==_iff, Bool-cases, inl, inr, any,
}
use decrypt0r_x.Text.{Text, text_eq}
use decrypt0r_x.Text.Laws.{text_eq_comm}
use decrypt0r_x.Models.{User}
use decrypt0r_x.Api.Users.{find_user, has_email, replace_user, delete_row}

abbrev pub has_id : ℕ → List User → Bool
has_id id users = any (λ u. u.id == id) users

abbrev pub Distinct : List User → Type 0
Distinct [] = Unit {0}
Distinct (u ∷ users) =
    (has_email u.email users ≡ false) × (has_id u.id users ≡ false) × Distinct users

abbrev pub Below : ℕ → List User → Type 0
Below n [] = Unit {0}
Below n (u ∷ users) = (u.id < n) × Below n users

pub has_id-Below : (n : ℕ) (users : List User) → Below n users → has_id n users ≡ false
has_id-Below n [] h = refl
has_id-Below n (u ∷ users) h = ground (arith, has_id-Below n users)

pub Below-append :
    (n : ℕ) (users : List User) (new : User)
    → Below n users
    → new.id < n + 1
    → Below (n + 1) (users ++ new ∷ [])
Below-append n [] new h k = (k, tt)
Below-append n (u ∷ users) new h k = (omega arith, Below-append n users new h.1 k)

pub any-append :
    (p : User → Bool) (users : List User) (new : User)
    → any p (users ++ new ∷ []) ≡ (any p users || p new)
any-append p [] new = ground arith
any-append p (u ∷ users) new = ground (arith, any-append p users new)

pub Distinct-append :
    (users : List User) (new : User)
    → Distinct users
    → has_email new.email users ≡ false
    → has_id new.id users ≡ false
    → Distinct (users ++ new ∷ [])
Distinct-append [] new h e i = (refl, refl, tt)
Distinct-append (u ∷ users) new h e i = (
  ground
      (arith, any-append (λ v. text_eq v.email u.email) users new, text_eq_comm u.email new.email),
  ground (arith, any-append (λ v. v.id == u.id) users new),
  Distinct-append users new h.2 (ground arith) (ground arith),
)

-- the rows that `new` takes the place of have its address
abbrev pub Fits : User → List User → Type 0
Fits new [] = Unit {0}
Fits new (u ∷ users) = ((u.id == new.id) ≡ true → u.email ≡ new.email) × Fits new users

pub any-replace :
    (p : User → Bool) (new : User) (users : List User)
    → ((u : User) → (u.id == new.id) ≡ true → u.email ≡ new.email → p new ≡ p u)
    → Fits new users
    → any p (replace_user new users) ≡ any p users
any-replace p new [] same h = refl
any-replace p new (u ∷ users) same h = elim (Bool-cases (u.id == new.id)) [
  | inl hit ↦ rw (hit, any-replace p new users same h.1, same u hit (h.0 hit))
  | inr miss ↦ rw (miss, any-replace p new users same h.1)
]

pub email_same :
    (new : User) (e : Text) (u : User)
    → (u.id == new.id) ≡ true
    → u.email ≡ new.email
    → text_eq new.email e ≡ text_eq u.email e
email_same new e u hit same = ap (λ x. text_eq x e) (sym same)

pub id_same :
    (new : User) (k : ℕ) (u : User)
    → (u.id == new.id) ≡ true
    → u.email ≡ new.email
    → (new.id == k) ≡ (u.id == k)
id_same new k u hit same = ap (λ x. x == k) (sym ((==_iff u.id new.id).0 hit))

pub Distinct-replace :
    (new : User) (users : List User)
    → Distinct users
    → Fits new users
    → Distinct (replace_user new users)
Distinct-replace new [] h f = tt
Distinct-replace new (u ∷ users) h f = elim (Bool-cases (u.id == new.id)) [
  | inl hit ↦ rw hit (
    any-replace _ new users (email_same new new.email) f.1
        ∙ subst (λ e. has_email e users ≡ false) (f.0 hit) h.0,
    any-replace _ new users (id_same new new.id) f.1
        ∙ subst (λ i. has_id i users ≡ false) ((==_iff u.id new.id).0 hit) h.1,
    Distinct-replace new users h.2 f.1,
  )
  | inr miss ↦ rw miss (
    any-replace _ new users (email_same new u.email) f.1 ∙ h.0,
    any-replace _ new users (id_same new u.id) f.1 ∙ h.1,
    Distinct-replace new users h.2 f.1,
  )
]

pub Below-replace :
    (n : ℕ) (new : User) (users : List User) → Below n users → Below n (replace_user new users)
Below-replace n new [] h = tt
Below-replace n new (u ∷ users) h = elim (Bool-cases (u.id == new.id)) [
  | inl hit ↦
      rw hit (subst (λ i. i < n) ((==_iff u.id new.id).0 hit) h.0, Below-replace n new users h.1)
  | inr miss ↦ rw miss (h.0, Below-replace n new users h.1)
]

pub no_id-Fits : (new : User) (users : List User) → has_id new.id users ≡ false → Fits new users
no_id-Fits new [] h = tt
no_id-Fits new (u ∷ users) h = (λ hit. cc, no_id-Fits new users (ground arith))

-- a row with the id and the address of the row that is found fits
pub found-Fits :
    (new u : User) (users : List User)
    → Distinct users
    → find_user new.id users ≡ some u
    → u.email ≡ new.email
    → Fits new users
found-Fits new u [] h found same = tt
found-Fits new u (v ∷ users) h found same = elim (Bool-cases (v.id == new.id)) [
  | inl hit ↦ (
    λ _. ap (λ x. x.email) (some_same (rw hit at found)) ∙ same,
    no_id-Fits new users (subst (λ i. has_id i users ≡ false) ((==_iff v.id new.id).0 hit) h.1),
  )
  | inr miss ↦ (λ hit. cc, found-Fits new u users h.2 (rw miss at found) same)
]

pub any-select :
    (p : User → Bool) (k : ℕ) (users : List User)
    → any p users ≡ false
    → any p (delete_row k users) ≡ false
any-select p k [] h = refl
any-select p k (u ∷ users) h = ground (arith, any-select p k users)

pub Distinct-delete : (k : ℕ) (users : List User) → Distinct users → Distinct (delete_row k users)
Distinct-delete k [] h = tt
Distinct-delete k (u ∷ users) h = elim (Bool-cases (u.id == k)) [
  | inl hit ↦ rw hit (Distinct-delete k users h.2)
  | inr miss ↦
      rw miss (any-select _ k users h.0, any-select _ k users h.1, Distinct-delete k users h.2)
]

pub Below-delete : (n k : ℕ) (users : List User) → Below n users → Below n (delete_row k users)
Below-delete n k [] h = tt
Below-delete n k (u ∷ users) h = elim (Bool-cases (u.id == k)) [
  | inl hit ↦ rw hit (Below-delete n k users h.1)
  | inr miss ↦ rw miss (h.0, Below-delete n k users h.1)
]
