-- ===== src/Api/Flows/Columns.antt =====
-- The groups of a column in `flow_stats` of services/api/app/routers/flows.py, put in an order, and the
-- orders.
use mathlib.Core.List.{Memᴰ, Permᴰ}
use mathlib.Core.List.Permᴰ
use decrypt0r_x.Prelude.{
  ℕ, ◌+◌, ◌≤◌, ◌≡◌, refl, ap, ◌∙◌, subst, Bool, true, false, List, [], ◌∷◌, if◌then◌else◌, arith,
  ◌==◌, ==_refl,
}
use decrypt0r_x.Prelude.Int.{ℤ, pos, negsuc}
use decrypt0r_x.Prelude.Order.{Permᴰ-Memᴰ}
use decrypt0r_x.Text.{Text, text_eq}
use decrypt0r_x.Api.Flows.{int_eq}
use decrypt0r_x.Api.Flows.Stats.{group_by, earlier_minute, int_le}
use decrypt0r_x.Api.Flows.Groups.{
  occurs, tally, Once, tally-group_by, group_by-Once, Once-entry, Once-present,
}

-- groups in an order: each entry has the number of the rows of its key, each key that has rows has its
-- entry, and no key has a second
abbrev pub Counts : {A : Type 0} → (A → A → Bool) → (A → ℕ) → List (A × ℕ) → Type 0
Counts {A} same rows_of groups =
    ((k : A) (n : ℕ) → Memᴰ (k, n) groups → (n ≡ rows_of k) × (1 ≤ n))
    × ((k : A) → 1 ≤ rows_of k → Memᴰ (k, rows_of k) groups)
    × ((k : A) → tally same k groups ≡ rows_of k)

module _ {A : Type 0} (same : A → A → Bool) (same-refl : (a : A) → same a a ≡ true)
    (same→eq : (a b : A) → same a b ≡ true → a ≡ b) where
  tally-Permᴰ : (k : A) {g h : List (A × ℕ)} → Permᴰ g h → tally same k g ≡ tally same k h
  tally-Permᴰ k Permᴰ.nil = refl
  tally-Permᴰ k (Permᴰ.cons {l₁ = g} {l₂ = h} e p) = rw (e, tally-Permᴰ k p)
  tally-Permᴰ k (Permᴰ.swap {a = x} {b = y} {l = g} e f) =
      rw (← e, ← f) (swapped (same x.0 k) (same y.0 k) x.1 y.1 (tally same k g))
    where
      swapped :
          (b c : Bool) (m n r : ℕ)
          → (if b then m + (if c then n + r else r) else (if c then n + r else r))
            ≡ (if c then n + (if b then m + r else r) else (if b then m + r else r))
      swapped b c m n r = ground arith
  tally-Permᴰ k (Permᴰ.trans p q) = tally-Permᴰ k p ∙ tally-Permᴰ k q

  -- the groups of a column, in any order
  pub Permᴰ-Counts :
      (xs : List A) (groups : List (A × ℕ))
      → Permᴰ groups (group_by same xs)
      → Counts same (λ k. occurs same k xs) groups
  Permᴰ-Counts xs groups p = (
    λ k n m.
        let (all, positive) =
          Once-entry same same-refl same→eq k n (group_by same xs) once (Permᴰ-Memᴰ p m) in
        (all ∙ of_column k, positive),
    λ k some_rows. Permᴰ-Memᴰ (Permᴰ.symm p) (
        subst (λ n. Memᴰ (k, n) (group_by same xs)) (of_column k)
          (Once-present same same-refl same→eq k (group_by same xs) once
            (omega (arith, some_rows, of_column k)))),
    λ k. tally-Permᴰ k p ∙ of_column k,
  )
    where
      once : Once same (group_by same xs)
      once = group_by-Once same same-refl same→eq xs

      of_column : (k : A) → tally same k (group_by same xs) ≡ occurs same k xs
      of_column k = tally-group_by same same-refl same→eq k xs

  pub Counts-of :
      (f g : A → ℕ) (groups : List (A × ℕ))
      → ((k : A) → f k ≡ g k)
      → Counts same f groups
      → Counts same g groups
  Counts-of f g groups e (entries, present_keys, together) = (
    λ k n m. let (all, positive) = entries k n m in (all ∙ e k, positive),
    λ k some_rows.
        subst (λ n. Memᴰ (k, n) groups) (e k) (present_keys k (omega (arith, some_rows, e k))),
    λ k. together k ∙ e k,
  )

pub text_eq_refl : (t : Text) → text_eq t t ≡ true
text_eq_refl [] = refl
text_eq_refl (c ∷ t) = rw (==_refl c, text_eq_refl t)

pub ==→eq : (a b : ℕ) → (a == b) ≡ true → a ≡ b
==→eq a b h = ground arith

pub int_eq_refl : (n : ℤ) → int_eq n n ≡ true
int_eq_refl (pos n) = ==_refl n
int_eq_refl (negsuc n) = ==_refl n

pub int_eq→eq : (a b : ℤ) → int_eq a b ≡ true → a ≡ b
int_eq→eq (pos m) (pos n) h = ap pos (==→eq m n h)
int_eq→eq (negsuc m) (negsuc n) h = ap negsuc (==→eq m n h)
int_eq→eq (pos m) (negsuc n) h = cc
int_eq→eq (negsuc m) (pos n) h = cc

pub int_le_total : (a b : ℤ) → int_le a b ≡ false → int_le b a ≡ true
int_le_total (pos m) (pos n) h = ground arith
int_le_total (pos m) (negsuc n) h = refl
int_le_total (negsuc m) (pos n) h = cc
int_le_total (negsuc m) (negsuc n) h = ground arith

pub int_le_trans : (a b c : ℤ) → int_le a b ≡ true → int_le b c ≡ true → int_le a c ≡ true
int_le_trans (pos m) (pos n) (pos k) h i = ground arith
int_le_trans (pos m) (pos n) (negsuc k) h i = cc
int_le_trans (pos m) (negsuc n) c h i = cc
int_le_trans (negsuc m) b (pos k) h i = refl
int_le_trans (negsuc m) (pos n) (negsuc k) h i = cc
int_le_trans (negsuc m) (negsuc n) (negsuc k) h i = ground arith

pub earlier_minute_total : (a b : ℕ × ℕ) → earlier_minute a b ≡ false → earlier_minute b a ≡ true
earlier_minute_total a b h = ground arith

pub earlier_minute_trans :
    (a b c : ℕ × ℕ)
    → earlier_minute a b ≡ true
    → earlier_minute b c ≡ true
    → earlier_minute a c ≡ true
earlier_minute_trans a b c h i = ground arith
