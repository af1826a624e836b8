-- ===== src/Prelude/Order.antt =====
-- `ORDER BY` as insertion sort, and what the first match in a sorted list is.
use Prim.Native.Nat.{suc}
use mathlib.Core.Path.{◌≡◌, ◌∙◌, ap, sym, refl}
use mathlib.Core.Bool.{Bool, true, false}
use mathlib.Core.Logic.{◌⊎◌, inl, inr}
use mathlib.Core.Option.{Option, none, some}
use mathlib.Core.List.{List, [], ◌∷◌, Memᴰ, Permᴰ}
use mathlib.Core.List.Permᴰ
use decrypt0r_x.Prelude.Lists.{select, length}
use decrypt0r_x.Prelude.Tests.{some_same, if◌then◌else◌, Bool-cases}

module _ {ℓ} {A : Type ℓ} where
  abbrev pub insert_by : (A → A → Bool) → A → List A → List A
  insert_by le x [] = x ∷ []
  insert_by le x (y ∷ ys) = let rest = insert_by le x ys in if le x y then x ∷ y ∷ ys else y ∷ rest

  abbrev pub sort_by : (A → A → Bool) → List A → List A
  sort_by le [] = []
  sort_by le (x ∷ xs) = insert_by le x (sort_by le xs)

  -- the first element that passes the test
  abbrev pub first : (A → Bool) → List A → Option A
  first p [] = none
  first p (x ∷ xs) = if p x then some x else first p xs

  Memᴰ-insert_by :
      (le : A → A → Bool) {z : A} (x : A) (ys : List A)
      → (z ≡ x) ⊎ Memᴰ z ys
      → Memᴰ z (insert_by le x ys)
  Memᴰ-insert_by le x [] (inl e) = Memᴰ.head e
  Memᴰ-insert_by le x [] (inr m) = Memᴰ.tail m
  Memᴰ-insert_by le {z} x (y ∷ ys) h = elim (Bool-cases (le x y)) [
    | inl before ↦ rw before (elim h [ inl e ↦ Memᴰ.head e | inr m ↦ Memᴰ.tail m ])
    | inr later ↦ rw later (go h (Memᴰ-insert_by le x ys))
  ]
    where
      go :
          (z ≡ x) ⊎ Memᴰ z (y ∷ ys)
          → ((z ≡ x) ⊎ Memᴰ z ys → Memᴰ z (insert_by le x ys))
          → Memᴰ z (y ∷ insert_by le x ys)
      go (inl e) ih = Memᴰ.tail (ih (inl e))
      go (inr (Memᴰ.head e)) ih = Memᴰ.head e
      go (inr (Memᴰ.tail m)) ih = Memᴰ.tail (ih (inr m))

  pub Memᴰ-sort_by : (le : A → A → Bool) {z : A} (xs : List A) → Memᴰ z xs → Memᴰ z (sort_by le xs)
  Memᴰ-sort_by le [] m = elim m [ ]
  Memᴰ-sort_by le (x ∷ xs) (Memᴰ.head e) = Memᴰ-insert_by le x (sort_by le xs) (inl e)
  Memᴰ-sort_by le (x ∷ xs) (Memᴰ.tail m) =
      Memᴰ-insert_by le x (sort_by le xs) (inr (Memᴰ-sort_by le xs m))

  insert_by-Memᴰ :
      (le : A → A → Bool) {z : A} (x : A) (ys : List A)
      → Memᴰ z (insert_by le x ys)
      → (z ≡ x) ⊎ Memᴰ z ys
  insert_by-Memᴰ le x [] (Memᴰ.head e) = inl e
  insert_by-Memᴰ le x [] (Memᴰ.tail m) = inr m
  insert_by-Memᴰ le {z} x (y ∷ ys) h = elim (Bool-cases (le x y)) [
    | inl before ↦ front (rw before at h)
    | inr later ↦ back (rw later at h) (insert_by-Memᴰ le x ys)
  ]
    where
      front : Memᴰ z (x ∷ y ∷ ys) → (z ≡ x) ⊎ Memᴰ z (y ∷ ys)
      front (Memᴰ.head e) = inl e
      front (Memᴰ.tail m) = inr m

      back :
          Memᴰ z (y ∷ insert_by le x ys)
          → (Memᴰ z (insert_by le x ys) → (z ≡ x) ⊎ Memᴰ z ys)
          → (z ≡ x) ⊎ Memᴰ z (y ∷ ys)
      back (Memᴰ.head e) ih = inr (Memᴰ.head e)
      back (Memᴰ.tail m) ih = elim (ih m) [ inl e ↦ inl e | inr n ↦ inr (Memᴰ.tail n) ]

  pub sort_by-Memᴰ : (le : A → A → Bool) {z : A} (xs : List A) → Memᴰ z (sort_by le xs) → Memᴰ z xs
  sort_by-Memᴰ le [] h = elim h [ ]
  sort_by-Memᴰ le {z} (x ∷ xs) h = go (insert_by-Memᴰ le x (sort_by le xs) h) (sort_by-Memᴰ le xs)
    where
      go : (z ≡ x) ⊎ Memᴰ z (sort_by le xs) → (Memᴰ z (sort_by le xs) → Memᴰ z xs) → Memᴰ z (x ∷ xs)
      go (inl e) ih = Memᴰ.head e
      go (inr m) ih = Memᴰ.tail (ih m)

  insert_by-Permᴰ : (le : A → A → Bool) (x : A) (ys : List A) → Permᴰ (insert_by le x ys) (x ∷ ys)
  insert_by-Permᴰ le x [] = Permᴰ.cons refl Permᴰ.nil
  insert_by-Permᴰ le x (y ∷ ys) = elim (Bool-cases (le x y)) [
    | inl before ↦ rw before (Permᴰ.refl (x ∷ y ∷ ys))
    | inr later ↦
        rw later (Permᴰ.trans (Permᴰ.cons refl (insert_by-Permᴰ le x ys)) (Permᴰ.swap refl refl))
  ]

  pub sort_by-Permᴰ : (le : A → A → Bool) (xs : List A) → Permᴰ (sort_by le xs) xs
  sort_by-Permᴰ le [] = Permᴰ.nil
  sort_by-Permᴰ le (x ∷ xs) =
      Permᴰ.trans (insert_by-Permᴰ le x (sort_by le xs)) (Permᴰ.cons refl (sort_by-Permᴰ le xs))

  pub Permᴰ-length : {xs ys : List A} → Permᴰ xs ys → length xs ≡ length ys
  Permᴰ-length Permᴰ.nil = refl
  Permᴰ-length (Permᴰ.cons e p) = ap suc (Permᴰ-length p)
  Permᴰ-length (Permᴰ.swap e f) = refl
  Permᴰ-length (Permᴰ.trans p q) = Permᴰ-length p ∙ Permᴰ-length q

  pub Permᴰ-Memᴰ : {z : A} {xs ys : List A} → Permᴰ xs ys → Memᴰ z xs → Memᴰ z ys
  Permᴰ-Memᴰ Permᴰ.nil m = m
  Permᴰ-Memᴰ (Permᴰ.cons e p) (Memᴰ.head h) = Memᴰ.head (h ∙ e)
  Permᴰ-Memᴰ (Permᴰ.cons e p) (Memᴰ.tail m) = Memᴰ.tail (Permᴰ-Memᴰ p m)
  Permᴰ-Memᴰ (Permᴰ.swap e f) (Memᴰ.head h) = Memᴰ.tail (Memᴰ.head (h ∙ e))
  Permᴰ-Memᴰ (Permᴰ.swap e f) (Memᴰ.tail (Memᴰ.head h)) = Memᴰ.head (h ∙ f)
  Permᴰ-Memᴰ (Permᴰ.swap e f) (Memᴰ.tail (Memᴰ.tail m)) = Memᴰ.tail (Memᴰ.tail m)
  Permᴰ-Memᴰ (Permᴰ.trans p q) m = Permᴰ-Memᴰ q (Permᴰ-Memᴰ p m)

-- every element is below all that follow it
abbrev pub IsSorted {ℓ} : {A : Type ℓ} → (A → A → Bool) → List A → Type ℓ
IsSorted le [] = Unit
IsSorted {A} le (x ∷ xs) = ((y : A) → Memᴰ y xs → le x y ≡ true) × IsSorted le xs

module _ {ℓ} {A : Type ℓ} (le : A → A → Bool) (total : (x y : A) → le x y ≡ false → le y x ≡ true)
    (trans : (x y z : A) → le x y ≡ true → le y z ≡ true → le x z ≡ true) where
  insert_by-IsSorted : (x : A) (ys : List A) → IsSorted le ys → IsSorted le (insert_by le x ys)
  insert_by-IsSorted x [] h = (λ y m. elim m [ ], tt)
  insert_by-IsSorted x (y ∷ ys) h = elim (Bool-cases (le x y)) [
    | inl before ↦ rw before (λ z m. below before z m, h)
    | inr later ↦
        rw later
          (λ z m. above (total x y later) z (insert_by-Memᴰ le x ys m), insert_by-IsSorted x ys h.1)
  ]
    where
      below : le x y ≡ true → (z : A) → Memᴰ z (y ∷ ys) → le x z ≡ true
      below e z (Memᴰ.head p) = rw p e
      below e z (Memᴰ.tail m) = trans x y z e (h.0 z m)

      above : le y x ≡ true → (z : A) → (z ≡ x) ⊎ Memᴰ z ys → le y z ≡ true
      above e z (inl p) = rw p e
      above e z (inr m) = h.0 z m

  pub sort_by-IsSorted : (xs : List A) → IsSorted le (sort_by le xs)
  sort_by-IsSorted [] = tt
  sort_by-IsSorted (x ∷ xs) = insert_by-IsSorted x (sort_by le xs) (sort_by-IsSorted xs)

module _ {ℓ} {A : Type ℓ} (p : A → Bool) where
  -- the first match passes the test and stands in the list
  pub first-Memᴰ : (xs : List A) {x : A} → first p xs ≡ some x → Memᴰ x xs × (p x ≡ true)
  first-Memᴰ [] h = cc
  first-Memᴰ (y ∷ xs) {x} h = elim (Bool-cases (p y)) [
    | inl pass ↦ let e : y ≡ x = some_same (rw pass at h) in (Memᴰ.head (sym e), rw (← e) pass)
    | inr fail ↦ let (m, q) = first-Memᴰ xs (rw fail at h) in (Memᴰ.tail m, q)
  ]

  -- in a sorted list it is the least of all that pass
  pub first-le :
      (le : A → A → Bool)
      → ((x : A) → le x x ≡ true)
      → (xs : List A) {x y : A} → IsSorted le xs
      → first p xs ≡ some x
      → Memᴰ y xs
      → p y ≡ true
      → le x y ≡ true
  first-le le le_self [] sorted h m passes = elim m [ ]
  first-le le le_self (z ∷ xs) {x} {y} sorted h m passes = elim (Bool-cases (p z)) [
    | inl pass ↦ rw (some_same (rw pass at h)) at (least m)
    | inr fail ↦ first-le le le_self xs sorted.1 (rw fail at h) (other fail m) passes
  ]
    where
      least : Memᴰ y (z ∷ xs) → le z y ≡ true
      least (Memᴰ.head e) = rw e (le_self z)
      least (Memᴰ.tail n) = sorted.0 y n

      other : p z ≡ false → Memᴰ y (z ∷ xs) → Memᴰ y xs
      other fail (Memᴰ.head e) = cc
      other fail (Memᴰ.tail n) = n

  pub first-none : (xs : List A) {y : A} → first p xs ≡ none → Memᴰ y xs → p y ≡ false
  first-none [] h m = elim m [ ]
  first-none (x ∷ xs) {y} h m = elim (Bool-cases (p x)) [
    | inl pass ↦ cc
    | inr fail ↦ elim m [ Memᴰ.head e ↦ rw e fail | Memᴰ.tail n ↦ first-none xs (rw fail at h) n ]
  ]

  pub select-Memᴰ : (xs : List A) {y : A} → Memᴰ y (select p xs) → Memᴰ y xs × (p y ≡ true)
  select-Memᴰ [] m = elim m [ ]
  select-Memᴰ (x ∷ xs) {y} m = elim (Bool-cases (p x)) [
    | inl pass ↦ kept pass (rw pass at m) (select-Memᴰ xs)
    | inr fail ↦ let (n, e) = select-Memᴰ xs (rw fail at m) in (Memᴰ.tail n, e)
  ]
    where
      kept :
          p x ≡ true
          → Memᴰ y (x ∷ select p xs)
          → (Memᴰ y (select p xs) → Memᴰ y xs × (p y ≡ true))
          → Memᴰ y (x ∷ xs) × (p y ≡ true)
      kept pass (Memᴰ.head e) ih = (Memᴰ.head e, rw e pass)
      kept pass (Memᴰ.tail n) ih = let (k, e) = ih n in (Memᴰ.tail k, e)

  pub Memᴰ-select : (xs : List A) {y : A} → Memᴰ y xs → p y ≡ true → Memᴰ y (select p xs)
  Memᴰ-select [] m e = elim m [ ]
  Memᴰ-select (x ∷ xs) {y} (Memᴰ.head h) e = rw (ap p (sym h) ∙ e) (Memᴰ.head h)
  Memᴰ-select (x ∷ xs) {y} (Memᴰ.tail n) e = elim (Bool-cases (p x)) [
    | inl pass ↦ rw pass (Memᴰ.tail (Memᴰ-select xs n e))
    | inr fail ↦ rw fail (Memᴰ-select xs n e)
  ]
