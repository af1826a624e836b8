-- ===== src/Api/Flows/Groups.antt =====
-- `GROUP BY` with `COUNT(*)` in `flow_stats` of services/api/app/routers/flows.py: what the groups of a
-- column are.
use mathlib.Core.List.{Memᴰ}
use decrypt0r_x.Prelude.{
  ℕ, zero, suc, ◌+◌, ◌≤◌, ◌≡◌, refl, sym, ap, ◌∙◌, Bool, true, false, List, [], ◌∷◌, ◌⊎◌, inl, inr,
  if◌then◌else◌, take, map, arith, Bool-cases,
}
use decrypt0r_x.Prelude.Order.{IsSorted}
use decrypt0r_x.Recorder.Flows.{Flow}
use decrypt0r_x.Api.Flows.Stats.{count_in, group_by, count_if}

-- the number of rows that pass a test
abbrev pub rows_with : (Flow → Bool) → List Flow → ℕ
rows_with p [] = 0
rows_with p (row ∷ rows) = let rest = rows_with p rows in if p row then suc rest else rest

pub count_if-rows_with : (p : Flow → Bool) (rows : List Flow) → count_if p rows ≡ rows_with p rows
count_if-rows_with p [] = refl
count_if-rows_with p (row ∷ rows) = ground (arith, count_if-rows_with p rows)

module _ {A : Type 0} (same : A → A → Bool) where
  -- how often a value stands in a column
  abbrev pub occurs : A → List A → ℕ
  occurs k [] = 0
  occurs k (x ∷ xs) = let rest = occurs k xs in if same x k then suc rest else rest

  -- the counts of a key together
  abbrev pub tally : A → List (A × ℕ) → ℕ
  tally k [] = 0
  tally k ((x, n) ∷ groups) = let rest = tally k groups in if same x k then n + rest else rest

  -- no count is zero, and no key stands twice
  abbrev pub Once : List (A × ℕ) → Type 0
  Once [] = Unit
  Once ((x, n) ∷ groups) = (1 ≤ n) × (tally x groups ≡ 0) × Once groups

  pub occurs-map :
      (f : Flow → A) (k : A) (rows : List Flow)
      → occurs k (map f rows) ≡ rows_with (λ row. same (f row) k) rows
  occurs-map f k [] = refl
  occurs-map f k (row ∷ rows) = rw (occurs-map f k rows)

module _ {A : Type 0} (same : A → A → Bool) (same-refl : (a : A) → same a a ≡ true)
    (same→eq : (a b : A) → same a b ≡ true → a ≡ b) where
  tally-count_in :
      (k x : A) (g : List (A × ℕ))
      → tally same k (count_in same x g)
        ≡ (if same x k then suc (tally same k g) else tally same k g)
  tally-count_in k x [] = ground arith
  tally-count_in k x ((y, n) ∷ g) = elim (Bool-cases (same y x)) [
    | inl hit ↦ let e : y ≡ x = same→eq y x hit in rw hit (rw e (ground arith))
    | inr miss ↦ rw miss (rw (tally-count_in k x g) (ground arith))
  ]

  pub tally-group_by : (k : A) (xs : List A) → tally same k (group_by same xs) ≡ occurs same k xs
  tally-group_by k [] = refl
  tally-group_by k (x ∷ xs) =
      tally-count_in k x (group_by same xs)
      ∙ ap (λ n. if same x k then suc n else n) (tally-group_by k xs)

  same-sym : (a b : A) → same a b ≡ false → same b a ≡ false
  same-sym a b h = elim (Bool-cases (same b a)) [
    | inl hit ↦ let e : b ≡ a = same→eq b a hit in absurd (clash (rw (← e) at h) (same-refl b))
    | inr miss ↦ miss
  ]
    where
      clash : {c : Bool} → c ≡ false → c ≡ true → ⊥
      clash h k = cc

  count_in-Once : (x : A) (g : List (A × ℕ)) → Once same g → Once same (count_in same x g)
  count_in-Once x [] h = (omega arith, refl, tt)
  count_in-Once x ((y, n) ∷ g) (some_rows, alone, rest) = elim (Bool-cases (same y x)) [
    | inl hit ↦ rw hit (omega arith, alone, rest)
    | inr miss ↦
        rw miss
          (some_rows, rw (tally-count_in y x g, same-sym y x miss) alone, count_in-Once x g rest)
  ]

  pub group_by-Once : (xs : List A) → Once same (group_by same xs)
  group_by-Once [] = tt
  group_by-Once (x ∷ xs) = count_in-Once x (group_by same xs) (group_by-Once xs)

  -- an entry holds all there is of its key
  pub Once-entry :
      (k : A) (n : ℕ) (g : List (A × ℕ))
      → Once same g
      → Memᴰ (k, n) g
      → (n ≡ tally same k g) × (1 ≤ n)
  Once-entry k n [] h m = elim m [ ]
  Once-entry k n ((y, c) ∷ g) (some_rows, alone, rest) (Memᴰ.head e) =
      let key : k ≡ y = ap (λ p. p.0) e in
      let count : n ≡ c = ap (λ p. p.1) e in
      let none_left : tally same k g ≡ 0 = ap (λ z. tally same z g) key ∙ alone in
      let hit : same y k ≡ true = ap (same y) key ∙ same-refl y in rw hit (omega arith, omega arith)
  Once-entry k n ((y, c) ∷ g) (some_rows, alone, rest) (Memᴰ.tail m) =
      let (all, positive) = Once-entry k n g rest m in
      elim (Bool-cases (same y k)) [
        | inl hit ↦
            let e : tally same k g ≡ 0 = ap (λ z. tally same z g) (sym (same→eq y k hit)) ∙ alone in
            absurd (omega arith)
        | inr miss ↦ rw miss (all, positive)
      ]

  -- a key with a count has its entry
  pub Once-present :
      (k : A) (g : List (A × ℕ)) → Once same g → 1 ≤ tally same k g → Memᴰ (k, tally same k g) g
  Once-present k [] h some_k = absurd (omega arith)
  Once-present k ((y, c) ∷ g) (some_rows, alone, rest) some_k = elim (Bool-cases (same y k)) [
    | inl hit ↦
        let e : y ≡ k = same→eq y k hit in
        let none_left : tally same k g ≡ 0 = ap (λ z. tally same z g) (sym e) ∙ alone in
        let count : c + tally same k g ≡ c = omega arith in rw hit (Memᴰ.head (rw (count, e) refl))
    | inr miss ↦ rw miss (Memᴰ.tail (Once-present k g rest (rw miss at some_k)))
  ]

module _ {A : Type 0} where
  pub take-Memᴰ : (n : ℕ) (xs : List A) {x : A} → Memᴰ x (take n xs) → Memᴰ x xs
  take-Memᴰ zero xs m = elim m [ ]
  take-Memᴰ (suc n) [] m = elim m [ ]
  take-Memᴰ (suc n) (y ∷ xs) (Memᴰ.head e) = Memᴰ.head e
  take-Memᴰ (suc n) (y ∷ xs) (Memᴰ.tail m) = Memᴰ.tail (take-Memᴰ n xs m)

  pub take-IsSorted :
      (le : A → A → Bool) (n : ℕ) (xs : List A) → IsSorted le xs → IsSorted le (take n xs)
  take-IsSorted le zero xs h = tt
  take-IsSorted le (suc n) [] h = tt
  take-IsSorted le (suc n) (x ∷ xs) h = (λ y m. h.0 y (take-Memᴰ n xs m), take-IsSorted le n xs h.1)

  -- in a sorted list, what stands behind the first ones is not before any of them
  pub take-first :
      (le : A → A → Bool) (n : ℕ) (xs : List A) {a b : A}
      → IsSorted le xs
      → Memᴰ a (take n xs)
      → Memᴰ b xs
      → Memᴰ b (take n xs) ⊎ (le a b ≡ true)
  take-first le zero xs h m k = elim m [ ]
  take-first le (suc n) [] h m k = elim m [ ]
  take-first le (suc n) (x ∷ xs) h m (Memᴰ.head e) = inl (Memᴰ.head e)
  take-first le (suc n) (x ∷ xs) {a} {b} h (Memᴰ.head e) (Memᴰ.tail k) =
      inr (ap (λ z. le z b) e ∙ h.0 b k)
  take-first le (suc n) (x ∷ xs) h (Memᴰ.tail m) (Memᴰ.tail k) = elim (take-first le n xs h.1 m k) [
    | inl shown ↦ inl (Memᴰ.tail shown)
    | inr below ↦ inr below
  ]
