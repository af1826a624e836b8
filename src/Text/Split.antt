-- ===== src/Text/Split.antt =====
-- Texts that are split at a character.
use decrypt0r_x.Prelude.{
  ℕ, ◌≡◌, refl, ap, sym, ◌∙◌, ◌⊎◌, inl, inr, true, false, List, [], ◌∷◌, ◌++◌, ◌==◌, ==_iff,
  Bool-cases, arith,
}
use decrypt0r_x.Text.{Text, split_on, first_part}
use decrypt0r_x.Http1.Heads.Lines.{absent}

pub split_on-absent : (c : ℕ) (t : Text) → absent c t ≡ true → split_on c t ≡ t ∷ []
split_on-absent c [] h = refl
split_on-absent c (x ∷ t) h =
    let e : split_on c t ≡ t ∷ [] = split_on-absent c t (ground arith) in
    let miss : (x == c) ≡ false = ground arith in rw (e, miss)

pub split_on-append :
    (c : ℕ) (t rest : Text) → absent c t ≡ true → split_on c (t ++ c ∷ rest) ≡ t ∷ split_on c rest
split_on-append c [] rest h = ground arith
split_on-append c (x ∷ t) rest h =
    let e : split_on c (t ++ c ∷ rest) ≡ t ∷ split_on c rest =
      split_on-append c t rest (ground arith) in
    let miss : (x == c) ≡ false = ground arith in rw (e, miss)

-- a text has no such character, or is the text before its first one and the text behind it
pub split_cases :
    (c : ℕ) (t : Text)
    → (absent c t ≡ true) ⊎ ((a : Text) × (r : Text) × (absent c a ≡ true) × (t ≡ a ++ c ∷ r))
split_cases c [] = inl refl
split_cases c (x ∷ t) = elim (Bool-cases (x == c)) [
  | inl hit ↦ inr ([], t, refl, ap (λ y. y ∷ t) ((==_iff x c).0 hit))
  | inr miss ↦ elim (split_cases c t) [
    | inl free ↦ inl (rw miss free)
    | inr (a, r, free, e) ↦ inr (x ∷ a, r, rw miss free, ap (◌∷◌ x) e)
  ]
]

pub first_part-absent : (c : ℕ) (t : Text) → absent c t ≡ true → first_part c t ≡ t
first_part-absent c [] h = refl
first_part-absent c (x ∷ t) h =
    let e : first_part c t ≡ t = first_part-absent c t (ground arith) in
    let miss : (x == c) ≡ false = ground arith in rw (miss, e)

pub first_part-append : (c : ℕ) (a r : Text) → absent c a ≡ true → first_part c (a ++ c ∷ r) ≡ a
first_part-append c [] r h = ground arith
first_part-append c (x ∷ a) r h =
    let e : first_part c (a ++ c ∷ r) ≡ a = first_part-append c a r (ground arith) in
    let miss : (x == c) ≡ false = ground arith in rw (miss, e)

-- `sep.join(parts)` for a separator of one character
abbrev pub join : ℕ → List Text → Text
join sep [] = []
join sep (part ∷ []) = part
join sep (part ∷ next ∷ parts) = part ++ sep ∷ join sep (next ∷ parts)

join-cons :
    (c x : ℕ) (part : Text) (parts : List Text)
    → join c ((x ∷ part) ∷ parts) ≡ x ∷ join c (part ∷ parts)
join-cons c x part [] = refl
join-cons c x part (next ∷ parts) = refl

pub split_on-cons :
    (c : ℕ) (t : Text) → (part : Text) × (parts : List Text) × (split_on c t ≡ part ∷ parts)
split_on-cons c [] = ([], [], refl)
split_on-cons c (x ∷ t) = elim (Bool-cases (x == c)) [
  | inl hit ↦ ([], split_on c t, rw hit)
  | inr miss ↦ let (part, parts, e) = split_on-cons c t in (x ∷ part, parts, rw (miss, e))
]

pub join-split_on : (c : ℕ) (t : Text) → join c (split_on c t) ≡ t
join-split_on c [] = refl
join-split_on c (x ∷ t) =
    let (part, parts, e) = split_on-cons c t in
    let later : join c (part ∷ parts) ≡ t = ap (join c) (sym e) ∙ join-split_on c t in
    elim (Bool-cases (x == c)) [
      | inl hit ↦ rw (hit, e, later, (==_iff x c).0 hit)
      | inr miss ↦ rw (miss, e, join-cons c x part parts, later)
    ]
