-- ===== src/Api/Policies/Fields.antt =====
-- What the constraints on a payload leave in the columns of a rule.
use decrypt0r_x.Prelude.{
  ℕ, ◌≤◌, ◌≡◌, refl, sym, subst, Bool, ◌&&◌, Option, none, some, arith, leb, Bool-cases, inl, inr,
}
use decrypt0r_x.Prelude.Int.{ℤ, pos, negsuc}
use decrypt0r_x.Text.{Text}
use decrypt0r_x.Models.{PolicyAction}
use decrypt0r_x.Api.Users.{Change, unset, null, to, changed}
use decrypt0r_x.Api.Policies.Payloads.{
  in_range, in_range_or_none, change_in_range, changed_or_null, Numbers, NumberChanges, numbers,
  number_changes, Columns, columns,
}

abbrev pub PortIsValid : Option ℕ → Type 0
PortIsValid none = Unit {0}
PortIsValid (some p) = (1 ≤ p) × (p ≤ 65535)

pub some_same : {A : Type 0} {a b : A} → some a ≡ some b → a ≡ b
some_same e = cc

pub in_range-bounds :
    (low high : ℕ) (z : ℤ) (n : ℕ) → in_range low high z ≡ some n → (low ≤ n) × (n ≤ high)
in_range-bounds low high (negsuc m) n h = cc
in_range-bounds low high (pos m) n h = elim (Bool-cases (leb low m && leb m high)) [
  | inl inside ↦
      let same : m ≡ n = some_same (rw inside at h) in
      subst (λ k. (low ≤ k) × (k ≤ high)) same (ground arith, ground arith)
  | inr outside ↦ cc (rw outside at h)
]

pub in_range_or_none-PortIsValid :
    (o : Option ℤ) (q : Option ℕ) → in_range_or_none 1 65535 o ≡ some q → PortIsValid q
in_range_or_none-PortIsValid none q h = subst PortIsValid (some_same h) tt
in_range_or_none-PortIsValid (some z) q h = go (in_range 1 65535 z) (in_range-bounds 1 65535 z) h
  where
    go :
        (o : Option ℕ)
        → ((n : ℕ) → o ≡ some n → (1 ≤ n) × (n ≤ 65535))
        → elim o [ none ↦ none | some n ↦ some (some n) ] ≡ some q
        → PortIsValid q
    go none bounds e = cc
    go (some n) bounds e = subst PortIsValid (some_same e) (bounds n refl)

-- what a number of a patch leaves in a column
pub changed_port-PortIsValid :
    (c : Change ℤ) (d : Change ℕ) (old : Option ℕ)
    → change_in_range 1 65535 c ≡ some d
    → PortIsValid old
    → PortIsValid (changed_or_null d old)
changed_port-PortIsValid unset d old h k =
    subst (λ x. PortIsValid (changed_or_null x old)) (some_same h) k
changed_port-PortIsValid null d old h k =
    subst (λ x. PortIsValid (changed_or_null x old)) (some_same h) tt
changed_port-PortIsValid (to z) d old h k = go (in_range 1 65535 z) (in_range-bounds 1 65535 z) h
  where
    go :
        (o : Option ℕ)
        → ((n : ℕ) → o ≡ some n → (1 ≤ n) × (n ≤ 65535))
        → elim o [ none ↦ none | some n ↦ some (to n) ] ≡ some d
        → PortIsValid (changed_or_null d old)
    go none bounds e = cc
    go (some n) bounds e =
        subst (λ x. PortIsValid (changed_or_null x old)) (some_same e) (bounds n refl)

pub changed_number-le :
    (high : ℕ) (c : Change ℤ) (d : Change ℕ) (old new : ℕ)
    → change_in_range 0 high c ≡ some d
    → old ≤ high
    → changed d old ≡ some new
    → new ≤ high
changed_number-le high unset d old new h k e =
    subst (λ n. n ≤ high) (some_same (subst (λ x. changed x old ≡ some new) (sym (some_same h)) e))
      k
changed_number-le high null d old new h k e =
    absurd (cc (subst (λ x. changed x old ≡ some new) (sym (some_same h)) e))
changed_number-le high (to z) d old new h k e = go (in_range 0 high z) (in_range-bounds 0 high z) h
  where
    go :
        (o : Option ℕ)
        → ((n : ℕ) → o ≡ some n → (0 ≤ n) × (n ≤ high))
        → elim o [ none ↦ none | some n ↦ some (to n) ] ≡ some d
        → new ≤ high
    go none bounds q = cc
    go (some n) bounds q =
        subst (λ m. m ≤ high)
          (some_same (subst (λ x. changed x old ≡ some new) (sym (some_same q)) e))
          (bounds n refl).1

pub numbers-parts :
    (a : Option ℕ) (b : Option (Option ℕ)) (c : Option ℕ) (n : Numbers)
    → numbers a b c ≡ some n
    → (a ≡ some n.priority) × (b ≡ some n.port) × (c ≡ some n.capture_max_bytes)
numbers-parts none b c n h = cc
numbers-parts (some p) none c n h = cc
numbers-parts (some p) (some q) none n h = cc
numbers-parts (some p) (some q) (some r) n h =
    subst
      (λ m.
        (some p ≡ some m.priority) × (some q ≡ some m.port) × (some r ≡ some m.capture_max_bytes))
      (some_same h) (refl, refl, refl)

pub number_changes-parts :
    (a b c : Option (Change ℕ)) (n : NumberChanges)
    → number_changes a b c ≡ some n
    → (a ≡ some n.priority) × (b ≡ some n.port) × (c ≡ some n.capture_max_bytes)
number_changes-parts none b c n h = cc
number_changes-parts (some p) none c n h = cc
number_changes-parts (some p) (some q) none n h = cc
number_changes-parts (some p) (some q) (some r) n h =
    subst
      (λ m.
        (some p ≡ some m.priority) × (some q ≡ some m.port) × (some r ≡ some m.capture_max_bytes))
      (some_same h) (refl, refl, refl)

pub columns-parts :
    (a : Option Text) (b : Option ℕ) (c : Option Bool) (d : Option Text) (e : Option PolicyAction)
    (f : Option Bool) (g : Option ℕ) (h : Option Bool) (k : Columns)
    → columns a b c d e f g h ≡ some k
    → (b ≡ some k.priority) × (g ≡ some k.capture_max_bytes)
columns-parts none b c d e f g h k q = cc
columns-parts (some a) none c d e f g h k q = cc
columns-parts (some a) (some b) none d e f g h k q = cc
columns-parts (some a) (some b) (some c) none e f g h k q = cc
columns-parts (some a) (some b) (some c) (some d) none f g h k q = cc
columns-parts (some a) (some b) (some c) (some d) (some e) none g h k q = cc
columns-parts (some a) (some b) (some c) (some d) (some e) (some f) none h k q = cc
columns-parts (some a) (some b) (some c) (some d) (some e) (some f) (some g) none k q = cc
columns-parts (some a) (some b) (some c) (some d) (some e) (some f) (some g) (some h) k q =
    subst (λ m. (some b ≡ some m.priority) × (some g ≡ some m.capture_max_bytes)) (some_same q)
      (refl, refl)
