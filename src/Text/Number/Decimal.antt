-- ===== src/Text/Number/Decimal.antt =====
-- Python's `str` of an integer, and that `int` reads it back.
use Prim.Native.Nat.{ℕ, zero, suc, ◌+◌, ◌*◌, ◌/◌, ◌%◌, ◌<◌, ◌≤◌}
use decrypt0r_x.Prelude.{
  ◌≡◌, refl, ◌∙◌, Bool, true, false, [], ◌∷◌, some, if◌then◌else◌, length, ltb, ◌==◌, arith, ◌&&◌,
  Bool-cases, inl, inr, leb,
}
use decrypt0r_x.Prelude.Int.{ℤ, pos, negsuc}
use decrypt0r_x.Text.{Text, codes, is_space, strip, drop_while_end}
use decrypt0r_x.Text.Number.{py_int, digits_from, digit_value, magnitude, checked, signed}

-- the digits of `n` before `later`; a division takes one of at most `n + 1` rounds
pub digits_onto : ℕ → ℕ → Text → Text
digits_onto zero n later = later
digits_onto (suc fuel) n later =
    let more = digits_onto fuel (n / 10) ((48 + n % 10) ∷ later) in
    if ltb n 10 then (48 + n) ∷ later else more

unfoldable pub decimal : ℕ → Text
unfolding digits_onto
decimal n = digits_onto (suc n) n []

-- `str(n)` of an integer
unfoldable pub str_int : ℤ → Text
unfolding decimal
str_int (pos n) = decimal n
str_int (negsuc n) = b'-' ∷ decimal (suc n)

digit_value-digit : (d : ℕ) → d < 10 → digit_value (48 + d) ≡ some d
unfolding digit_value
digit_value-digit d h = ground arith

digits_from-digit :
    (after : Bool) (count acc d : ℕ) (t : Text)
    → d < 10
    → digits_from 10 after count acc ((48 + d) ∷ t)
      ≡ digits_from 10 true (count + 1) (acc * 10 + d) t
unfolding digits_from
digits_from-digit after count acc d t h =
    let no_line : ((48 + d) == 95) ≡ false = ground arith in
    let small : ltb d 10 ≡ true = ground arith in rw (no_line, digit_value-digit d h, small)

pub digit_count : ℕ → ℕ → ℕ
digit_count zero n = 0
digit_count (suc fuel) n = let more = digit_count fuel (n / 10) in if ltb n 10 then 1 else more + 1

digits_from-onto :
    (fuel n : ℕ) (after : Bool) (count : ℕ) (t : Text)
    → n < fuel
    → digits_from 10 after count 0 (digits_onto fuel n t)
      ≡ digits_from 10 true (count + digit_count fuel n) n t
unfolding digits_onto digit_count
digits_from-onto zero n after count t h = absurd (omega arith)
digits_from-onto (suc fuel) n after count t h = elim (Bool-cases (ltb n 10)) [
  | inl small ↦
      let start : 0 * 10 + n ≡ n = omega arith in
      rw small (digits_from-digit after count 0 n t (ground arith) ∙ (rw start))
  | inr large ↦
      let joined : n / 10 * 10 + n % 10 ≡ n = omega arith in
      let counted : count + digit_count fuel (n / 10) + 1
          ≡ count + (digit_count fuel (n / 10) + 1) =
        omega arith in
      rw large (
        digits_from-onto fuel (n / 10) after count ((48 + n % 10) ∷ t) (ground arith)
        ∙ digits_from-digit true (count + digit_count fuel (n / 10)) (n / 10) (n % 10) t
            (omega arith)
        ∙ (rw (joined, counted)))
]

-- a text of digits only
abbrev pub all_digits : Text → Bool
all_digits [] = true
all_digits (c ∷ t) = leb 48 c && leb c 57 && all_digits t

digits_onto-all_digits :
    (fuel n : ℕ) (t : Text) → all_digits t ≡ true → all_digits (digits_onto fuel n t) ≡ true
unfolding digits_onto
digits_onto-all_digits zero n t h = h
digits_onto-all_digits (suc fuel) n t h = elim (Bool-cases (ltb n 10)) [
  | inl small ↦ rw small (ground arith)
  | inr large ↦ rw large (digits_onto-all_digits fuel (n / 10) ((48 + n % 10) ∷ t) (ground arith))
]

pub decimal-all_digits : (n : ℕ) → all_digits (decimal n) ≡ true
unfolding decimal
decimal-all_digits n = digits_onto-all_digits (suc n) n [] refl

length-digits_onto :
    (fuel n : ℕ) (t : Text) → length (digits_onto fuel n t) ≡ digit_count fuel n + length t
unfolding digits_onto digit_count
length-digits_onto zero n t = omega arith
length-digits_onto (suc fuel) n t = elim (Bool-cases (ltb n 10)) [
  | inl small ↦ rw small (omega arith)
  | inr large ↦ rw large (omega (arith, length-digits_onto fuel (n / 10) ((48 + n % 10) ∷ t)))
]

pub length-decimal : (n : ℕ) → length (decimal n) ≡ digit_count (suc n) n
unfolding decimal
length-decimal n = omega (arith, length-digits_onto (suc n) n [])

digit_count-pos : (fuel n : ℕ) → 0 < digit_count (suc fuel) n
unfolding digit_count
digit_count-pos fuel n = ground arith

pub decimal-ne-nil : (n : ℕ) → 0 < length (decimal n)
decimal-ne-nil n = omega (arith, length-decimal n, digit_count-pos n n)

-- blanks stripped from digits: nothing
strip-all_digits : (t : Text) → all_digits t ≡ true → strip t ≡ t
strip-all_digits t h = front t h ∙ back t h
  where
    front : (t : Text) → all_digits t ≡ true → strip t ≡ drop_while_end is_space t
    front [] h = refl
    front (c ∷ t) h = let solid : is_space c ≡ false = ground arith in rw solid

    back : (t : Text) → all_digits t ≡ true → drop_while_end is_space t ≡ t
    back [] h = refl
    back (c ∷ []) h = let solid : is_space c ≡ false = ground arith in rw solid
    back (c ∷ d ∷ t) h = rw (back (d ∷ t) (ground arith))

digits_from-decimal :
    (n : ℕ) → digits_from 10 false 0 0 (decimal n) ≡ some (n, digit_count (suc n) n)
unfolding decimal
digits_from-decimal n =
    let none_before : 0 + digit_count (suc n) n ≡ digit_count (suc n) n = omega arith in
    digits_from-onto (suc n) n false 0 [] (omega arith)
    ∙ (rw none_before (at_end (digit_count (suc n) n) n))
  where
    at_end : (count n : ℕ) → digits_from 10 true count n [] ≡ some (n, count)
    at_end count n = unfold digits_from in refl

unsigned :
    (t : Text) (n count : ℕ)
    → all_digits t ≡ true
    → 0 < length t
    → digits_from 10 false 0 0 t ≡ some (n, count)
    → count ≤ 4300
    → signed 10 t ≡ some (pos n)
unfolding signed checked magnitude
unsigned [] n count digits long e small = absurd (omega arith)
unsigned (c ∷ []) n count digits long e small = ground arith
unsigned (c ∷ d ∷ t) n count digits long e small = ground arith

-- `int(str(n))` is `n`, for a number within the limit on digits.
pub py_int-decimal :
    (n : ℕ) → length (decimal n) ≤ 4300 → py_int 10 is_space (decimal n) ≡ some (pos n)
unfolding py_int
py_int-decimal n h = rw (strip-all_digits (decimal n) (decimal-all_digits n)) (
    unsigned (decimal n) n (digit_count (suc n) n) (decimal-all_digits n) (decimal-ne-nil n)
      (digits_from-decimal n) (omega (arith, length-decimal n)))

decimal_200 : decimal 200 ≡ codes "200"
unfolding decimal
decimal_200 = refl
