-- ===== src/Text/Number.antt =====
-- Python's `int(text, base)`, for the bases 10 and 16 that the program uses: blanks around the
-- number, a sign, and single underscores between digits are allowed, and a prefix `0x` in base 16.
-- A decimal number of more than 4300 digits is refused, as CPython's default limit has it.
pub mod Decimal
use Prim.Native.Nat.{ℕ, ◌+◌, ◌-◌, ◌*◌}
use decrypt0r_x.Prelude.{
  Bool, true, false, ◌&&◌, ◌||◌, [], ◌∷◌, Option, none, some, if◌then◌else◌, leb, ltb, ◌==◌,
}
use decrypt0r_x.Prelude.Int.{ℤ, pos, neg}
use decrypt0r_x.Text.{Text, strip_by}

pub digit_value : ℕ → Option ℕ
digit_value c =
    if leb b'0' c && leb c b'9'
    then some (c - 48)
    else if leb b'a' c && leb c b'z'
    then some (c - 87)
    else if leb b'A' c && leb c b'Z'
    then some (c - 55)
    else none

-- `after_digit` says whether an underscore may stand here and the text may end here; `count` is
-- the number of digits so far.
pub digits_from : ℕ → Bool → ℕ → ℕ → Text → Option (ℕ × ℕ)
unfolding digit_value
digits_from base after_digit count acc [] = if after_digit then some (acc, count) else none
digits_from base after_digit count acc (c ∷ t) =
    let skipped = digits_from base false count acc t in
    if c == b'_' then (if after_digit then skipped else none) else elim (digit_value c) [
      | none ↦ none
      | some d ↦
          let more = digits_from base true (count + 1) (acc * base + d) t in
          if ltb d base then more else none
    ]

-- after the prefix `0x` one underscore may stand
pub after_prefix : Text → Text
after_prefix [] = []
after_prefix (c ∷ t) = if c == b'_' then t else c ∷ t

pub magnitude : ℕ → Text → Option (ℕ × ℕ)
unfolding digits_from after_prefix
magnitude base (z ∷ x ∷ t) =
    if base == 16 && z == b'0' && (x == b'x' || x == b'X')
    then digits_from base false 0 0 (after_prefix t)
    else digits_from base false 0 0 (z ∷ x ∷ t)
magnitude base t = digits_from base false 0 0 t

-- `none` where the number is refused, by its form or by the limit on digits
checked : ℕ → Option (ℕ × ℕ) → Option ℕ
checked base none = none
checked base (some (n, count)) = if base == 10 && ltb 4300 count then none else some n

signed : ℕ → Text → Option ℤ
unfolding magnitude checked
signed base [] = none
signed base (c ∷ t) =
    let value : Option ℤ = elim (checked base (magnitude base (c ∷ t))) [
      | none ↦ none
      | some n ↦ some (pos n)
    ] in
    let positive : Option ℤ = elim (checked base (magnitude base t)) [
      | none ↦ none
      | some n ↦ some (pos n)
    ] in
    let negative : Option ℤ = elim (checked base (magnitude base t)) [
      | none ↦ none
      | some n ↦ some (neg n)
    ] in
    if c == b'-' then negative else if c == b'+' then positive else value

-- `int(t)` and `int(t, 16)`; `none` is a `ValueError`. `blank` tells the blanks that are skipped,
-- which differ for `str` and `bytes`.
unfoldable pub py_int : ℕ → (ℕ → Bool) → Text → Option ℤ
unfolding signed
py_int base blank t = signed base (strip_by blank t)
