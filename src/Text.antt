-- ===== src/Text.antt =====
-- Python's `str` and `bytes` values as lists of numbers, with the methods that the program calls.
-- The wire is decoded as Latin-1, so a character of a header or a target is below 256.
pub mod Laws
pub mod Number
pub mod Split
pub mod Dict
use Prim.Native.Char.{code}
use Prim.Native.String
use Prim.Native.String.{String}
use decrypt0r_x.Prelude.{
  ℕ, ◌+◌, ◌-◌, Bool, true, false, not, ◌&&◌, ◌||◌, List, [], ◌∷◌, ◌++◌, Option, none, some,
  if◌then◌else◌, leb, ◌==◌,
}

abbrev pub Text : Type 0
Text = List ℕ

-- the code points of a literal
abbrev pub codes : String → Text
codes String.[] = []
codes (String.◌∷◌ c s) = code c ∷ codes s

-- `a == b`
abbrev pub text_eq : Text → Text → Bool
text_eq [] [] = true
text_eq [] (y ∷ ys) = false
text_eq (x ∷ xs) [] = false
text_eq (x ∷ xs) (y ∷ ys) = x == y && text_eq xs ys

-- `text in (…)`
abbrev pub member : Text → List Text → Bool
member t [] = false
member t (u ∷ us) = text_eq t u || member t us

-- `str.lower` on a Latin-1 character: the letters of ASCII, and À to Þ but for ×
abbrev pub lower_char : ℕ → ℕ
lower_char c =
    if leb b'A' c && leb c b'Z' || leb 192 c && leb c 222 && not (c == 215) then c + 32 else c

abbrev pub lower : Text → Text
lower [] = []
lower (c ∷ t) = lower_char c ∷ lower t

-- what `str.strip()` removes, of the Latin-1 characters
abbrev pub is_space : ℕ → Bool
is_space c = leb 9 c && leb c 13 || leb 28 c && leb c 32 || c == 133 || c == 160

-- what `bytes.strip()` removes
abbrev pub is_byte_space : ℕ → Bool
is_byte_space c = leb 9 c && leb c 13 || c == 32

abbrev pub drop_while : (ℕ → Bool) → Text → Text
drop_while p [] = []
drop_while p (c ∷ t) = let rest = drop_while p t in if p c then rest else c ∷ t

-- `rstrip` with the characters that `p` accepts
abbrev pub drop_while_end : (ℕ → Bool) → Text → Text
drop_while_end p [] = []
drop_while_end p (c ∷ t) = elim (drop_while_end p t) [
  | [] ↦ if p c then [] else c ∷ []
  | d ∷ rest ↦ c ∷ d ∷ rest
]

abbrev pub strip_by : (ℕ → Bool) → Text → Text
strip_by p t = drop_while_end p (drop_while p t)

abbrev pub strip : Text → Text
strip = strip_by is_space

abbrev pub is_line_end : ℕ → Bool
is_line_end c = c == 13 || c == 10

-- `raw.rstrip(b"\r\n")`
abbrev pub rstrip_crlf : Text → Text
rstrip_crlf = drop_while_end is_line_end

abbrev pub starts_with : Text → Text → Bool
starts_with [] t = true
starts_with (p ∷ ps) [] = false
starts_with (p ∷ ps) (c ∷ t) = p == c && starts_with ps t

-- `needle in t`
abbrev pub contains : Text → Text → Bool
contains needle [] = starts_with needle []
contains needle (c ∷ t) = starts_with needle (c ∷ t) || contains needle t

abbrev prepend_head : ℕ → List Text → List Text
prepend_head c [] = (c ∷ []) ∷ []
prepend_head c (part ∷ parts) = (c ∷ part) ∷ parts

-- `t.split(sep)` for a separator of one character
abbrev pub split_on : ℕ → Text → List Text
split_on sep [] = [] ∷ []
split_on sep (c ∷ t) =
    let parts = split_on sep t in if c == sep then [] ∷ parts else prepend_head c parts

-- `t.partition(sep)`: `none` where the separator is missing
abbrev pub partition : ℕ → Text → Option (Text × Text)
partition sep [] = none
partition sep (c ∷ t) =
    let later : Option (Text × Text) = elim (partition sep t) [
      | none ↦ none
      | some (name, value) ↦ some (c ∷ name, value)
    ] in
    if c == sep then some ([], t) else later

-- `t.split(sep)[0]`
abbrev pub first_part : ℕ → Text → Text
first_part sep [] = []
first_part sep (c ∷ t) = if c == sep then [] else c ∷ first_part sep t

-- `str.upper`, for a comparison with a word of ASCII letters: ß, µ and ÿ have upper cases outside
-- Latin-1, and are left as they are
abbrev pub upper_char : ℕ → ℕ
upper_char c =
    if leb b'a' c && leb c b'z' || leb 224 c && leb c 254 && not (c == 247) then c - 32 else c

abbrev pub upper : Text → Text
upper [] = []
upper (c ∷ t) = upper_char c ∷ upper t
