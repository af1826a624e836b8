-- ===== src/Http1/Heads/Lines.antt =====
-- Lines that end with CR LF: how they are read, stripped and split.
use decrypt0r_x.Prelude.{
  ℕ, suc, ◌+◌, ◌≤◌, ◌≡◌, refl, ap, ◌∙◌, Bool, true, false, not, ◌&&◌, List, [], ◌∷◌, ◌++◌, some,
  arith, if◌then◌else◌, length, ltb, ◌==◌,
}
use decrypt0r_x.Text.{Text, drop_while_end, strip_by, is_byte_space, rstrip_crlf, partition}
use decrypt0r_x.Result.{ok}
use decrypt0r_x.Http1.Headers.{crlf}
use decrypt0r_x.Http1.Stream.{first_line, after_line, line_length, readline}
use decrypt0r_x.Http1.Pump.{blank_line}
use decrypt0r_x.Http1.Heads.{is_empty, split_most, request_line}

-- the text does not have the character
abbrev pub absent : ℕ → Text → Bool
absent c [] = true
absent c (x ∷ t) = not (x == c) && absent c t

pub absent-append : (c : ℕ) (t u : Text) → absent c (t ++ u) ≡ (absent c t && absent c u)
absent-append c [] u = refl
absent-append c (x ∷ t) u = ground (arith, absent-append c t u)

first_line-crlf :
    (t rest : Text) → absent 10 t ≡ true → first_line (t ++ 13 ∷ 10 ∷ rest) ≡ t ++ crlf
first_line-crlf [] rest h = refl
first_line-crlf (x ∷ t) rest h = ground (arith, first_line-crlf t rest)

after_line-crlf : (t rest : Text) → absent 10 t ≡ true → after_line (t ++ 13 ∷ 10 ∷ rest) ≡ rest
after_line-crlf [] rest h = refl
after_line-crlf (x ∷ t) rest h = ground (arith, after_line-crlf t rest)

line_length-crlf :
    (t rest : Text) → absent 10 t ≡ true → line_length (t ++ 13 ∷ 10 ∷ rest) ≡ length t + 1
line_length-crlf [] rest h = refl
line_length-crlf (x ∷ t) rest h = ground (arith, line_length-crlf t rest)

pub readline-crlf :
    (t rest : Text) (sizes : List ℕ)
    → absent 10 t ≡ true
    → length t + 2 ≤ 65536
    → readline (record { rest = t ++ 13 ∷ 10 ∷ rest; sizes = sizes })
      ≡ ok (t ++ crlf, record { rest = rest; sizes = sizes })
unfolding readline
readline-crlf t rest sizes h short =
    let within : ltb 65536 (length t + 1) ≡ false = ground arith in
    rw (line_length-crlf t rest h, within, first_line-crlf t rest h, after_line-crlf t rest h)

pub rstrip-crlf : (t : Text) → absent 10 t ≡ true → absent 13 t ≡ true → rstrip_crlf (t ++ crlf) ≡ t
rstrip-crlf [] h k = refl
rstrip-crlf (x ∷ []) h k = ground arith
rstrip-crlf (x ∷ y ∷ t) h k =
    let e : rstrip_crlf (y ∷ t ++ crlf) ≡ y ∷ t =
      rstrip-crlf (y ∷ t) (ground arith) (ground arith) in
    rw e

pub partition-append :
    (c : ℕ) (t rest : Text) → absent c t ≡ true → partition c (t ++ c ∷ rest) ≡ some (t, rest)
partition-append c [] rest h = ground arith
partition-append c (x ∷ t) rest h =
    let e : partition c (t ++ c ∷ rest) ≡ some (t, rest) =
      partition-append c t rest (ground arith) in
    let miss : (x == c) ≡ false = ground arith in rw (e, miss)

split_most-some :
    (n : ℕ) (t part later : Text)
    → partition 32 t ≡ some (part, later)
    → split_most (suc n) t ≡ part ∷ split_most n later
split_most-some n t part later h = rw (h, split_most)

pub split-request_line :
    (method target version : Text)
    → absent 32 method ≡ true
    → absent 32 target ≡ true
    → split_most 2 (request_line method target version) ≡ method ∷ target ∷ version ∷ []
split-request_line method target version m t =
    split_most-some 1 (request_line method target version) method (target ++ 32 ∷ version)
      (partition-append 32 method (target ++ 32 ∷ version) m)
    ∙ ap (◌∷◌ method) (
        split_most-some 0 (target ++ 32 ∷ version) target version
          (partition-append 32 target version t))

-- a line of more than two bytes is not blank
pub blank_line-long : (t : Text) → 3 ≤ length t → blank_line t ≡ false
blank_line-long [] h = absurd (omega arith)
blank_line-long (a ∷ []) h = absurd (omega arith)
blank_line-long (a ∷ b ∷ []) h = absurd (omega arith)
blank_line-long (a ∷ b ∷ c ∷ t) h = ground arith

-- the text starts with a character that `bytes.strip` keeps
abbrev pub is_solid : Text → Bool
is_solid [] = false
is_solid (c ∷ t) = not (is_byte_space c)

keeps_end :
    (p : ℕ → Bool) (c : ℕ) (t : Text) → p c ≡ false → is_empty (drop_while_end p (c ∷ t)) ≡ false
keeps_end p c t h = go (drop_while_end p t)
  where
    go :
        (rest : Text)
        → is_empty (elim rest [ [] ↦ if p c then [] else c ∷ [] | d ∷ more ↦ c ∷ d ∷ more ]) ≡ false
    go [] = rw h
    go (d ∷ more) = refl

pub strip-is_solid : (t : Text) → is_solid t ≡ true → is_empty (strip_by is_byte_space t) ≡ false
strip-is_solid [] h = cc
strip-is_solid (c ∷ t) h =
    let kept : is_byte_space c ≡ false = ground arith in rw kept (keeps_end is_byte_space c t kept)
