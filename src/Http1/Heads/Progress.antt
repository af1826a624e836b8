-- ===== src/Http1/Heads/Progress.antt =====
-- What reading a head takes from the stream.
use decrypt0r_x.Prelude.{
  ℕ, zero, suc, ◌<◌, ◌≡◌, ap, List, [], ◌∷◌, ◌++◌, Option, none, some, ◌⊎◌, inl, inr, length,
  length-append, arith,
}
use decrypt0r_x.Text.{Text}
use decrypt0r_x.Result.{Result, ok, >>=-eq-ok, ok-injective}
use decrypt0r_x.Http1.Stream.{Reader, readline}
use decrypt0r_x.Http1.Stream.Laws.{readline_split}
use decrypt0r_x.Http1.Heads.{
  RequestHead, Round, finished, again, end_round, head_round, head_lines, read_head_lines,
  parse_request, read_request_head,
}

-- a head without lines, or at least one byte
abbrev Takes : Reader → List Text → Reader → Type 0
Takes r ls r' = (ls ≡ []) ⊎ (length r'.rest < length r.rest)

head_lines-Takes :
    (fuel : ℕ) (lines : List Text) (total : ℕ) (r : Reader) (ls : List Text) (r' : Reader)
    → head_lines fuel lines total r ≡ ok (ls, r')
    → Takes r ls r'
unfolding head_lines
head_lines-Takes zero lines total r ls r' h = cc
head_lines-Takes (suc fuel) lines total r ls r' h =
    let ((line, reader), got, e) = >>=-eq-ok (readline r) _ h in
    let (round, rounded, e') = >>=-eq-ok (head_round lines total line) _ e in
    go line reader round (readline_split r line reader got) rounded e' (head_lines-Takes fuel)
  where
    ended :
        (lines ms : List Text) (reader : Reader)
        → end_round lines ≡ ok (finished ms)
        → ◌≡◌ {A = Result (List Text × Reader)} (ok (ms, reader)) (ok (ls, r'))
        → Takes r ls r'
    ended [] ms reader h e = inl (ground arith)
    ended (l ∷ lines) ms reader h e = cc

    never : (lines ms : List Text) (n : ℕ) → end_round lines ≡ ok (again ms n) → ⊥
    never [] ms n h = cc
    never (l ∷ lines) ms n h = cc

    onward :
        (c : ℕ) (line : Text) (reader : Reader)
        → r.rest ≡ (c ∷ line) ++ reader.rest
        → Takes reader ls r'
        → Takes r ls r'
    onward c line reader split (inl e) = inl e
    onward c line reader split (inr less) =
        inr (omega (arith, ap length split, length-append (c ∷ line) reader.rest))

    go :
        (line : Text) (reader : Reader) (round : Round)
        → r.rest ≡ line ++ reader.rest
        → head_round lines total line ≡ ok round
        → ◌≡◌ {A = Result (List Text × Reader)}
            (elim round [
              | finished ms ↦ ok (ms, reader)
              | again ms n ↦ head_lines fuel ms n reader
            ])
            (ok (ls, r'))
        → ((ms : List Text) (n : ℕ) (t : Reader) (ks : List Text) (t' : Reader)
            → head_lines fuel ms n t ≡ ok (ks, t')
            → Takes t ks t')
        → Takes r ls r'
    go [] reader (finished ms) split rounded e ih =
        ended lines ms reader (unfold head_round in rounded) e
    go (c ∷ line) reader (finished ms) split rounded e ih =
        let same : reader ≡ r' = ap (λ p. p.1) (ok-injective e) in
        inr (
          omega (
            arith,
            ap length split,
            length-append (c ∷ line) reader.rest,
            ap (λ (x : Reader). length x.rest) same,
          ))
    go [] reader (again ms n) split rounded e ih =
        absurd (never lines ms n (unfold head_round in rounded))
    go (c ∷ line) reader (again ms n) split rounded e ih =
        onward c line reader split (ih ms n reader ls r' e)

-- A head that is read takes at least one byte.
pub read_request_head-takes :
    (r r' : Reader) (head : RequestHead)
    → read_request_head r ≡ ok (some head, r')
    → length r'.rest < length r.rest
unfolding read_request_head read_head_lines
read_request_head-takes r r' head h =
    let ((ls, reader), lines, e) = >>=-eq-ok (read_head_lines r) _ h in
    let (o, parsed, e') = >>=-eq-ok (parse_request ls) _ e in
    let same : reader ≡ r' = ap (λ p. p.1) (ok-injective e') in
    let headed : o ≡ some head = ap (λ p. p.0) (ok-injective e') in
    rw (← same)
      (go ls reader o parsed headed (head_lines-Takes (suc (length r.rest)) [] 0 r ls reader lines))
  where
    go :
        (ls : List Text) (reader : Reader) (o : Option RequestHead)
        → parse_request ls ≡ ok o
        → o ≡ some head
        → Takes r ls reader
        → length reader.rest < length r.rest
    go ls reader o parsed headed (inr less) = less
    go [] reader o parsed headed (inl e) =
        let nothing : ok none ≡ ok o = unfold parse_request in parsed in cc
    go (l ∷ ls) reader o parsed headed (inl e) = cc
