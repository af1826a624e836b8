-- ===== src/Http1/Heads/Total.antt =====
-- The fuel of the loop of `_read_head_lines`.
use decrypt0r_x.Prelude.{
  ℕ, zero, suc, ◌<◌, ◌≡◌, ◌≢◌, ap, subst, Bool, List, [], ◌∷◌, ◌++◌, Option, length, length-append,
  arith, ltb, ◌&&◌, ◌+◌, true, false, not, if◌then◌else◌, some, none,
}
use decrypt0r_x.Prelude.Int.{ℤ}
use decrypt0r_x.Text.Number.{py_int}
use decrypt0r_x.Text.{
  is_space, Text, rstrip_crlf, starts_with, codes, strip, partition, strip_by, is_byte_space,
}
use decrypt0r_x.Result.{ok, err, protocol_error, out_of_fuel, ◌>>=◌}
use decrypt0r_x.Http1.Stream.{Reader, readline}
use decrypt0r_x.Http1.Stream.Laws.{readline_split}
use decrypt0r_x.Http1.Pump.{blank_line}
use decrypt0r_x.Http1.Pump.Total.{Fueled, Fueled-bind, readline-Fueled}
use decrypt0r_x.Http1.Heads.{
  Round, finished, again, is_empty, add_line, line_round, end_round, head_round, head_lines,
  read_head_lines, parse_line, parse_headers, request_of, request_parts, parse_request,
  read_request_head, split_most, is_folded, add_item, fold_last, status_of, response_of,
  response_parts, parse_response, read_response_head,
}

add_line-Fueled : (lines : List Text) (total : ℕ) → Fueled (add_line lines total)
add_line-Fueled lines total = go (ltb 200 (length lines))
  where
    go : (b : Bool) → Fueled {A = Round} (if b then err protocol_error else ok (again lines total))
    go true = tt
    go false = tt

line_round-Fueled :
    (lines : List Text) (total : ℕ) (line : Text) → Fueled (line_round lines total line)
line_round-Fueled lines total line =
    go (ltb 65536 total) (blank_line line)
      (is_empty lines && is_empty (strip_by is_byte_space line))
  where
    go :
        (b c d : Bool)
        → Fueled {A = Round} (
            if b
            then err protocol_error
            else if c
            then ok (finished lines)
            else if d
            then ok (again lines total)
            else add_line (lines ++ line ∷ []) total)
    go true c d = tt
    go false true d = tt
    go false false true = tt
    go false false false = add_line-Fueled (lines ++ line ∷ []) total

head_round-Fueled :
    (lines : List Text) (total : ℕ) (line : Text) → Fueled (head_round lines total line)
unfolding head_round
head_round-Fueled [] total [] = tt
head_round-Fueled (l ∷ lines) total [] = tt
head_round-Fueled lines total (c ∷ more) =
    line_round-Fueled lines (total + length (c ∷ more)) (c ∷ more)

head_lines-Fueled :
    (fuel : ℕ) (lines : List Text) (total : ℕ) (r : Reader)
    → length r.rest < fuel
    → Fueled (head_lines fuel lines total r)
unfolding head_lines
head_lines-Fueled zero lines total r h = absurd (omega arith)
head_lines-Fueled (suc fuel) lines total r h =
    Fueled-bind (readline r) _ (readline-Fueled r)
      (λ (p : Text × Reader) e. go p.0 p.1 (readline_split r p.0 p.1 e) (head_lines-Fueled fuel))
  where
    go :
        (line : Text) (reader : Reader)
        → r.rest ≡ line ++ reader.rest
        → ((ls : List Text) (n : ℕ) (t : Reader)
            → length t.rest < fuel
            → Fueled (head_lines fuel ls n t))
        → Fueled {A = List Text × Reader} (
            head_round lines total line >>= λ round. elim round [
              | finished ls ↦ ok (ls, reader)
              | again ls n ↦ head_lines fuel ls n reader
            ])
    go line reader split ih =
        Fueled-bind (head_round lines total line) _ (head_round-Fueled lines total line)
          (λ round e. after line round split e)
      where
        after :
            (l : Text) (round : Round)
            → r.rest ≡ l ++ reader.rest
            → head_round lines total l ≡ ok round
            → Fueled {A = List Text × Reader} (elim round [
              | finished ls ↦ ok (ls, reader)
              | again ls n ↦ head_lines fuel ls n reader
            ])
        after l (finished ls) s e = tt
        after [] (again ls n) s e = absurd (ended lines (unfold head_round in e))
          where
            ended : (ms : List Text) → end_round ms ≡ ok (again ls n) → ⊥
            ended [] q = cc
            ended (m ∷ ms) q = cc
        after (c ∷ more) (again ls n) s e =
            ih ls n reader (omega (arith, ap length s, length-append (c ∷ more) reader.rest))

add_item-Fueled :
    (o : Option (Text × Text)) (items : List (Text × Text)) → Fueled (add_item o items)
add_item-Fueled none items = tt
add_item-Fueled (some (name, value)) items = tt

parse_line-Fueled : (line : Text) (items : List (Text × Text)) → Fueled (parse_line line items)
parse_line-Fueled line items = go (is_folded line && not (is_empty items))
  where
    go :
        (b : Bool)
        → Fueled
            (if b then ok (fold_last (strip line) items) else add_item (partition 58 line) items)
    go true = tt
    go false = add_item-Fueled (partition 58 line) items

parse_headers-Fueled :
    (lines : List Text) (items : List (Text × Text)) → Fueled (parse_headers lines items)
unfolding parse_headers
parse_headers-Fueled [] items = tt
parse_headers-Fueled (raw ∷ lines) items =
    Fueled-bind (parse_line (rstrip_crlf raw) items) _ (parse_line-Fueled (rstrip_crlf raw) items)
      (λ items' e. parse_headers-Fueled lines items')

request_parts-Fueled : (parts lines : List Text) → Fueled (request_parts parts lines)
request_parts-Fueled [] lines = tt
request_parts-Fueled (m ∷ []) lines = tt
request_parts-Fueled (m ∷ t ∷ []) lines = tt
request_parts-Fueled (m ∷ t ∷ v ∷ []) lines = go (starts_with (codes "HTTP/") v)
  where
    go : (b : Bool) → Fueled (if b then request_of m t v lines else err protocol_error)
    go true = Fueled-bind (parse_headers lines []) _ (parse_headers-Fueled lines []) (λ items e. tt)
    go false = tt
request_parts-Fueled (m ∷ t ∷ v ∷ w ∷ parts) lines = tt

parse_request-Fueled : (lines : List Text) → Fueled (parse_request lines)
unfolding parse_request
parse_request-Fueled [] = tt
parse_request-Fueled (first ∷ lines) = request_parts-Fueled (split_most 2 (rstrip_crlf first)) lines

pub read_request_head-Fueled : (r : Reader) → Fueled (read_request_head r)
unfolding read_request_head read_head_lines
read_request_head-Fueled r =
    Fueled-bind (read_head_lines r) _ (head_lines-Fueled (suc (length r.rest)) [] 0 r (omega arith))
      (λ p e. Fueled-bind (parse_request p.0) _ (parse_request-Fueled p.0) (λ head e'. tt))

-- Reading a request head always ends, with a head, with the end of the stream or with an error of the
-- code: the fuel, one more than the bytes that are left, never runs out.
pub read_request_head-ne-out_of_fuel : (r : Reader) → read_request_head r ≢ err out_of_fuel
read_request_head-ne-out_of_fuel r h = subst Fueled h (read_request_head-Fueled r)

status_of-Fueled : (o : Option ℤ) → Fueled (status_of o)
status_of-Fueled none = tt
status_of-Fueled (some n) = tt

response_of-Fueled :
    (version status reason : Text) (lines : List Text)
    → Fueled (response_of version status reason lines)
response_of-Fueled version status reason lines =
    Fueled-bind (status_of (py_int 10 is_space status)) _
      (status_of-Fueled (py_int 10 is_space status))
      (λ code e.
        Fueled-bind (parse_headers lines []) _ (parse_headers-Fueled lines []) (λ i e'. tt))

response_parts-Fueled : (parts lines : List Text) → Fueled (response_parts parts lines)
response_parts-Fueled [] lines = tt
response_parts-Fueled (v ∷ []) lines = tt
response_parts-Fueled (v ∷ s ∷ []) lines = response_of-Fueled v s [] lines
response_parts-Fueled (v ∷ s ∷ r ∷ parts) lines = response_of-Fueled v s r lines

parse_response-Fueled : (lines : List Text) → Fueled (parse_response lines)
unfolding parse_response
parse_response-Fueled [] = tt
parse_response-Fueled (first ∷ lines) =
    response_parts-Fueled (split_most 2 (rstrip_crlf first)) lines

pub read_response_head-Fueled : (r : Reader) → Fueled (read_response_head r)
unfolding read_response_head read_head_lines
read_response_head-Fueled r =
    Fueled-bind (read_head_lines r) _ (head_lines-Fueled (suc (length r.rest)) [] 0 r (omega arith))
      (λ p e. Fueled-bind (parse_response p.0) _ (parse_response-Fueled p.0) (λ head e'. tt))
