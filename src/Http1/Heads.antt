-- ===== src/Http1/Heads.antt =====
-- The heads of requests and responses in services/proxy/decrypt0rx_proxy/http1.py: reading, parsing and
-- serialize. The loop of `_read_head_lines` runs on fuel: a round that does not end it takes at least
-- one byte, so one more than what is left of the stream is enough.
pub mod Lines
pub mod Items
pub mod Whole
pub mod RoundTrip
pub mod Responses
pub mod Stray
pub mod Total
pub mod Progress
use decrypt0r_x.Prelude.{
  ℕ, zero, suc, ◌+◌, Bool, true, false, ◌&&◌, ◌||◌, not, List, [], ◌∷◌, ◌++◌, Option, none, some,
  if◌then◌else◌, length, ltb, ◌==◌,
}
use decrypt0r_x.Prelude.Int.{ℤ, pos, negsuc}
use decrypt0r_x.Text.{
  Text, codes, text_eq, upper, strip, strip_by, is_space, is_byte_space, rstrip_crlf, starts_with,
  partition,
}
use decrypt0r_x.Text.Number.{py_int}
use decrypt0r_x.Text.Number.Decimal.{str_int}
use decrypt0r_x.Result.{Result, ok, err, protocol_error, out_of_fuel, ◌>>=◌}
use decrypt0r_x.Http1.Headers.{Headers, crlf, serialize_items}
use decrypt0r_x.Http1.Stream.{Reader, readline}
use decrypt0r_x.Http1.Pump.{blank_line}

pub record RequestHead : Type 0 where
  pub method : Text
  pub target : Text
  pub version : Text
  pub headers : Headers

pub record ResponseHead : Type 0 where
  pub version : Text
  pub status : ℤ
  pub reason : Text
  pub headers : Headers

unfoldable pub is_connect : RequestHead → Bool
is_connect head = text_eq (upper head.method) (codes "CONNECT")

-- `target or self.target`
abbrev pub or_text : Option Text → Text → Text
or_text none text = text
or_text (some []) text = text
or_text (some (c ∷ t)) text = c ∷ t

abbrev pub request_line : Text → Text → Text → Text
request_line method target version = method ++ b' ' ∷ (target ++ b' ' ∷ version)

-- `serialize(target)` of a request
unfoldable pub serialize_request : RequestHead → Option Text → Text
serialize_request head target =
    (request_line head.method (or_text target head.target) head.version ++ crlf)
    ++ serialize_items head.headers.items
    ++ crlf

-- `serialize()` of a response
unfoldable pub serialize_response : ResponseHead → Text
unfolding str_int
serialize_response head =
    (request_line head.version (str_int head.status) head.reason ++ crlf)
    ++ serialize_items head.headers.items
    ++ crlf

abbrev pub max_header_bytes : ℕ
max_header_bytes = 65536

abbrev pub max_header_count : ℕ
max_header_count = 200

abbrev pub is_empty {ℓ} : {A : Type ℓ} → List A → Bool
is_empty [] = true
is_empty (x ∷ xs) = false

-- what a round of the loop comes to
pub data Round : Type 0 where
  finished : List Text → Round
  again : List Text → ℕ → Round

abbrev pub add_line : List Text → ℕ → Result Round
add_line lines total =
    if ltb max_header_count (length lines) then err protocol_error else ok (again lines total)

-- the tests on a line that is not empty, with the total that counts it
abbrev pub line_round : List Text → ℕ → Text → Result Round
line_round lines total line =
    if ltb max_header_bytes total
    then err protocol_error
    else if blank_line line
    then ok (finished lines)
    else if is_empty lines && is_empty (strip_by is_byte_space line)
    then ok (again lines total)
    else add_line (lines ++ line ∷ []) total

-- the end of the stream is clean only before the first line
abbrev pub end_round : List Text → Result Round
end_round [] = ok (finished [])
end_round (l ∷ lines) = err protocol_error

unfoldable pub head_round : List Text → ℕ → Text → Result Round
head_round lines total [] = end_round lines
head_round lines total (c ∷ more) = line_round lines (total + length (c ∷ more)) (c ∷ more)

-- the loop of `_read_head_lines`
unfoldable pub head_lines : ℕ → List Text → ℕ → Reader → Result (List Text × Reader)
unfolding head_round
head_lines zero lines total r = err out_of_fuel
head_lines (suc fuel) lines total r = do
  (line, reader) ← readline r
  round ← head_round lines total line
  elim round [ finished ls ↦ ok (ls, reader) | again ls n ↦ head_lines fuel ls n reader ]

unfoldable pub read_head_lines : Reader → Result (List Text × Reader)
unfolding head_lines
read_head_lines r = head_lines (suc (length r.rest)) [] 0 r

-- `line[:1] in (" ", "\t")`
abbrev pub is_folded : Text → Bool
is_folded [] = false
is_folded (c ∷ t) = c == 32 || c == 9

-- obsolete line folding: the last item goes on
abbrev pub fold_last : Text → List (Text × Text) → List (Text × Text)
fold_last more [] = []
fold_last more ((key, value) ∷ []) = (key, value ++ b' ' ∷ more) ∷ []
fold_last more (item ∷ next ∷ items) = item ∷ fold_last more (next ∷ items)

abbrev pub add_item : Option (Text × Text) → List (Text × Text) → Result (List (Text × Text))
add_item none items = err protocol_error
add_item (some (name, value)) items = ok (items ++ (strip name, strip value) ∷ [])

abbrev pub parse_line : Text → List (Text × Text) → Result (List (Text × Text))
parse_line line items =
    if is_folded line && not (is_empty items)
    then ok (fold_last (strip line) items)
    else add_item (partition b':' line) items

-- the loop of `_parse_headers`
unfoldable pub parse_headers : List Text → List (Text × Text) → Result (List (Text × Text))
parse_headers [] items = ok items
parse_headers (raw ∷ lines) items = do
  items' ← parse_line (rstrip_crlf raw) items
  parse_headers lines items'

-- `t.split(" ", n)`
abbrev pub split_most : ℕ → Text → List Text
split_most zero t = t ∷ []
split_most (suc n) t = elim (partition b' ' t) [
  | none ↦ t ∷ []
  | some (part, later) ↦ part ∷ split_most n later
]

abbrev pub request_of : Text → Text → Text → List Text → Result (Option RequestHead)
request_of method target version lines = do
  items ← parse_headers lines []
  ok (
      some (record {
        method = method;
        target = target;
        version = version;
        headers = record { items = items };
      }))

-- the request line must have three parts, and the last the protocol
abbrev pub request_parts : List Text → List Text → Result (Option RequestHead)
request_parts (method ∷ target ∷ version ∷ []) lines =
    if starts_with (codes "HTTP/") version
    then request_of method target version lines
    else err protocol_error
request_parts parts lines = err protocol_error

unfoldable pub parse_request : List Text → Result (Option RequestHead)
unfolding parse_headers
parse_request [] = ok none
parse_request (first ∷ lines) = request_parts (split_most 2 (rstrip_crlf first)) lines

-- `None` where the peer closed before a line
unfoldable pub read_request_head : Reader → Result (Option RequestHead × Reader)
unfolding read_head_lines parse_request
read_request_head r = do
  (lines, reader) ← read_head_lines r
  head ← parse_request lines
  ok (head, reader)

-- the status code, or a `ProtocolError`
abbrev pub status_of : Option ℤ → Result ℤ
status_of none = err protocol_error
status_of (some code) = ok code

abbrev pub response_of : Text → Text → Text → List Text → Result (Option ResponseHead)
response_of version status reason lines = do
  code ← status_of (py_int 10 is_space status)
  items ← parse_headers lines []
  ok (
      some (record {
        version = version;
        status = code;
        reason = reason;
        headers = record { items = items };
      }))

abbrev pub response_parts : List Text → List Text → Result (Option ResponseHead)
response_parts [] lines = err protocol_error
response_parts (version ∷ []) lines = err protocol_error
response_parts (version ∷ status ∷ []) lines = response_of version status [] lines
response_parts (version ∷ status ∷ reason ∷ parts) lines = response_of version status reason lines

unfoldable pub parse_response : List Text → Result (Option ResponseHead)
unfolding parse_headers
parse_response [] = ok none
parse_response (first ∷ lines) = response_parts (split_most 2 (rstrip_crlf first)) lines

unfoldable pub read_response_head : Reader → Result (Option ResponseHead × Reader)
unfolding read_head_lines parse_response
read_response_head r = do
  (lines, reader) ← read_head_lines r
  head ← parse_response lines
  ok (head, reader)
