-- ===== src/Http1/Heads/Responses.antt =====
-- `read_response_head` on what `ResponseHead.serialize` writes.
use decrypt0r_x.Prelude.{
  ℕ, ◌≤◌, ◌≡◌, refl, true, false, ◌&&◌, List, [], ◌∷◌, ◌++◌, map, some, arith, length, leb,
}
use decrypt0r_x.Prelude.Int.{pos}
use decrypt0r_x.Text.{Text}
use decrypt0r_x.Text.Number.Decimal.{
  decimal, str_int, all_digits, decimal-all_digits, py_int-decimal,
}
use decrypt0r_x.Result.{ok}
use decrypt0r_x.Http1.Headers.{crlf}
use decrypt0r_x.Http1.Heads.{
  ResponseHead, request_line, serialize_response, read_head_lines, parse_response,
  read_response_head,
}
use decrypt0r_x.Http1.Heads.Lines.{absent, rstrip-crlf, split-request_line, is_solid}
use decrypt0r_x.Http1.Heads.Whole.{request_line-absent, is_solid-append, read_head_lines-text}
use decrypt0r_x.Http1.Heads.Items.{AllItems, item_line, parse_headers-lines}

abbrev pub response : Text → ℕ → Text → List (Text × Text) → ResponseHead
response version status reason items = record {
  version = version;
  status = pos status;
  reason = reason;
  headers = record { items = items };
}

-- a response that a head can hold, within the limits on lines, bytes and digits
pub record IsResponse (version : Text) (status : ℕ) (reason : Text) (items : List (Text × Text))
    : Type 0 where
  pub version_token :
      (absent 32 version && absent 10 version && absent 13 version && is_solid version) ≡ true
  pub digits : length (decimal status) ≤ 4300
  pub reason_line : (absent 10 reason && absent 13 reason) ≡ true
  pub all_items : AllItems items
  pub count : length items ≤ 199
  pub size : length (serialize_response (response version status reason items)) ≤ 65536

all_digits-absent :
    (c : ℕ) (t : Text) → (leb 48 c && leb c 57) ≡ false → all_digits t ≡ true → absent c t ≡ true
all_digits-absent c [] h d = refl
all_digits-absent c (x ∷ t) h d = ground (arith, all_digits-absent c t)

module _ (version : Text) (status : ℕ) (reason : Text) (items : List (Text × Text))
    (h : IsResponse version status reason items) where
  line : Text
  line = request_line version (decimal status) reason

  digits-absent : (c : ℕ) → (leb 48 c && leb c 57) ≡ false → absent c (decimal status) ≡ true
  digits-absent c no_digit =
      all_digits-absent c (decimal status) no_digit (decimal-all_digits status)

  lineless : absent 10 line ≡ true
  unfolding line
  lineless =
      request_line-absent 10 version (decimal status) reason refl (ground (arith, h.version_token))
        (digits-absent 10 refl) (ground (arith, h.reason_line))

  returnless : absent 13 line ≡ true
  unfolding line
  returnless =
      request_line-absent 13 version (decimal status) reason refl (ground (arith, h.version_token))
        (digits-absent 13 refl) (ground (arith, h.reason_line))

  read-serialize :
      (tail : Text) (sizes : List ℕ)
      → read_head_lines (record {
        rest = serialize_response (response version status reason items) ++ tail;
        sizes = sizes;
      })
        ≡ ok ((line ++ crlf) ∷ map item_line items, record { rest = tail; sizes = sizes })
  unfolding serialize_response str_int line
  read-serialize tail sizes =
      read_head_lines-text line items lineless
        (is_solid-append version (32 ∷ (decimal status ++ 32 ∷ reason))
          (ground (arith, h.version_token)))
        h.all_items h.count h.size tail sizes

  parse-serialize :
      parse_response ((line ++ crlf) ∷ map item_line items)
      ≡ ok (some (response version status reason items))
  unfolding parse_response line
  parse-serialize = rw (
    rstrip-crlf line lineless returnless,
    split-request_line version (decimal status) reason (ground (arith, h.version_token))
        (digits-absent 32 refl),
    py_int-decimal status h.digits,
    parse_headers-lines items [] h.all_items,
  )

-- A response head is read back as it was serialized, and the reader is left at what follows it: for a
-- version without blanks that does not start with one, a status that is not negative, any reason, the
-- empty one included, all without line ends, at most 199 headers whose names and values are stripped and
-- whose names have no colon, and at most 64 KiB in all.
pub read_response_head-serialize :
    (version : Text) (status : ℕ) (reason : Text) (items : List (Text × Text)) (tail : Text)
    (sizes : List ℕ)
    → IsResponse version status reason items
    → read_response_head (record {
      rest = serialize_response (response version status reason items) ++ tail;
      sizes = sizes;
    })
      ≡ ok (some (response version status reason items), record { rest = tail; sizes = sizes })
unfolding read_response_head
read_response_head-serialize version status reason items tail sizes h = rw (
  read-serialize version status reason items h tail sizes,
  parse-serialize version status reason items h,
)
