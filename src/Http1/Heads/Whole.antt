-- ===== src/Http1/Heads/Whole.antt =====
-- The lines of a head, of a request or of a response, read back from its text.
use decrypt0r_x.Prelude.{
  ℕ, ◌+◌, ◌≤◌, ◌≡◌, ◌∙◌, true, false, List, [], ◌∷◌, ◌++◌, map, append_assoc, arith, length,
  length-append, ◌==◌,
}
use decrypt0r_x.Text.{Text}
use decrypt0r_x.Result.{ok}
use decrypt0r_x.Http1.Headers.{crlf, serialize_items}
use decrypt0r_x.Http1.Heads.{request_line, again, head_round, head_lines, read_head_lines}
use decrypt0r_x.Http1.Heads.Lines.{absent, absent-append, readline-crlf, is_solid, strip-is_solid}
use decrypt0r_x.Http1.Heads.Items.{
  AllItems, item_line, rest_of, head_round-line, length-serialize, head_lines-items,
}

-- the text of a head with this first line
abbrev pub head_text : Text → List (Text × Text) → Text
head_text line items = (line ++ crlf) ++ serialize_items items ++ crlf

pub request_line-absent :
    (c : ℕ) (m t v : Text)
    → (32 == c) ≡ false
    → absent c m ≡ true
    → absent c t ≡ true
    → absent c v ≡ true
    → absent c (request_line m t v) ≡ true
request_line-absent c m t v blank a b d =
    rw (absent-append c m (32 ∷ (t ++ 32 ∷ v)), absent-append c t (32 ∷ v), a, b, d, blank)

pub is_solid-append : (t u : Text) → is_solid t ≡ true → is_solid (t ++ u) ≡ true
is_solid-append [] u h = cc
is_solid-append (c ∷ t) u h = h

length-items-le : (items : List (Text × Text)) → length items ≤ length (serialize_items items)
length-items-le [] = omega arith
length-items-le ((key, value) ∷ items) =
    omega (arith, length-items-le items, length-serialize key value items)

wire_of :
    (line : Text) (items : List (Text × Text)) (tail : Text)
    → head_text line items ++ tail ≡ line ++ 13 ∷ 10 ∷ rest_of items tail
wire_of line items tail =
    append_assoc (line ++ crlf ++ serialize_items items) crlf tail
    ∙ append_assoc (line ++ crlf) (serialize_items items) (crlf ++ tail)
    ∙ append_assoc line crlf (rest_of items tail)

length-head_text :
    (line : Text) (items : List (Text × Text))
    → length (head_text line items) ≡ length line + 2 + length (serialize_items items) + 2
length-head_text line items = ground (
  arith,
  length-append (line ++ crlf ++ serialize_items items) crlf,
  length-append (line ++ crlf) (serialize_items items),
  length-append line crlf,
)

pub length-request_line :
    (m t v : Text) → length (request_line m t v) ≡ length m + length t + length v + 2
length-request_line m t v =
    ground (arith, length-append m (32 ∷ (t ++ 32 ∷ v)), length-append t (32 ∷ v))

solid-long : (t : Text) → is_solid t ≡ true → 1 ≤ length t
solid-long [] h = cc
solid-long (c ∷ t) h = omega arith

-- a first line that is not blank and has no line feed, and headers within the limits
module _ (line : Text) (items : List (Text × Text)) (lineless : absent 10 line ≡ true)
    (solid : is_solid line ≡ true) (all : AllItems items) (count : length items ≤ 199)
    (size : length (head_text line items) ≤ 65536) where
  first_round :
      head_round [] 0 (line ++ crlf) ≡ ok (again ((line ++ crlf) ∷ []) (0 + length (line ++ crlf)))
  first_round =
      head_round-line [] 0 (line ++ crlf)
        (omega (arith, length-append line crlf, solid-long line solid))
        (omega (arith, length-append line crlf, length-head_text line items)) (omega arith)
        (strip-is_solid (line ++ crlf) (is_solid-append line crlf solid))

  pub read_head_lines-text :
      (tail : Text) (sizes : List ℕ)
      → read_head_lines (record { rest = head_text line items ++ tail; sizes = sizes })
        ≡ ok ((line ++ crlf) ∷ map item_line items, record { rest = tail; sizes = sizes })
  unfolding read_head_lines head_lines
  read_head_lines-text tail sizes =
      rw
        (
          wire_of line items tail,
          readline-crlf line (rest_of items tail) sizes lineless
              (omega (arith, length-head_text line items)),
          first_round,
        )
        (head_lines-items _ items (line ++ crlf) [] (0 + length (line ++ crlf)) tail sizes all
          (omega (
            arith,
            length-items-le items,
            length-append (head_text line items) tail,
            length-head_text line items,
          ))
          (omega arith) (omega (arith, length-append line crlf, length-head_text line items)))
