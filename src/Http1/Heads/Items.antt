-- ===== src/Http1/Heads/Items.antt =====
-- The header lines of a head: written, read and parsed.
use decrypt0r_x.Prelude.{
  ℕ, zero, suc, ◌+◌, ◌≤◌, ◌<◌, ◌≡◌, refl, sym, ap, ◌∙◌, true, false, ◌&&◌, List, [], ◌∷◌, ◌++◌, map,
  append_assoc, append-nil, arith, length, length-append, ltb, ◌==◌,
}
use decrypt0r_x.Text.{Text, codes, strip, strip_by, is_byte_space}
use decrypt0r_x.Result.{ok}
use decrypt0r_x.Http1.Headers.{crlf, serialize_items}
use decrypt0r_x.Http1.Heads.{
  finished, again, is_empty, head_round, head_lines, is_folded, parse_line, parse_headers,
}
use decrypt0r_x.Http1.Heads.Lines.{
  absent, absent-append, readline-crlf, rstrip-crlf, partition-append, blank_line-long,
}

-- a header that a line can hold: no line end, no colon and no blanks around the name, none around the
-- value
pub record IsItem (item : Text × Text) : Type 0 where
  pub name_line : (absent 10 item.0 && absent 13 item.0) ≡ true
  pub value_line : (absent 10 item.1 && absent 13 item.1) ≡ true
  pub name_colon : absent 58 item.0 ≡ true
  pub name_start : is_folded item.0 ≡ false
  pub name_strip : strip item.0 ≡ item.0
  pub value_strip : strip item.1 ≡ item.1

abbrev pub AllItems : List (Text × Text) → Type 0
AllItems [] = Unit {0}
AllItems (item ∷ items) = IsItem item × AllItems items

abbrev pub item_text : Text × Text → Text
item_text (key, value) = key ++ 58 ∷ 32 ∷ value

abbrev pub item_line : Text × Text → Text
item_line item = item_text item ++ crlf

abbrev pub rest_of : List (Text × Text) → Text → Text
rest_of items tail = serialize_items items ++ (crlf ++ tail)

rest-cons :
    (item : Text × Text) (items : List (Text × Text)) (tail : Text)
    → rest_of (item ∷ items) tail ≡ item_text item ++ 13 ∷ 10 ∷ rest_of items tail
rest-cons (key, value) items tail =
    append_assoc (key ++ codes ": " ++ value ++ crlf) (serialize_items items) (crlf ++ tail)
    ∙ append_assoc (key ++ codes ": " ++ value) crlf (rest_of items tail)
    ∙ ap (λ t. t ++ 13 ∷ 10 ∷ rest_of items tail) (append_assoc key (codes ": ") value)

text_absent :
    (c : ℕ) (key value : Text)
    → (c == 58) ≡ false
    → (c == 32) ≡ false
    → absent c key ≡ true
    → absent c value ≡ true
    → absent c (key ++ 58 ∷ 32 ∷ value) ≡ true
text_absent c key value a b k v = rw (absent-append c key (58 ∷ 32 ∷ value), k, v) (ground arith)

start_folded : (key rest : Text) → is_folded key ≡ false → is_folded (key ++ 58 ∷ rest) ≡ false
start_folded [] rest h = refl
start_folded (c ∷ key) rest h = h

parse_line-item :
    (key value : Text) (items : List (Text × Text))
    → IsItem (key, value)
    → parse_line (item_text (key, value)) items ≡ ok (items ++ (key, value) ∷ [])
parse_line-item key value items h = rw (
  start_folded key (32 ∷ value) h.name_start,
  partition-append 58 key (32 ∷ value) h.name_colon,
  h.name_strip,
  h.value_strip,
)

-- parsing the lines of the items adds them in order
pub parse_headers-lines :
    (items before : List (Text × Text))
    → AllItems items
    → parse_headers (map item_line items) before ≡ ok (before ++ items)
unfolding parse_headers
parse_headers-lines [] before h = ap ok (sym (append-nil before))
parse_headers-lines ((key, value) ∷ items) before h =
    rw
      (
        rstrip-crlf (item_text (key, value))
            (text_absent 10 key value refl refl (ground (arith, h.0.name_line))
              (ground (arith, h.0.value_line)))
            (text_absent 13 key value refl refl (ground (arith, h.0.name_line))
              (ground (arith, h.0.value_line))),
        parse_line-item key value before h.0,
      )
      (parse_headers-lines items (before ++ (key, value) ∷ []) h.1
        ∙ ap ok (append_assoc before ((key, value) ∷ []) items))

-- a line that is long enough not to be blank is kept, within the limits
pub head_round-line :
    (lines : List Text) (total : ℕ) (t : Text)
    → 3 ≤ length t
    → total + length t ≤ 65536
    → length lines + 1 ≤ 200
    → (is_empty lines && is_empty (strip_by is_byte_space t)) ≡ false
    → head_round lines total t ≡ ok (again (lines ++ t ∷ []) (total + length t))
unfolding head_round
head_round-line lines total [] long size count kept = absurd (omega arith)
head_round-line lines total (c ∷ more) long size count kept =
    let within : ltb 65536 (total + length (c ∷ more)) ≡ false = ground arith in
    let few : ltb 200 (length (lines ++ (c ∷ more) ∷ [])) ≡ false =
      ground (arith, length-append lines ((c ∷ more) ∷ [])) in
    rw (within, blank_line-long (c ∷ more) long, kept, few)

pub length-item_line :
    (key value : Text) → length (item_line (key, value)) ≡ length key + length value + 4
length-item_line key value =
    ground (arith, length-append (key ++ 58 ∷ 32 ∷ value) crlf, length-append key (58 ∷ 32 ∷ value))

pub length-serialize :
    (key value : Text) (items : List (Text × Text))
    → length (serialize_items ((key, value) ∷ items))
      ≡ length key + length value + 4 + length (serialize_items items)
length-serialize key value items = ground (
  arith,
  length-append (key ++ codes ": " ++ value ++ crlf) (serialize_items items),
  length-append (key ++ codes ": " ++ value) crlf,
  length-append (key ++ codes ": ") value,
  length-append key (codes ": "),
)

length-item_text :
    (key value : Text) → length (item_text (key, value)) ≡ length key + length value + 2
length-item_text key value = ground (arith, length-append key (58 ∷ 32 ∷ value))

-- the loop, from a line on that is not the first
pub head_lines-items :
    (fuel : ℕ) (items : List (Text × Text)) (l : Text) (lines : List Text) (total : ℕ) (tail : Text)
    (sizes : List ℕ)
    → AllItems items
    → length items < fuel
    → length (l ∷ lines) + length items ≤ 200
    → total + length (serialize_items items) + 2 ≤ 65536
    → head_lines fuel (l ∷ lines) total (record { rest = rest_of items tail; sizes = sizes })
      ≡ ok ((l ∷ lines) ++ map item_line items, record { rest = tail; sizes = sizes })
unfolding head_lines
head_lines-items zero items l lines total tail sizes all fueled count size = absurd (omega arith)
head_lines-items (suc fuel) [] l lines total tail sizes all fueled count size =
    let within : ltb 65536 (total + 2) ≡ false = ground arith in
    let closing : head_round (l ∷ lines) total crlf ≡ ok (finished (l ∷ lines)) =
      unfold head_round in rw within in
    rw (readline-crlf [] tail sizes refl (omega arith), closing, append-nil)
head_lines-items (suc fuel) ((key, value) ∷ items) l lines total tail sizes all fueled count size =
    let whole = length-serialize key value items in
    let text = length-item_text key value in
    let line = length-item_line key value in
    let kept : head_round (l ∷ lines) total (item_line (key, value))
        ≡ ok (
            again ((l ∷ lines) ++ item_line (key, value) ∷ [])
              (total + length (item_line (key, value)))) =
      head_round-line (l ∷ lines) total (item_line (key, value)) (omega arith) (omega arith)
        (omega arith) refl in
    let lineless : absent 10 (item_text (key, value)) ≡ true =
      text_absent 10 key value refl refl (ground (arith, all.0.name_line))
        (ground (arith, all.0.value_line)) in
    rw
      (
        rest-cons (key, value) items tail,
        readline-crlf (item_text (key, value)) (rest_of items tail) sizes lineless (omega arith),
        kept,
      )
      (head_lines-items fuel items l (lines ++ item_line (key, value) ∷ [])
          (total + length (item_line (key, value))) tail sizes all.1 (omega arith)
          (ground (arith, length-append lines (item_line (key, value) ∷ []))) (omega arith)
        ∙ ap (λ ls. ok (ls, record { rest = tail; sizes = sizes }))
            (append_assoc (l ∷ lines) (item_line (key, value) ∷ []) (map item_line items)))
