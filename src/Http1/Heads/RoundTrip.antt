-- ===== src/Http1/Heads/RoundTrip.antt =====
-- `read_request_head` on what `RequestHead.serialize` writes.
use decrypt0r_x.Prelude.{
  ℕ, ◌≤◌, ◌≡◌, refl, true, ◌&&◌, List, [], ◌∷◌, ◌++◌, map, none, some, arith, length,
}
use decrypt0r_x.Text.{Text, codes, starts_with}
use decrypt0r_x.Result.{ok}
use decrypt0r_x.Http1.Headers.{crlf}
use decrypt0r_x.Http1.Heads.{
  RequestHead, request_line, serialize_request, read_head_lines, parse_request, read_request_head,
}
use decrypt0r_x.Http1.Heads.Lines.{absent, rstrip-crlf, split-request_line, is_solid}
use decrypt0r_x.Http1.Heads.Whole.{request_line-absent, is_solid-append, read_head_lines-text}
use decrypt0r_x.Http1.Heads.Items.{AllItems, item_line, parse_headers-lines}

-- a request whose words and headers a head can hold, within the limits on lines and bytes
pub record IsHead (head : RequestHead) : Type 0 where
  pub method_token :
      (absent 32 head.method
        && absent 10 head.method
        && absent 13 head.method
        && is_solid head.method)
      ≡ true
  pub target_token :
      (absent 32 head.target && absent 10 head.target && absent 13 head.target) ≡ true
  pub version_line :
      (absent 10 head.version && absent 13 head.version && starts_with (codes "HTTP/") head.version)
      ≡ true
  pub all_items : AllItems head.headers.items
  pub count : length head.headers.items ≤ 199
  pub size : length (serialize_request head none) ≤ 65536

abbrev first_text : RequestHead → Text
first_text head = request_line head.method head.target head.version

module _ (head : RequestHead) (h : IsHead head) where
  lineless : absent 10 (first_text head) ≡ true
  lineless =
      request_line-absent 10 head.method head.target head.version refl
        (ground (arith, h.method_token)) (ground (arith, h.target_token))
        (ground (arith, h.version_line))

  returnless : absent 13 (first_text head) ≡ true
  returnless =
      request_line-absent 13 head.method head.target head.version refl
        (ground (arith, h.method_token)) (ground (arith, h.target_token))
        (ground (arith, h.version_line))

  read-serialize :
      (tail : Text) (sizes : List ℕ)
      → read_head_lines (record { rest = serialize_request head none ++ tail; sizes = sizes })
        ≡ ok (
          (first_text head ++ crlf) ∷ map item_line head.headers.items,
          record { rest = tail; sizes = sizes },
        )
  unfolding serialize_request
  read-serialize tail sizes =
      read_head_lines-text (first_text head) head.headers.items lineless
        (is_solid-append head.method (32 ∷ (head.target ++ 32 ∷ head.version))
          (ground (arith, h.method_token)))
        h.all_items h.count h.size tail sizes

  parse-serialize :
      parse_request ((first_text head ++ crlf) ∷ map item_line head.headers.items) ≡ ok (some head)
  unfolding parse_request
  parse-serialize =
      let version : starts_with (codes "HTTP/") head.version ≡ true =
        ground (arith, h.version_line) in
      rw (
        rstrip-crlf (first_text head) lineless returnless,
        split-request_line head.method head.target head.version (ground (arith, h.method_token))
            (ground (arith, h.target_token)),
        version,
        parse_headers-lines head.headers.items [] h.all_items,
      )

-- A request head is read back as it was serialized, and the reader is left at what follows it: for a
-- method and a target without blanks, a version that starts with HTTP/, headers whose names and
-- values are stripped and whose names have no colon, all without line ends, at most 199 headers, and
-- at most 64 KiB in all.
pub read_request_head-serialize :
    (head : RequestHead) (tail : Text) (sizes : List ℕ)
    → IsHead head
    → read_request_head (record { rest = serialize_request head none ++ tail; sizes = sizes })
      ≡ ok (some head, record { rest = tail; sizes = sizes })
unfolding read_request_head
read_request_head-serialize head tail sizes h =
    rw (read-serialize head h tail sizes, parse-serialize head h)
