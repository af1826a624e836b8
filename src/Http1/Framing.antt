-- ===== src/Http1/Framing.antt =====
-- `body_framing` of services/proxy/decrypt0rx_proxy/http1.py.
pub mod Stripping
use decrypt0r_x.Prelude.{
  ℕ, Bool, true, false, ◌&&◌, ◌||◌, List, [], ◌∷◌, Option, none, some, if◌then◌else◌, ltb, leb,
  ◌==◌,
}
use decrypt0r_x.Prelude.Int.{ℤ, pos, negsuc}
use decrypt0r_x.Text.{Text, codes, text_eq, lower, upper, strip, is_space, contains, first_part}
use decrypt0r_x.Text.Number.{py_int}
use decrypt0r_x.Result.{Result, ok, err, protocol_error}
use decrypt0r_x.Http1.Headers.{Headers, get}

pub data Framing : Type 0 where
  no_body chunked by_length until_eof : Framing

-- `x or ""`
abbrev pub or_empty : Option Text → Text
or_empty none = []
or_empty (some t) = t

-- `status in (204, 304) or 100 <= status < 200`
abbrev bodyless_status : ℤ → Bool
bodyless_status (pos n) = n == 204 || n == 304 || leb 100 n && ltb n 200
bodyless_status (negsuc n) = false

-- the test of a response that has no body
abbrev pub bodyless : Option ℤ → Option Text → Bool
bodyless none method = false
bodyless (some status) method =
    bodyless_status status || text_eq (upper (or_empty method)) (codes "HEAD")

abbrev pub length_framing : Option ℤ → Result (Framing × ℤ)
length_framing none = err protocol_error
length_framing (some n) = ok (by_length, n)

-- the part on `Content-Length`
abbrev pub by_content_length : Option Text → Bool → Result (Framing × ℤ)
by_content_length (some length) is_response =
    length_framing (py_int 10 is_space (first_part b',' (strip length)))
by_content_length none is_response =
    if is_response then ok (until_eof, pos 0) else ok (no_body, pos 0)

unfoldable pub body_framing : Headers → Bool → Option ℤ → Option Text → Result (Framing × ℤ)
body_framing h is_response status method =
    if is_response && bodyless status method
    then ok (no_body, pos 0)
    else if contains (codes "chunked") (lower (or_empty (get h (codes "transfer-encoding"))))
    then ok (chunked, pos 0)
    else by_content_length (get h (codes "content-length")) is_response
