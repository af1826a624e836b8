-- ===== src/Http1/Framing/Stripping.antt =====
-- How `strip_hop_by_hop`, which the proxy calls first, bears on the framing of a message.
use decrypt0r_x.Prelude.{◌≡◌, Bool, true, false, Option, none, if◌then◌else◌}
use decrypt0r_x.Prelude.Int.{ℤ, pos}
use decrypt0r_x.Text.{Text, codes, member}
use decrypt0r_x.Result.{ok}
use decrypt0r_x.Http1.Headers.{Headers, get, dropped_token, strip_hop_by_hop}
use decrypt0r_x.Http1.Headers.Hops.{connection_tokens, get-strip_tokens}
use decrypt0r_x.Http1.Framing.{no_body, body_framing}

-- the two headers by which a body is delimited
abbrev pub coding : Text
coding = codes "transfer-encoding"

abbrev pub size : Text
size = codes "content-length"

get-coding :
    (h : Headers)
    → get (strip_hop_by_hop h) coding
      ≡ (if member coding (connection_tokens h) then none else get h coding)
unfolding dropped_token
get-coding h = get-strip_tokens h coding

get-size :
    (h : Headers)
    → get (strip_hop_by_hop h) size
      ≡ (if member size (connection_tokens h) then none else get h size)
unfolding dropped_token
get-size h = get-strip_tokens h size

-- If no `Connection` value names `Transfer-Encoding` or `Content-Length`, stripping a message leaves
-- its framing as it was.
pub body_framing-strip :
    (h : Headers) (is_response : Bool) (status : Option ℤ) (method : Option Text)
    → member coding (connection_tokens h) ≡ false
    → member size (connection_tokens h) ≡ false
    → body_framing (strip_hop_by_hop h) is_response status method
      ≡ body_framing h is_response status method
unfolding body_framing
body_framing-strip h is_response status method c s = rw (get-coding h, c, get-size h, s)

-- A request whose `Connection` values name both headers is framed, after stripping, as one without a
-- body, whatever body it announced.
pub body_framing-hidden :
    (h : Headers)
    → member coding (connection_tokens h) ≡ true
    → member size (connection_tokens h) ≡ true
    → body_framing (strip_hop_by_hop h) false none none ≡ ok (no_body, pos 0)
unfolding body_framing
body_framing-hidden h c s = rw (get-coding h, c, get-size h, s)
