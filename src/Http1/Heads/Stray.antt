-- ===== src/Http1/Heads/Stray.antt =====
-- A line end before a request, which RFC 9112 asks a server to skip.
use decrypt0r_x.Prelude.{ℕ, ◌≡◌, refl, List, [], ◌∷◌, none, arith}
use decrypt0r_x.Text.{Text}
use decrypt0r_x.Result.{ok}
use decrypt0r_x.Http1.Heads.{
  head_round, head_lines, read_head_lines, parse_request, read_request_head,
}
use decrypt0r_x.Http1.Heads.Lines.{readline-crlf}

-- A CR LF where a request should start reads as the end of the connection, whatever follows it.
pub read_request_head-stray_crlf :
    (tail : Text) (sizes : List ℕ)
    → read_request_head (record { rest = 13 ∷ 10 ∷ tail; sizes = sizes })
      ≡ ok (none, record { rest = tail; sizes = sizes })
unfolding read_request_head read_head_lines head_lines head_round parse_request
read_request_head-stray_crlf tail sizes = rw (readline-crlf [] tail sizes refl (omega arith))
