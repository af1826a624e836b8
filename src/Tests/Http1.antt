-- ===== src/Tests/Http1.antt =====
-- Messages and bodies on which the theorems on http1.py are tried.
use decrypt0r_x.Prelude.{
  ◌≡◌, refl, true, false, [], ◌∷◌, ◌++◌, Option, none, some, length, take, ltb,
}
use decrypt0r_x.Prelude.Int.{pos}
use decrypt0r_x.Text.{Text, codes, member}
use decrypt0r_x.Text.Number.{py_int}
use decrypt0r_x.Result.{ok}
use decrypt0r_x.Http1.Headers.{Headers, get, get_all, strip_hop_by_hop}
use decrypt0r_x.Http1.Headers.Hops.{connection_tokens}
use decrypt0r_x.Http1.Stream.{Reader, Writer}
use decrypt0r_x.Http1.Tee
use decrypt0r_x.Http1.Tee.{Tee, BodyResult}
use decrypt0r_x.Http1.Stream.{read, readline, readexactly, write, drain}
use decrypt0r_x.Http1.Stream.Laws.{Sends}
use decrypt0r_x.Http1.Framing.{no_body, chunked, by_length, body_framing}
use decrypt0r_x.Http1.Framing.Stripping.{coding, size, body_framing-strip, body_framing-hidden}
use decrypt0r_x.Http1.Pump.{
  State, pump_body, pump, copy_chunks, one_chunk, end_chunk, end_body, copy_trailers, copy, pass_on,
  read_size, chunk_length,
}
use decrypt0r_x.Http1.Pump.Forwarding.{Delimits, pump_body-forwards}

-- a keep-alive request with a body of five bytes
abbrev plain : Headers
plain = record {
  items =
      (codes "Host", codes "example.org")
      ∷ (codes "Connection", codes "keep-alive")
      ∷ (codes "Content-Length", codes "5")
      ∷ [];
}

-- the same, whose `Connection` names both framing headers
abbrev hiding : Headers
hiding = record {
  items =
      (codes "Connection", codes "content-length, transfer-encoding")
      ∷ (codes "Content-Length", codes "5")
      ∷ [];
}

plain-tokens :
    (member coding (connection_tokens plain) ≡ false)
    × (member size (connection_tokens plain) ≡ false)
unfolding get_all
plain-tokens = (refl, refl)

hiding-tokens :
    (member coding (connection_tokens hiding) ≡ true)
    × (member size (connection_tokens hiding) ≡ true)
unfolding get_all
hiding-tokens = (refl, refl)

body_framing-strip_example :
    body_framing (strip_hop_by_hop plain) false none (some (codes "POST"))
    ≡ body_framing plain false none (some (codes "POST"))
body_framing-strip_example =
    body_framing-strip plain false none (some (codes "POST")) plain-tokens.0 plain-tokens.1

body_framing-hidden_example :
    body_framing (strip_hop_by_hop hiding) false none none ≡ ok (no_body, pos 0)
body_framing-hidden_example = body_framing-hidden hiding hiding-tokens.0 hiding-tokens.1

framed_alone : body_framing hiding false none none ≡ ok (by_length, pos 5)
unfolding body_framing get py_int
framed_alone = refl

-- three bytes in one chunk, the last chunk, no trailers, and two bytes of the next message
abbrev chunks : Text
chunks = codes "3" ++ 13 ∷ 10 ∷ codes "abc" ++ 13 ∷ 10 ∷ codes "0" ++ 13 ∷ 10 ∷ 13 ∷ 10 ∷ codes "GE"

-- the network hands over one byte, then two, then whatever is asked for
abbrev arriving : Reader
arriving = record { rest = chunks; sizes = 0 ∷ 1 ∷ [] }

abbrev quiet : Option Writer
quiet = some (record { sent = []; resets = [] })

abbrev after_chunks : State
after_chunks = record {
  reader = record { rest = codes "GE"; sizes = [] };
  writer = some (record { sent = take 13 chunks; resets = [] });
  tee = record { limit = 2; buf = codes "ab"; total = 3; truncated = true };
}

abbrev captured_chunks : BodyResult
captured_chunks = record { captured = codes "ab"; total = 3; truncated = true }

chunks-pumped :
    pump_body arriving quiet chunked (pos 0) (pos 2) ≡ ok (captured_chunks, after_chunks)
unfolding pump_body pump copy_chunks one_chunk end_chunk end_body copy_trailers copy pass_on read
    readline readexactly write drain read_size chunk_length Tee.init Tee.feed Tee.result py_int
chunks-pumped = refl

pump_body-forwards_example :
    (wire payload : Text) × (chunks ≡ wire ++ codes "GE")
    × Sends wire quiet after_chunks.writer
    × Delimits chunked (pos 0) wire payload (codes "GE")
    × (codes "ab" ≡ take 2 payload)
    × (3 ≡ length payload)
    × (true ≡ ltb 2 (length payload))
pump_body-forwards_example =
    pump_body-forwards arriving quiet chunked (pos 0) (pos 2) captured_chunks after_chunks
      chunks-pumped
