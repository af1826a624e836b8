-- ===== src/Http1/Pump.antt =====
-- `pump_body` of services/proxy/decrypt0rx_proxy/http1.py. Its loops run on fuel: each round takes at
-- least one byte from the stream, so one more than what is left of it is enough.
pub mod Verbatim
pub mod Grammar
pub mod Blocks
pub mod Chunks
pub mod Forwarding
pub mod Total
pub mod Length
use decrypt0r_x.Prelude.{
  ℕ, zero, suc, ◌+◌, ◌-◌, min, Bool, true, false, ◌||◌, List, [], ◌∷◌, Option, none, some,
  if◌then◌else◌, length, ◌==◌,
}
use decrypt0r_x.Prelude.Int.{ℤ, pos, negsuc, pos_part}
use decrypt0r_x.Text.{Text, codes, text_eq, strip_by, is_byte_space, first_part}
use decrypt0r_x.Text.Number.{py_int}
use decrypt0r_x.Result.{Result, ok, err, protocol_error, out_of_fuel, ◌>>=◌}
use decrypt0r_x.Http1.Headers.{crlf}
use decrypt0r_x.Http1.Stream.{Reader, Writer, read, readline, readexactly, write, drain}
use decrypt0r_x.Http1.Tee.{Tee, BodyResult, feed}
use decrypt0r_x.Http1.Tee
use decrypt0r_x.Http1.Framing.{Framing, no_body, chunked, by_length, until_eof}

abbrev pub chunk_size : ℕ
chunk_size = 65536

pub record State : Type 0 where
  pub reader : Reader
  pub writer : Option Writer
  pub tee : Tee

abbrev pub drain_if : Bool → Option Writer → Result (Option Writer)
drain_if true w = drain w
drain_if false w = ok w

-- after a read that is not empty: tee the block, write it, and drain where the loop does
unfoldable pub pass_on : Bool → Text → Reader → State → Result State
pass_on drains block reader s = do
  writer ← drain_if drains (write block s.writer)
  ok (record { reader = reader; writer = writer; tee = feed s.tee block })

-- `while remaining > 0`: the end of the stream is a `ProtocolError`. `drains` is true in the loop of
-- a body with a length, and false in that of a chunk.
unfoldable pub copy : Bool → ℕ → ℕ → State → Result State
copy drains fuel zero s = ok s
copy drains zero (suc n) s = err out_of_fuel
copy drains (suc fuel) (suc n) s =
    let (block, reader) = read (min chunk_size (suc n)) s.reader in
    elim block [
      | [] ↦ err protocol_error
      | c ∷ more ↦ do
        s' ← pass_on drains (c ∷ more) reader s
        copy drains fuel (suc n - length (c ∷ more)) s'
    ]

-- the loop of a body that ends with the connection
pub copy_all : ℕ → State → Result State
copy_all zero s = err out_of_fuel
copy_all (suc fuel) s =
    let (block, reader) = read chunk_size s.reader in
    elim block [
      | [] ↦ ok (record s { reader = reader })
      | c ∷ more ↦ do s' ← pass_on true (c ∷ more) reader s; copy_all fuel s'
    ]

abbrev pub line_feed : Text
line_feed = 10 ∷ []

-- `trailer in (b"\r\n", b"\n")`
abbrev pub blank_line : Text → Bool
blank_line t = text_eq t crlf || text_eq t line_feed

-- `not trailer or trailer in (…)`
abbrev pub ends_trailers : Text → Bool
ends_trailers [] = true
ends_trailers (c ∷ t) = blank_line (c ∷ t)

-- the trailers after the last chunk
unfoldable pub copy_trailers : ℕ → State → Result State
copy_trailers zero s = err out_of_fuel
copy_trailers (suc fuel) s = do
  (trailer, reader) ← readline s.reader
  let s' = record s { reader = reader; writer = write trailer s.writer }
  elim (ends_trailers trailer) [ true ↦ ok s' | false ↦ copy_trailers fuel s' ]

-- `x or b"0"`
abbrev zero_if_empty : Text → Text
zero_if_empty [] = codes "0"
zero_if_empty (c ∷ t) = c ∷ t

-- `int(size_line.split(b";")[0].strip() or b"0", 16)`
unfoldable pub chunk_length : Text → Option ℤ
chunk_length line =
    py_int 16 is_byte_space (zero_if_empty (strip_by is_byte_space (first_part b';' line)))

-- the two bytes behind a chunk's payload
unfoldable pub end_chunk : State → Result State
end_chunk s = do
  (two, reader) ← readexactly 2 s.reader
  writer ← drain (write two s.writer)
  ok (record s { reader = reader; writer = writer })

-- the trailers and the last drain
unfoldable pub end_body : State → Result State
end_body s = do
  s' ← copy_trailers (suc (length s.reader.rest)) s
  writer ← drain s'.writer
  ok (record s' { writer = writer })

-- the payload of one chunk, and its end; a negative size has no payload
unfoldable pub one_chunk : ℤ → State → Result State
one_chunk size s = do s' ← copy false (pos_part size) (pos_part size) s; end_chunk s'

abbrev pub is_zero : ℤ → Bool
is_zero (pos n) = n == 0
is_zero (negsuc n) = false

-- the tests on a size line: the end of the stream and a bad number are both a `ProtocolError`
unfoldable pub read_size : Text → Result ℤ
unfolding chunk_length
read_size [] = err protocol_error
read_size (c ∷ more) = elim (chunk_length (c ∷ more)) [
  | none ↦ err protocol_error
  | some size ↦ ok size
]

-- the loop over the chunks
unfoldable pub copy_chunks : ℕ → State → Result State
copy_chunks zero s = err out_of_fuel
copy_chunks (suc fuel) s = do
  (line, reader) ← readline s.reader
  size ← read_size line
  let s' = record s { reader = reader; writer = write line s.writer }
  elim (is_zero size) [
    | true ↦ end_body s'
    | false ↦ do s'' ← one_chunk size s'; copy_chunks fuel s''
  ]

-- the body of `pump_body`, after the tee is made
unfoldable pub pump : Framing → ℤ → State → Result State
pump no_body n s = ok s
pump by_length n s = copy true (pos_part n) (pos_part n) s
pump until_eof n s = copy_all (suc (length s.reader.rest)) s
pump chunked n s = copy_chunks (suc (length s.reader.rest)) s

abbrev pub start : Reader → Option Writer → ℤ → State
start reader writer limit = record { reader = reader; writer = writer; tee = Tee.init limit }

-- `pump_body(reader, writer, framing, length, capture_limit)`, with the streams as it leaves them
unfoldable pub pump_body : Reader → Option Writer → Framing → ℤ → ℤ → Result (BodyResult × State)
pump_body reader writer framing n limit = do
  s ← pump framing n (start reader writer limit)
  ok (Tee.result s.tee, s)
