-- ===== src/Http1/Stream.antt =====
-- The two asyncio streams as the program uses them. A reader holds the bytes that arrive before the
-- end of the stream, and the sizes in which the network hands them over; a writer holds what was
-- sent, and which of its later drains find the connection reset. Behind its bytes every stream ends: a peer that
-- neither sends nor ends its stream, on which a read without a timeout waits for ever, is not modelled.
pub mod Laws
use decrypt0r_x.Prelude.{
  ℕ, zero, suc, ◌+◌, min, Bool, true, false, List, [], ◌∷◌, ◌++◌, Option, none, some, length, take,
  drop, if◌then◌else◌, ltb, ◌==◌,
}
use decrypt0r_x.Text.{Text}
use decrypt0r_x.Result.{Result, ok, err, value_error, connection_reset, incomplete_read}

pub record Reader : Type 0 where
  pub rest : Text
  pub sizes : List ℕ

pub record Writer : Type 0 where
  pub sent : Text
  pub resets : List Bool

-- at least one byte and at most `n`: a read waits until something arrives
abbrev pub granted : ℕ → List ℕ → ℕ
granted n [] = n
granted n (size ∷ sizes) = min n (suc size)

abbrev pub later_sizes : List ℕ → List ℕ
later_sizes [] = []
later_sizes (size ∷ sizes) = sizes

-- `reader.read(n)`: empty only at the end of the stream, for n > 0
unfoldable pub read : ℕ → Reader → Text × Reader
read n r =
    let k = granted n r.sizes in
    (take k r.rest, record { rest = drop k r.rest; sizes = later_sizes r.sizes })

-- up to the next line feed and with it, or all that is left
abbrev pub first_line : Text → Text
first_line [] = []
first_line (c ∷ t) = if c == 10 then c ∷ [] else c ∷ first_line t

abbrev pub after_line : Text → Text
after_line [] = []
after_line (c ∷ t) = if c == 10 then t else after_line t

abbrev pub line_length : Text → ℕ
line_length [] = 0
line_length (c ∷ t) = if c == 10 then 0 else suc (line_length t)

-- the limit of a StreamReader, by default
abbrev pub stream_limit : ℕ
stream_limit = 65536

-- `reader.readline()`: a line over the limit is a `ValueError`
unfoldable pub readline : Reader → Result (Text × Reader)
readline r =
    if ltb stream_limit (line_length r.rest)
    then err value_error
    else ok (first_line r.rest, record r { rest = after_line r.rest })

-- `reader.readexactly(n)`
unfoldable pub readexactly : ℕ → Reader → Result (Text × Reader)
readexactly n r =
    if ltb (length r.rest) n
    then err incomplete_read
    else ok (take n r.rest, record r { rest = drop n r.rest })

-- `if writer is not None: writer.write(data)`
unfoldable pub write : Text → Option Writer → Option Writer
write bytes none = none
write bytes (some w) = some (record w { sent = w.sent ++ bytes })

abbrev pub drained : List Bool → Writer → Result (Option Writer)
drained [] w = ok (some w)
drained (true ∷ resets) w = err connection_reset
drained (false ∷ resets) w = ok (some (record w { resets = resets }))

-- `if writer is not None: await writer.drain()`
unfoldable pub drain : Option Writer → Result (Option Writer)
drain none = ok none
drain (some w) = drained w.resets w
