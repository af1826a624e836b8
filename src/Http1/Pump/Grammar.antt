-- ===== src/Http1/Pump/Grammar.antt =====
-- The chunked coding as a grammar of the bytes on the wire and the payload that they carry.
use decrypt0r_x.Prelude.{◌≡◌, refl, true, false, [], ◌∷◌, ◌++◌, length, arith}
use decrypt0r_x.Prelude.Int.{ℤ, pos_part}
use decrypt0r_x.Text.{Text}
use decrypt0r_x.Result.{ok}
use decrypt0r_x.Http1.Stream.{first_line}
use decrypt0r_x.Http1.Pump.{ends_trailers, read_size, is_zero}

-- no line feed but perhaps the last byte
abbrev pub IsLine : Text → Type 0
IsLine t = first_line t ≡ t

pub first_line-IsLine : (t : Text) → IsLine (first_line t)
first_line-IsLine [] = refl
first_line-IsLine (c ∷ t) = ground (arith, first_line-IsLine t)

-- lines up to the first blank one, or to the end of the stream
pub data Trailers : Text → Type 0 where
  last_line : {wire : Text} → IsLine wire → ends_trailers wire ≡ true → Trailers wire
  another :
      {wire : Text} (line rest : Text)
      → IsLine line
      → ends_trailers line ≡ false
      → Trailers rest
      → wire ≡ line ++ rest
      → Trailers wire

pub data IsChunked : Text → Text → Type 0 where
  last :
      {wire payload : Text} (line trailers : Text) (size : ℤ)
      → IsLine line
      → read_size line ≡ ok size
      → is_zero size ≡ true
      → Trailers trailers
      → wire ≡ line ++ trailers
      → payload ≡ []
      → IsChunked wire payload
  chunk :
      {wire payload : Text} (line block two rest later : Text) (size : ℤ)
      → IsLine line
      → read_size line ≡ ok size
      → is_zero size ≡ false
      → length block ≡ pos_part size
      → length two ≡ 2
      → IsChunked rest later
      → wire ≡ line ++ (block ++ two) ++ rest
      → payload ≡ block ++ later
      → IsChunked wire payload
