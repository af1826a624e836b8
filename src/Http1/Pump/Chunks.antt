-- ===== src/Http1/Pump/Chunks.antt =====
-- The chunked body, as it is passed on: its wire form is in the grammar.
use decrypt0r_x.Prelude.{
  ℕ, zero, suc, ◌≡◌, refl, subst, true, false, [], ◌++◌, append-nil, Option, length, Bool-cases,
  ◌⊎◌, inl, inr,
}
use decrypt0r_x.Prelude.Int.{ℤ, pos_part}
use decrypt0r_x.Text.{Text}
use decrypt0r_x.Result.{ok, ◌>>=◌, >>=-eq-ok, ok-injective}
use decrypt0r_x.Http1.Stream.{Reader, Writer, readline, readexactly, write, drain}
use decrypt0r_x.Http1.Stream.Laws.{
  write-Sends, drain-Sends, readline_split, readexactly_split, length-readexactly,
}
use decrypt0r_x.Http1.Pump.{
  State, copy, ends_trailers, copy_trailers, read_size, end_chunk, end_body, one_chunk, is_zero,
  copy_chunks,
}
use decrypt0r_x.Http1.Pump.Verbatim.{write_drain-Sends, Passes, Passes-trans, copy-Passes}
use decrypt0r_x.Http1.Pump.Grammar.{IsLine, Trailers, last_line, another, IsChunked, last, chunk}
use decrypt0r_x.Http1.Pump.Blocks.{line-Passes, readline-IsLine}

copy_trailers-Passes :
    (fuel : ℕ) (s s' : State)
    → copy_trailers fuel s ≡ ok s'
    → (wire : Text) × Passes wire [] s s' × Trailers wire
unfolding copy_trailers
copy_trailers-Passes zero s s' h = cc
copy_trailers-Passes (suc fuel) s s' h =
    let ((line, reader), got, e) = >>=-eq-ok (readline s.reader) _ h in
    go line reader (readline_split s.reader line reader got)
      (readline-IsLine s.reader line reader got) (Bool-cases (ends_trailers line)) e
      (copy_trailers-Passes fuel)
  where
    go :
        (line : Text) (reader : Reader)
        → s.reader.rest ≡ line ++ reader.rest
        → IsLine line
        → (ends_trailers line ≡ true) ⊎ (ends_trailers line ≡ false)
        → elim (ends_trailers line) [
          | true ↦ ok (record s { reader = reader; writer = write line s.writer })
          | false ↦ copy_trailers fuel (record s { reader = reader; writer = write line s.writer })
        ]
          ≡ ok s'
        → ((t t' : State)
            → copy_trailers fuel t ≡ ok t'
            → (wire : Text) × Passes wire [] t t' × Trailers wire)
        → (wire : Text) × Passes wire [] s s' × Trailers wire
    go line reader split is_line (inl done) e ih = (
      line,
      subst (Passes line [] s) (ok-injective (rw done at e))
          (line-Passes s line reader (write line s.writer) split (write-Sends line s.writer)),
      last_line is_line done,
    )
    go line reader split is_line (inr further) e ih =
        let (rest, passes, trailers) = ih _ s' (rw further at e) in
        (
          line ++ rest,
          Passes-trans line rest [] []
              (line-Passes s line reader (write line s.writer) split (write-Sends line s.writer))
              passes,
          another line rest is_line further trailers refl,
        )

drained-Passes :
    (s : State) (w : Option Writer)
    → drain s.writer ≡ ok w
    → Passes [] [] s (record s { writer = w })
drained-Passes s w h = line-Passes s [] s.reader w refl (drain-Sends s.writer w h)

end_body-Passes :
    (s s' : State) → end_body s ≡ ok s' → (wire : Text) × Passes wire [] s s' × Trailers wire
unfolding end_body
end_body-Passes s s' h =
    let (t, copied, rest) = >>=-eq-ok (copy_trailers (suc (length s.reader.rest)) s) _ h in
    let (w, drained, e) = >>=-eq-ok (drain t.writer) _ rest in
    let (wire, passes, trailers) = copy_trailers-Passes (suc (length s.reader.rest)) s t copied in
    (
      wire,
      subst (Passes wire [] s) (ok-injective e) (
          subst (λ a. Passes a [] s (record t { writer = w })) (append-nil wire)
            (Passes-trans wire [] [] [] passes (drained-Passes t w drained))),
      trailers,
    )

end_chunk-Passes :
    (s s' : State) → end_chunk s ≡ ok s' → (two : Text) × Passes two [] s s' × (length two ≡ 2)
unfolding end_chunk
end_chunk-Passes s s' h =
    let ((two, reader), got, rest) = >>=-eq-ok (readexactly 2 s.reader) _ h in
    let (w, drained, e) = >>=-eq-ok (drain (write two s.writer)) _ rest in
    (
      two,
      subst (Passes two [] s) (ok-injective e) (
          line-Passes s two reader w (readexactly_split 2 s.reader two reader got)
            (write_drain-Sends true two s.writer w drained)),
      length-readexactly 2 s.reader two reader got,
    )

pub one_chunk-Passes :
    (size : ℤ) (s s' : State)
    → one_chunk size s ≡ ok s'
    → (block two : Text) × Passes (block ++ two) block s s'
      × (length block ≡ pos_part size)
      × (length two ≡ 2)
unfolding one_chunk
one_chunk-Passes size s s' h =
    let (t, copied, ended) = >>=-eq-ok (copy false (pos_part size) (pos_part size) s) _ h in
    let (block, passes, long) = copy-Passes false (pos_part size) (pos_part size) s t copied in
    let (two, passes', pair) = end_chunk-Passes t s' ended in
    (
      block,
      two,
      subst (λ p. Passes (block ++ two) p s s') (append-nil block)
          (Passes-trans block two block [] passes passes'),
      long,
      pair,
    )

abbrev pub Chunks : State → State → Type 0
Chunks s s' = (wire payload : Text) × Passes wire payload s s' × IsChunked wire payload

module _ (fuel : ℕ) (ih : (t t' : State) → copy_chunks fuel t ≡ ok t' → Chunks t t') where
  -- one round, after its size line is read
  sized-Chunks :
      (s s' : State) (line : Text) (reader : Reader) (size : ℤ)
      → s.reader.rest ≡ line ++ reader.rest
      → IsLine line
      → read_size line ≡ ok size
      → (is_zero size ≡ true) ⊎ (is_zero size ≡ false)
      → elim (is_zero size) [
        | true ↦ end_body (record s { reader = reader; writer = write line s.writer })
        | false ↦
            one_chunk size (record s { reader = reader; writer = write line s.writer }) >>= λ t.
            copy_chunks fuel t
      ]
        ≡ ok s'
      → Chunks s s'
  sized-Chunks s s' line reader size split is_line parsed (inl zero_size) e =
      let (rest, passes, trailers) = end_body-Passes _ s' (rw zero_size at e) in
      (
        line ++ rest,
        [],
        Passes-trans line rest [] []
            (line-Passes s line reader (write line s.writer) split (write-Sends line s.writer))
            passes,
        last line rest size is_line parsed zero_size trailers refl refl,
      )
  sized-Chunks s s' line reader size split is_line parsed (inr non_zero) e =
      let (t, one, further) = >>=-eq-ok (one_chunk size _) _ (rw non_zero at e) in
      let (block, two, passes, long, pair) = one_chunk-Passes size _ t one in
      let (rest, later, passes', coded) = ih t s' further in
      (
        line ++ (block ++ two) ++ rest,
        block ++ later,
        Passes-trans (line ++ (block ++ two)) rest block later
            (Passes-trans line (block ++ two) [] block
              (line-Passes s line reader (write line s.writer) split (write-Sends line s.writer))
              passes)
            passes',
        chunk line block two rest later size is_line parsed non_zero long pair coded refl refl,
      )

pub copy_chunks-Passes : (fuel : ℕ) (s s' : State) → copy_chunks fuel s ≡ ok s' → Chunks s s'
unfolding copy_chunks
copy_chunks-Passes zero s s' h = cc
copy_chunks-Passes (suc fuel) s s' h =
    let ((line, reader), got, e) = >>=-eq-ok (readline s.reader) _ h in
    let (size, parsed, e') = >>=-eq-ok (read_size line) _ e in
    sized-Chunks fuel (copy_chunks-Passes fuel) s s' line reader size
      (readline_split s.reader line reader got) (readline-IsLine s.reader line reader got) parsed
      (Bool-cases (is_zero size)) e'
