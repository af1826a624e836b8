-- ===== src/Http1/Pump/Forwarding.antt =====
-- `pump_body` as a whole: what it takes, what it sends and what it captures.
use decrypt0r_x.Prelude.{suc, ◌≡◌, refl, ap, subst, true, [], ◌++◌, Option, length, take, ltb}
use decrypt0r_x.Prelude.Int.{ℤ, pos_part}
use decrypt0r_x.Text.{Text}
use decrypt0r_x.Result.{ok, >>=-eq-ok, ok-injective}
use decrypt0r_x.Http1.Stream.{Reader, Writer}
use decrypt0r_x.Http1.Stream.Laws.{Sends}
use decrypt0r_x.Http1.Tee
use decrypt0r_x.Http1.Tee.{Tee, BodyResult}
use decrypt0r_x.Http1.Tee.Bounds.{init-Holds}
use decrypt0r_x.Http1.Framing.{Framing, no_body, chunked, by_length, until_eof}
use decrypt0r_x.Http1.Pump.{State, pump, start, pump_body}
use decrypt0r_x.Http1.Pump.Verbatim.{Passes, Passes-refl, copy-Passes}
use decrypt0r_x.Http1.Pump.Grammar.{IsChunked}
use decrypt0r_x.Http1.Pump.Blocks.{copy_all-Passes}
use decrypt0r_x.Http1.Pump.Chunks.{copy_chunks-Passes}

-- How the four framings delimit a body: the bytes on the wire, the payload that they carry, and
-- what is left of the stream.
abbrev pub Delimits : Framing → ℤ → Text → Text → Text → Type 0
Delimits no_body n wire payload rest = (wire ≡ []) × (payload ≡ [])
Delimits by_length n wire payload rest = (wire ≡ payload) × (length payload ≡ pos_part n)
Delimits until_eof n wire payload rest = (wire ≡ payload) × (rest ≡ [])
Delimits chunked n wire payload rest = IsChunked wire payload

pump-Passes :
    (f : Framing) (n : ℤ) (s s' : State)
    → pump f n s ≡ ok s'
    → (wire payload : Text) × Passes wire payload s s' × Delimits f n wire payload s'.reader.rest
unfolding pump
pump-Passes no_body n s s' h =
    ([], [], subst (Passes [] [] s) (ok-injective h) (Passes-refl s), (refl, refl))
pump-Passes by_length n s s' h =
    let (block, passes, long) = copy-Passes true (pos_part n) (pos_part n) s s' h in
    (block, block, passes, (refl, long))
pump-Passes until_eof n s s' h =
    let (block, passes, done) = copy_all-Passes (suc (length s.reader.rest)) s s' h in
    (block, block, passes, (refl, done))
pump-Passes chunked n s s' h = copy_chunks-Passes (suc (length s.reader.rest)) s s' h

-- When `pump_body` returns, there are bytes `wire` and a payload such that the reader has given up
-- exactly `wire`, the writer has sent exactly `wire` more, `wire` is a body with that payload as the
-- framing has it, and the capture is the first `limit` bytes of the payload, with its true length, and
-- marked truncated exactly when the payload is longer than the limit.
pub pump_body-forwards :
    (reader : Reader) (writer : Option Writer) (f : Framing) (n limit : ℤ) (b : BodyResult)
    (s : State)
    → pump_body reader writer f n limit ≡ ok (b, s)
    → (wire payload : Text) × (reader.rest ≡ wire ++ s.reader.rest)
      × Sends wire writer s.writer
      × Delimits f n wire payload s.reader.rest
      × (b.captured ≡ take (pos_part limit) payload)
      × (b.total ≡ length payload)
      × (b.truncated ≡ ltb (pos_part limit) (length payload))
unfolding pump_body Tee.result
pump_body-forwards reader writer f n limit b s h =
    let (t, pumped, e) = >>=-eq-ok (pump f n (start reader writer limit)) _ h in
    let same : t ≡ s = ap (λ p. p.1) (ok-injective e) in
    let captured : Tee.result t.tee ≡ b = ap (λ p. p.0) (ok-injective e) in
    let (wire, payload, passes, delimits) = pump-Passes f n (start reader writer limit) t pumped in
    let holds = passes.teed (pos_part limit) [] (init-Holds limit) in
    (
      wire,
      payload,
      subst (λ x. reader.rest ≡ wire ++ x.reader.rest) same passes.taken,
      subst (λ x. Sends wire writer x.writer) same passes.sent,
      subst (λ x. Delimits f n wire payload x.reader.rest) same delimits,
      subst (λ x. x.captured ≡ take (pos_part limit) payload) captured holds.buf,
      subst (λ x. x.total ≡ length payload) captured holds.total,
      subst (λ x. x.truncated ≡ ltb (pos_part limit) (length payload)) captured holds.truncated,
    )
