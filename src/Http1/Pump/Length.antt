-- ===== src/Http1/Pump/Length.antt =====
-- A body with a length, over a writer whose drains do not find the connection reset.
use native.Mathlib.Decide.{dec_lt}
use decrypt0r_x.Prelude.{
  ℕ, zero, suc, ◌+◌, ◌-◌, ◌<◌, ◌≤◌, ◌≡◌, refl, sym, ap, ◌∙◌, subst, Bool, true, false, List, [],
  ◌∷◌, ◌++◌, Option, none, some, length, length-append, take, drop, arith, min, any, ◌⊎◌, inl, inr,
}
use decrypt0r_x.Prelude.Int.{ℤ, pos_part}
use decrypt0r_x.Text.{Text}
use decrypt0r_x.Result.{Result, ok, err, protocol_error, ◌>>=◌}
use decrypt0r_x.Http1.Stream.{Reader, Writer, read, write, drain, drained}
use decrypt0r_x.Http1.Stream.Laws.{rest-read, length-read-le, Sends}
use decrypt0r_x.Http1.Tee
use decrypt0r_x.Http1.Tee.{feed, BodyResult}
use decrypt0r_x.Http1.Framing.{by_length}
use decrypt0r_x.Http1.Pump.{State, chunk_size, drain_if, pass_on, copy, pump, start, pump_body}
use decrypt0r_x.Http1.Pump.Blocks.{read-eq-nil}
use decrypt0r_x.Http1.Pump.Forwarding.{pump_body-forwards}

-- no later drain finds the connection reset
abbrev pub Steady : Option Writer → Type 0
Steady none = Unit {0}
Steady (some w) = any (λ b. b) w.resets ≡ false

write-Steady : (bytes : Text) (w : Option Writer) → Steady w → Steady (write bytes w)
unfolding write
write-Steady bytes none h = tt
write-Steady bytes (some w) h = h

drain-Steady : (w : Option Writer) → Steady w → (w' : Option Writer) × (drain w ≡ ok w') × Steady w'
unfolding drain
drain-Steady none h = (none, refl, tt)
drain-Steady (some w) h = go w.resets h
  where
    go :
        (resets : List Bool)
        → any (λ b. b) resets ≡ false
        → (w' : Option Writer) × (drained resets w ≡ ok w') × Steady w'
    go [] e = (some w, refl, h)
    go (true ∷ resets) e = cc
    go (false ∷ resets) e = (some (record w { resets = resets }), refl, e)

drain_if-Steady :
    (b : Bool) (w : Option Writer)
    → Steady w
    → (w' : Option Writer) × (drain_if b w ≡ ok w') × Steady w'
drain_if-Steady true w h = drain-Steady w h
drain_if-Steady false w h = (w, refl, h)

pass_on-Steady :
    (b : Bool) (block : Text) (reader : Reader) (s : State)
    → Steady s.writer
    → (s' : State) × (pass_on b block reader s ≡ ok s') × Steady s'.writer × (s'.reader ≡ reader)
unfolding pass_on
pass_on-Steady b block reader s h =
    let (w, e, steady) = drain_if-Steady b (write block s.writer) (write-Steady block s.writer h) in
    (record { reader = reader; writer = w; tee = feed s.tee block }, rw e, steady, refl)

-- what the loop comes to, by whether the stream holds `n` bytes
abbrev Copied : ℕ → ℕ → Result State → Type 0
Copied n available r =
    (n ≤ available → (s' : State) × (r ≡ ok s')) × (available < n → r ≡ err protocol_error)

copy-Copied :
    (b : Bool) (fuel n : ℕ) (s : State)
    → Steady s.writer
    → n ≤ fuel
    → Copied n (length s.reader.rest) (copy b fuel n s)
unfolding copy
copy-Copied b fuel zero s steady h = (λ _. (s, refl), λ short. absurd (omega arith))
copy-Copied b zero (suc n) s steady h = absurd (omega arith)
copy-Copied b (suc fuel) (suc n) s steady h =
    go (read (min chunk_size (suc n)) s.reader).0 (read (min chunk_size (suc n)) s.reader).1
      (rest-read (min chunk_size (suc n)) s.reader)
      (omega (arith, length-read-le (min chunk_size (suc n)) s.reader))
      (read-eq-nil (min chunk_size (suc n)) s.reader (omega arith)) (copy-Copied b fuel)
  where
    go :
        (block : Text) (reader : Reader)
        → s.reader.rest ≡ block ++ reader.rest
        → length block ≤ suc n
        → (block ≡ [] → s.reader.rest ≡ [])
        → ((m : ℕ) (t : State)
            → Steady t.writer
            → m ≤ fuel
            → Copied m (length t.reader.rest) (copy b fuel m t))
        → Copied (suc n) (length s.reader.rest) (elim block [
          | [] ↦ err protocol_error
          | c ∷ more ↦
              pass_on b (c ∷ more) reader s >>= λ t. copy b fuel (suc n - length (c ∷ more)) t
        ])
    go [] reader split small ended ih =
        (λ enough. absurd (omega (arith, ap length (ended refl))), λ _. refl)
    go (c ∷ more) reader split small ended ih =
        let (t, passed, steady', same) = pass_on-Steady b (c ∷ more) reader s steady in
        let copied = ih (suc n - length (c ∷ more)) t steady' (omega arith) in
        let sizes : length s.reader.rest ≡ length (c ∷ more) + length t.reader.rest =
          ap length split
          ∙ length-append (c ∷ more) reader.rest
          ∙ ap (λ r. length (c ∷ more) + length r.rest) (sym same) in
        rw passed (λ enough. copied.0 (omega arith), λ short. copied.1 (omega arith))

length-Delimits :
    (n : ℕ) (block rest t : Text)
    → t ≡ block ++ rest
    → length block ≡ n
    → (block ≡ take n t) × (rest ≡ drop n t)
length-Delimits zero [] rest t e h = (refl, sym e)
length-Delimits zero (c ∷ block) rest t e h = absurd (omega arith)
length-Delimits (suc n) [] rest t e h = absurd (omega arith)
length-Delimits (suc n) (c ∷ block) rest t e h =
    let (front, back) = length-Delimits n block rest (block ++ rest) refl (omega arith) in
    rw e (ap (◌∷◌ c) front, back)

-- Over a writer that is not reset, either the stream holds the `n` bytes of the body: then the
-- result is a body of `n` bytes, the writer has sent the first `n` bytes of the stream, and the
-- rest is left in it; or it ends before: then the result is a protocol error. A negative length
-- counts as 0.
pub pump_body-by_length :
    (reader : Reader) (writer : Option Writer) (n limit : ℤ)
    → Steady writer
    → ((pos_part n ≤ length reader.rest)
        × ((b : BodyResult) × (s : State) × (pump_body reader writer by_length n limit ≡ ok (b, s))
            × Sends (take (pos_part n) reader.rest) writer s.writer
            × (s.reader.rest ≡ drop (pos_part n) reader.rest)
            × (b.total ≡ pos_part n)))
      ⊎ ((length reader.rest < pos_part n)
          × (pump_body reader writer by_length n limit ≡ err protocol_error))
unfolding pump_body pump
pump_body-by_length reader writer n limit steady = elim (dec_lt (length reader.rest) (pos_part n)) [
  | yes short ↦ inr (short, rw (copied.1 short))
  | no enough ↦ inl (omega arith, whole (omega arith))
]
  where
    copied :
        Copied
          (pos_part n)
          (length reader.rest)
          (copy true (pos_part n) (pos_part n) (start reader writer limit))
    copied =
        copy-Copied true (pos_part n) (pos_part n) (start reader writer limit) steady (omega arith)

    whole :
        pos_part n ≤ length reader.rest
        → (b : BodyResult) × (s : State) × (pump_body reader writer by_length n limit ≡ ok (b, s))
          × Sends (take (pos_part n) reader.rest) writer s.writer
          × (s.reader.rest ≡ drop (pos_part n) reader.rest)
          × (b.total ≡ pos_part n)
    whole enough =
        let (s, done) = copied.0 enough in
        let returned : pump_body reader writer by_length n limit ≡ ok (Tee.result s.tee, s) =
          rw done in
        let (wire, payload, taken, sent, (same, long), captured, total, cut) =
          pump_body-forwards reader writer by_length n limit (Tee.result s.tee) s returned in
        let (front, back) =
          length-Delimits (pos_part n) wire s.reader.rest reader.rest taken (rw same long) in
        (
          Tee.result s.tee,
          s,
          returned,
          subst (λ t. Sends t writer s.writer) front sent,
          back,
          total ∙ long,
        )
