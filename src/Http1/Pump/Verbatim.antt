-- ===== src/Http1/Pump/Verbatim.antt =====
-- What `pump_body` forwards, and what of it the tee is fed.
use decrypt0r_x.Prelude.{
  ℕ, zero, suc, ◌-◌, ◌<◌, ◌≤◌, min, ◌≡◌, refl, subst, Bool, true, false, [], ◌∷◌, ◌++◌, append-nil,
  append_assoc, Option, length, length-append, arith,
}
use decrypt0r_x.Text.{Text}
use decrypt0r_x.Result.{ok, err, protocol_error, ◌>>=◌, >>=-eq-ok, ok-injective}
use decrypt0r_x.Http1.Stream.{Reader, Writer, read, write}
use decrypt0r_x.Http1.Stream.Laws.{
  Sends, Sends-refl, Sends-trans, write-Sends, drain-Sends, rest-read, length-read-le,
}
use decrypt0r_x.Http1.Tee.Bounds.{Holds, feed-Holds}
use decrypt0r_x.Http1.Pump.{State, chunk_size, drain_if, pass_on, copy}

-- From `s` to `s'` the bytes `wire` were taken from the stream and sent on as they are, and the tee
-- was fed `payload`.
pub record Passes (wire payload : Text) (s s' : State) : Type 0 where
  pub taken : s.reader.rest ≡ wire ++ s'.reader.rest
  pub sent : Sends wire s.writer s'.writer
  pub teed : (cap : ℕ) (fed : Text) → Holds cap fed s.tee → Holds cap (fed ++ payload) s'.tee

pub Passes-refl : (s : State) → Passes [] [] s s
Passes-refl s = record {
  taken = refl;
  sent = Sends-refl s.writer;
  teed = λ cap fed h. rw append-nil h;
}

pub Passes-trans :
    (a b p q : Text) {s t u : State}
    → Passes a p s t
    → Passes b q t u
    → Passes (a ++ b) (p ++ q) s u
Passes-trans a b p q {s} {t} {u} x y = record {
  taken = rw (x.taken, y.taken, append_assoc);
  sent = Sends-trans a b s.writer t.writer u.writer x.sent y.sent;
  teed = λ cap fed h. rw (← append_assoc fed p q) (y.teed cap (fed ++ p) (x.teed cap fed h));
}

drain_if-Sends : (b : Bool) (w w' : Option Writer) → drain_if b w ≡ ok w' → Sends [] w w'
drain_if-Sends true w w' h = drain-Sends w w' h
drain_if-Sends false w w' h = rw (← ok-injective h) (Sends-refl w)

pub write_drain-Sends :
    (b : Bool) (bytes : Text) (w w' : Option Writer)
    → drain_if b (write bytes w) ≡ ok w'
    → Sends bytes w w'
write_drain-Sends b bytes w w' h =
    subst (λ x. Sends x w w') (append-nil bytes)
      (Sends-trans bytes [] w (write bytes w) w' (write-Sends bytes w)
        (drain_if-Sends b (write bytes w) w' h))

pub pass_on-Passes :
    (b : Bool) (block : Text) (reader : Reader) (s s' : State)
    → 0 < length block
    → s.reader.rest ≡ block ++ reader.rest
    → pass_on b block reader s ≡ ok s'
    → Passes block block s s'
unfolding pass_on
pass_on-Passes b block reader s s' some_bytes split h =
    let (w, drained, e) = >>=-eq-ok (drain_if b (write block s.writer)) _ h in
    subst (Passes block block s) (ok-injective e) (record {
      taken = split;
      sent = write_drain-Sends b block s.writer w drained;
      teed = λ cap fed holds. feed-Holds cap fed block s.tee some_bytes holds;
    })

first_block-le : (n : ℕ) (r : Reader) → length (read (min chunk_size (suc n)) r).0 ≤ suc n
first_block-le n r = omega (arith, length-read-le (min chunk_size (suc n)) r)

-- A loop over a payload of `n` bytes passes on exactly `n` bytes.
pub copy-Passes :
    (b : Bool) (fuel n : ℕ) (s s' : State)
    → copy b fuel n s ≡ ok s'
    → (block : Text) × Passes block block s s' × (length block ≡ n)
unfolding copy
copy-Passes b fuel zero s s' h = ([], subst (Passes [] [] s) (ok-injective h) (Passes-refl s), refl)
copy-Passes b zero (suc n) s s' h = cc
copy-Passes b (suc fuel) (suc n) s s' h =
    go (read (min chunk_size (suc n)) s.reader).0 (read (min chunk_size (suc n)) s.reader).1
      (rest-read (min chunk_size (suc n)) s.reader) (first_block-le n s.reader) h
      (copy-Passes b fuel)
  where
    go :
        (block : Text) (reader : Reader)
        → s.reader.rest ≡ block ++ reader.rest
        → length block ≤ suc n
        → elim block [
          | [] ↦ err protocol_error
          | c ∷ more ↦
              pass_on b (c ∷ more) reader s >>= λ t. copy b fuel (suc n - length (c ∷ more)) t
        ]
          ≡ ok s'
        → ((m : ℕ) (t t' : State)
            → copy b fuel m t ≡ ok t'
            → (block : Text) × Passes block block t t' × (length block ≡ m))
        → (block : Text) × Passes block block s s' × (length block ≡ suc n)
    go [] reader split small e ih = cc
    go (c ∷ more) reader split small e ih =
        let (t, passed, rest) = >>=-eq-ok (pass_on b (c ∷ more) reader s) _ e in
        let (later, passes, size) = ih (suc n - length (c ∷ more)) t s' rest in
        (
          (c ∷ more) ++ later,
          Passes-trans (c ∷ more) later (c ∷ more) later
              (pass_on-Passes b (c ∷ more) reader s t (omega arith) split passed) passes,
          omega (arith, length-append (c ∷ more) later, size),
        )
