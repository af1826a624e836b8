-- ===== src/Http1/Pump/Total.antt =====
-- The fuel of the loops of `pump_body`.
use decrypt0r_x.Prelude.{
  ℕ, zero, suc, ◌-◌, ◌<◌, ◌≤◌, ◌≡◌, ◌≢◌, refl, ap, subst, Bool, true, false, List, [], ◌∷◌, ◌++◌,
  Option, none, some, length, length-append, arith, Bool-cases, ◌⊎◌, inl, inr, min,
}
use decrypt0r_x.Prelude.Int.{ℤ, pos_part}
use decrypt0r_x.Text.{Text}
use decrypt0r_x.Result.{Result, ok, err, protocol_error, out_of_fuel, ◌>>=◌}
use decrypt0r_x.Http1.Stream.{Reader, Writer, read, readline, readexactly, write, drain, drained}
use decrypt0r_x.Http1.Stream.Laws.{rest-read, readline_split}
use decrypt0r_x.Http1.Framing.{Framing, no_body, chunked, by_length, until_eof}
use decrypt0r_x.Http1.Pump.{
  State, chunk_size, drain_if, pass_on, copy, copy_all, ends_trailers, copy_trailers, read_size,
  chunk_length, end_chunk, end_body, one_chunk, is_zero, copy_chunks, pump, start, pump_body,
}
use decrypt0r_x.Http1.Pump.Verbatim.{Passes, pass_on-Passes}
use decrypt0r_x.Http1.Pump.Chunks.{one_chunk-Passes}

-- whatever the outcome, it is not that the fuel ran out
abbrev pub Fueled {ℓ} : {A : Type ℓ} → Result A → Type 0
Fueled (ok a) = Unit {0}
Fueled (err out_of_fuel) = ⊥
Fueled (err _) = Unit {0}

pub Fueled-bind {ℓ κ} :
    {A : Type ℓ} {B : Type κ} (m : Result A) (f : A → Result B)
    → Fueled m
    → ((a : A) → m ≡ ok a → Fueled (f a))
    → Fueled (m >>= f)
Fueled-bind (ok a) f h k = k a refl
Fueled-bind (err out_of_fuel) f h k = h
Fueled-bind (err protocol_error) f h k = tt
Fueled-bind (err _) f h k = tt

pub drain-Fueled : (w : Option Writer) → Fueled (drain w)
unfolding drain
drain-Fueled none = tt
drain-Fueled (some w) = go w.resets
  where
    go : (resets : List Bool) → Fueled (drained resets w)
    go [] = tt
    go (true ∷ resets) = tt
    go (false ∷ resets) = tt

drain_if-Fueled : (b : Bool) (w : Option Writer) → Fueled (drain_if b w)
drain_if-Fueled true w = drain-Fueled w
drain_if-Fueled false w = tt

pass_on-Fueled :
    (b : Bool) (block : Text) (reader : Reader) (s : State) → Fueled (pass_on b block reader s)
unfolding pass_on
pass_on-Fueled b block reader s =
    Fueled-bind (drain_if b (write block s.writer)) _ (drain_if-Fueled b (write block s.writer))
      (λ w e. tt)

pub readline-Fueled : (r : Reader) → Fueled (readline r)
unfolding readline
readline-Fueled r = ground arith

readexactly-Fueled : (n : ℕ) (r : Reader) → Fueled (readexactly n r)
unfolding readexactly
readexactly-Fueled n r = ground arith

copy-Fueled : (b : Bool) (fuel n : ℕ) (s : State) → n ≤ fuel → Fueled (copy b fuel n s)
unfolding copy
copy-Fueled b fuel zero s h = tt
copy-Fueled b zero (suc n) s h = absurd (omega arith)
copy-Fueled b (suc fuel) (suc n) s h =
    go (read (min chunk_size (suc n)) s.reader).0 (read (min chunk_size (suc n)) s.reader).1
      (copy-Fueled b fuel)
  where
    go :
        (block : Text) (reader : Reader)
        → ((m : ℕ) (t : State) → m ≤ fuel → Fueled (copy b fuel m t))
        → Fueled (elim block [
          | [] ↦ err protocol_error
          | c ∷ more ↦
              pass_on b (c ∷ more) reader s >>= λ t. copy b fuel (suc n - length (c ∷ more)) t
        ])
    go [] reader ih = tt
    go (c ∷ more) reader ih =
        Fueled-bind (pass_on b (c ∷ more) reader s) _ (pass_on-Fueled b (c ∷ more) reader s)
          (λ t e. ih (suc n - length (c ∷ more)) t (omega arith))

copy_all-Fueled : (fuel : ℕ) (s : State) → length s.reader.rest < fuel → Fueled (copy_all fuel s)
unfolding copy_all
copy_all-Fueled zero s h = absurd (omega arith)
copy_all-Fueled (suc fuel) s h =
    go (read chunk_size s.reader).0 (read chunk_size s.reader).1 (rest-read chunk_size s.reader)
      (copy_all-Fueled fuel)
  where
    go :
        (block : Text) (reader : Reader)
        → s.reader.rest ≡ block ++ reader.rest
        → ((t : State) → length t.reader.rest < fuel → Fueled (copy_all fuel t))
        → Fueled (elim block [
          | [] ↦ ok (record s { reader = reader })
          | c ∷ more ↦ pass_on true (c ∷ more) reader s >>= λ t. copy_all fuel t
        ])
    go [] reader split ih = tt
    go (c ∷ more) reader split ih =
        Fueled-bind (pass_on true (c ∷ more) reader s) _ (pass_on-Fueled true (c ∷ more) reader s)
          (λ t e.
            ih t (shorter t (pass_on-Passes true (c ∷ more) reader s t (omega arith) split e)))
      where
        shorter : (t : State) → Passes (c ∷ more) (c ∷ more) s t → length t.reader.rest < fuel
        shorter t p = omega (arith, ap length p.taken, length-append (c ∷ more) t.reader.rest)

copy_trailers-Fueled :
    (fuel : ℕ) (s : State) → length s.reader.rest < fuel → Fueled (copy_trailers fuel s)
unfolding copy_trailers
copy_trailers-Fueled zero s h = absurd (omega arith)
copy_trailers-Fueled (suc fuel) s h =
    Fueled-bind (readline s.reader) _ (readline-Fueled s.reader) (λ (line, reader) got.
      go line reader (readline_split s.reader line reader got) (Bool-cases (ends_trailers line))
        (copy_trailers-Fueled fuel))
  where
    go :
        (line : Text) (reader : Reader)
        → s.reader.rest ≡ line ++ reader.rest
        → (ends_trailers line ≡ true) ⊎ (ends_trailers line ≡ false)
        → ((t : State) → length t.reader.rest < fuel → Fueled (copy_trailers fuel t))
        → Fueled (elim (ends_trailers line) [
          | true ↦ ok (record s { reader = reader; writer = write line s.writer })
          | false ↦ copy_trailers fuel (record s { reader = reader; writer = write line s.writer })
        ])
    go line reader split (inl done) ih = rw done tt
    go [] reader split (inr further) ih = cc
    go (c ∷ line) reader split (inr further) ih =
        rw further (ih _ (omega (arith, ap length split, length-append (c ∷ line) reader.rest)))

end_body-Fueled : (s : State) → Fueled (end_body s)
unfolding end_body
end_body-Fueled s =
    let n = suc (length s.reader.rest) in
    Fueled-bind (copy_trailers n s) _ (copy_trailers-Fueled n s (omega arith))
      (λ t e. Fueled-bind (drain t.writer) _ (drain-Fueled t.writer) (λ w d. tt))

end_chunk-Fueled : (s : State) → Fueled (end_chunk s)
unfolding end_chunk
end_chunk-Fueled s =
    Fueled-bind (readexactly 2 s.reader) _ (readexactly-Fueled 2 s.reader) (λ (two, reader) e.
      Fueled-bind (drain (write two s.writer)) _ (drain-Fueled (write two s.writer)) (λ w d. tt))

one_chunk-Fueled : (size : ℤ) (s : State) → Fueled (one_chunk size s)
unfolding one_chunk
one_chunk-Fueled size s =
    Fueled-bind (copy false (pos_part size) (pos_part size) s) _
      (copy-Fueled false (pos_part size) (pos_part size) s (omega arith))
      (λ t e. end_chunk-Fueled t)

read_size-Fueled : (line : Text) → Fueled (read_size line)
unfolding read_size
read_size-Fueled [] = tt
read_size-Fueled (c ∷ more) = go (chunk_length (c ∷ more))
  where
    go : (o : Option ℤ) → Fueled (elim o [ none ↦ err protocol_error | some size ↦ ok size ])
    go none = tt
    go (some size) = tt

read_size-ne-nil : (line : Text) (size : ℤ) → read_size line ≡ ok size → 0 < length line
unfolding read_size
read_size-ne-nil [] size h = cc
read_size-ne-nil (c ∷ line) size h = omega arith

module _ (fuel : ℕ)
    (ih : (t : State) → length t.reader.rest < fuel → Fueled (copy_chunks fuel t)) where
  sized-Fueled :
      (size : ℤ) (s : State)
      → length s.reader.rest < fuel
      → (is_zero size ≡ true) ⊎ (is_zero size ≡ false)
      → Fueled (elim (is_zero size) [
        | true ↦ end_body s
        | false ↦ one_chunk size s >>= λ t. copy_chunks fuel t
      ])
  sized-Fueled size s h (inl zero_size) = rw zero_size (end_body-Fueled s)
  sized-Fueled size s h (inr non_zero) =
      rw non_zero
        (Fueled-bind (one_chunk size s) _ (one_chunk-Fueled size s) (λ t e. ih t (shorter t e)))
    where
      shorter : (t : State) → one_chunk size s ≡ ok t → length t.reader.rest < fuel
      shorter t e =
          let (block, two, p, long, pair) = one_chunk-Passes size s t e in
          omega (arith, ap length p.taken, length-append (block ++ two) t.reader.rest)

copy_chunks-Fueled :
    (fuel : ℕ) (s : State) → length s.reader.rest < fuel → Fueled (copy_chunks fuel s)
unfolding copy_chunks
copy_chunks-Fueled zero s h = absurd (omega arith)
copy_chunks-Fueled (suc fuel) s h =
    Fueled-bind (readline s.reader) _ (readline-Fueled s.reader) (λ (line, reader) got.
      Fueled-bind (read_size line) _ (read_size-Fueled line) (λ size parsed.
        sized-Fueled fuel (copy_chunks-Fueled fuel) size
          (record s { reader = reader; writer = write line s.writer })
          (omega (
            arith,
            ap length (readline_split s.reader line reader got),
            length-append line reader.rest,
            read_size-ne-nil line size parsed,
          ))
          (Bool-cases (is_zero size))))

pump-Fueled : (f : Framing) (n : ℤ) (s : State) → Fueled (pump f n s)
unfolding pump
pump-Fueled no_body n s = tt
pump-Fueled by_length n s = copy-Fueled true (pos_part n) (pos_part n) s (omega arith)
pump-Fueled until_eof n s = copy_all-Fueled (suc (length s.reader.rest)) s (omega arith)
pump-Fueled chunked n s = copy_chunks-Fueled (suc (length s.reader.rest)) s (omega arith)

pub pump_body-Fueled :
    (reader : Reader) (writer : Option Writer) (f : Framing) (n limit : ℤ)
    → Fueled (pump_body reader writer f n limit)
unfolding pump_body
pump_body-Fueled reader writer f n limit =
    Fueled-bind (pump f n (start reader writer limit)) _
      (pump-Fueled f n (start reader writer limit)) (λ s e. tt)

-- On every stream and for every framing, the loops of `pump_body` end: the fuel never runs out.
pub pump_body-ne-out_of_fuel :
    (reader : Reader) (writer : Option Writer) (f : Framing) (n limit : ℤ)
    → pump_body reader writer f n limit ≢ err out_of_fuel
pump_body-ne-out_of_fuel reader writer f n limit h =
    subst Fueled h (pump_body-Fueled reader writer f n limit)
