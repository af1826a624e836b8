-- ===== src/Exchange/Copies.antt =====
-- What `_relay` copies.
use decrypt0r_x.Prelude.{
  ℕ, zero, suc, ◌+◌, ◌<◌, ◌≡◌, refl, ap, sym, ◌∙◌, subst, Bool, true, false, List, [], ◌∷◌, ◌++◌,
  append_assoc, Option, none, some, ◌⊎◌, inl, inr, length, length-append, any, arith,
}
use decrypt0r_x.Text.{Text}
use decrypt0r_x.Result.{Result, Error, ok, err, ok-injective}
use decrypt0r_x.Http1.Stream.{Reader, Writer, read, write, drain, drained}
use decrypt0r_x.Http1.Stream.Laws.{Sends, Sends-refl, Sends-trans, write-Sends, rest-read}
use decrypt0r_x.Http1.Pump.Verbatim.{write_drain-Sends}
use decrypt0r_x.Http1.Pump.Blocks.{read-eq-nil}
use decrypt0r_x.Exchange.Relay.{relay_chunk, relay, relay_all}

-- one of the later drains finds the connection reset
abbrev pub has_reset : Option Writer → Bool
has_reset none = false
has_reset (some w) = any (λ b. b) w.resets

-- the streams after a relay that has copied `block`, whole or up to a reset
pub record Copied (block : Text) (r : Reader) (w : Option Writer) (r' : Reader) (w' : Option Writer)
    : Type 0 where
  pub taken : r.rest ≡ block ++ r'.rest
  pub sent : Sends block w w'
  pub whole : (r'.rest ≡ []) ⊎ (has_reset w ≡ true)

has_reset-drain :
    (bytes : Text) (w w' : Option Writer)
    → drain (write bytes w) ≡ ok w'
    → has_reset w' ≡ true
    → has_reset w ≡ true
unfolding drain write
has_reset-drain bytes none w' h e = subst (λ x. has_reset x ≡ true) (sym (ok-injective h)) e
has_reset-drain bytes (some w) w' h e = go w.resets (record w { sent = w.sent ++ bytes }) refl h
  where
    go :
        (resets : List Bool) (v : Writer)
        → v.resets ≡ resets
        → drained resets v ≡ ok w'
        → any (λ b. b) resets ≡ true
    go [] v p q = let same : some v ≡ w' = ok-injective q in rw (← same, p) at e
    go (true ∷ resets) v p q = refl
    go (false ∷ resets) v p q =
        let same : some (record v { resets = resets }) ≡ w' = ok-injective q in rw (← same) at e

has_reset-err :
    (bytes : Text) (w : Option Writer) (e : Error)
    → drain (write bytes w) ≡ err e
    → has_reset w ≡ true
unfolding drain write
has_reset-err bytes none e h = cc
has_reset-err bytes (some w) e h = go w.resets (record w { sent = w.sent ++ bytes }) h
  where
    go : (resets : List Bool) (v : Writer) → drained resets v ≡ err e → any (λ b. b) resets ≡ true
    go [] v q = cc
    go (true ∷ resets) v q = refl
    go (false ∷ resets) v q = cc

Copied-more :
    (block later : Text) (r r' r'' : Reader) (w w' w'' : Option Writer)
    → r.rest ≡ block ++ r'.rest
    → Sends block w w'
    → (has_reset w' ≡ true → has_reset w ≡ true)
    → Copied later r' w' r'' w''
    → Copied (block ++ later) r w r'' w''
Copied-more block later r r' r'' w w' w'' split sends back c = record {
  taken = rw (split, c.taken, append_assoc);
  sent = Sends-trans block later w w' w'' sends c.sent;
  whole = elim c.whole [ inl e ↦ inl e | inr e ↦ inr (back e) ];
}

-- a run of `relay`: what it returns, and what it has copied
abbrev Relays : Result (ℕ × Reader × Option Writer) → Reader → Option Writer → ℕ → Type 0
Relays m r w total =
    (block : Text) × (r' : Reader) × (w' : Option Writer) × (m ≡ ok (total + length block, r', w'))
    × Copied block r w r' w'

relay-Relays :
    (fuel : ℕ) (r : Reader) (w : Option Writer) (total : ℕ)
    → length r.rest < fuel
    → Relays (relay fuel r w total) r w total
unfolding relay
relay-Relays zero r w total h = absurd (omega arith)
relay-Relays (suc fuel) r w total h =
    go (read relay_chunk r).0 (read relay_chunk r).1 (rest-read relay_chunk r)
      (λ e.
        rest-ended (read relay_chunk r).1 (read relay_chunk r).0 (rest-read relay_chunk r)
          (read-eq-nil relay_chunk r (omega arith) e) e)
      (relay-Relays fuel)
  where
    rest-ended :
        (r' : Reader) (block : Text)
        → r.rest ≡ block ++ r'.rest
        → r.rest ≡ []
        → block ≡ []
        → r'.rest ≡ []
    rest-ended r' [] split none_left e = sym split ∙ none_left
    rest-ended r' (c ∷ block) split none_left e = cc

    go :
        (block : Text) (r' : Reader)
        → r.rest ≡ block ++ r'.rest
        → (block ≡ [] → r'.rest ≡ [])
        → ((t : Reader) (v : Option Writer) (n : ℕ)
            → length t.rest < fuel
            → Relays (relay fuel t v n) t v n)
        → Relays
            (elim block [
              | [] ↦ ok (total, r', w)
              | c ∷ more ↦ elim (drain (write (c ∷ more) w)) [
                | err raised ↦ ok (total + length (c ∷ more), r', write (c ∷ more) w)
                | ok w' ↦ relay fuel r' w' (total + length (c ∷ more))
              ]
            ])
            r
            w
            total
    go [] r' split last ih =
        let none_more : total ≡ total + 0 = omega arith in
        (
          [],
          r',
          w,
          (rw (← none_more)),
          record { taken = split; sent = Sends-refl w; whole = inl (last refl) },
        )
    go (c ∷ more) r' split last ih = drains (drain (write (c ∷ more) w)) refl
      where
        drains :
            (m : Result (Option Writer))
            → drain (write (c ∷ more) w) ≡ m
            → Relays
                (elim m [
                  | err raised ↦ ok (total + length (c ∷ more), r', write (c ∷ more) w)
                  | ok w' ↦ relay fuel r' w' (total + length (c ∷ more))
                ])
                r
                w
                total
        drains (err raised) e = (
          c ∷ more,
          r',
          write (c ∷ more) w,
          refl,
          record {
            taken = split;
            sent = write-Sends (c ∷ more) w;
            whole = inr (has_reset-err (c ∷ more) w raised e);
          },
        )
        drains (ok w') e =
            let (later, r'', w'', ran, copied) =
              ih r' w' (total + length (c ∷ more))
                (omega (arith, ap length split, length-append (c ∷ more) r'.rest)) in
            let counted : total + length (c ∷ more) + length later
                ≡ total + length ((c ∷ more) ++ later) =
              omega (arith, length-append (c ∷ more) later) in
            (
              (c ∷ more) ++ later,
              r'',
              w'',
              (rw (ran, counted)),
              Copied-more (c ∷ more) later r r' r'' w w' w'' split
                  (write_drain-Sends true (c ∷ more) w w' e) (has_reset-drain (c ∷ more) w w' e)
                  copied,
            )

-- A relay of a stream that ends at some point ends too, and has then read some bytes, sent exactly these on, and counted them; and unless the
-- other side was reset, they are all that was left of the stream.
pub relay_all-Copied :
    (r : Reader) (w : Option Writer)
    → (block : Text) × (r' : Reader) × (w' : Option Writer) × (relay_all r w
        ≡ ok (length block, r', w'))
      × Copied block r w r' w'
unfolding relay_all
relay_all-Copied r w =
    let (block, r', w', ran, copied) = relay-Relays (suc (length r.rest)) r w 0 (omega arith) in
    let from_zero : 0 + length block ≡ length block = omega arith in
    (block, r', w', rw from_zero at ran, copied)
