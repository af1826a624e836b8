-- ===== src/Http1/Pump/Blocks.antt =====
-- The framing lines and the body that ends with the connection, as they are passed on.
use decrypt0r_x.Prelude.{
  ℕ, zero, suc, ◌<◌, ◌≡◌, refl, sym, ◌∙◌, subst, true, List, [], ◌∷◌, ◌++◌, append-nil, Option,
  take, arith,
}
use decrypt0r_x.Text.{Text}
use decrypt0r_x.Result.{ok, ◌>>=◌, >>=-eq-ok, ok-injective}
use decrypt0r_x.Http1.Stream.{Reader, Writer, granted, read, readline}
use decrypt0r_x.Http1.Stream.Laws.{Sends, rest-read}
use decrypt0r_x.Http1.Pump.{State, chunk_size, pass_on, copy_all}
use decrypt0r_x.Http1.Pump.Verbatim.{Passes, Passes-refl, Passes-trans, pass_on-Passes}
use decrypt0r_x.Http1.Pump.Grammar.{IsLine, first_line-IsLine}

-- a block that a framing line or a chunk's end is passed on by: not part of the payload
pub line-Passes :
    (s : State) (line : Text) (reader : Reader) (w : Option Writer)
    → s.reader.rest ≡ line ++ reader.rest
    → Sends line s.writer w
    → Passes line [] s (record s { reader = reader; writer = w })
line-Passes s line reader w split sends = record {
  taken = split;
  sent = sends;
  teed = λ cap fed h. rw append-nil h;
}

pub readline-IsLine :
    (r : Reader) (line : Text) (r' : Reader) → readline r ≡ ok (line, r') → IsLine line
unfolding readline
readline-IsLine r line r' h = ground (arith, first_line-IsLine r.rest)

take-eq-nil : (k : ℕ) (t : Text) → 0 < k → take k t ≡ [] → t ≡ []
take-eq-nil zero t h e = absurd (omega arith)
take-eq-nil (suc k) [] h e = refl
take-eq-nil (suc k) (c ∷ t) h e = cc

granted_pos : (n : ℕ) (sizes : List ℕ) → 0 < n → 0 < granted n sizes
granted_pos n [] h = h
granted_pos n (size ∷ sizes) h = omega arith

pub read-eq-nil : (n : ℕ) (r : Reader) → 0 < n → (read n r).0 ≡ [] → r.rest ≡ []
unfolding read
read-eq-nil n r positive h =
    take-eq-nil (granted n r.sizes) r.rest (granted_pos n r.sizes positive) h

pub copy_all-Passes :
    (fuel : ℕ) (s s' : State)
    → copy_all fuel s ≡ ok s'
    → (block : Text) × Passes block block s s' × (s'.reader.rest ≡ [])
unfolding copy_all
copy_all-Passes zero s s' h = cc
copy_all-Passes (suc fuel) s s' h =
    go (read chunk_size s.reader).0 (read chunk_size s.reader).1 (rest-read chunk_size s.reader)
      (read-eq-nil chunk_size s.reader (omega arith)) h (copy_all-Passes fuel)
  where
    go :
        (block : Text) (reader : Reader)
        → s.reader.rest ≡ block ++ reader.rest
        → (block ≡ [] → s.reader.rest ≡ [])
        → elim block [
          | [] ↦ ok (record s { reader = reader })
          | c ∷ more ↦ pass_on true (c ∷ more) reader s >>= λ t. copy_all fuel t
        ]
          ≡ ok s'
        → ((t t' : State)
            → copy_all fuel t ≡ ok t'
            → (block : Text) × Passes block block t t' × (t'.reader.rest ≡ []))
        → (block : Text) × Passes block block s s' × (s'.reader.rest ≡ [])
    go [] reader split ended e ih =
        subst (λ t. (block : Text) × Passes block block s t × (t.reader.rest ≡ [])) (ok-injective e)
          (
            [],
            record { taken = split; sent = (Passes-refl s).sent; teed = (Passes-refl s).teed },
            sym split ∙ ended refl,
          )
    go (c ∷ more) reader split ended e ih =
        let (t, passed, rest) = >>=-eq-ok (pass_on true (c ∷ more) reader s) _ e in
        let (later, passes, done) = ih t s' rest in
        (
          (c ∷ more) ++ later,
          Passes-trans (c ∷ more) later (c ∷ more) later
              (pass_on-Passes true (c ∷ more) reader s t (omega arith) split passed) passes,
          done,
        )
