-- ===== src/Http1/Stream/Laws.antt =====
-- What a read takes from the stream, and what a write adds to it.
use decrypt0r_x.Prelude.{
  ℕ, ◌≤◌, ◌≡◌, refl, sym, List, [], ◌∷◌, ◌++◌, append-nil, append_assoc, Option, none, some, length,
  take-append-drop, arith, length-take,
}
use decrypt0r_x.Text.{Text}
use decrypt0r_x.Result.{ok}
use decrypt0r_x.Http1.Stream.{
  Reader, Writer, granted, read, first_line, after_line, readline, readexactly, write, drain,
}

-- `w'` has sent what `w` had, and then `bytes`; without a writer there is nothing to say
abbrev pub Sends : Text → Option Writer → Option Writer → Type 0
Sends bytes none none = Unit {0}
Sends bytes (some w) (some w') = w'.sent ≡ w.sent ++ bytes
Sends bytes none (some w') = ⊥
Sends bytes (some w) none = ⊥

pub Sends-refl : (w : Option Writer) → Sends [] w w
Sends-refl none = tt
Sends-refl (some w) = sym (append-nil w.sent)

pub Sends-trans :
    (a b : Text) (u v w : Option Writer) → Sends a u v → Sends b v w → Sends (a ++ b) u w
Sends-trans a b none none none h k = tt
Sends-trans a b none none (some w) h k = k
Sends-trans a b none (some v) w h k = absurd h
Sends-trans a b (some u) none w h k = absurd h
Sends-trans a b (some u) (some v) none h k = k
Sends-trans a b (some u) (some v) (some w) h k = rw (k, h, append_assoc)

pub write-Sends : (bytes : Text) (w : Option Writer) → Sends bytes w (write bytes w)
unfolding write
write-Sends bytes none = tt
write-Sends bytes (some w) = refl

pub drain-Sends : (w w' : Option Writer) → drain w ≡ ok w' → Sends [] w w'
unfolding drain
drain-Sends none none h = tt
drain-Sends none (some w') h = cc
drain-Sends (some w) none h = ground arith
drain-Sends (some w) (some w') h = rw append-nil (ground arith)

pub line_split : (t : Text) → first_line t ++ after_line t ≡ t
line_split [] = refl
line_split (c ∷ t) = ground (arith, line_split t)

pub length-read-le : (n : ℕ) (r : Reader) → length (read n r).0 ≤ n
unfolding read
length-read-le n r = omega (arith, length-take (granted n r.sizes) r.rest, granted-le n r.sizes)
  where
    granted-le : (n : ℕ) (sizes : List ℕ) → granted n sizes ≤ n
    granted-le n [] = omega arith
    granted-le n (s ∷ sizes) = omega arith

pub rest-read : (n : ℕ) (r : Reader) → r.rest ≡ (read n r).0 ++ (read n r).1.rest
unfolding read
rest-read n r = sym (take-append-drop (granted n r.sizes) r.rest)

pub readline_split :
    (r : Reader) (line : Text) (r' : Reader) → readline r ≡ ok (line, r') → r.rest ≡ line ++ r'.rest
unfolding readline
readline_split r line r' h = ground (arith, line_split r.rest)

pub readexactly_split :
    (n : ℕ) (r : Reader) (bytes : Text) (r' : Reader)
    → readexactly n r ≡ ok (bytes, r')
    → r.rest ≡ bytes ++ r'.rest
unfolding readexactly
readexactly_split n r bytes r' h = ground (arith, take-append-drop n r.rest)

pub length-readexactly :
    (n : ℕ) (r : Reader) (bytes : Text) (r' : Reader)
    → readexactly n r ≡ ok (bytes, r')
    → length bytes ≡ n
unfolding readexactly
length-readexactly n r bytes r' h = ground (arith, length-take n r.rest)
