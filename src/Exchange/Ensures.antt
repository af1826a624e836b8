-- ===== src/Exchange/Ensures.antt =====
-- What the parts of an exchange leave true of its record, whether they pass or fail; and that they end.
use decrypt0r_x.Prelude.{◌≡◌, ◌≢◌, refl, Bool, true, false, ◌&&◌, Option, none, some, if◌then◌else◌}
use decrypt0r_x.Prelude.Int.{ℤ}
use decrypt0r_x.Text.{Text, codes, contains, lower, is_space, first_part, strip}
use decrypt0r_x.Text.Number.{py_int}
use decrypt0r_x.Result.{Result, ok, err, Error, protocol_error, out_of_fuel}
use decrypt0r_x.Recorder.Flows.{FlowRecord}
use decrypt0r_x.Http1.Headers.{Headers, get}
use decrypt0r_x.Http1.Stream.{Reader, Writer, write}
use decrypt0r_x.Http1.Framing.{
  Framing, no_body, chunked, body_framing, bodyless, or_empty, length_framing, by_content_length,
}
use decrypt0r_x.Http1.Pump.Total.{Fueled, drain-Fueled}
use decrypt0r_x.Exchange.Fallible.{Stage, fails, passes, attempt, ◌>>=◌}
use decrypt0r_x.Exchange.Relay.{relay_all}
use decrypt0r_x.Exchange.Copies.{relay_all-Copied}
use decrypt0r_x.Exchange.Links.{Url, Library}
use decrypt0r_x.Exchange.{send, is_absolute, origin_form, target_of}

-- a part that passes has the one predicate, and one that fails leaves the other of the record; it does
-- not fail for want of fuel
abbrev pub Ensures {ℓ} : {A : Type ℓ} → (FlowRecord → Type 0) → (A → Type 0) → Stage A → Type 0
Ensures P Q (fails raised flow) = (raised ≢ out_of_fuel) × P flow
Ensures P Q (passes value) = Q value

pub Fueled-ne : (e : Error) → Fueled {A = Unit {0}} (err e) → e ≢ out_of_fuel
Fueled-ne out_of_fuel h q = h
Fueled-ne protocol_error h q = cc
Fueled-ne _ h q = cc

module _ (P : FlowRecord → Type 0) where
  pub Ensures-bind {ℓ κ} :
      {A : Type ℓ} {B : Type κ} (Q : A → Type 0) (R : B → Type 0) (m : Stage A) (f : A → Stage B)
      → Ensures P Q m
      → ((a : A) → Q a → Ensures P R (f a))
      → Ensures P R (m >>= f)
  Ensures-bind Q R (fails e flow) f h k = h
  Ensures-bind Q R (passes a) f h k = k a h

  -- what follows a call that may raise
  pub attempt-Ensures {ℓ κ} :
      {A : Type ℓ} {B : Type κ} (R : B → Type 0) (flow : FlowRecord) (m : Result A)
      (f : A → Stage B)
      → Fueled m
      → P flow
      → ((a : A) → m ≡ ok a → Ensures P R (f a))
      → Ensures P R (attempt flow m >>= f)
  attempt-Ensures R flow (ok a) f h p k = k a refl
  attempt-Ensures R flow (err out_of_fuel) f h p k = absurd h
  attempt-Ensures R flow (err protocol_error) f h p k = (λ q. cc, p)
  attempt-Ensures R flow (err _) f h p k = (λ q. cc, p)

pub send-Fueled : (bytes : Text) (w : Option Writer) → Fueled (send bytes w)
send-Fueled bytes w = drain-Fueled (write bytes w)

pub body_framing-Fueled :
    (h : Headers) (is_response : Bool) (status : Option ℤ) (method : Option Text)
    → Fueled (body_framing h is_response status method)
unfolding body_framing
body_framing-Fueled h is_response status method =
    go (is_response && bodyless status method)
      (contains (codes "chunked") (lower (or_empty (get h (codes "transfer-encoding")))))
  where
    number : (o : Option ℤ) → Fueled (length_framing o)
    number none = tt
    number (some n) = tt

    eof : (b : Bool) → Fueled {A = Framing × ℤ} (by_content_length none b)
    eof true = tt
    eof false = tt

    sized : (o : Option Text) → Fueled (by_content_length o is_response)
    sized none = eof is_response
    sized (some text) = number (py_int 10 is_space (first_part 44 (strip text)))

    go :
        (b c : Bool)
        → Fueled (
            if b
            then ok (no_body, ℤ.pos 0)
            else if c
            then ok (chunked, ℤ.pos 0)
            else by_content_length (get h (codes "content-length")) is_response)
    go true c = tt
    go false true = tt
    go false false = sized (get h (codes "content-length"))

pub target_of-Fueled : (lib : Library) (target : Text) → Fueled (target_of lib target)
unfolding target_of
target_of-Fueled lib target = go (is_absolute target) (lib.urlsplit target)
  where
    go : (b : Bool) (o : Option Url) → Fueled (if b then origin_form o else ok target)
    go true none = tt
    go true (some url) = tt
    go false o = tt

pub relay_all-Fueled : (r : Reader) (w : Option Writer) → Fueled (relay_all r w)
relay_all-Fueled r w = let (block, r', w', ran, copied) = relay_all-Copied r w in rw ran tt
