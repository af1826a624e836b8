-- ===== src/Http1/Tee/Bounds.antt =====
-- What `_Tee` holds of the bytes that it was fed.
use decrypt0r_x.Prelude.{
  ℕ, zero, suc, ◌+◌, ◌-◌, ◌≤◌, ◌<◌, ◌≡◌, refl, sym, ap, ◌∙◌, [], ◌++◌, append-nil, ◌||◌, true,
  length, take, length-append, length-take, take-append, arith, ltb, min,
}
use native.Mathlib.Decide.{dec_lt}
use decrypt0r_x.Prelude.Int.{ℤ, pos_part}
use decrypt0r_x.Text.{Text}
use decrypt0r_x.Http1.Tee.{Tee, init, feed}

-- `fed` is all that the tee was fed
pub record Holds (cap : ℕ) (fed : Text) (t : Tee) : Type 0 where
  pub limit : t.limit ≡ cap
  pub buf : t.buf ≡ take cap fed
  pub total : t.total ≡ length fed
  pub truncated : t.truncated ≡ ltb cap (length fed)

take-nil : (n : ℕ) → take {A = ℕ} n [] ≡ []
take-nil zero = refl
take-nil (suc n) = refl

pub init-Holds : (limit : ℤ) → Holds (pos_part limit) [] (init limit)
unfolding init
init-Holds limit = record {
  limit = refl;
  buf = sym (take-nil (pos_part limit));
  total = refl;
  truncated = ground arith;
}

room_left : (cap : ℕ) (fed : Text) → cap - length (take cap fed) ≡ cap - length fed
room_left cap fed = omega (arith, length-take cap fed)

no_room : (cap : ℕ) (fed bytes : Text) → cap ≤ length fed → take cap (fed ++ bytes) ≡ take cap fed
no_room cap fed bytes h =
    let e : cap - length fed ≡ 0 = omega arith in rw (take-append, e, append-nil)

feed_over :
    (cap : ℕ) (fed bytes : Text) (t : Tee)
    → 0 < length bytes
    → Holds cap fed t
    → cap ≤ length fed
    → Holds cap (fed ++ bytes) (record t { total = t.total + length bytes; truncated = true })
feed_over cap fed bytes t some_bytes h full = record {
  limit = h.limit;
  buf = h.buf ∙ sym (no_room cap fed bytes full);
  total = omega (arith, h.total, length-append fed bytes);
  truncated = ground (arith, length-append fed bytes);
}

feed_full :
    (t : Tee) (bytes : Text)
    → t.limit ≤ length t.buf
    → feed t bytes ≡ record t { total = t.total + length bytes; truncated = true }
unfolding feed
feed_full t bytes h = ground arith

feed_room :
    (t : Tee) (bytes : Text)
    → length t.buf < t.limit
    → feed t bytes ≡ record t {
      buf = t.buf ++ take (t.limit - length t.buf) bytes;
      total = t.total + length bytes;
      truncated = ltb (t.limit - length t.buf) (length bytes) || t.truncated;
    }
unfolding feed
feed_room t bytes h = ground arith

feed_within :
    (cap : ℕ) (fed bytes : Text) (t : Tee)
    → Holds cap fed t
    → length fed < cap
    → Holds cap (fed ++ bytes) (record t {
      buf = t.buf ++ take (t.limit - length t.buf) bytes;
      total = t.total + length bytes;
      truncated = ltb (t.limit - length t.buf) (length bytes) || t.truncated;
    })
feed_within cap fed bytes t h room = record {
  limit = h.limit;
  buf = rw (h.limit, h.buf, room_left cap fed) (sym (take-append cap fed bytes));
  total = omega (arith, h.total, length-append fed bytes);
  truncated =
      rw (h.limit, h.buf, room_left cap fed) (ground (arith, h.truncated, length-append fed bytes));
}

-- Fed with a non-empty block, the tee holds the first `cap` bytes of all it was fed, counts them all,
-- and is marked truncated exactly when they are more than `cap`.
pub feed-Holds :
    (cap : ℕ) (fed bytes : Text) (t : Tee)
    → 0 < length bytes
    → Holds cap fed t
    → Holds cap (fed ++ bytes) (feed t bytes)
feed-Holds cap fed bytes t some_bytes h = elim (dec_lt (length fed) cap) [
  | yes room ↦
      rw (feed_room t bytes (omega (arith, h.limit, length_buf)))
        (feed_within cap fed bytes t h room)
  | no full ↦
      rw (feed_full t bytes (omega (arith, h.limit, length_buf)))
        (feed_over cap fed bytes t some_bytes h (omega arith))
]
  where
    length_buf : length t.buf ≡ min cap (length fed)
    length_buf = ap length h.buf ∙ length-take cap fed
