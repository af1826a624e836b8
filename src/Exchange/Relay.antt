-- ===== src/Exchange/Relay.antt =====
-- `_relay` of services/proxy/decrypt0rx_proxy/proxy.py: bytes are copied until the end of the stream, or until
-- the other side is reset. The loop runs on fuel: a round takes at least one byte, so one more than
-- what is left of the stream is enough. The end of the stream is passed on by `write_eof`, which the
-- model of a writer leaves out.
use decrypt0r_x.Prelude.{ℕ, zero, suc, ◌+◌, [], ◌∷◌, Option, length}
use decrypt0r_x.Result.{Result, ok, err, out_of_fuel}
use decrypt0r_x.Http1.Stream.{Reader, Writer, read, write, drain}

abbrev pub relay_chunk : ℕ
relay_chunk = 65536

-- the number of bytes, and the streams as the loop leaves them; `total` counts a block that a reset
-- drain may have lost
unfoldable pub relay : ℕ → Reader → Option Writer → ℕ → Result (ℕ × Reader × Option Writer)
relay zero r w total = err out_of_fuel
relay (suc fuel) r w total =
    let (block, r') = read relay_chunk r in
    elim block [
      | [] ↦ ok (total, r', w)
      | c ∷ more ↦ elim (drain (write (c ∷ more) w)) [
        | err raised ↦ ok (total + length (c ∷ more), r', write (c ∷ more) w)
        | ok w' ↦ relay fuel r' w' (total + length (c ∷ more))
      ]
    ]

unfoldable pub relay_all : Reader → Option Writer → Result (ℕ × Reader × Option Writer)
unfolding relay
relay_all r w = relay (suc (length r.rest)) r w 0
