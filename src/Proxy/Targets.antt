-- ===== src/Proxy/Targets.antt =====
-- What `parse_authority` lets through.
use decrypt0r_x.Prelude.{
  some_same, ℕ, ◌<◌, ◌≡◌, ap, sym, ◌∷◌, [], Bool, true, Option, none, some, arith, ltb, Bool-cases,
  inl, inr, length, ◌≤◌,
}
use decrypt0r_x.Prelude.Int.{ℤ, pos, negsuc}
use decrypt0r_x.Text.{Text, lower}
use decrypt0r_x.Proxy.Authority.{
  split_authority, valid_port, port_number, valid_host, checked, parse_authority,
}

module _ (is_address : Text → Bool) where
  valid_port-bounds :
      (port : ℤ) → valid_port port ≡ true → (0 < port_number port) × (port_number port < 65536)
  valid_port-bounds (pos n) h = (ground arith, ground arith)
  valid_port-bounds (negsuc n) h = cc

  checked_sound :
      (parts : Text × Option ℤ) (host : Text) (port : ℕ)
      → checked is_address parts ≡ some (host, port)
      → (name : Text) × (host ≡ lower name)
        × (valid_host is_address name ≡ true)
        × (0 < port)
        × (port < 65536)
  checked_sound (name, none) host port h = cc
  checked_sound (name, some p) host port h = elim (Bool-cases (valid_host is_address name)) [
    | inr bad ↦ cc (rw bad at h)
    | inl good ↦ elim (Bool-cases (valid_port p)) [
      | inr bad ↦ cc (rw (good, bad) at h)
      | inl right ↦
          let same : some (lower name, port_number p) ≡ some (host, port) = rw (good, right) at h in
          let (least, most) = valid_port-bounds p right in
          let number : port_number p ≡ port = ap (λ x. x.1) (some_same same) in
          (name, ap (λ x. x.0) (some_same (sym same)), good, rw number at least, rw number at most)
    ]
  ]

  valid_host-length :
      (host : Text) → valid_host is_address host ≡ true → (1 ≤ length host) × (length host ≤ 253)
  unfolding valid_host
  valid_host-length [] h = cc
  valid_host-length (c ∷ t) h = elim (Bool-cases (ltb 253 (length (c ∷ t)))) [
    | inl long ↦ cc (rw long at h)
    | inr short ↦ (ground arith, ground arith)
  ]

  -- A target that parses gives the lower case of a host that is valid, of 1 to 253 characters, and a port
  -- from 1 to 65535.
  pub parse_authority_sound :
      (authority : Text) (default_port : ℕ) (host : Text) (port : ℕ)
      → parse_authority is_address authority default_port ≡ some (host, port)
      → (name : Text) × (host ≡ lower name)
        × (valid_host is_address name ≡ true)
        × (1 ≤ length name)
        × (length name ≤ 253)
        × (0 < port)
        × (port < 65536)
  unfolding parse_authority
  parse_authority_sound authority default_port host port h =
      let (name, lowered, valid, least, most) =
        checked_sound (split_authority default_port authority) host port h in
      let (some_text, short) = valid_host-length name valid in
      (name, lowered, valid, some_text, short, least, most)
