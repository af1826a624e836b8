-- ===== src/Proxy/Authority.antt =====
-- `valid_host` and `parse_authority` of services/proxy/decrypt0rx_proxy/proxy.py.
use decrypt0r_x.Prelude.{
  ℕ, ◌+◌, Bool, false, not, ◌&&◌, ◌||◌, [], ◌∷◌, Option, none, some, if◌then◌else◌, length, all,
  ltb, leb, ◌==◌,
}
use decrypt0r_x.Prelude.Int.{ℤ, pos, negsuc}
use decrypt0r_x.Text.{Text, codes, lower, is_space, split_on, partition, drop_while, starts_with}
use decrypt0r_x.Text.Number.{py_int}

abbrev pub last_is : ℕ → Text → Bool
last_is c [] = false
last_is c (x ∷ []) = x == c
last_is c (x ∷ y ∷ t) = last_is c (y ∷ t)

-- the text without its last character
abbrev pub but_last : Text → Text
but_last [] = []
but_last (x ∷ []) = []
but_last (x ∷ y ∷ t) = x ∷ but_last (y ∷ t)

abbrev pub label_char : ℕ → Bool
label_char c =
    leb b'A' c && leb c b'Z'
    || leb b'a' c && leb c b'z'
    || leb b'0' c && leb c b'9'
    || c == b'-'
    || c == b'_'

-- `(?!-)[A-Za-z0-9-_]{1,63}(?<!-)`
abbrev pub is_label : Text → Bool
is_label t =
    leb 1 (length t)
    && leb (length t) 63
    && all label_char t
    && not (starts_with (codes "-") t)
    && not (last_is b'-' t)

-- `$` also matches before a last line feed
abbrev pub before_end : Text → Text
before_end t = if last_is 10 t then but_last t else t

-- `_HOSTNAME_RE`: labels between dots, and perhaps a last dot
unfoldable pub hostname_matches : Text → Bool
hostname_matches host =
    let t = before_end host in
    leb 1 (length t)
    && leb (length t) 253
    && all is_label (split_on b'.' (if last_is b'.' t then but_last t else t))

abbrev pub count_char : ℕ → Text → ℕ
count_char c [] = 0
count_char c (x ∷ t) = let n = count_char c t in if x == c then n + 1 else n

abbrev pub is_colon : ℕ → Bool
is_colon c = c == b':'

-- a number that may be missing
abbrev pub port_or : ℕ → Text → Option ℤ
port_or default_port [] = some (pos default_port)
port_or default_port (c ∷ t) = py_int 10 is_space (c ∷ t)

-- the host and the rest behind a bracket; without the second bracket, all is the host
abbrev pub bracketed : Option (Text × Text) → Text → Text × Text
bracketed none t = (t, [])
bracketed (some (host, rest)) t = (host, rest)

-- `host, _, port_text = authority.partition(":")`
abbrev pub colon_parts : Option (Text × Text) → Text → Text × Text
colon_parts none t = (t, [])
colon_parts (some parts) t = parts

abbrev pub after_first : Text → Text
after_first [] = []
after_first (c ∷ t) = t

abbrev pub bracket_parts : ℕ → Text × Text → Text × Option ℤ
bracket_parts default_port (host, rest) = (host, port_or default_port (drop_while is_colon rest))

abbrev pub number_parts : Text × Text → Text × Option ℤ
number_parts (host, port_text) = (host, py_int 10 is_space port_text)

-- the three ways to split a target
unfoldable pub split_authority : ℕ → Text → Text × Option ℤ
split_authority default_port t =
    if starts_with (codes "[") t
    then bracket_parts default_port (bracketed (partition b']' (after_first t)) (after_first t))
    else if count_char b':' t == 1
    then number_parts (colon_parts (partition b':' t) t)
    else (t, some (pos default_port))

-- `0 < port < 65536`
abbrev pub valid_port : ℤ → Bool
valid_port (pos n) = ltb 0 n && ltb n 65536
valid_port (negsuc n) = false

abbrev pub port_number : ℤ → ℕ
port_number (pos n) = n
port_number (negsuc n) = 0

-- `ipaddress.ip_address(host)` is a parameter: it returns or it raises
module _ (is_address : Text → Bool) where
  -- without the brackets of `[…]`
  abbrev pub unbracketed : Text → Text
  unbracketed [] = []
  unbracketed (c ∷ t) = if c == b'[' && last_is b']' (c ∷ t) then but_last t else c ∷ t

  unfoldable pub valid_host : Text → Bool
  unfolding hostname_matches
  valid_host [] = false
  valid_host (c ∷ t) =
      let host = unbracketed (c ∷ t) in
      if ltb 253 (length (c ∷ t)) then false else is_address host || hostname_matches host

  abbrev pub checked : Text × Option ℤ → Option (Text × ℕ)
  checked (host, none) = none
  checked (host, some port) =
      if not (valid_host host)
      then none
      else if not (valid_port port)
      then none
      else some (lower host, port_number port)

  -- `parse_authority(authority, default_port)`; `none` is a `ValueError`
  unfoldable pub parse_authority : Text → ℕ → Option (Text × ℕ)
  unfolding valid_host split_authority
  parse_authority authority default_port = checked (split_authority default_port authority)
