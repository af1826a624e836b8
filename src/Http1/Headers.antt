-- ===== src/Http1/Headers.antt =====
-- `Headers` of services/proxy/decrypt0rx_proxy/http1.py: a case-insensitive multi-map that keeps
-- the order and the casing of its items.
pub mod Lookup
pub mod Hops
use decrypt0r_x.Prelude.{
  ℕ, Bool, true, false, not, ◌&&◌, List, [], ◌∷◌, ◌++◌, Option, none, some, if◌then◌else◌, select,
}
use decrypt0r_x.Text.{Text, codes, text_eq, member, lower, strip, split_on}

pub record Headers : Type 0 where
  pub items : List (Text × Text)

-- the test of every loop: `key.lower() == lowered`
abbrev pub named : Text → Text × Text → Bool
named lowered (key, value) = text_eq (lower key) lowered

-- the loop of `get`, with the lowered name
abbrev pub first_value : Text → List (Text × Text) → Option Text
first_value lowered [] = none
first_value lowered ((key, value) ∷ items) =
    if text_eq (lower key) lowered then some value else first_value lowered items

-- `get(name)` with the default `None`
unfoldable pub get : Headers → Text → Option Text
get h name = first_value (lower name) h.items

abbrev pub values : List (Text × Text) → List Text
values [] = []
values ((key, value) ∷ items) = value ∷ values items

unfoldable pub get_all : Headers → Text → List Text
get_all h name = values (select (named (lower name)) h.items)

unfoldable pub remove : Headers → Text → Headers
remove h name = record { items = select (λ item. not (named (lower name) item)) h.items }

unfoldable pub set : Headers → Text → Text → Headers
unfolding remove
set h name value = record { items = (remove h name).items ++ (name, value) ∷ [] }

abbrev pub comma_blank : Text
comma_blank = codes ", "

-- `out[key] = f"{out[key]}, {value}" if key in out else value`: a key keeps its place
pub add_entry : Text → Text → List (Text × Text) → List (Text × Text)
add_entry key value [] = (key, value) ∷ []
add_entry key value ((k, v) ∷ out) =
    if text_eq k key then (k, v ++ comma_blank ++ value) ∷ out else (k, v) ∷ add_entry key value out

pub to_dict_from : List (Text × Text) → List (Text × Text) → List (Text × Text)
to_dict_from out [] = out
to_dict_from out ((key, value) ∷ items) = to_dict_from (add_entry key value out) items

-- the dictionary, in the order of insertion
unfoldable pub to_dict : Headers → List (Text × Text)
unfolding to_dict_from add_entry
to_dict h = to_dict_from [] h.items

abbrev pub crlf : Text
crlf = 13 ∷ 10 ∷ []

abbrev pub serialize_items : List (Text × Text) → Text
serialize_items [] = []
serialize_items ((key, value) ∷ items) =
    (key ++ codes ": " ++ value ++ crlf) ++ serialize_items items

-- Latin-1 text is its own encoding
unfoldable pub serialize : Headers → Text
serialize h = serialize_items h.items

abbrev pub hop_by_hop : List Text
hop_by_hop =
    codes "proxy-connection"
    ∷ codes "proxy-authenticate"
    ∷ codes "proxy-authorization"
    ∷ codes "keep-alive"
    ∷ codes "te"
    ∷ codes "trailer"
    ∷ []

abbrev pub kept_tokens : List Text
kept_tokens = codes "close" ∷ codes "keep-alive" ∷ codes "upgrade" ∷ []

-- `token and token not in (…)`
unfoldable pub dropped_token : Text → Bool
dropped_token [] = false
dropped_token (c ∷ token) = not (member (c ∷ token) kept_tokens)

-- the tokens that one value of `Connection` adds to `drop`
abbrev pub add_tokens : List Text → List Text → List Text
add_tokens [] drop = drop
add_tokens (part ∷ parts) drop =
    let token = lower (strip part) in
    add_tokens parts (if dropped_token token then token ∷ drop else drop)

abbrev pub collect : List Text → List Text → List Text
collect [] drop = drop
collect (value ∷ rest) drop = collect rest (add_tokens (split_on b',' value) drop)

-- the set `drop` of `strip_hop_by_hop`
unfoldable pub drop_set : Headers → List Text
unfolding get_all dropped_token
drop_set h = collect (get_all h (codes "connection")) hop_by_hop

unfoldable pub strip_hop_by_hop : Headers → Headers
unfolding drop_set
strip_hop_by_hop h =
    let drop = drop_set h in
    record { items = select (λ item. not (member (lower item.0) drop)) h.items }
