-- ===== src/Http1/Headers/Hops.antt =====
-- What `strip_hop_by_hop` removes and what it leaves.
use decrypt0r_x.Prelude.{
  ◌≡◌, refl, Bool, true, false, not, List, [], ◌∷◌, ◌++◌, ◌&&◌, ◌||◌, inl, inr, none, if◌then◌else◌,
  select, arith, Bool-cases,
}
use decrypt0r_x.Text.{Text, codes, text_eq, member, lower, strip, split_on}
use decrypt0r_x.Text.Laws.{text_eq→eq, text_eq_iff}
use decrypt0r_x.Http1.Headers.{
  Headers, first_value, get, get_all, hop_by_hop, dropped_token, add_tokens, collect, drop_set,
  strip_hop_by_hop,
}

first_value-kept :
    (drop : List Text) (name : Text) (items : List (Text × Text))
    → first_value name (select (λ item. not (member (lower item.0) drop)) items)
      ≡ (if member name drop then none else first_value name items)
first_value-kept drop name [] = ground arith
first_value-kept drop name ((key, value) ∷ items) =
    ground (arith, first_value-kept drop name items, text_eq_iff (lower key) name)

-- After `strip_hop_by_hop` a name is gone exactly when its lower case is in the drop set, and every
-- other name reads as before.
pub get-strip_hop_by_hop :
    (h : Headers) (name : Text)
    → get (strip_hop_by_hop h) name
      ≡ (if member (lower name) (drop_set h) then none else get h name)
unfolding get strip_hop_by_hop
get-strip_hop_by_hop h name = first_value-kept (drop_set h) (lower name) h.items

-- every token that a list of `Connection` values names
abbrev part_tokens : List Text → List Text
part_tokens [] = []
part_tokens (part ∷ parts) = lower (strip part) ∷ part_tokens parts

abbrev value_tokens : List Text → List Text
value_tokens [] = []
value_tokens (value ∷ rest) = part_tokens (split_on b',' value) ++ value_tokens rest

abbrev pub connection_tokens : Headers → List Text
connection_tokens h = value_tokens (get_all h (codes "connection"))

member-append : (t : Text) (xs ys : List Text) → member t (xs ++ ys) ≡ (member t xs || member t ys)
member-append t [] ys = refl
member-append t (x ∷ xs) ys = ground (arith, member-append t xs ys)

member-if :
    (b : Bool) (t u : Text) (drop : List Text)
    → member t (if b then u ∷ drop else drop) ≡ (member t drop || (b && text_eq t u))
member-if true t u drop = ground arith
member-if false t u drop = ground arith

-- the test on `u` is the test on `t` where it matters
same_test : (t u : Text) → (dropped_token u && text_eq t u) ≡ (dropped_token t && text_eq t u)
same_test t u = elim (Bool-cases (text_eq t u)) [
  | inl same ↦ rw (text_eq→eq t u same)
  | inr other ↦ rw other (ground arith)
]

member-add_token :
    (t u : Text) (drop : List Text)
    → member t (if dropped_token u then u ∷ drop else drop)
      ≡ (member t drop || (dropped_token t && text_eq t u))
member-add_token t u drop = rw (member-if (dropped_token u) t u drop, same_test t u)

distribute : (m d s p : Bool) → ((m || (d && s)) || (d && p)) ≡ (m || (d && (s || p)))
distribute m d s p = ground arith

member-add_tokens :
    (t : Text) (parts drop : List Text)
    → member t (add_tokens parts drop)
      ≡ (member t drop || (dropped_token t && member t (part_tokens parts)))
member-add_tokens t [] drop = ground arith
member-add_tokens t (part ∷ parts) drop =
    let token = lower (strip part) in
    rw (
      member-add_tokens t parts (if dropped_token token then token ∷ drop else drop),
      member-add_token t token drop,
      distribute (member t drop) (dropped_token t) (text_eq t token) (member t (part_tokens parts)),
    )

member-collect :
    (t : Text) (vs drop : List Text)
    → member t (collect vs drop)
      ≡ (member t drop || (dropped_token t && member t (value_tokens vs)))
member-collect t [] drop = ground arith
member-collect t (value ∷ rest) drop =
    let parts = split_on b',' value in
    rw (
      member-collect t rest (add_tokens parts drop),
      member-add_tokens t parts drop,
      member-append t (part_tokens parts) (value_tokens rest),
      distribute (member t drop) (dropped_token t) (member t (part_tokens parts))
          (member t (value_tokens rest)),
    )

-- After `strip_hop_by_hop`, `get` finds nothing under a name whose lower case is one of the six
-- hop-by-hop names, or a token of some `Connection` value other than `close`, `keep-alive`,
-- `upgrade` and the empty one, and finds under every other name what it found before.
pub get-strip_tokens :
    (h : Headers) (name : Text)
    → get (strip_hop_by_hop h) name ≡ (
        if member (lower name) hop_by_hop
          || (dropped_token (lower name) && member (lower name) (connection_tokens h))
        then none
        else get h name)
unfolding drop_set
get-strip_tokens h name = rw (
  get-strip_hop_by_hop h name,
  member-collect (lower name) (get_all h (codes "connection")) hop_by_hop,
)
