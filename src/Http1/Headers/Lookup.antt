-- ===== src/Http1/Headers/Lookup.antt =====
-- What `get` reads after `set` and `remove`, and the dictionary that `to_dict` builds.
use decrypt0r_x.Prelude.{
  ◌≡◌, refl, Bool, not, List, [], ◌∷◌, ◌++◌, none, some, if◌then◌else◌, select, arith,
}
use decrypt0r_x.Text.{Text, text_eq, lower}
use decrypt0r_x.Text.Laws.{text_eq_iff}
use decrypt0r_x.Http1.Headers.{Headers, named, first_value, get, remove, set}

abbrev others : Text → Text × Text → Bool
others lowered item = not (named lowered item)

first_value-others :
    (name other : Text) (items : List (Text × Text))
    → first_value other (select (others name) items)
      ≡ (if text_eq name other then none else first_value other items)
first_value-others name other [] = ground arith
first_value-others name other ((key, value) ∷ items) = ground (
  arith,
  first_value-others name other items,
  text_eq_iff (lower key) name,
  text_eq_iff (lower key) other,
  text_eq_iff name other,
)

first_value-append :
    (name : Text) (items more : List (Text × Text))
    → first_value name (items ++ more)
      ≡ elim (first_value name items) [ none ↦ first_value name more | some v ↦ some v ]
first_value-append name [] more = refl
first_value-append name ((key, value) ∷ items) more =
    ground (arith, first_value-append name items more)

-- After `remove(name)`, `get` finds nothing under `name` in any casing, and finds under every other
-- name what it found before.
pub get-remove :
    (h : Headers) (name other : Text)
    → get (remove h name) other ≡ (if text_eq (lower name) (lower other) then none else get h other)
unfolding get remove
get-remove h name other = first_value-others (lower name) (lower other) h.items

-- After `set(name, value)`, `get` returns `value` under `name` in any casing, whatever duplicates
-- there were, and under every other name what it returned before.
pub get-set :
    (h : Headers) (name value other : Text)
    → get (set h name value) other
      ≡ (if text_eq (lower name) (lower other) then some value else get h other)
unfolding get set
get-set h name value other = ground (
  arith,
  first_value-append (lower other) (select (others (lower name)) h.items) ((name, value) ∷ []),
  first_value-others (lower name) (lower other) h.items,
)
