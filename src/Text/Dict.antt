-- ===== src/Text/Dict.antt =====
-- Python's dictionaries from texts, in their order: the oldest entry first.
use decrypt0r_x.Prelude.{List, [], ◌∷◌, ◌++◌, Option, none, some, if◌then◌else◌, ◌≡◌, refl, arith}
use decrypt0r_x.Text.{Text, text_eq}
use decrypt0r_x.Text.Laws.{text_eq_iff}

module _ {V : Type 0} where
  abbrev pub find : Text → List (Text × V) → Option V
  find key [] = none
  find key ((k, v) ∷ d) = if text_eq k key then some v else find key d

  abbrev pub without : Text → List (Text × V) → List (Text × V)
  without key [] = []
  without key ((k, v) ∷ d) =
      let rest = without key d in if text_eq k key then rest else (k, v) ∷ rest

  -- `d[key] = value`: a key that is there keeps its place
  abbrev pub assign : Text → V → List (Text × V) → List (Text × V)
  assign key value [] = (key, value) ∷ []
  assign key value ((k, v) ∷ d) =
      let rest = assign key value d in if text_eq k key then (k, value) ∷ d else (k, v) ∷ rest

  -- `move_to_end(key)` for a key that is there with this value
  abbrev pub to_end : Text → V → List (Text × V) → List (Text × V)
  to_end key value d = without key d ++ (key, value) ∷ []

  -- `d.get` after `d[key] = value`
  pub find-assign :
      (key other : Text) (value : V) (d : List (Text × V))
      → find other (assign key value d) ≡ (if text_eq key other then some value else find other d)
  find-assign key other value [] = refl
  find-assign key other value ((k, v) ∷ d) = ground (
    arith,
    find-assign key other value d,
    text_eq_iff k key,
    text_eq_iff k other,
    text_eq_iff key other,
  )

  pub find-without :
      (key other : Text) (d : List (Text × V))
      → find other (without key d) ≡ (if text_eq key other then none else find other d)
  find-without key other [] = ground arith
  find-without key other ((k, v) ∷ d) = ground (
    arith,
    find-without key other d,
    text_eq_iff k key,
    text_eq_iff k other,
    text_eq_iff key other,
  )
