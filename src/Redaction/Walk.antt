-- ===== src/Redaction/Walk.antt =====
-- What `_walk_json` and the loops over pairs leave behind.
use decrypt0r_x.Prelude.{
  ◌≡◌, refl, ap, Bool, false, ◌||◌, arith, if◌then◌else◌, Bool-cases, inl, inr,
}
use decrypt0r_x.Redaction.{
  redacted, is_sensitive, Json, leaf, array, object, Items, no_items, item, Fields, no_fields,
  field, walk_json, walk_items, walk_fields,
}

-- every value under a sensitive key is the mark
mutual
  pub IsClean : Json → Type 0
  IsClean (leaf t) = Unit {0}
  IsClean (array items) = AllClean items
  IsClean (object fields) = FieldsClean fields

  pub AllClean : Items → Type 0
  AllClean no_items = Unit {0}
  AllClean (item node items) = IsClean node × AllClean items

  pub FieldsClean : Fields → Type 0
  FieldsClean no_fields = Unit {0}
  FieldsClean (field key value fields) =
      (if is_sensitive key then value ≡ leaf redacted else IsClean value) × FieldsClean fields

-- some key is sensitive, at any depth
unfoldable mutual
  pub has_secret : Json → Bool
  has_secret (leaf t) = false
  has_secret (array items) = has_secret_item items
  has_secret (object fields) = has_secret_field fields

  pub has_secret_item : Items → Bool
  has_secret_item no_items = false
  has_secret_item (item node items) = has_secret node || has_secret_item items

  pub has_secret_field : Fields → Bool
  has_secret_field no_fields = false
  has_secret_field (field key value fields) =
      is_sensitive key || has_secret value || has_secret_field fields

mutual
  unfolding walk_json IsClean

  pub walk_json-IsClean : (node : Json) → IsClean (walk_json node).0
  walk_json-IsClean (leaf t) = tt
  walk_json-IsClean (array items) = walk_items-AllClean items
  walk_json-IsClean (object fields) = walk_fields-FieldsClean fields

  pub walk_items-AllClean : (items : Items) → AllClean (walk_items items).0
  walk_items-AllClean no_items = tt
  walk_items-AllClean (item node items) = (walk_json-IsClean node, walk_items-AllClean items)

  pub walk_fields-FieldsClean : (fields : Fields) → FieldsClean (walk_fields fields).0
  walk_fields-FieldsClean no_fields = tt
  walk_fields-FieldsClean (field key value fields) = elim (Bool-cases (is_sensitive key)) [
    | inl secret ↦ rw secret (rw secret refl, walk_fields-FieldsClean fields)
    | inr open_ ↦ rw open_ (rw open_ (walk_json-IsClean value), walk_fields-FieldsClean fields)
  ]

-- the flag is whether there was a sensitive key
mutual
  unfolding walk_json has_secret

  pub walk_json-flag : (node : Json) → (walk_json node).1 ≡ has_secret node
  walk_json-flag (leaf t) = refl
  walk_json-flag (array items) = walk_items-flag items
  walk_json-flag (object fields) = walk_fields-flag fields

  pub walk_items-flag : (items : Items) → (walk_items items).1 ≡ has_secret_item items
  walk_items-flag no_items = refl
  walk_items-flag (item node items) = rw (walk_json-flag node, walk_items-flag items)

  pub walk_fields-flag : (fields : Fields) → (walk_fields fields).1 ≡ has_secret_field fields
  walk_fields-flag no_fields = refl
  walk_fields-flag (field key value fields) = elim (Bool-cases (is_sensitive key)) [
    | inl secret ↦ rw secret
    | inr open_ ↦ rw (open_, walk_json-flag value, walk_fields-flag fields)
  ]

-- a second walk changes nothing
mutual
  unfolding walk_json

  pub walk_json_idem : (node : Json) → (walk_json (walk_json node).0).0 ≡ (walk_json node).0
  walk_json_idem (leaf t) = refl
  walk_json_idem (array items) = ap array (walk_items_idem items)
  walk_json_idem (object fields) = ap object (walk_fields_idem fields)

  pub walk_items_idem : (items : Items) → (walk_items (walk_items items).0).0 ≡ (walk_items items).0
  walk_items_idem no_items = refl
  walk_items_idem (item node items) = rw (walk_json_idem node, walk_items_idem items)

  pub walk_fields_idem :
      (fields : Fields) → (walk_fields (walk_fields fields).0).0 ≡ (walk_fields fields).0
  walk_fields_idem no_fields = refl
  walk_fields_idem (field key value fields) = elim (Bool-cases (is_sensitive key)) [
    | inl secret ↦ rw secret (rw (secret, walk_fields_idem fields))
    | inr open_ ↦ rw open_ (rw (open_, walk_json_idem value, walk_fields_idem fields))
  ]

-- a node without a sensitive key stays as it is
mutual
  unfolding walk_json has_secret

  pub walk_json-same : (node : Json) → has_secret node ≡ false → (walk_json node).0 ≡ node
  walk_json-same (leaf t) h = refl
  walk_json-same (array items) h = ap array (walk_items-same items h)
  walk_json-same (object fields) h = ap object (walk_fields-same fields h)

  pub walk_items-same :
      (items : Items) → has_secret_item items ≡ false → (walk_items items).0 ≡ items
  walk_items-same no_items h = refl
  walk_items-same (item node items) h =
      rw (walk_json-same node (ground arith), walk_items-same items (ground arith))

  pub walk_fields-same :
      (fields : Fields) → has_secret_field fields ≡ false → (walk_fields fields).0 ≡ fields
  walk_fields-same no_fields h = refl
  walk_fields-same (field key value fields) h =
      let open_ : is_sensitive key ≡ false = ground arith in
      rw (open_, walk_json-same value (ground arith), walk_fields-same fields (ground arith))
