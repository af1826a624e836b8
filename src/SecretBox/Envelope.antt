-- ===== src/SecretBox/Envelope.antt =====
-- A secret that was encrypted, and the master key.
use decrypt0r_x.Prelude.{
  ◌≡◌, refl, ap, sym, ◌∙◌, subst, true, ◌⊎◌, inl, inr, [], ◌∷◌, ◌++◌, Option, none, some,
  if◌then◌else◌, length, ◌==◌, ==_iff, Bool-cases,
}
use decrypt0r_x.Text.{Text, strip, split_on}
use decrypt0r_x.Http1.Heads.Lines.{absent}
use decrypt0r_x.Text.Split.{split_on-absent, split_on-append}
use decrypt0r_x.SecretBox.{
  CryptoError, bad_master_key, Result, ok, raises, Cipher, SecretBox, version_1, or_next,
  load_master_key, new_box, box_of, from_settings, envelope, encrypt, decrypt,
}

module _ (cipher : Cipher) where
  open cipher use {seal, unseal, b64encode, b64decode, fromhex}

  -- the parts of an envelope
  parts :
      (nonce blob : Text)
      → absent 58 (b64encode nonce) ≡ true
      → absent 58 (b64encode blob) ≡ true
      → split_on 58 (envelope cipher (b64encode nonce) (b64encode blob))
        ≡ version_1 ∷ b64encode nonce ∷ b64encode blob ∷ []
  parts nonce blob h k =
      split_on-append 58 version_1 (b64encode nonce ++ 58 ∷ b64encode blob) refl
      ∙ ap (◌∷◌ version_1) (
          split_on-append 58 (b64encode nonce) (b64encode blob) h
          ∙ ap (◌∷◌ (b64encode nonce)) (split_on-absent 58 (b64encode blob) k))

  -- Where base64 has no colon and gives back what it has encoded, and the cipher opens what it has sealed with the same
  -- key, nonce and associated data, a secret that was encrypted is decrypted to itself with them.
  pub decrypt-encrypt :
      (text_law : (t : Text) → absent 58 (b64encode t) ≡ true)
      (base64_law : (t : Text) → b64decode (b64encode t) ≡ some t)
      (cipher_law : (key nonce plaintext : Text) (aad : Option Text)
        → unseal key nonce (seal key nonce plaintext aad) aad ≡ some plaintext)
      (box : SecretBox) (nonce plaintext : Text) (aad : Option Text)
      → decrypt cipher box (encrypt cipher box nonce plaintext aad) aad ≡ ok plaintext
  unfolding decrypt encrypt
  decrypt-encrypt text_law base64_law cipher_law box nonce plaintext aad =
      let blob = seal box.key nonce plaintext aad in
      rw (
        parts nonce blob (text_law nonce) (text_law blob),
        base64_law nonce,
        base64_law blob,
        cipher_law box.key nonce plaintext aad,
      )

  -- the key of a box has 32 bytes, and is the setting decoded
  abbrev pub FromSetting : Text → SecretBox → Type 0
  FromSetting raw box =
      (length box.key ≡ 32)
      × ((b64decode (strip raw) ≡ some box.key) ⊎ (fromhex (strip raw) ≡ some box.key))

  ok_same {ℓ} : {A : Type ℓ} {a b : A} → ok a ≡ ok b → a ≡ b
  ok_same h = cc

  never : {e : CryptoError} {b : SecretBox} → raises e ≡ ok b → ⊥
  never h = cc

  or_next-ok :
      (o : Option Text) (later : Result Text) (key : Text)
      → or_next cipher o later ≡ ok key
      → ((o ≡ some key) × (length key ≡ 32)) ⊎ (later ≡ ok key)
  or_next-ok none later key h = inr h
  or_next-ok (some k) later key h = elim (Bool-cases (length k == 32)) [
    | inl right ↦
        let same : k ≡ key = ok_same (rw right at h) in
        inl (ap some same, ap length (sym same) ∙ (==_iff (length k) 32).0 right)
    | inr wrong ↦ inr (rw wrong at h)
  ]

  load_master_key_sound :
      (raw key : Text)
      → load_master_key cipher raw ≡ ok key
      → FromSetting raw (record { key = key })
  unfolding load_master_key
  load_master_key_sound [] key h = cc
  load_master_key_sound (c ∷ raw) key h = elim (or_next-ok (b64decode (strip (c ∷ raw))) _ key h) [
    | inl base64 ↦ (base64.1, inl base64.0)
    | inr later ↦ elim (or_next-ok (fromhex (strip (c ∷ raw))) _ key later) [
      | inl hex ↦ (hex.1, inr hex.0)
      | inr refused ↦ cc
    ]
  ]

  -- A box from the settings holds a key of 32 bytes, which is the setting decoded from base64, or from hexadecimal digits
  -- where base64 gives no such key.
  pub from_settings-key :
      (raw : Text) (box : SecretBox) → from_settings cipher raw ≡ ok box → FromSetting raw box
  unfolding from_settings
  from_settings-key raw box h = go (load_master_key cipher raw) refl h
    where
      boxed :
          (key : Text)
          → load_master_key cipher raw ≡ ok key
          → (if length key == 32 then ok (record { key = key }) else raises bad_master_key) ≡ ok box
          → FromSetting raw box
      boxed key loaded e = elim (Bool-cases (length key == 32)) [
        | inl right ↦
            let same : record { key = key } ≡ box = ok_same (rw right at e) in
            subst (FromSetting raw) same (load_master_key_sound raw key loaded)
        | inr wrong ↦ absurd (never (rw wrong at e))
      ]

      go :
          (m : Result Text)
          → load_master_key cipher raw ≡ m
          → box_of cipher m ≡ ok box
          → FromSetting raw box
      go (ok key) loaded e = boxed key loaded (unfold new_box in e)
      go (raises error) loaded e = cc
