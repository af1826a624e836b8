-- ===== src/SecretBox.antt =====
-- packages/core/decrypt0rx_core/crypto.py: the envelope of the secrets at rest. AES-GCM and the decoders of Python's
-- standard library are the interface `Cipher`; the nonce is what the system's generator gives.
pub mod Envelope
use decrypt0r_x.Prelude.{
  ℕ, Bool, true, false, not, List, [], ◌∷◌, ◌++◌, Option, none, some, if◌then◌else◌, length, ◌==◌,
}
use decrypt0r_x.Text.{Text, codes, text_eq, strip, split_on}

-- the `CryptoError`s, by their cause
pub data CryptoError : Type 0 where
  not_set bad_master_key malformed unsupported_version cannot_decrypt : CryptoError

pub data Result {ℓ} (A : Type ℓ) : Type ℓ where
  ok : A → Result A
  raises : CryptoError → Result A

pub record Cipher : Type 0 where
  -- `AESGCM(key).encrypt(nonce, plaintext, aad)`
  pub seal : Text → Text → Text → Option Text → Text
  -- `AESGCM(key).decrypt(nonce, blob, aad)`; `none` is its exception
  pub unseal : Text → Text → Text → Option Text → Option Text
  -- `base64.b64encode(bytes).decode()`
  pub b64encode : Text → Text
  -- `base64.b64decode(text)`; `none` is its exception
  pub b64decode : Text → Option Text
  -- `bytes.fromhex(text)`; `none` is a `ValueError`
  pub fromhex : Text → Option Text

pub record SecretBox : Type 0 where
  pub key : Text

abbrev pub version_1 : Text
version_1 = codes "v1"

module _ (cipher : Cipher) where
  open cipher use {seal, unseal, b64encode, b64decode, fromhex}

  -- one round over the decoders: a key of 32 bytes, or what the later ones give
  abbrev pub or_next : Option Text → Result Text → Result Text
  or_next none later = later
  or_next (some key) later = if length key == 32 then ok key else later

  unfoldable pub load_master_key : Text → Result Text
  load_master_key [] = raises not_set
  load_master_key (c ∷ raw) =
      or_next (b64decode (strip (c ∷ raw)))
        (or_next (fromhex (strip (c ∷ raw))) (raises bad_master_key))

  -- `SecretBox(master_key)`
  unfoldable pub new_box : Text → Result SecretBox
  new_box master_key =
      if length master_key == 32 then ok (record { key = master_key }) else raises bad_master_key

  abbrev pub box_of : Result Text → Result SecretBox
  box_of (ok key) = new_box key
  box_of (raises e) = raises e

  unfoldable pub from_settings : Text → Result SecretBox
  unfolding load_master_key new_box
  from_settings raw_key = box_of (load_master_key raw_key)

  -- `":".join((prefix, nonce, blob))`
  abbrev pub envelope : Text → Text → Text
  envelope nonce_b64 blob_b64 = version_1 ++ b':' ∷ (nonce_b64 ++ b':' ∷ blob_b64)

  -- `encrypt(plaintext, aad=aad)`, with the nonce that it draws
  unfoldable pub encrypt : SecretBox → Text → Text → Option Text → Text
  encrypt box nonce plaintext aad =
      envelope (b64encode nonce) (b64encode (seal box.key nonce plaintext aad))

  -- the two decodings and the cipher, inside the `try`
  abbrev pub opened : Option Text → Result Text
  opened none = raises cannot_decrypt
  opened (some plaintext) = ok plaintext

  abbrev pub open_parts : SecretBox → Option Text → Option Text → Option Text → Option Text
  open_parts box none blob aad = none
  open_parts box (some nonce) none aad = none
  open_parts box (some nonce) (some blob) aad = unseal box.key nonce blob aad

  abbrev pub decrypt_parts : SecretBox → List Text → Option Text → Result Text
  decrypt_parts box (version ∷ nonce_b64 ∷ blob_b64 ∷ []) aad =
      if text_eq version version_1
      then opened (open_parts box (b64decode nonce_b64) (b64decode blob_b64) aad)
      else raises unsupported_version
  decrypt_parts box parts aad = raises malformed

  -- `decrypt(payload, aad=aad)`
  unfoldable pub decrypt : SecretBox → Text → Option Text → Result Text
  decrypt box payload aad = decrypt_parts box (split_on b':' payload) aad
