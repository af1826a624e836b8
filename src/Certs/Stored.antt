-- ===== src/Certs/Stored.antt =====
-- A key on its way from the control plane to the data plane: encrypted by the API, stored, decrypted by the proxy.
use decrypt0r_x.Prelude.{
  ℕ, ◌≡◌, refl, ap, sym, ◌∙◌, Bool, true, false, List, [], ◌∷◌, ◌++◌, Option, none, some,
  if◌then◌else◌, ◌==◌, arith, Bool-cases, inl, inr, ==_refl,
}
use decrypt0r_x.Text.{Text}
use decrypt0r_x.Models.{User, generated, CertificateAuthority}
use decrypt0r_x.Http1.Heads.Lines.{absent}
use decrypt0r_x.Api.Reply.{reply_same, reply, http_error}
use decrypt0r_x.Pki.{RootCa}
use decrypt0r_x.Api.Authorities.{
  Db, deactivate_others, has_name, new_row, store_ca, generate_ca, Outcome,
}
use decrypt0r_x.Api.Authorities.Active.{IsWellFormed, count_id}
use decrypt0r_x.SecretBox.{Cipher, SecretBox, Result, ok, raises, encrypt, decrypt}
use decrypt0r_x.SecretBox.Envelope.{decrypt-encrypt}
use decrypt0r_x.Certs.{
  Tls, Settings, Provider, highest, loaded_is, forge_from, forge_of, install, load_found, load,
}

-- the last row is the one that stays active
highest-last :
    (cas : List CertificateAuthority) (ca : CertificateAuthority)
    → count_id ca.id cas ≡ 0
    → ca.is_active ≡ true
    → highest none (deactivate_others ca.id (cas ++ ca ∷ [])) ≡ some ca
unfolding deactivate_others
highest-last [] ca h active = rw (==_refl ca.id) (if_active ca.is_active active)
  where
    if_active : (b : Bool) → b ≡ true → (if b then some ca else none) ≡ some ca
    if_active true e = refl
    if_active false e = cc
highest-last (c ∷ cas) ca h active = elim (Bool-cases (c.id == ca.id)) [
  | inl same ↦ absurd (ground arith)
  | inr other ↦ rw other (highest-last cas ca (ground arith) active)
]

-- `.decode()` of what the box decrypts; `none` is a `CryptoError`
abbrev pub plaintext : Result Text → Option Text
plaintext (ok bytes) = some bytes
plaintext (raises e) = none

module _ (lib : Tls) (cipher : Cipher)
    (text_law : (t : Text) → absent 58 (cipher.b64encode t) ≡ true)
    (base64_law : (t : Text) → cipher.b64decode (cipher.b64encode t) ≡ some t)
    (cipher_law : (key nonce message : Text) (aad : Option Text)
      → cipher.unseal key nonce (cipher.seal key nonce message aad) aad ≡ some message)
    (box : SecretBox) (nonce : Text)
    (same_box : (token aad : Text)
      → lib.decrypt token aad ≡ plaintext (decrypt cipher box token (some aad))) where
  -- the API's encryption, with the nonce that it draws
  abbrev pub sealed : Text → Text → Text
  sealed message aad = encrypt cipher box nonce message (some aad)

  abbrev row_of : Text → Text → RootCa → User → Db → CertificateAuthority
  row_of client_ip name root actor db =
      new_row sealed client_ip name root true generated actor db.next_id

  -- the row and the table of a creation that is accepted
  generate_ca-row :
      (client_ip name : Text) (root : RootCa) (actor : User) (db db' : Db)
      (ca : CertificateAuthority) (event : Option ℕ)
      → generate_ca sealed client_ip name true root actor db ≡ (reply ca, db', event)
      → (row_of client_ip name root actor db ≡ ca)
        × (deactivate_others db.next_id (db.authorities ++ row_of client_ip name root actor db ∷ [])
            ≡ db'.authorities)
  unfolding generate_ca store_ca
  generate_ca-row client_ip name root actor db db' ca event made =
      elim (Bool-cases (has_name name db.authorities)) [
        | inl taken ↦ let e = ap (λ (x : Outcome). x.0) (rw taken at made) in absurd (never e)
        | inr free ↦
            let e = rw free at made in
            (reply_same (ap (λ (x : Outcome). x.0) e), ap (λ (x : Outcome). x.1.authorities) e)
      ]
    where
      never : http_error 409 ≡ reply ca → ⊥
      never e = cc

  forge_of-row :
      (client_ip name : Text) (root : RootCa) (actor : User) (db : Db) (settings : Settings)
      → forge_of lib settings (row_of client_ip name root actor db)
        ≡ lib.new_forge root.cert_pem root.key_pem settings.leaf_key_algorithm
  forge_of-row client_ip name root actor db settings =
      ap (forge_from lib settings (row_of client_ip name root actor db)) (
        same_box (sealed root.key_pem root.fingerprint) root.fingerprint
        ∙ ap plaintext (
            decrypt-encrypt cipher text_law base64_law cipher_law box nonce root.key_pem
              (some root.fingerprint)))

  -- Where the proxy has the master key of the API, base64 and the cipher give back what they have encoded and sealed, and
  -- the table is well formed: once the API has generated an authority and made it active, a proxy that has not
  -- loaded an authority with this fingerprint loads this one, with the private key that was generated.
  pub load-generate_ca :
      (client_ip name : Text) (root : RootCa) (actor : User) (db db' : Db)
      (ca : CertificateAuthority) (event : Option ℕ) (settings : Settings) (p : Provider lib)
      (f : lib.Forge)
      → IsWellFormed db
      → generate_ca sealed client_ip name true root actor db ≡ (reply ca, db', event)
      → lib.new_forge root.cert_pem root.key_pem settings.leaf_key_algorithm ≡ some f
      → loaded_is p.fingerprint root.fingerprint ≡ false
      → load lib settings db'.authorities p ≡ some (install lib ca f p)
  unfolding generate_ca store_ca load
  load-generate_ca client_ip name root actor db db' ca event settings p f well made forged other =
      let row = row_of client_ip name root actor db in
      let (is_row, table) = generate_ca-row client_ip name root actor db db' ca event made in
      let newest : highest none db'.authorities ≡ some row =
        ap (highest none) (sym table)
        ∙ highest-last db.authorities row (well.fresh db.next_id (omega arith)) refl in
      let forge : forge_of lib settings row ≡ some f =
        forge_of-row client_ip name root actor db settings ∙ forged in
      ap (λ o. load_found lib settings o p) newest
      ∙ (rw (other, forge, ap (λ c. install lib c f p) is_row))
