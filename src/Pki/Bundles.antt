-- ===== src/Pki/Bundles.antt =====
-- `parse_ca_bundle`: which pairs it accepts, and that it accepts what `generate_root_ca` makes.
use decrypt0r_x.Prelude.{
  some_same, ℕ, ◌≡◌, refl, sym, subst, Bool, true, false, Option, none, some, Bool-cases, inl, inr,
}
use decrypt0r_x.Text.{Text, text_eq}
use decrypt0r_x.Text.Laws.{text_eq→eq, text_eq_refl}
use decrypt0r_x.Pki.Library.{Name, KeyKind, Certificate, X509}
use decrypt0r_x.Pki.{
  micros, seconds_of, RootCa, BundleError, new_kind, algorithm_of, parsed, refused, if_given,
  root_name, root_certificate, root_of, generate_root_ca, bundle, with_basic, with_key, with_cert,
  parse_ca_bundle,
}

-- the times cut to whole seconds, under another name of the algorithm
abbrev pub in_seconds : RootCa → Text → RootCa
in_seconds root algorithm = record root {
  not_before = micros (seconds_of root.not_before);
  not_after = micros (seconds_of root.not_after);
  key_algorithm = algorithm;
}

module _ (lib : X509) where
  open lib use {
    Key, Cert, draw, kind_of, public_of, load_key, key_pem, sign, parts, load_cert, cert_pem,
  }

  -- a certificate and a key that make a signing authority, and what is returned of them
  pub record IsAuthority (cert_text key_text : Text) (passphrase : Option Text) (root : RootCa)
      : Type 0 where
    pub cert : Cert
    pub key : Key
    pub cert_loads : load_cert cert_text ≡ some cert
    pub key_loads : load_key key_text (if_given passphrase) ≡ some key
    pub matches : public_of key ≡ (parts cert).public_key
    pub path_length : Option ℕ
    pub may_sign : (parts cert).basic ≡ some (true, path_length)
    pub shown : root ≡ bundle lib cert key

  -- What `parse_ca_bundle` returns is made of a certificate and a key that were loaded from the two texts, where the
  -- key is that of the certificate, and the certificate may sign others.
  pub parse_ca_bundle_sound :
      (cert_text key_text : Text) (passphrase : Option Text) (root : RootCa)
      → parse_ca_bundle lib cert_text key_text passphrase ≡ parsed root
      → IsAuthority cert_text key_text passphrase root
  unfolding parse_ca_bundle
  parse_ca_bundle_sound cert_text key_text passphrase root h = by_cert (load_cert cert_text) refl h
    where
      never : {e : BundleError} → refused e ≡ parsed root → ⊥
      never p = cc

      same : {a : RootCa} → parsed a ≡ parsed root → a ≡ root
      same p = cc

      by_basic :
          (cert : Cert) (key : Key) (o : Option (Bool × Option ℕ))
          → load_cert cert_text ≡ some cert
          → load_key key_text (if_given passphrase) ≡ some key
          → public_of key ≡ (parts cert).public_key
          → (parts cert).basic ≡ o
          → with_basic lib cert key o ≡ parsed root
          → IsAuthority cert_text key_text passphrase root
      by_basic cert key none c k m b p = absurd (never p)
      by_basic cert key (some (false, length)) c k m b p = absurd (never p)
      by_basic cert key (some (true, length)) c k m b p = record {
        cert = cert;
        key = key;
        cert_loads = c;
        key_loads = k;
        matches = m;
        path_length = length;
        may_sign = b;
        shown = sym (same p);
      }

      by_key :
          (cert : Cert) (o : Option Key)
          → load_cert cert_text ≡ some cert
          → load_key key_text (if_given passphrase) ≡ o
          → with_key lib cert o ≡ parsed root
          → IsAuthority cert_text key_text passphrase root
      by_key cert none c k p = absurd (never p)
      by_key cert (some key) c k p =
          elim (Bool-cases (text_eq (public_of key) (parts cert).public_key)) [
            | inl equal ↦
                by_basic cert key (parts cert).basic c k
                  (text_eq→eq (public_of key) (parts cert).public_key equal) refl (rw equal at p)
            | inr differs ↦ absurd (never (rw differs at p))
          ]

      by_cert :
          (o : Option Cert)
          → load_cert cert_text ≡ o
          → with_cert lib o key_text passphrase ≡ parsed root
          → IsAuthority cert_text key_text passphrase root
      by_cert none c p = absurd (never p)
      by_cert (some cert) c p = by_key cert (load_key key_text (if_given passphrase)) c refl p

  module _ (cert_law : (c : Cert) → load_cert (cert_pem c) ≡ some c)
      (key_law : (k : Key) → load_key (key_pem k) none ≡ some k)
      (sign_law : (t : Certificate) (k : Key) (c : Cert) → sign t k ≡ some c → parts c ≡ t)
      (draw_law : (kind : KeyKind) (seed : ℕ) → kind_of (draw kind seed) ≡ kind) where
    signed :
        (kind : KeyKind) (seed : ℕ) (name : Name) (key_algorithm : Text) (serial days now : ℕ)
        (root : RootCa) (o : Option Cert)
        → sign
            (root_certificate lib name (public_of (draw kind seed)) serial days now)
            (draw kind seed)
          ≡ o
        → root_of lib name key_algorithm days now (draw kind seed) o ≡ some root
        → parse_ca_bundle lib root.cert_pem root.key_pem none
          ≡ parsed (in_seconds root (algorithm_of kind))
    unfolding parse_ca_bundle
    signed kind seed name key_algorithm serial days now root none s h = cc
    signed kind seed name key_algorithm serial days now root (some cert) s h =
        let key = draw kind seed in
        let made = root_certificate lib name (public_of key) serial days now in
        let is_made : parts cert ≡ made = sign_law made key cert s in
        let is_root = some_same h in
        subst
          (λ (r : RootCa).
            parse_ca_bundle lib r.cert_pem r.key_pem none
            ≡ parsed (in_seconds r (algorithm_of kind)))
          is_root
          (rw (
            cert_law cert,
            key_law key,
            is_made,
            text_eq_refl (public_of key),
            draw_law kind seed,
            is_made,
          ))

    -- Where PEM gives back what it prints, a signed certificate has the parts that were signed, and a new key is of the
    -- kind that was asked for: a root authority that was generated can be imported, and is the same but for its two
    -- times, of which the certificate keeps the whole seconds, and for the name of the algorithm, which is that of its key.
    pub parse_ca_bundle-generate :
        (common_name organization : Text) (country : Option Text) (days : ℕ) (key_algorithm : Text)
        (seed serial now : ℕ) (root : RootCa)
        → generate_root_ca lib common_name organization country days key_algorithm seed serial now
          ≡ some root
        → parse_ca_bundle lib root.cert_pem root.key_pem none
          ≡ parsed (in_seconds root (algorithm_of (new_kind key_algorithm)))
    unfolding generate_root_ca parse_ca_bundle
    parse_ca_bundle-generate common_name organization country days key_algorithm seed serial now
          root h =
        let kind = new_kind key_algorithm in
        let key = draw kind seed in
        let name = root_name lib common_name organization country in
        signed kind seed name key_algorithm serial days now root
          (sign (root_certificate lib name (public_of key) serial days now) key) refl h
