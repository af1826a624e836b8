-- ===== src/Pki/Leaves.antt =====
-- `CertificateForge`: what a forged chain is, and for whom and how long it is valid.
use decrypt0r_x.Prelude.{
  some_same, ℕ, ◌+◌, ◌*◌, ◌≤◌, ◌≡◌, refl, ap, sym, ◌∙◌, subst, true, false, ◌++◌, Option, none,
  some, arith,
}
use decrypt0r_x.Text.{Text, text_eq, first_part}
use decrypt0r_x.Text.Laws.{text_eq_refl}
use decrypt0r_x.Pki.Library.{Certificate, X509}
use decrypt0r_x.Pki.{
  CertificateForge, fingerprint_of, new_kind, forge_with, new_forge, san_for, leaf_certificate,
  chain_of, forge,
}
use decrypt0r_x.Pki.Names.{covers, star, san_for-covers}

module _ (lib : X509) where
  open lib use {Key, Cert, draw, public_of, load_key, key_pem, sign, parts, load_cert, cert_pem}

  -- a chain for a host, made by an authority at a time
  pub record Serves (ca_pem ca_key : Text) (f : CertificateForge lib) (hostname : Text) (now : ℕ)
      (chain : Text) : Type 0 where
    pub leaf : Cert
    pub ca : Cert
    pub key : Key
    pub ca_loads : load_cert ca_pem ≡ some ca
    pub key_loads : load_key ca_key none ≡ some key
    pub printed : chain ≡ cert_pem leaf ++ ca_pem
    pub signed : (made : Certificate) × (sign made key ≡ some leaf)
    pub issued : (parts leaf).issuer ≡ (parts ca).subject
    pub same_key : (parts leaf).public_key ≡ public_of f.leaf_key
    pub key_shown : f.leaf_key_pem ≡ key_pem f.leaf_key
    pub names : covers (parts leaf).alt_names hostname ≡ true
    pub no_authority : (parts leaf).basic ≡ some (false, none)
    pub started : (parts leaf).not_before ≤ now
    pub within_ca : (parts leaf).not_after ≤ (parts ca).not_after
    pub within_days : (parts leaf).not_after ≤ now + f.leaf_days * 86400
    pub still_valid : now ≤ (parts ca).not_after → now ≤ (parts leaf).not_after

  -- the authority that a forge holds
  abbrev Holds : Text → Text → CertificateForge lib → Type 0
  Holds ca_pem ca_key f =
      (load_cert ca_pem ≡ some f.ca_cert)
      × (load_key ca_key none ≡ some f.ca_key)
      × (f.ca_cert_pem ≡ ca_pem)
      × (f.leaf_key_pem ≡ key_pem f.leaf_key)

  new_forge-Holds :
      (ca_pem ca_key algorithm : Text) (days seed : ℕ) (f : CertificateForge lib)
      → new_forge lib ca_pem ca_key algorithm days seed ≡ some f
      → Holds ca_pem ca_key f
  unfolding new_forge
  new_forge-Holds ca_pem ca_key algorithm days seed f h =
      go (load_cert ca_pem) (load_key ca_key none) refl refl h
    where
      go :
          (c : Option Cert) (k : Option Key)
          → load_cert ca_pem ≡ c
          → load_key ca_key none ≡ k
          → forge_with lib ca_pem algorithm days seed c k ≡ some f
          → Holds ca_pem ca_key f
      go none k p q e = cc
      go (some c) none p q e = cc
      go (some c) (some k) p q e =
          let made : CertificateForge lib = record {
            ca_cert = c;
            ca_key = k;
            ca_cert_pem = ca_pem;
            leaf_days = days;
            leaf_key = draw (new_kind algorithm) seed;
            leaf_key_pem = key_pem (draw (new_kind algorithm) seed);
            fingerprint = fingerprint_of lib c;
          } in
          let is_made : made ≡ f = some_same e in
          subst (Holds ca_pem ca_key) is_made (p, q, refl, refl)

  module _
      (sign_law : (t : Certificate) (k : Key) (c : Cert) → sign t k ≡ some c → parts c ≡ t) where
    -- Where a signed certificate has the parts that were signed: a chain that is forged for a host whose first label is no
    -- star is a leaf followed by the authority, which has signed it; the leaf covers the host, has the key of the
    -- forge, is no authority itself, has begun, ends no later than the authority and than its days, and has not ended at that
    -- time if the authority has not.
    pub forge-Serves :
        (ca_pem ca_key algorithm : Text) (days seed : ℕ) (f : CertificateForge lib)
        (hostname : Text) (serial now : ℕ) (chain : Text)
        → new_forge lib ca_pem ca_key algorithm days seed ≡ some f
        → text_eq (first_part b'.' hostname) star ≡ false
        → forge lib f hostname serial now ≡ some chain
        → Serves ca_pem ca_key f hostname now chain
    unfolding forge
    forge-Serves ca_pem ca_key algorithm days seed f hostname serial now chain made solid h =
        let (ca_loads, key_loads, pem, key_shown) =
          new_forge-Holds ca_pem ca_key algorithm days seed f made in
        go ca_loads key_loads pem key_shown
          (sign (leaf_certificate lib f hostname serial now) f.ca_key) refl h
      where
        covered : covers (san_for lib hostname) hostname ≡ true
        covered = rw (san_for-covers lib hostname hostname solid, text_eq_refl hostname)

        go :
            load_cert ca_pem ≡ some f.ca_cert
            → load_key ca_key none ≡ some f.ca_key
            → f.ca_cert_pem ≡ ca_pem
            → f.leaf_key_pem ≡ key_pem f.leaf_key
            → (o : Option Cert) → sign (leaf_certificate lib f hostname serial now) f.ca_key ≡ o
            → chain_of lib f o ≡ some chain
            → Serves ca_pem ca_key f hostname now chain
        go c k p s none e q = cc
        go c k p s (some leaf) e q =
            let is_made = sign_law (leaf_certificate lib f hostname serial now) f.ca_key leaf e in
            record {
              leaf = leaf;
              ca = f.ca_cert;
              key = f.ca_key;
              ca_loads = c;
              key_loads = k;
              printed = sym (some_same q) ∙ ap (λ t. cert_pem leaf ++ t) p;
              signed = (leaf_certificate lib f hostname serial now, e);
              issued = rw is_made;
              same_key = rw is_made;
              key_shown = s;
              names = rw is_made covered;
              no_authority = rw is_made;
              started = rw is_made (omega arith);
              within_ca = rw is_made (omega arith);
              within_days = rw is_made (omega arith);
              still_valid = rw is_made (λ alive. omega (arith, alive));
            }
