-- ===== src/Tests/Pki.antt =====
-- A toy of the cryptography library, on which the theorems on pki.py are tried.
use decrypt0r_x.Prelude.{◌≡◌, refl, true, false, ◌&&◌, ◌||◌, [], ◌∷◌, ◌++◌, none, some}
use decrypt0r_x.Text.{codes, text_eq}
use decrypt0r_x.Pki.Library.{KeyKind, rsa, elliptic, Certificate, X509}
use decrypt0r_x.Pki.{CertificateForge, san_for, new_forge, forge}
use decrypt0r_x.Pki.Names.{covers, is_sibling, san_for-covers}
use decrypt0r_x.Pki.Leaves.{Serves, forge-Serves}
use decrypt0r_x.Tests.Keys.{key_text, key_of}

abbrev ca_certificate : Certificate
ca_certificate = record {
  subject = (codes "commonName", codes "r") ∷ [];
  issuer = (codes "commonName", codes "r") ∷ [];
  public_key = 0 ∷ 2048 ∷ [];
  serial = 7;
  not_before = 700;
  not_after = 5000;
  basic = some (true, some 0);
  key_usage = [];
  extended_key_usage = [];
  alt_names = [];
  key_identifier = none;
}

-- every certificate is signed, and the authority is the only one that loads
abbrev signing : X509
signing = record {
  Key = KeyKind;
  Cert = Certificate;
  draw = λ kind seed. kind;
  kind_of = λ k. k;
  public_of = key_text;
  load_key = λ pem passphrase. key_of pem;
  key_pem = key_text;
  sign = λ t k. some t;
  parts = λ c. c;
  load_cert = λ pem. some ca_certificate;
  cert_pem = λ c. codes "pem";
  digest = λ c. 255 ∷ 1 ∷ [];
  rfc4514 = λ name. codes "CN=r";
  identifier = λ t. t;
  is_address = λ t. false;
}

sign-parts :
    (t : Certificate) (k : KeyKind) (c : Certificate)
    → signing.sign t k ≡ some c
    → signing.parts c ≡ t
sign-parts t k c e = cc

san_for-covers_example :
    covers (san_for signing (codes "api.example.org")) (codes "www.example.org") ≡ (
      text_eq (codes "api.example.org") (codes "www.example.org")
      || (true && is_sibling (codes "api.example.org") (codes "www.example.org")))
san_for-covers_example =
    san_for-covers signing (codes "api.example.org") (codes "www.example.org") refl

abbrev forging : CertificateForge signing
forging = record {
  ca_cert = ca_certificate;
  ca_key = rsa 2048;
  ca_cert_pem = codes "ca";
  leaf_days = 397;
  leaf_key = elliptic (codes "secp256r1");
  leaf_key_pem = 1 ∷ codes "secp256r1";
  fingerprint = codes "FF:01";
}

forging_made : new_forge signing (codes "ca") (0 ∷ 2048 ∷ []) (codes "EC") 397 1 ≡ some forging
unfolding new_forge
forging_made = refl

chain_forged :
    forge signing forging (codes "api.example.org") 9 1000 ≡ some (codes "pem" ++ codes "ca")
unfolding forge
chain_forged = refl

forge-Serves_example :
    Serves signing
      (codes "ca")
      (0 ∷ 2048 ∷ [])
      forging
      (codes "api.example.org")
      1000
      (codes "pem" ++ codes "ca")
forge-Serves_example =
    forge-Serves signing sign-parts (codes "ca") (0 ∷ 2048 ∷ []) (codes "EC") 397 1 forging
      (codes "api.example.org") 9 1000 (codes "pem" ++ codes "ca") forging_made refl chain_forged
