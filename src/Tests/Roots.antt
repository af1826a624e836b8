-- ===== src/Tests/Roots.antt =====
-- A toy of the cryptography library that signs one certificate, for the import of a generated authority.
use mathlib.Core.HLevel.{×_discrete}
use mathlib.Core.List.{List-discrete}
use mathlib.Core.Option
use native.Mathlib.Decide.{ℕ_discrete}
use mathlib.Core.Bool.{Bool-discrete}
use decrypt0r_x.Prelude.{
  ℕ, ◌≡◌, refl, ap, sym, ◌∙◌, Bool, true, false, List, [], ◌∷◌, Option, none, some,
}
use decrypt0r_x.Text.{Text, codes}
use decrypt0r_x.Pki.Library.{KeyKind, rsa, GeneralName, ip_name, dns_name, Name, Certificate, X509}
use decrypt0r_x.Pki.{
  RootCa, root_name, root_of, generate_root_ca, new_kind, algorithm_of, parsed, parse_ca_bundle,
}
use decrypt0r_x.Pki.Bundles.{in_seconds, parse_ca_bundle-generate}
use decrypt0r_x.Tests.Keys.{key_text, key_of, key_of-key_text}

-- equality of certificates is decided on their fields
abbrev Fields : Type 0
Fields =
    Name
    × (Name
        × (Text
            × (ℕ
                × (ℕ
                    × (ℕ
                        × (Option (Bool × Option ℕ)
                            × (List Text × (List Text × (List (Bool × Text) × Option Text)))))))))

abbrev name_field : GeneralName → Bool × Text
name_field (ip_name t) = (true, t)
name_field (dns_name t) = (false, t)

abbrev name_from : Bool × Text → GeneralName
name_from (true, t) = ip_name t
name_from (false, t) = dns_name t

abbrev name_fields : List GeneralName → List (Bool × Text)
name_fields [] = []
name_fields (n ∷ names) = name_field n ∷ name_fields names

abbrev names_from : List (Bool × Text) → List GeneralName
names_from [] = []
names_from (f ∷ fields) = name_from f ∷ names_from fields

names_from-name_fields : (names : List GeneralName) → names_from (name_fields names) ≡ names
names_from-name_fields [] = refl
names_from-name_fields (ip_name t ∷ names) = ap (◌∷◌ (ip_name t)) (names_from-name_fields names)
names_from-name_fields (dns_name t ∷ names) = ap (◌∷◌ (dns_name t)) (names_from-name_fields names)

abbrev fields_of : Certificate → Fields
fields_of t = (
  t.subject,
  (
    t.issuer,
    (
      t.public_key,
      (
        t.serial,
        (
          t.not_before,
          (
            t.not_after,
            (
              t.basic,
              (t.key_usage, (t.extended_key_usage, (name_fields t.alt_names, t.key_identifier))),
            ),
          ),
        ),
      ),
    ),
  ),
)

abbrev from_fields : Fields → Certificate
from_fields
      (
        subject,
        (
          issuer,
          (
            public_key,
            (serial, (not_before, (not_after, (basic, (usage, (extended, (names, identifier))))))),
          ),
        ),
      ) =
    record {
      subject = subject;
      issuer = issuer;
      public_key = public_key;
      serial = serial;
      not_before = not_before;
      not_after = not_after;
      basic = basic;
      key_usage = usage;
      extended_key_usage = extended;
      alt_names = names_from names;
      key_identifier = identifier;
    }

from_fields-fields_of : (t : Certificate) → from_fields (fields_of t) ≡ t
from_fields-fields_of t =
    ap (λ names. record t { alt_names = names }) (names_from-name_fields t.alt_names)

text_discrete : Discrete Text
text_discrete = List-discrete ℕ_discrete

name_discrete : Discrete Name
name_discrete = List-discrete (×_discrete text_discrete text_discrete)

fields_discrete : Discrete Fields
fields_discrete = ×_discrete name_discrete (
    ×_discrete name_discrete (
      ×_discrete text_discrete (
        ×_discrete ℕ_discrete (
          ×_discrete ℕ_discrete (
            ×_discrete ℕ_discrete (
              ×_discrete (Option.discrete (×_discrete Bool-discrete (Option.discrete ℕ_discrete))) (
                ×_discrete (List-discrete text_discrete) (
                  ×_discrete (List-discrete text_discrete) (
                    ×_discrete (List-discrete (×_discrete Bool-discrete text_discrete))
                      (Option.discrete text_discrete))))))))))

abbrev root_subject : Name
root_subject =
    (codes "commonName", codes "r")
    ∷ (codes "organizationName", codes "o")
    ∷ (codes "countryName", codes "DE")
    ∷ []

-- the certificate of a root authority with this key
abbrev root_made : Certificate
root_made = record {
  subject = root_subject;
  issuer = root_subject;
  public_key = 0 ∷ 2048 ∷ [];
  serial = 7;
  not_before = 700;
  not_after = 865000;
  basic = some (true, some 0);
  key_usage = codes "digital_signature" ∷ codes "key_cert_sign" ∷ codes "crl_sign" ∷ [];
  extended_key_usage = [];
  alt_names = [];
  key_identifier = some (0 ∷ 2048 ∷ []);
}

abbrev if_same : (t : Certificate) → Dec (fields_of t ≡ fields_of root_made) → Option (Unit {0})
if_same t (yes e) = some tt
if_same t (no n) = none

-- that certificate is the only one that is signed
abbrev one_root : X509
one_root = record {
  Key = KeyKind;
  Cert = Unit {0};
  draw = λ kind seed. kind;
  kind_of = λ k. k;
  public_of = key_text;
  load_key = λ pem passphrase. key_of pem;
  key_pem = key_text;
  sign = λ t k. if_same t (fields_discrete (fields_of t) (fields_of root_made));
  parts = λ c. root_made;
  load_cert = λ pem. some tt;
  cert_pem = λ c. codes "pem";
  digest = λ c. 255 ∷ 1 ∷ [];
  rfc4514 = λ name. codes "CN=r";
  identifier = λ t. t;
  is_address = λ t. false;
}

root-sign :
    (t : Certificate) (k : KeyKind) (c : Unit {0}) → one_root.sign t k ≡ some c → root_made ≡ t
root-sign t k c = go (fields_discrete (fields_of t) (fields_of root_made))
  where
    go : (d : Dec (fields_of t ≡ fields_of root_made)) → if_same t d ≡ some c → root_made ≡ t
    go (yes e) p =
        sym (from_fields-fields_of root_made) ∙ ap from_fields (sym e) ∙ from_fields-fields_of t
    go (no n) p = cc

root_signed : (k : KeyKind) → one_root.sign root_made k ≡ some tt
root_signed k = go (fields_discrete (fields_of root_made) (fields_of root_made))
  where
    go : (d : Dec (fields_of root_made ≡ fields_of root_made)) → if_same root_made d ≡ some tt
    go (yes e) = refl
    go (no n) = absurd (n refl)

abbrev the_root : RootCa
the_root = record {
  cert_pem = codes "pem";
  key_pem = 0 ∷ 2048 ∷ [];
  subject = codes "CN=r";
  fingerprint = codes "FF:01";
  not_before = 700500000;
  not_after = 865000500000;
  key_algorithm = codes "RSA";
}

root_generated :
    generate_root_ca one_root
      (codes "r")
      (codes "o")
      (some (codes "de"))
      10
      (codes "RSA")
      1
      7
      1000500000
    ≡ some the_root
unfolding generate_root_ca
root_generated =
    ap
      (root_of one_root (root_name one_root (codes "r") (codes "o") (some (codes "de")))
        (codes "RSA") 10 1000500000 (rsa 2048))
      (root_signed (rsa 2048))

parse_ca_bundle-generate_example :
    parse_ca_bundle one_root the_root.cert_pem the_root.key_pem none
    ≡ parsed (in_seconds the_root (algorithm_of (new_kind (codes "RSA"))))
parse_ca_bundle-generate_example =
    parse_ca_bundle-generate one_root (λ c. refl) key_of-key_text root-sign (λ kind seed. refl)
      (codes "r") (codes "o") (some (codes "de")) 10 (codes "RSA") 1 7 1000500000 the_root
      root_generated
