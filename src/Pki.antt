-- ===== src/Pki.antt =====
-- packages/core/decrypt0rx_core/pki.py: the root authority, the check of an imported one, and the leaf certificates that
-- the proxy forges. What the code takes from the cryptography library and from ipaddress is the interface `X509`;
-- what is drawn at random and the time of the clock are arguments.
-- The times of a certificate are whole seconds, and those of Python are microseconds; `forge` takes the clock in seconds,
-- as all that it makes of it stands in a certificate.
pub mod Library
pub mod Names
pub mod Bundles
pub mod Leaves
use decrypt0r_x.Prelude.{
  ℕ, ◌+◌, ◌-◌, ◌*◌, ◌/◌, ◌%◌, min, Bool, true, false, not, ◌&&◌, List, [], ◌∷◌, ◌++◌, Option, none,
  some, if◌then◌else◌, length, take, ltb, ◌==◌,
}
use decrypt0r_x.Text.{Text, codes, text_eq, member, lower, upper, starts_with, split_on}
use decrypt0r_x.Text.Split.{join}
use decrypt0r_x.Text.Number.Decimal.{decimal}
use decrypt0r_x.Pki.Library.{
  Certificate, GeneralName, KeyKind, Name, X509, another, dns_name, elliptic, ip_name, rsa,
}

-- `RootCA`
pub record RootCa : Type 0 where
  pub cert_pem : Text
  pub key_pem : Text
  pub subject : Text
  pub fingerprint : Text
  pub not_before : ℕ
  pub not_after : ℕ
  pub key_algorithm : Text

abbrev pub micros : ℕ → ℕ
micros seconds = seconds * 1000000

-- what a certificate keeps of a time
abbrev pub seconds_of : ℕ → ℕ
seconds_of time = time / 1000000

abbrev hex_digit : ℕ → ℕ
hex_digit n = if ltb n 10 then b'0' + n else b'A' + (n - 10)

-- `":".join(f"{b:02X}" for b in digest)`
abbrev pub colon_hex : Text → Text
colon_hex [] = []
colon_hex (b ∷ []) = hex_digit (b / 16) ∷ hex_digit (b % 16) ∷ []
colon_hex (b ∷ c ∷ t) = hex_digit (b / 16) ∷ hex_digit (b % 16) ∷ b':' ∷ colon_hex (c ∷ t)

-- the kind of key that `_new_key` generates
abbrev pub new_kind : Text → KeyKind
new_kind algorithm =
    if member (lower algorithm) (codes "ecdsa-p256" ∷ codes "ec" ∷ codes "ecdsa" ∷ [])
    then elliptic (codes "secp256r1")
    else rsa (if text_eq (lower algorithm) (codes "rsa-4096") then 4096 else 2048)

-- the name that `parse_ca_bundle` gives to the algorithm of a key
abbrev pub algorithm_of : KeyKind → Text
algorithm_of (rsa size) = codes "rsa-" ++ decimal size
algorithm_of (elliptic curve) = codes "ecdsa-" ++ curve
algorithm_of (another class) = class

-- `if country`
abbrev country_attributes : Option Text → Name
country_attributes none = []
country_attributes (some []) = []
country_attributes (some (c ∷ t)) = (codes "countryName", upper (take 2 (c ∷ t))) ∷ []

abbrev pub tail_of : List Text → List Text
tail_of [] = []
tail_of (label ∷ labels) = labels

-- the name itself, and the wildcard of its parent where it has three labels at least
abbrev pub dns_names : Text → List GeneralName
dns_names hostname =
    let labels = split_on b'.' hostname in
    if ltb 2 (length labels) && not (starts_with (codes "*.") hostname)
    then dns_name hostname ∷ dns_name (codes "*." ++ join b'.' (tail_of labels)) ∷ []
    else dns_name hostname ∷ []

-- the `ValueError`s of `parse_ca_bundle`
pub data BundleError : Type 0 where
  bad_certificate bad_key mismatch not_ca no_constraints : BundleError

pub data Parsed : Type 0 where
  parsed : RootCa → Parsed
  refused : BundleError → Parsed

-- `passphrase.encode() if passphrase else None`
abbrev pub if_given : Option Text → Option Text
if_given none = none
if_given (some []) = none
if_given (some (c ∷ t)) = some (c ∷ t)

module _ (lib : X509) where
  open lib use {
    Key, Cert, draw, kind_of, public_of, load_key, key_pem, sign, parts, load_cert, cert_pem,
    digest, rfc4514, identifier, is_address,
  }

  abbrev pub fingerprint_of : Cert → Text
  fingerprint_of cert = colon_hex (digest cert)

  -- the name of the subject and of the issuer
  abbrev pub root_name : Text → Text → Option Text → Name
  root_name common_name organization country =
      (codes "commonName", common_name)
      ∷ (codes "organizationName", organization)
      ∷ country_attributes country

  abbrev pub root_certificate : Name → Text → ℕ → ℕ → ℕ → Certificate
  root_certificate name public_key serial days now = record {
    subject = name;
    issuer = name;
    public_key = public_key;
    serial = serial;
    not_before = seconds_of (now - micros 300);
    not_after = seconds_of (now + days * micros 86400);
    basic = some (true, some 0);
    key_usage = codes "digital_signature" ∷ codes "key_cert_sign" ∷ codes "crl_sign" ∷ [];
    extended_key_usage = [];
    alt_names = [];
    key_identifier = some (identifier public_key);
  }

  abbrev pub root_of : Name → Text → ℕ → ℕ → Key → Option Cert → Option RootCa
  root_of name key_algorithm days now key none = none
  root_of name key_algorithm days now key (some cert) = some (record {
    cert_pem = cert_pem cert;
    key_pem = key_pem key;
    subject = rfc4514 name;
    fingerprint = fingerprint_of cert;
    not_before = now - micros 300;
    not_after = now + days * micros 86400;
    key_algorithm = key_algorithm;
  })

  -- `generate_root_ca`; `none` is a `ValueError`
  unfoldable pub generate_root_ca : Text → Text → Option Text → ℕ → Text → ℕ → ℕ → ℕ → Option RootCa
  generate_root_ca common_name organization country days key_algorithm seed serial now =
      let key = draw (new_kind key_algorithm) seed in
      let name = root_name common_name organization country in
      root_of name key_algorithm days now key
        (sign (root_certificate name (public_of key) serial days now) key)

  abbrev pub bundle : Cert → Key → RootCa
  bundle cert key = record {
    cert_pem = cert_pem cert;
    key_pem = key_pem key;
    subject = rfc4514 (parts cert).subject;
    fingerprint = fingerprint_of cert;
    not_before = micros (parts cert).not_before;
    not_after = micros (parts cert).not_after;
    key_algorithm = algorithm_of (kind_of key);
  }

  abbrev pub with_basic : Cert → Key → Option (Bool × Option ℕ) → Parsed
  with_basic cert key none = refused no_constraints
  with_basic cert key (some (ca, path_length)) =
      if ca then parsed (bundle cert key) else refused not_ca

  abbrev pub matched : Cert → Key → Parsed
  matched cert key =
      if text_eq (public_of key) (parts cert).public_key
      then with_basic cert key (parts cert).basic
      else refused mismatch

  abbrev pub with_key : Cert → Option Key → Parsed
  with_key cert none = refused bad_key
  with_key cert (some key) = matched cert key

  abbrev pub with_cert : Option Cert → Text → Option Text → Parsed
  with_cert none pem passphrase = refused bad_certificate
  with_cert (some cert) pem passphrase = with_key cert (load_key pem (if_given passphrase))

  -- `parse_ca_bundle(cert_pem, key_pem, passphrase)`
  unfoldable pub parse_ca_bundle : Text → Text → Option Text → Parsed
  parse_ca_bundle cert key passphrase = with_cert (load_cert cert) key passphrase

  -- `_san_for(hostname)`
  unfoldable pub san_for : Text → List GeneralName
  san_for hostname = if is_address hostname then ip_name hostname ∷ [] else dns_names hostname

  pub record CertificateForge : Type 0 where
    pub ca_cert : Cert
    pub ca_key : Key
    pub ca_cert_pem : Text
    pub leaf_days : ℕ
    pub leaf_key : Key
    pub leaf_key_pem : Text
    pub fingerprint : Text

  abbrev pub forge_with : Text → Text → ℕ → ℕ → Option Cert → Option Key → Option CertificateForge
  forge_with cert algorithm days seed none key = none
  forge_with cert algorithm days seed (some ca_cert) none = none
  forge_with cert algorithm days seed (some ca_cert) (some ca_key) =
      let leaf_key = draw (new_kind algorithm) seed in
      some (record {
        ca_cert = ca_cert;
        ca_key = ca_key;
        ca_cert_pem = cert;
        leaf_days = days;
        leaf_key = leaf_key;
        leaf_key_pem = key_pem leaf_key;
        fingerprint = fingerprint_of ca_cert;
      })

  -- `CertificateForge(ca_cert_pem, ca_key_pem, leaf_key_algorithm, leaf_days)`
  unfoldable pub new_forge : Text → Text → Text → ℕ → ℕ → Option CertificateForge
  new_forge cert key algorithm days seed =
      forge_with cert algorithm days seed (load_cert cert) (load_key key none)

  abbrev pub leaf_certificate : CertificateForge → Text → ℕ → ℕ → Certificate
  leaf_certificate f hostname serial now = record {
    subject = (codes "commonName", take 64 hostname) ∷ [];
    issuer = (parts f.ca_cert).subject;
    public_key = public_of f.leaf_key;
    serial = serial;
    not_before = now - 300;
    not_after = min (now + f.leaf_days * 86400) (parts f.ca_cert).not_after;
    basic = some (false, none);
    key_usage = codes "digital_signature" ∷ codes "key_encipherment" ∷ [];
    extended_key_usage = codes "server_auth" ∷ [];
    alt_names = san_for hostname;
    key_identifier = none;
  }

  abbrev pub chain_of : CertificateForge → Option Cert → Option Text
  chain_of f none = none
  chain_of f (some leaf) = some (cert_pem leaf ++ f.ca_cert_pem)

  -- `forge(hostname)`; `none` is a `ValueError`
  unfoldable pub forge : CertificateForge → Text → ℕ → ℕ → Option Text
  unfolding san_for
  forge f hostname serial now = chain_of f (sign (leaf_certificate f hostname serial now) f.ca_key)
