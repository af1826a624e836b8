-- ===== src/Pki/Library.antt =====
-- What packages/core/decrypt0rx_core/pki.py takes from the cryptography library and from ipaddress: the interface `X509`.
use decrypt0r_x.Prelude.{ℕ, Bool, List, Option}
use decrypt0r_x.Text.{Text}

-- the classes of private keys, by the size, the name of the curve, or the name of the class
pub data KeyKind : Type 0 where
  rsa : ℕ → KeyKind
  elliptic : Text → KeyKind
  another : Text → KeyKind

pub data GeneralName : Type 0 where
  ip_name : Text → GeneralName
  dns_name : Text → GeneralName

-- the attributes of a name
abbrev pub Name : Type 0
Name = List (Text × Text)

-- The parts of a certificate that is to be signed. `basic` are the basic constraints, and the usages are those that
-- are allowed; the times are whole seconds.
pub record Certificate : Type 0 where
  pub subject : Name
  pub issuer : Name
  pub public_key : Text
  pub serial : ℕ
  pub not_before : ℕ
  pub not_after : ℕ
  pub basic : Option (Bool × Option ℕ)
  pub key_usage : List Text
  pub extended_key_usage : List Text
  pub alt_names : List GeneralName
  pub key_identifier : Option Text

pub record X509 : Type 1 where
  pub Key : Type 0
  pub Cert : Type 0
  -- a new key of a kind, from what is drawn at random
  pub draw : KeyKind → ℕ → Key
  pub kind_of : Key → KeyKind
  -- the public key in DER
  pub public_of : Key → Text
  -- `load_pem_private_key`; `none` is its exception
  pub load_key : Text → Option Text → Option Key
  pub key_pem : Key → Text
  -- the builder with the names in it, and `sign`; `none` is a `ValueError` of these
  pub sign : Certificate → Key → Option Cert
  pub parts : Cert → Certificate
  -- `load_pem_x509_certificate`; `none` is its exception
  pub load_cert : Text → Option Cert
  pub cert_pem : Cert → Text
  -- the SHA-256 of the certificate
  pub digest : Cert → Text
  pub rfc4514 : Name → Text
  pub identifier : Text → Text
  -- whether `ipaddress.ip_address(text)` returns
  pub is_address : Text → Bool
