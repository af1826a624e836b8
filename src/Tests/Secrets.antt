-- ===== src/Tests/Secrets.antt =====
-- A cipher and a key on which the theorems on the secret box are tried, and a key on its way to the proxy.
use decrypt0r_x.Prelude.{
  ℕ, ◌+◌, ◌-◌, ◌≡◌, refl, ap, ◌∙◌, true, false, [], ◌∷◌, ◌++◌, Option, none, some, if◌then◌else◌,
  ltb, arith,
}
use decrypt0r_x.Text.{Text, codes}
use decrypt0r_x.Models.{User, admin, generated, CertificateAuthority}
use decrypt0r_x.Http1.Heads.Lines.{absent}
use decrypt0r_x.Api.Reply.{reply}
use decrypt0r_x.Api.Authorities
use decrypt0r_x.Pki.{RootCa}
use decrypt0r_x.Api.Authorities.{generate_ca, deactivate_others, store_ca}
use decrypt0r_x.Api.Authorities.Active.{IsWellFormed}
use decrypt0r_x.SecretBox.{Cipher, SecretBox, ok, encrypt, decrypt}
use decrypt0r_x.SecretBox.Envelope.{decrypt-encrypt}
use decrypt0r_x.Certs
use decrypt0r_x.Certs.{Tls, Settings, Provider, install, load}
use decrypt0r_x.Certs.Stored.{plaintext, sealed, load-generate_ca}

-- texts without a colon: every code from 58 on is moved up by one
abbrev skip_colon : Text → Text
skip_colon [] = []
skip_colon (c ∷ t) = (if ltb c 58 then c else c + 1) ∷ skip_colon t

abbrev unskip : Text → Text
unskip [] = []
unskip (c ∷ t) = (if ltb c 58 then c else c - 1) ∷ unskip t

skip_colon-absent : (t : Text) → absent 58 (skip_colon t) ≡ true
skip_colon-absent [] = refl
skip_colon-absent (c ∷ t) = ground (arith, skip_colon-absent t)

unskip_same :
    (c : ℕ)
    → (if ltb (if ltb c 58 then c else c + 1) 58
        then (if ltb c 58 then c else c + 1)
        else (if ltb c 58 then c else c + 1) - 1)
      ≡ c
unskip_same c = ground arith

unskip-skip_colon : (t : Text) → unskip (skip_colon t) ≡ t
unskip-skip_colon [] = refl
unskip-skip_colon (c ∷ t) =
    ap (λ x. x ∷ unskip (skip_colon t)) (unskip_same c) ∙ ap (◌∷◌ c) (unskip-skip_colon t)

-- the blob is the message itself
abbrev clear : Cipher
clear = record {
  seal = λ key nonce message aad. message;
  unseal = λ key nonce blob aad. some blob;
  b64encode = skip_colon;
  b64decode = λ t. some (unskip t);
  fromhex = λ t. none;
}

clear_text : (t : Text) → clear.b64decode (clear.b64encode t) ≡ some t
clear_text t = ap some (unskip-skip_colon t)

clear_cipher :
    (key nonce message : Text) (aad : Option Text)
    → clear.unseal key nonce (clear.seal key nonce message aad) aad ≡ some message
clear_cipher key nonce message aad = refl

abbrev box : SecretBox
box = record { key = codes "0123456789abcdef0123456789abcdef" }

decrypt-encrypt_example :
    decrypt clear box
      (encrypt clear box (codes "n") (codes "key:pem") (some (codes "f0")))
      (some (codes "f0"))
    ≡ ok (codes "key:pem")
decrypt-encrypt_example =
    decrypt-encrypt clear skip_colon-absent clear_text clear_cipher box (codes "n")
      (codes "key:pem") (some (codes "f0"))

-- the proxy opens with the same box
abbrev same_key : Tls
same_key = record {
  Forge = Text;
  Context = Text × Text;
  decrypt = λ token aad. plaintext (decrypt clear box token (some aad));
  new_forge = λ cert key algorithm. some (cert ++ key);
  leaf_key_pem = λ f. f;
  forge = λ f name. some (f ++ name);
  server_context = λ chain key. some (chain, key);
}

abbrev ann : User
ann = record {
  id = 1;
  email = codes "ann@x";
  full_name = none;
  password_hash = codes "h";
  role = admin;
  is_active = true;
  last_login_at = none;
}

abbrev root : RootCa
root = record {
  cert_pem = codes "cert";
  key_pem = codes "key";
  subject = codes "CN=r";
  fingerprint = codes "f0";
  not_before = 1;
  not_after = 100;
  key_algorithm = codes "rsa-2048";
}

abbrev nothing_stored : Authorities.Db
nothing_stored = record { authorities = []; audit = []; next_id = 1 }

abbrev stored : CertificateAuthority
stored = record {
  id = 1;
  name = codes "root";
  cert_pem = codes "cert";
  key_encrypted = encrypt clear box (codes "n") (codes "key") (some (codes "f0"));
  fingerprint = codes "f0";
  not_after = 100;
  is_active = true;
  source = generated;
  created_by = some (codes "ann@x");
}

abbrev audited : Authorities.Db
audited = record {
  authorities = stored ∷ [];
  audit =
      (record {
        actor = codes "ann@x";
        action = codes "ca.generated";
        target = some (codes "root");
        client_ip = codes "ip";
      })
      ∷ [];
  next_id = 2;
}

same_decrypt :
    (token aad : Text) → same_key.decrypt token aad ≡ plaintext (decrypt clear box token (some aad))
same_decrypt token aad = refl

abbrev encrypted : Text → Text → Text
encrypted =
    sealed same_key clear skip_colon-absent clear_text clear_cipher box (codes "n") same_decrypt

nothing-IsWellFormed : IsWellFormed nothing_stored
nothing-IsWellFormed = record {
  distinct = λ k. omega arith;
  fresh = λ k le. refl;
  single = omega arith;
}

root_stored :
    generate_ca encrypted (codes "ip") (codes "root") true root ann nothing_stored
    ≡ (reply stored, audited, some 1)
unfolding generate_ca store_ca deactivate_others
root_stored = refl

abbrev small : Settings
small = record { leaf_key_algorithm = codes "rsa"; cert_cache_size = 1 }

nothing_loaded : Certs.loaded_is (Certs.init same_key).fingerprint root.fingerprint ≡ false
unfolding Certs.init
nothing_loaded = refl

load-generate_ca_example :
    load same_key small audited.authorities (Certs.init same_key)
    ≡ some (install same_key stored (codes "certkey") (Certs.init same_key))
load-generate_ca_example =
    load-generate_ca same_key clear skip_colon-absent clear_text clear_cipher box (codes "n")
      same_decrypt (codes "ip") (codes "root") root ann nothing_stored audited stored (some 1) small
      (Certs.init same_key) (codes "certkey") nothing-IsWellFormed root_stored refl nothing_loaded
