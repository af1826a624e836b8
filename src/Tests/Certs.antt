-- ===== src/Tests/Certs.antt =====
-- A provider with a cache of one context, on which the theorems on certs.py are tried.
use decrypt0r_x.Prelude.{◌≡◌, refl, true, [], ◌∷◌, ◌++◌, none, some, arith}
use decrypt0r_x.Text.{Text, codes}
use decrypt0r_x.Models.{generated, CertificateAuthority}
use decrypt0r_x.Certs
use decrypt0r_x.Certs.{handed, Tls, Settings, Provider, load, context_for}
use decrypt0r_x.Certs.Fresh.{Genuine, IsFresh, context_for-Genuine}
use decrypt0r_x.Proxy.Interception
use decrypt0r_x.Proxy.Interception.{Hello}

-- everything is the text that it is made of
abbrev plain : Tls
plain = record {
  Forge = Text;
  Context = Text × Text;
  decrypt = λ token aad. some token;
  new_forge = λ cert key algorithm. some (cert ++ key);
  leaf_key_pem = λ f. f;
  forge = λ f name. some (f ++ name);
  server_context = λ chain key. some (chain, key);
}

abbrev small : Settings
small = record { leaf_key_algorithm = codes "rsa"; cert_cache_size = 1 }

abbrev root : CertificateAuthority
root = record {
  id = 1;
  name = codes "root";
  cert_pem = codes "c";
  key_encrypted = codes "k";
  fingerprint = codes "f0";
  not_after = 100;
  is_active = true;
  source = generated;
  created_by = none;
}

abbrev loaded : Provider plain
loaded = record {
  forge = some (codes "ck");
  fingerprint = some (codes "f0");
  ca_name = some (codes "root");
  contexts = [];
  key_file = codes "ck";
  chain_files = [];
}

root_loads : load plain small (root ∷ []) (Certs.init plain) ≡ some loaded
unfolding load Certs.init
root_loads = refl

-- the state after a first handshake, with a.example
abbrev warm : Provider plain
warm = record loaded {
  contexts = (codes "a.example", (codes "cka.example", codes "ck")) ∷ [];
  chain_files = (codes "a.example.pem", codes "cka.example") ∷ [];
}

-- and after a second, with B.example, which evicts the first
abbrev turned : Provider plain
turned = record loaded {
  contexts = (codes "b.example", (codes "ckB.example", codes "ck")) ∷ [];
  chain_files = (codes "b.example.pem", codes "ckB.example") ∷ [];
}

second_handshake :
    context_for plain small (codes "B.example") warm
    ≡ handed ((codes "ckB.example", codes "ck"), turned)
unfolding context_for Certs.safe_name
second_handshake = refl

warm-IsFresh : IsFresh plain small warm
warm-IsFresh = record {
  bounded = omega arith;
  genuine = ((codes "ck", codes "a.example", codes "cka.example", refl, refl, refl, refl), tt);
  keyed = refl;
}

context_for-Genuine_example :
    IsFresh plain small turned
    × Genuine plain warm.forge (codes "b.example", (codes "ckB.example", codes "ck"))
    × (turned.forge ≡ warm.forge)
context_for-Genuine_example =
    context_for-Genuine plain small (codes "B.example") warm turned
      (codes "ckB.example", codes "ck") warm-IsFresh second_handshake

-- the client names another host than its CONNECT, and the origin proves to be it
abbrev named : Hello
named = record { server_name = some (codes "B.example"); completes = true }
