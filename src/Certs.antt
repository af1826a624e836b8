-- ===== src/Certs.antt =====
-- services/proxy/decrypt0rx_proxy/certs.py: the loaded authority and the bounded cache of one TLS context
-- per host. What it takes from the cryptography library and from `ssl` is the interface `Tls`.
pub mod Cache
pub mod Fresh
pub mod Stored
use decrypt0r_x.Prelude.{
  ℕ, Bool, true, false, not, ◌&&◌, ◌||◌, List, [], ◌∷◌, ◌++◌, Option, none, some, if◌then◌else◌,
  length, take, select, ltb, leb, ◌==◌,
}
use decrypt0r_x.Text.{Text, codes, text_eq, lower}
use decrypt0r_x.Text.Dict.{find, without, assign, to_end}
use decrypt0r_x.Models.{CertificateAuthority}

pub record Tls : Type 1 where
  pub Forge : Type 0
  pub Context : Type 0
  -- `box.decrypt(token, aad)`; `none` is its exception
  pub decrypt : Text → Text → Option Text
  -- `CertificateForge(cert_pem, key_pem, leaf_key_algorithm)`; `none` is its exception
  pub new_forge : Text → Text → Text → Option Forge
  pub leaf_key_pem : Forge → Text
  -- `forge.forge(hostname)`; `none` is its exception, as for an authority that has expired
  pub forge : Forge → Text → Option Text
  -- the server context of a chain and a key, with TLS 1.2 at least and HTTP/1.1 only; `none` is an exception
  pub server_context : Text → Text → Option Context

-- the settings that the provider reads
pub record Settings : Type 0 where
  pub leaf_key_algorithm : Text
  pub cert_cache_size : ℕ

-- `str.isalnum` on a Latin-1 character
abbrev pub is_alnum : ℕ → Bool
is_alnum c =
    leb b'0' c && leb c b'9'
    || leb b'A' c && leb c b'Z'
    || leb b'a' c && leb c b'z'
    || c == 170
    || leb 178 c && leb c 179
    || c == 181
    || leb 185 c && leb c 186
    || leb 188 c && leb c 190
    || leb 192 c && leb c 255 && not (c == 215) && not (c == 247)

abbrev pub safe_char : ℕ → ℕ
safe_char c = if is_alnum c || c == b'-' || c == b'.' || c == b'_' then c else b'_'

abbrev pub safe_chars : Text → Text
safe_chars [] = []
safe_chars (c ∷ t) = safe_char c ∷ safe_chars t

-- `_safe_name`
unfoldable pub safe_name : Text → Text
safe_name hostname = take 100 (safe_chars hostname)

-- the name of a chain's file
abbrev pub chain_file : Text → Text
chain_file key = safe_name key ++ codes ".pem"

-- the rows that are active, the highest id first: the first of them
abbrev pub highest :
    Option CertificateAuthority → List CertificateAuthority → Option CertificateAuthority
highest best [] = best
highest none (ca ∷ cas) = if ca.is_active then highest (some ca) cas else highest none cas
highest (some best) (ca ∷ cas) =
    if ca.is_active && ltb best.id ca.id then highest (some ca) cas else highest (some best) cas

abbrev pub loaded_is : Option Text → Text → Bool
loaded_is none fingerprint = false
loaded_is (some f) fingerprint = text_eq fingerprint f

module _ (lib : Tls) where
  open lib use {Forge, Context, decrypt, new_forge, leaf_key_pem, forge, server_context}

  -- `_key_path` and the other files of `_dir` are `key_file` and `chain_files`
  pub record Provider : Type 0 where
    pub forge : Option Forge
    pub fingerprint : Option Text
    pub ca_name : Option Text
    pub contexts : List (Text × Context)
    pub key_file : Text
    pub chain_files : List (Text × Text)

  unfoldable pub init : Provider
  init = record {
    forge = none;
    fingerprint = none;
    ca_name = none;
    contexts = [];
    key_file = [];
    chain_files = [];
  }

  -- the two steps that may raise, before anything changes
  abbrev pub forge_from : Settings → CertificateAuthority → Option Text → Option Forge
  forge_from settings ca none = none
  forge_from settings ca (some key_pem) = new_forge ca.cert_pem key_pem settings.leaf_key_algorithm

  abbrev pub forge_of : Settings → CertificateAuthority → Option Forge
  forge_of settings ca = forge_from settings ca (decrypt ca.key_encrypted ca.fingerprint)

  abbrev pub install : CertificateAuthority → Forge → Provider → Provider
  install ca f p = record p {
    forge = some f;
    fingerprint = some ca.fingerprint;
    ca_name = some ca.name;
    contexts = [];
    key_file = leaf_key_pem f;
  }

  abbrev pub install_if : CertificateAuthority → Option Forge → Provider → Option Provider
  install_if ca none p = none
  install_if ca (some f) p = some (install ca f p)

  abbrev pub load_found : Settings → Option CertificateAuthority → Provider → Option Provider
  load_found settings none p = some p
  load_found settings (some ca) p =
      if loaded_is p.fingerprint ca.fingerprint
      then some p
      else install_if ca (forge_of settings ca) p

  -- `load`, over the table; `none` is an exception, which leaves the provider as it was
  unfoldable pub load : Settings → List CertificateAuthority → Provider → Option Provider
  load settings cas p = load_found settings (highest none cas) p

  -- `while len(self._contexts) > cert_cache_size`, with the names that are evicted
  abbrev pub evict : ℕ → List (Text × Context) → List (Text × Context)
  evict size [] = []
  evict size (entry ∷ d) =
      let rest = evict size d in if ltb size (length (entry ∷ d)) then rest else entry ∷ d

  -- the files of the evicted names are unlinked
  abbrev pub unlink : ℕ → List (Text × Context) → List (Text × Text) → List (Text × Text)
  unlink size [] files = files
  unlink size ((key, c) ∷ d) files =
      let rest = unlink size d (without (chain_file key) files) in
      if ltb size (length ((key, c) ∷ d)) then rest else files

  -- what `context_for` comes to: a `NoActiveCAError`, another exception, or a context; the last two with the
  -- provider as it is then
  pub data Handed : Type 0 where
    no_active_ca : Handed
    raised : Provider → Handed
    handed : Context × Provider → Handed

  -- a new context is cached, and others are evicted
  abbrev pub cached : Settings → Text → Text → Context → Provider → Provider
  cached settings hostname chain_pem context p =
      let key = lower hostname in
      let contexts = assign key context p.contexts in
      record p {
        contexts = evict settings.cert_cache_size contexts;
        chain_files =
            unlink settings.cert_cache_size contexts
              (assign (chain_file key) chain_pem p.chain_files);
      }

  abbrev pub with_server : Settings → Text → Text → Provider → Option Context → Handed
  with_server settings hostname chain_pem p none =
      raised
        (record p { chain_files = assign (chain_file (lower hostname)) chain_pem p.chain_files })
  with_server settings hostname chain_pem p (some context) =
      handed (context, cached settings hostname chain_pem context p)

  -- with what the forge returns: the file of the chain is written, and then its context is made
  abbrev pub with_chain : Settings → Text → Provider → Option Text → Handed
  with_chain settings hostname p none = raised p
  with_chain settings hostname p (some chain_pem) =
      with_server settings hostname chain_pem p (server_context chain_pem p.key_file)

  -- a name that is not cached
  abbrev pub mint : Settings → Forge → Text → Provider → Handed
  mint settings f hostname p = with_chain settings hostname p (forge f hostname)

  -- with what the cache has for the name
  abbrev pub context_found : Settings → Forge → Text → Provider → Option Context → Handed
  context_found settings f hostname p (some context) =
      handed (context, record p { contexts = to_end (lower hostname) context p.contexts })
  context_found settings f hostname p none = mint settings f hostname p

  abbrev pub context_with : Settings → Option Forge → Text → Provider → Handed
  context_with settings none hostname p = no_active_ca
  context_with settings (some f) hostname p =
      context_found settings f hostname p (find (lower hostname) p.contexts)

  -- `context_for`
  unfoldable pub context_for : Settings → Text → Provider → Handed
  context_for settings hostname p = context_with settings p.forge hostname p
