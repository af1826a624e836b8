-- ===== src/Certs/Fresh.antt =====
-- What a client is shown: a context of the loaded authority, for the name that it asked for.
use decrypt0r_x.Prelude.{
  some_same, ℕ, ◌≤◌, ◌≡◌, refl, sym, ap, ◌∙◌, subst, List, [], ◌∷◌, ◌++◌, Option, none, some, arith,
  Bool-cases, inl, inr, length, ltb,
}
use decrypt0r_x.Text.{Text, text_eq, lower}
use decrypt0r_x.Text.Laws.{text_eq_iff}
use decrypt0r_x.Models.{CertificateAuthority}
use decrypt0r_x.Text.Dict.{find, without, assign}
use decrypt0r_x.Certs.{
  Tls, Settings, Provider, Handed, no_active_ca, raised, handed, cached, with_server, with_chain,
  init, evict, mint, context_found, context_with, context_for, highest, loaded_is, install,
  install_if, forge_of, load_found, load,
}
use decrypt0r_x.Certs.Cache.{length-evict-le, length-to_end-le}

module _ {V : Type 0} (P : Text × V → Type 0) where
  abbrev pub All : List (Text × V) → Type 0
  All [] = Unit {0}
  All (entry ∷ d) = P entry × All d

  All-without : (key : Text) (d : List (Text × V)) → All d → All (without key d)
  All-without key [] h = tt
  All-without key ((k, v) ∷ d) h = elim (Bool-cases (text_eq k key)) [
    | inl hit ↦ rw hit (All-without key d h.1)
    | inr miss ↦ rw miss (h.0, All-without key d h.1)
  ]

  All-append : (d : List (Text × V)) (entry : Text × V) → All d → P entry → All (d ++ entry ∷ [])
  All-append [] entry h p = (p, tt)
  All-append (e ∷ d) entry h p = (h.0, All-append d entry h.1 p)

  All-find : (key : Text) (d : List (Text × V)) (v : V) → find key d ≡ some v → All d → P (key, v)
  All-find key [] v e h = cc
  All-find key ((k, w) ∷ d) v e h = elim (Bool-cases (text_eq k key)) [
    | inl hit ↦
        subst P
          (ap (λ x. (x, w)) ((text_eq_iff k key).0 hit) ∙ ap (λ x. (key, x)) (same (rw hit at e)))
          h.0
    | inr miss ↦ All-find key d v (rw miss at e) h.1
  ]
    where
      same : {a b : V} → some a ≡ some b → a ≡ b
      same q = cc

  All-assign :
      (key : Text) (v : V) (d : List (Text × V)) → All d → P (key, v) → All (assign key v d)
  All-assign key v [] h p = (p, tt)
  All-assign key v ((k, w) ∷ d) h p = elim (Bool-cases (text_eq k key)) [
    | inl hit ↦ rw hit (subst P (ap (λ x. (x, v)) (sym ((text_eq_iff k key).0 hit))) p, h.1)
    | inr miss ↦ rw miss (h.0, All-assign key v d h.1 p)
  ]

module _ (lib : Tls) where
  open lib use {Context, Forge, forge, leaf_key_pem, server_context}

  -- the entry is a context of this authority, forged for a name that lowers to its key
  abbrev pub Genuine : Option Forge → Text × Context → Type 0
  Genuine o (key, c) =
      (f : Forge) × (name : Text) × (chain : Text) × (o ≡ some f)
      × (lower name ≡ key)
      × (forge f name ≡ some chain)
      × (server_context chain (leaf_key_pem f) ≡ some c)

  abbrev pub KeyOf : Option Forge → Text → Type 0
  KeyOf none key_file = Unit {0}
  KeyOf (some f) key_file = key_file ≡ leaf_key_pem f

  pub record IsFresh (settings : Settings) (p : Provider lib) : Type 0 where
    pub bounded : length p.contexts ≤ settings.cert_cache_size
    pub genuine : All (Genuine p.forge) p.contexts
    pub keyed : KeyOf p.forge p.key_file

  All-evict :
      (P : Text × Context → Type 0) (size : ℕ) (d : List (Text × Context))
      → All P d
      → All P (evict lib size d)
  All-evict P size [] h = tt
  All-evict P size (entry ∷ d) h = elim (Bool-cases (ltb size (length (entry ∷ d)))) [
    | inl over ↦ rw over (All-evict P size d h.1)
    | inr within ↦ rw within h
  ]

  module _ (settings : Settings) where
    -- the result of a call, with what it found for its authority
    abbrev pub Served : Option Forge → Text → Handed lib → Type 0
    Served o hostname no_active_ca = Unit {0}
    Served o hostname (raised p') = IsFresh settings p'
    Served o hostname (handed (c, p')) =
        IsFresh settings p' × Genuine o (lower hostname, c) × (p'.forge ≡ o)

    cached-IsFresh :
        (hostname chain : Text) (context : Context) (p : Provider lib)
        → IsFresh settings p
        → Genuine p.forge (lower hostname, context)
        → IsFresh settings (cached lib settings hostname chain context p)
    cached-IsFresh hostname chain context p h genuine = record {
      bounded = length-evict-le lib settings.cert_cache_size _;
      genuine =
          All-evict (Genuine p.forge) settings.cert_cache_size _
            (All-assign (Genuine p.forge) (lower hostname) context p.contexts h.genuine genuine);
      keyed = h.keyed;
    }

    mint-Served :
        (f : Forge) (hostname : Text) (p : Provider lib)
        → IsFresh settings p
        → p.forge ≡ some f
        → Served p.forge hostname (mint lib settings f hostname p)
    mint-Served f hostname p h loaded = by_chain (forge f hostname) refl
      where
        key : p.key_file ≡ leaf_key_pem f
        key = subst (λ o. KeyOf o p.key_file) loaded h.keyed

        by_server :
            (chain : Text) (s : Option Context)
            → forge f hostname ≡ some chain
            → server_context chain p.key_file ≡ s
            → Served p.forge hostname (with_server lib settings hostname chain p s)
        by_server chain none e q = record {
          bounded = h.bounded;
          genuine = h.genuine;
          keyed = h.keyed;
        }
        by_server chain (some context) e q =
            let made : server_context chain (leaf_key_pem f) ≡ some context =
              ap (server_context chain) (sym key) ∙ q in
            let genuine : Genuine p.forge (lower hostname, context) =
              (f, hostname, chain, loaded, refl, e, made) in
            (cached-IsFresh hostname chain context p h genuine, genuine, refl)

        by_chain :
            (s : Option Text)
            → forge f hostname ≡ s
            → Served p.forge hostname (with_chain lib settings hostname p s)
        by_chain none e = h
        by_chain (some chain) e = by_server chain (server_context chain p.key_file) e refl

    context_found-Served :
        (f : Forge) (hostname : Text) (p : Provider lib) (o : Option Context)
        → IsFresh settings p
        → p.forge ≡ some f
        → find (lower hostname) p.contexts ≡ o
        → Served p.forge hostname (context_found lib settings f hostname p o)
    context_found-Served f hostname p (some c) h loaded cached =
        let genuine : Genuine p.forge (lower hostname, c) =
          All-find (Genuine p.forge) (lower hostname) p.contexts c cached h.genuine in
        (
          record {
            bounded =
                omega (arith, h.bounded, length-to_end-le (lower hostname) c p.contexts cached);
            genuine =
                All-append (Genuine p.forge) (without (lower hostname) p.contexts)
                  (lower hostname, c)
                  (All-without (Genuine p.forge) (lower hostname) p.contexts h.genuine) genuine;
            keyed = h.keyed;
          },
          genuine,
          refl,
        )
    context_found-Served f hostname p none h loaded missing = mint-Served f hostname p h loaded

    pub context_for-Served :
        (hostname : Text) (p : Provider lib)
        → IsFresh settings p
        → Served p.forge hostname (context_for lib settings hostname p)
    unfolding context_for
    context_for-Served hostname p h = go p.forge refl
      where
        go :
            (o : Option Forge)
            → p.forge ≡ o
            → Served p.forge hostname (context_with lib settings o hostname p)
        go none missing = tt
        go (some f) loaded =
            context_found-Served f hostname p (find (lower hostname) p.contexts) h loaded refl

    -- Where the cache is within its size and every cached context is one of the loaded authority, a
    -- call that returns a context returns one that this authority forged for a name that differs
    -- from the one asked for in case only, leaves the authority loaded, and leaves such a cache.
    pub context_for-Genuine :
        (hostname : Text) (p p' : Provider lib) (c : Context)
        → IsFresh settings p
        → context_for lib settings hostname p ≡ handed (c, p')
        → IsFresh settings p' × Genuine p.forge (lower hostname, c) × (p'.forge ≡ p.forge)
    context_for-Genuine hostname p p' c h e =
        subst (Served p.forge hostname) e (context_for-Served hostname p h)

    install-IsFresh :
        (ca : CertificateAuthority) (f : Forge) (p : Provider lib)
        → IsFresh settings (install lib ca f p)
    install-IsFresh ca f p = record { bounded = omega arith; genuine = tt; keyed = refl }

    -- A reload that does not raise, of a provider whose cache is within its size and has contexts
    -- of its authority only, leaves a cache within its size that has contexts of the authority that
    -- is then loaded only.
    pub load-IsFresh :
        (cas : List CertificateAuthority) (p p' : Provider lib)
        → IsFresh settings p
        → load lib settings cas p ≡ some p'
        → IsFresh settings p'
    unfolding load
    load-IsFresh cas p p' h e = found (highest none cas) e
      where
        new :
            (ca : CertificateAuthority) (o : Option Forge)
            → install_if lib ca o p ≡ some p'
            → IsFresh settings p'
        new ca none q = cc
        new ca (some f) q = subst (IsFresh settings) (some_same q) (install-IsFresh ca f p)

        found :
            (o : Option CertificateAuthority)
            → load_found lib settings o p ≡ some p'
            → IsFresh settings p'
        found none q = subst (IsFresh settings) (some_same q) h
        found (some ca) q = elim (Bool-cases (loaded_is p.fingerprint ca.fingerprint)) [
          | inl same ↦ subst (IsFresh settings) (some_same (rw same at q)) h
          | inr differs ↦ new ca (forge_of lib settings ca) (rw differs at q)
        ]

    pub init-IsFresh : IsFresh settings (init lib)
    unfolding init
    init-IsFresh = record { bounded = omega arith; genuine = tt; keyed = tt }
