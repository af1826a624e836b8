-- ===== src/Certs/Cache.antt =====
-- The cache of contexts as a list in the order of use: the oldest entry goes first.
use decrypt0r_x.Prelude.{
  ℕ, suc, ◌-◌, ◌<◌, ◌≤◌, ◌≡◌, refl, ap, subst, List, [], ◌∷◌, Option, none, some, arith, length,
  length-append, drop, ltb, Bool-cases, inl, inr,
}
use decrypt0r_x.Text.{Text, text_eq, lower}
use decrypt0r_x.Text.Dict.{find, without, assign, to_end}
use decrypt0r_x.Certs.{
  Tls, Settings, Provider, Handed, handed, with_server, with_chain, evict, context_found,
  context_with, context_for,
}

module _ {V : Type 0} where
  without-miss : (key : Text) (d : List (Text × V)) → find key d ≡ none → without key d ≡ d
  without-miss key [] h = refl
  without-miss key ((k, v) ∷ d) h = elim (Bool-cases (text_eq k key)) [
    | inl hit ↦ absurd (cc (rw hit at h))
    | inr miss ↦ rw miss (ap (◌∷◌ (k, v)) (without-miss key d (rw miss at h)))
  ]

  assign-miss :
      (key : Text) (value : V) (d : List (Text × V))
      → find key d ≡ none
      → assign key value d ≡ to_end key value d
  assign-miss key value [] h = refl
  assign-miss key value ((k, v) ∷ d) h = elim (Bool-cases (text_eq k key)) [
    | inl hit ↦ absurd (cc (rw hit at h))
    | inr miss ↦ rw miss (ap (◌∷◌ (k, v)) (assign-miss key value d (rw miss at h)))
  ]

  length-without-le : (key : Text) (d : List (Text × V)) → length (without key d) ≤ length d
  length-without-le key [] = omega arith
  length-without-le key ((k, v) ∷ d) = ground (arith, length-without-le key d)

  length-without-lt :
      (key : Text) (d : List (Text × V)) {v : V}
      → find key d ≡ some v
      → length (without key d) < length d
  length-without-lt key [] h = cc
  length-without-lt key ((k, w) ∷ d) h = elim (Bool-cases (text_eq k key)) [
    | inl hit ↦ rw hit (omega (arith, length-without-le key d))
    | inr miss ↦ rw miss (omega (arith, length-without-lt key d (rw miss at h)))
  ]

  pub length-to_end-le :
      (key : Text) (value : V) (d : List (Text × V)) {v : V}
      → find key d ≡ some v
      → length (to_end key value d) ≤ length d
  length-to_end-le key value d h =
      omega (arith, length-append (without key d) ((key, value) ∷ []), length-without-lt key d h)

pub handed_same :
    (lib : Tls) {a b : lib.Context × Provider lib} → Path (Handed lib) (handed a) (handed b) → a ≡ b
handed_same lib e = cc

module _ (lib : Tls) where
  open lib use {Context, Forge}

  evict-drop : (size : ℕ) (d : List (Text × Context)) → evict lib size d ≡ drop (length d - size) d
  evict-drop size [] = ground arith
  evict-drop size (entry ∷ d) = elim (Bool-cases (ltb size (suc (length d)))) [
    | inl over ↦
        let e : suc (length d) - size ≡ suc (length d - size) = ground arith in
        rw (over, e) (evict-drop size d)
    | inr within ↦ let e : suc (length d) - size ≡ 0 = ground arith in rw (within, e)
  ]

  pub length-evict-le : (size : ℕ) (d : List (Text × Context)) → length (evict lib size d) ≤ size
  length-evict-le size [] = omega arith
  length-evict-le size (entry ∷ d) = ground (arith, length-evict-le size d)

  -- what the cache is after a call that returned `c`
  abbrev pub used : Text → Context → List (Text × Context) → List (Text × Context)
  used hostname c contexts = to_end (lower hostname) c contexts

  -- the entries in the order of use, without the oldest ones over the size
  abbrev InOrder : Settings → Text → Context → Provider lib → Provider lib → Type 0
  InOrder settings hostname c p p' =
      p'.contexts
      ≡ drop (length (used hostname c p.contexts) - settings.cert_cache_size)
          (used hostname c p.contexts)

  context_found-contexts :
      (settings : Settings) (f : Forge) (hostname : Text) (p p' : Provider lib) (c : Context)
      (o : Option Context)
      → length p.contexts ≤ settings.cert_cache_size
      → find (lower hostname) p.contexts ≡ o
      → context_found lib settings f hostname p o ≡ handed (c, p')
      → InOrder settings hostname c p p'
  context_found-contexts settings f hostname p p' c none bounded missing h =
      by_chain (lib.forge f hostname) h
    where
      by_server :
          (chain : Text) (s : Option Context)
          → with_server lib settings hostname chain p s ≡ handed (c, p')
          → InOrder settings hostname c p p'
      by_server chain none e = cc
      by_server chain (some context) e =
          let same = handed_same lib e in
          subst (λ (r : Context × Provider lib). InOrder settings hostname r.0 p r.1) same
            (rw (assign-miss (lower hostname) context p.contexts missing)
              (evict-drop settings.cert_cache_size _))

      by_chain :
          (s : Option Text)
          → with_chain lib settings hostname p s ≡ handed (c, p')
          → InOrder settings hostname c p p'
      by_chain none e = cc
      by_chain (some chain) e = by_server chain (lib.server_context chain p.key_file) e
  context_found-contexts settings f hostname p p' c (some context) bounded cached h =
      let e : length (used hostname context p.contexts) - settings.cert_cache_size ≡ 0 =
        omega (arith, length-to_end-le (lower hostname) context p.contexts cached) in
      subst (λ (r : Context × Provider lib). InOrder settings hostname r.0 p r.1)
        (handed_same lib h) (rw e)

  -- A call that returns a context, on a cache within its size, leaves the entries in the order of use: the
  -- name that was asked for moves or comes to the end, and as many of the least recently used entries
  -- are evicted as the cache is over its size.
  pub contexts-context_for :
      (settings : Settings) (hostname : Text) (p p' : Provider lib) (c : Context)
      → length p.contexts ≤ settings.cert_cache_size
      → context_for lib settings hostname p ≡ handed (c, p')
      → p'.contexts
        ≡ drop
            (length (used hostname c p.contexts) - settings.cert_cache_size)
            (used hostname c p.contexts)
  unfolding context_for
  contexts-context_for settings hostname p p' c bounded h = go p.forge h
    where
      go :
          (o : Option Forge)
          → context_with lib settings o hostname p ≡ handed (c, p')
          → p'.contexts
            ≡ drop
                (length (used hostname c p.contexts) - settings.cert_cache_size)
                (used hostname c p.contexts)
      go none e = cc
      go (some f) e =
          context_found-contexts settings f hostname p p' c (find (lower hostname) p.contexts)
            bounded refl e
