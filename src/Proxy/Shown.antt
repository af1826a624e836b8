-- ===== src/Proxy/Shown.antt =====
-- What `_intercept` shows to a client, and what it demands of the origin.
use decrypt0r_x.Prelude.{ℕ, suc, ◌≡◌, ◌⊎◌, Bool, true, false, List, [], ◌∷◌, Option}
use decrypt0r_x.Text.{Text, lower}
use decrypt0r_x.Certs.{raised, Tls, Settings, Provider, context_for}
use decrypt0r_x.Certs.Fresh.{Genuine, IsFresh}
use decrypt0r_x.Proxy.Interception.{
  raise, Hello, OriginTls, accepted, unverified, broken, Act, tunnel, present, verify, refuse,
  submit, exchanges, sni_or,
}

module _ (lib : Tls) where
  open lib use {Context, Forge}

  -- the name that the client means: the one in its hello, or the host of its CONNECT
  abbrev pub meant : Hello → Text → Text
  meant hello host = sni_or lib hello.server_name host

  -- every context that is presented was forged by the authority for the name that the client means
  abbrev pub ShowsGenuine : Option Forge → Text → List (Act lib) → Type 0
  ShowsGenuine o name [] = Unit {0}
  ShowsGenuine o name (present c ∷ acts) = Genuine lib o (lower name, c) × ShowsGenuine o name acts
  ShowsGenuine o name (tunnel ∷ acts) = ShowsGenuine o name acts
  ShowsGenuine o name (verify n ∷ acts) = ShowsGenuine o name acts
  ShowsGenuine o name (refuse ∷ acts) = ShowsGenuine o name acts
  ShowsGenuine o name (raise ∷ acts) = ShowsGenuine o name acts
  ShowsGenuine o name (submit f ∷ acts) = ShowsGenuine o name acts
  ShowsGenuine o name (exchanges sni ∷ acts) = ShowsGenuine o name acts

  -- the flows: that of the tunnel, those of the exchanges as one, and those that are submitted
  abbrev pub accounted : List (Act lib) → ℕ
  accounted [] = 0
  accounted (tunnel ∷ acts) = suc (accounted acts)
  accounted (submit f ∷ acts) = suc (accounted acts)
  accounted (exchanges sni ∷ acts) = suc (accounted acts)
  accounted (present c ∷ acts) = accounted acts
  accounted (verify n ∷ acts) = accounted acts
  accounted (refuse ∷ acts) = accounted acts
  accounted (raise ∷ acts) = accounted acts

  abbrev pub served : List (Act lib) → Bool
  served [] = false
  served (exchanges sni ∷ acts) = true
  served (tunnel ∷ acts) = served acts
  served (submit f ∷ acts) = served acts
  served (present c ∷ acts) = served acts
  served (verify n ∷ acts) = served acts
  served (refuse ∷ acts) = served acts
  served (raise ∷ acts) = served acts

  abbrev pub verified_names : List (Act lib) → List Text
  verified_names [] = []
  verified_names (verify n ∷ acts) = n ∷ verified_names acts
  verified_names (exchanges sni ∷ acts) = verified_names acts
  verified_names (tunnel ∷ acts) = verified_names acts
  verified_names (submit f ∷ acts) = verified_names acts
  verified_names (present c ∷ acts) = verified_names acts
  verified_names (refuse ∷ acts) = verified_names acts
  verified_names (raise ∷ acts) = verified_names acts

  abbrev pub is_accepted : OriginTls → Bool
  is_accepted accepted = true
  is_accepted unverified = false
  is_accepted broken = false

  -- what an interception comes to, for a provider that has the authority `o`
  pub record Intercepts (settings : Settings) (hello : Hello) (origin : OriginTls) (host : Text)
      (start : Provider lib) (o : Option Forge) (r : List (Act lib) × Provider lib) : Type 0 where
    pub shows : ShowsGenuine o (meant hello host) r.0
    pub fresh : IsFresh lib settings r.1
    pub once :
        (accounted r.0 ≡ 1)
        ⊎ ((r.0 ≡ raise ∷ []) × (context_for lib settings host start ≡ raised r.1))
    pub guarded :
        (served r.0 ≡ false)
        ⊎ ((hello.completes ≡ true)
            × (origin ≡ accepted)
            × (verified_names r.0 ≡ meant hello host ∷ []))
