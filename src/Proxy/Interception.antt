-- ===== src/Proxy/Interception.antt =====
-- `_intercept` and `_on_sni` of services/proxy/decrypt0rx_proxy/proxy.py: the two handshakes, as a list of acts, with the
-- provider of certificates as they leave it. What the peers do is an argument: the name in the client's hello and
-- whether its handshake completes, and how that of the origin ends. Timeouts are failed handshakes.
use decrypt0r_x.Prelude.{Bool, List, [], ◌∷◌, Option, none, some, if◌then◌else◌}
use decrypt0r_x.Text.{Text}
use decrypt0r_x.Certs.{Tls, Settings, Provider, Handed, no_active_ca, raised, handed, context_for}

pub record Hello : Type 0 where
  pub server_name : Option Text
  pub completes : Bool

-- `unverified` is an `SSLCertVerificationError`, `broken` any other failure
pub data OriginTls : Type 0 where
  accepted unverified broken : OriginTls

-- why a flow is submitted with an error
pub data Fault : Type 0 where
  client_handshake origin_certificate origin_handshake : Fault

module _ (lib : Tls) where
  open lib use {Context}

  -- `present` is the context that the client's handshake ends with, `verify` the name for which the certificate of the
  -- origin is checked, `refuse` the 502 over the client's TLS, `exchanges` is `_serve_http`, and `raise` an exception
  -- that `_intercept` does not catch
  pub data Act : Type 0 where
    tunnel : Act
    present : Context → Act
    verify : Text → Act
    refuse : Act
    submit : Fault → Act
    exchanges : Option Text → Act
    raise : Act

  -- what `_on_sni` does with a name that is not empty: another context, or an alert
  abbrev pub swap : Handed lib → Provider lib → Option Context × Provider lib
  swap no_active_ca p = (none, p)
  swap (raised p') p = (none, p')
  swap (handed (context, p')) p = (some context, p')

  -- the context after `_on_sni`, where `none` is the alert, and the name that it keeps
  unfoldable pub on_sni :
      Settings → Option Text → Context → Provider lib → Option Context × Option Text × Provider lib
  on_sni settings none context p = (some context, none, p)
  on_sni settings (some []) context p = (some context, none, p)
  on_sni settings (some (c ∷ name)) context p =
      let (shown, p') = swap (context_for lib settings (c ∷ name) p) p in
      (shown, some (c ∷ name), p')

  -- `sni or host`
  abbrev pub sni_or : Option Text → Text → Text
  sni_or none host = host
  sni_or (some []) host = host
  sni_or (some (c ∷ name)) host = c ∷ name

  -- once the client's handshake is done
  abbrev pub with_origin : OriginTls → Option Text → Text → List Act
  with_origin accepted sni host = verify (sni_or sni host) ∷ exchanges sni ∷ []
  with_origin unverified sni host =
      verify (sni_or sni host) ∷ refuse ∷ submit origin_certificate ∷ []
  with_origin broken sni host = verify (sni_or sni host) ∷ submit origin_handshake ∷ []

  abbrev pub with_client :
      Bool
      → OriginTls
      → Text
      → Option Context × Option Text × Provider lib
      → List Act × Provider lib
  with_client completes origin host (none, sni, p) = (submit client_handshake ∷ [], p)
  with_client completes origin host (some context, sni, p) = (
    present context
        ∷ (if completes then with_origin origin sni host else submit client_handshake ∷ []),
    p,
  )

  abbrev pub with_context :
      Settings → Hello → OriginTls → Text → Provider lib → Handed lib → List Act × Provider lib
  with_context settings hello origin host p no_active_ca = (tunnel ∷ [], p)
  with_context settings hello origin host p (raised p') = (raise ∷ [], p')
  with_context settings hello origin host p (handed (context, p')) =
      with_client hello.completes origin host (on_sni settings hello.server_name context p')

  -- `_intercept`
  unfoldable pub intercept :
      Settings → Hello → OriginTls → Text → Provider lib → List Act × Provider lib
  unfolding on_sni
  intercept settings hello origin host p =
      with_context settings hello origin host p (context_for lib settings host p)
