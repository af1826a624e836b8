-- ===== src/Proxy/Connections.antt =====
-- What a client can make the proxy do: which connections it opens, and what it records of them.
use decrypt0r_x.Prelude.{
  ℕ, suc, ◌≡◌, ◌&&◌, refl, sym, subst, Bool, true, false, not, ◌||◌, List, [], ◌∷◌, some,
  if◌then◌else◌,
}
use decrypt0r_x.Text.{Text}
use decrypt0r_x.Models.{PolicyAction, intercept, bypass, block}
use decrypt0r_x.Policy.{Decision}
use decrypt0r_x.Http1.Heads.{RequestHead}
use decrypt0r_x.Proxy.{
  ConnectRecord, Effect, answer, open_upstream, established, tunnel, take_over, submit,
  close_upstream, serve, close_client, by_action, connect_record, connect_to, handle_connect,
}
use decrypt0r_x.Proxy.Authority.{parse_authority}

-- the connections to an origin that are opened
abbrev pub opens : List Effect → List (Text × ℕ)
opens [] = []
opens (open_upstream host port ∷ effects) = (host, port) ∷ opens effects
opens (answer n ∷ effects) = opens effects
opens (established ∷ effects) = opens effects
opens (tunnel r ∷ effects) = opens effects
opens (take_over r ∷ effects) = opens effects
opens (submit r ∷ effects) = opens effects
opens (close_upstream ∷ effects) = opens effects
opens (serve host port ∷ effects) = opens effects
opens (close_client ∷ effects) = opens effects

-- the flows that are submitted, here or by the tunnel, and the interceptions
abbrev pub accounts : List Effect → ℕ
accounts [] = 0
accounts (tunnel r ∷ effects) = suc (accounts effects)
accounts (take_over r ∷ effects) = suc (accounts effects)
accounts (submit r ∷ effects) = suc (accounts effects)
accounts (open_upstream host port ∷ effects) = accounts effects
accounts (answer n ∷ effects) = accounts effects
accounts (established ∷ effects) = accounts effects
accounts (close_upstream ∷ effects) = accounts effects
accounts (serve host port ∷ effects) = accounts effects
accounts (close_client ∷ effects) = accounts effects

abbrev pub intercepts : List Effect → Bool
intercepts [] = false
intercepts (take_over r ∷ effects) = true
intercepts (tunnel r ∷ effects) = intercepts effects
intercepts (submit r ∷ effects) = intercepts effects
intercepts (open_upstream host port ∷ effects) = intercepts effects
intercepts (answer n ∷ effects) = intercepts effects
intercepts (established ∷ effects) = intercepts effects
intercepts (close_upstream ∷ effects) = intercepts effects
intercepts (serve host port ∷ effects) = intercepts effects
intercepts (close_client ∷ effects) = intercepts effects

abbrev pub is_block : PolicyAction → Bool
is_block block = true
is_block bypass = false
is_block intercept = false

abbrev pub is_intercept : PolicyAction → Bool
is_intercept intercept = true
is_intercept bypass = false
is_intercept block = false

-- what the effects of one CONNECT come to, by the decision and what the world answers
abbrev pub Obeys : PolicyAction → Bool → Bool → Bool → Text → ℕ → List Effect → Type 0
Obeys action reachable drains ready host port effects =
    (opens effects ≡ (if is_block action then [] else (host, port) ∷ []))
    × (intercepts effects ≡ (is_intercept action && reachable && drains && ready))
    × (accounts effects ≡ (if is_block action || not reachable || drains then 1 else 0))

by_action-Obeys :
    (a : PolicyAction) (reachable drains ready : Bool) (flow : ConnectRecord)
    → flow.action ≡ a
    → Obeys a reachable drains ready flow.host flow.port (by_action a reachable drains ready flow)
by_action-Obeys block r d y flow e = (refl, refl, refl)
by_action-Obeys bypass false d y flow e = (refl, refl, refl)
by_action-Obeys bypass true false y flow e = (refl, refl, refl)
by_action-Obeys bypass true true y flow e = rw e (refl, refl, refl)
by_action-Obeys intercept false d y flow e = (refl, refl, refl)
by_action-Obeys intercept true false y flow e = (refl, refl, refl)
by_action-Obeys intercept true true true flow e = rw e (refl, refl, refl)
by_action-Obeys intercept true true false flow e = rw e (refl, refl, refl)

module _ (is_address : Text → Bool) (evaluate : Text → ℕ → Decision) (reachable : Text → ℕ → Bool)
    (drains ready : Bool) where
  pub handle_connect-Obeys :
      (head : RequestHead) (host : Text) (port : ℕ)
      → parse_authority is_address head.target 443 ≡ some (host, port)
      → Obeys
          (evaluate host port).action
          (reachable host port)
          drains
          ready
          host
          port
          (handle_connect is_address evaluate reachable drains ready head)
  unfolding handle_connect
  handle_connect-Obeys head host port parsed =
      subst
        (λ o.
          Obeys (evaluate host port).action (reachable host port) drains ready host port
            (connect_to is_address evaluate reachable drains ready o head))
        (sym parsed)
        (by_action-Obeys (evaluate host port).action (reachable host port) drains ready
          (connect_record host port (evaluate host port) head.version) refl)
