-- ===== src/Proxy/Plain.antt =====
-- Whatever bytes a client sends: which connections the proxy opens for it.
use decrypt0r_x.Prelude.{
  ℕ, ◌≡◌, refl, sym, ap, subst, ◌&&◌, Bool, true, false, not, List, [], ◌∷◌, ◌++◌, Option, none,
  some, if◌then◌else◌, Bool-cases, inl, inr,
}
use decrypt0r_x.Text.{Text}
use decrypt0r_x.Models.{PolicyAction, intercept, bypass, block}
use decrypt0r_x.Policy.{Decision}
use decrypt0r_x.Result.{
  Result, ok, err, Error, protocol_error, value_error, connection_reset, incomplete_read, timed_out,
  out_of_fuel,
}
use decrypt0r_x.Http1.Stream.{Reader}
use decrypt0r_x.Http1.Heads.{RequestHead, is_connect, read_request_head}
use decrypt0r_x.Proxy.{
  Effect, answer, open_upstream, established, tunnel, take_over, submit, close_upstream, serve,
  close_client, handle_connect, plain_target, plain_by_action, plain_to, handle_plain_http,
  on_error, on_head, on_client,
}
use decrypt0r_x.Proxy.Authority.{parse_authority}
use decrypt0r_x.Proxy.Connections.{opens, accounts, is_block, handle_connect-Obeys}

-- whether the exchanges of plain connections are served
abbrev pub serves : List Effect → Bool
serves [] = false
serves (serve host port ∷ effects) = true
serves (open_upstream host port ∷ effects) = serves effects
serves (answer n ∷ effects) = serves effects
serves (established ∷ effects) = serves effects
serves (tunnel r ∷ effects) = serves effects
serves (take_over r ∷ effects) = serves effects
serves (submit r ∷ effects) = serves effects
serves (close_upstream ∷ effects) = serves effects
serves (close_client ∷ effects) = serves effects

opens-close : (effects : List Effect) → opens (effects ++ close_client ∷ []) ≡ opens effects
opens-close [] = refl
opens-close (open_upstream host port ∷ effects) = ap (◌∷◌ (host, port)) (opens-close effects)
opens-close (answer n ∷ effects) = opens-close effects
opens-close (established ∷ effects) = opens-close effects
opens-close (tunnel r ∷ effects) = opens-close effects
opens-close (take_over r ∷ effects) = opens-close effects
opens-close (submit r ∷ effects) = opens-close effects
opens-close (close_upstream ∷ effects) = opens-close effects
opens-close (serve host port ∷ effects) = opens-close effects
opens-close (close_client ∷ effects) = opens-close effects

-- at most one connection, and that to a host and a port that the policy does not block
abbrev pub Permitted : (Text → ℕ → Decision) → List (Text × ℕ) → Type 0
Permitted evaluate [] = Unit {0}
Permitted evaluate ((host, port) ∷ []) = is_block (evaluate host port).action ≡ false
Permitted evaluate (first ∷ second ∷ opened) = ⊥

module _ (is_address : Text → Bool) (netloc_of : Text → Option Text)
    (evaluate : Text → ℕ → Decision) (reachable : Text → ℕ → Bool) where
  -- the connections that a decision lets through
  abbrev pub let_through : Text → ℕ → List (Text × ℕ)
  let_through host port = if is_block (evaluate host port).action then [] else (host, port) ∷ []

  let_through-Permitted : (host : Text) (port : ℕ) → Permitted evaluate (let_through host port)
  let_through-Permitted host port = elim (Bool-cases (is_block (evaluate host port).action)) [
    | inl blocked ↦ rw blocked tt
    | inr passes ↦ rw passes passes
  ]

  -- What the effects of a plain request come to: the connections, the exchanges, and the flows that
  -- `_handle_plain_http` submits itself.
  abbrev pub PlainObeys : Text → ℕ → List Effect → Type 0
  PlainObeys host port effects =
      (opens effects ≡ let_through host port)
      × (serves effects ≡ (not (is_block (evaluate host port).action) && reachable host port))
      × (accounts effects ≡ 0)

  plain_by_action-lem :
      (a : PolicyAction) (up : Bool) (host : Text) (port : ℕ)
      → (opens (plain_by_action a up host port) ≡ (if is_block a then [] else (host, port) ∷ []))
        × (serves (plain_by_action a up host port) ≡ (not (is_block a) && up))
        × (accounts (plain_by_action a up host port) ≡ 0)
  plain_by_action-lem block up host port = (refl, refl, refl)
  plain_by_action-lem bypass true host port = (refl, refl, refl)
  plain_by_action-lem bypass false host port = (refl, refl, refl)
  plain_by_action-lem intercept true host port = (refl, refl, refl)
  plain_by_action-lem intercept false host port = (refl, refl, refl)

  -- A plain request whose target or `Host` gives a host and a port opens no connection if the policy blocks them, and
  -- otherwise exactly one, to them; its exchanges are served exactly if the policy does not block it and the
  -- origin can be reached; and outside the exchanges no flow is submitted, also where the policy blocks the
  -- request or the origin cannot be reached.
  pub handle_plain_http-Obeys :
      (head : RequestHead) (host : Text) (port : ℕ)
      → plain_target is_address netloc_of head ≡ some (host, port)
      → PlainObeys host port (handle_plain_http is_address netloc_of evaluate reachable head)
  unfolding handle_plain_http
  handle_plain_http-Obeys head host port parsed =
      subst (λ o. PlainObeys host port (plain_to is_address netloc_of evaluate reachable o))
        (sym parsed)
        (plain_by_action-lem (evaluate host port).action (reachable host port) host port)

  plain_to-Permitted :
      (o : Option (Text × ℕ))
      → Permitted evaluate (opens (plain_to is_address netloc_of evaluate reachable o))
  plain_to-Permitted none = tt
  plain_to-Permitted (some (host, port)) =
      subst (Permitted evaluate)
        (sym (plain_by_action-lem (evaluate host port).action (reachable host port) host port).0)
        (let_through-Permitted host port)

  module _ (drains ready : Bool) where
    connect_to-Permitted :
        (o : Option (Text × ℕ)) (head : RequestHead)
        → parse_authority is_address head.target 443 ≡ o
        → Permitted evaluate
            (opens (handle_connect is_address evaluate reachable drains ready head))
    unfolding handle_connect
    connect_to-Permitted none head parsed = rw parsed tt
    connect_to-Permitted (some (host, port)) head parsed =
        subst (Permitted evaluate)
          (sym
            (handle_connect-Obeys is_address evaluate reachable drains ready head host port
              parsed).0)
          (let_through-Permitted host port)

    on_error-Permitted :
        (e : Error)
        → Permitted evaluate (opens (on_error is_address netloc_of evaluate reachable e))
    on_error-Permitted protocol_error = tt
    on_error-Permitted value_error = tt
    on_error-Permitted connection_reset = tt
    on_error-Permitted incomplete_read = tt
    on_error-Permitted timed_out = tt
    on_error-Permitted out_of_fuel = tt

    on_head-Permitted :
        (m : Result (Option RequestHead × Reader))
        → Permitted evaluate
            (opens (on_head is_address netloc_of evaluate reachable drains ready m))
    on_head-Permitted (err e) = on_error-Permitted e
    on_head-Permitted (ok (none, r)) = tt
    on_head-Permitted (ok (some head, r)) = elim (Bool-cases (is_connect head)) [
      | inl connect ↦
          rw connect (connect_to-Permitted (parse_authority is_address head.target 443) head refl)
      | inr other ↦
          rw other (
            unfold handle_plain_http in plain_to-Permitted (plain_target is_address netloc_of head))
    ]

    -- Whatever bytes a client sends first, and whether or not it is over the limit of its rate, the handlers open at
    -- most one connection for it, and that to a host and a port that the policy does not block.
    pub on_client-Permitted :
        (limited : Bool) (r : Reader)
        → Permitted evaluate
            (opens (on_client is_address netloc_of evaluate reachable drains ready limited r))
    unfolding on_client
    on_client-Permitted true r = tt
    on_client-Permitted false r =
        subst (Permitted evaluate)
          (sym (
            opens-close
              (on_head is_address netloc_of evaluate reachable drains ready (read_request_head r))))
          (on_head-Permitted (read_request_head r))
