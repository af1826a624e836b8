-- ===== src/Proxy.antt =====
-- services/proxy/decrypt0rx_proxy/proxy.py: what a connection does up to the
-- tunnel or the interception. What a handler does to the world is a list of effects; what it learns
-- from the world is an argument. The timeouts of its awaits are left out.
pub mod Authority
pub mod Rate
pub mod Targets
pub mod Limiter
pub mod Connections
pub mod Plain
pub mod Interception
pub mod Shown
use decrypt0r_x.Proxy.Authority.{parse_authority}
use decrypt0r_x.Prelude.{
  ℕ, ◌+◌, ◌/◌, Bool, true, false, not, ◌&&◌, ◌||◌, List, [], ◌∷◌, ◌++◌, Option, none, some,
  if◌then◌else◌, length, all, ltb, leb, ◌==◌,
}
use decrypt0r_x.Prelude.Int.{ℤ, pos, negsuc}
use decrypt0r_x.Text.{
  Text, codes, text_eq, lower, is_space, split_on, partition, drop_while, starts_with,
}
use decrypt0r_x.Text.Number.{py_int}
use decrypt0r_x.Models.{PolicyAction, intercept, bypass, block}
use decrypt0r_x.Policy.{Decision}
use decrypt0r_x.Result.{
  Result, ok, err, Error, protocol_error, value_error, connection_reset, incomplete_read, timed_out,
  out_of_fuel,
}
use decrypt0r_x.Http1.Headers.{get}
use decrypt0r_x.Http1.Stream.{Reader}
use decrypt0r_x.Http1.Heads.{RequestHead, is_connect, read_request_head}

-- the fields of the flow that `_handle_connect` sets
pub record ConnectRecord : Type 0 where
  pub host : Text
  pub port : ℕ
  pub action : PolicyAction
  pub rule_id : Option ℕ
  pub rule_name : Option Text
  pub http_version : Text
  pub status_code : Option ℕ
  pub fell_back : Bool

-- `tunnel` and `take_over` are `_tunnel` and `_intercept`, which submit the record or those of the
-- exchanges; `serve` is `_serve_http` over plain connections
pub data Effect : Type 0 where
  answer : ℕ → Effect
  open_upstream : Text → ℕ → Effect
  established : Effect
  tunnel : ConnectRecord → Effect
  take_over : ConnectRecord → Effect
  submit : ConnectRecord → Effect
  close_upstream : Effect
  serve : Text → ℕ → Effect
  close_client : Effect

-- the decision in the code between a tunnel and an interception
abbrev pub forward : PolicyAction → Bool → ConnectRecord → Effect
forward bypass ready flow = tunnel flow
forward block ready flow = if ready then take_over flow else tunnel flow
forward intercept ready flow =
    if ready then take_over flow else tunnel (record flow { fell_back = true })

-- once the policy lets the connection pass; `drains` is whether the client takes the 200, which is
-- sent before the `try` whose `finally` closes the connection to the origin
abbrev pub connect_upstream : Bool → Bool → Bool → ConnectRecord → List Effect
connect_upstream reachable drains ready flow =
    if not reachable
    then open_upstream flow.host flow.port
      ∷ answer 502
      ∷ submit (record flow { status_code = some 502 })
      ∷ []
    else if not drains
    then open_upstream flow.host flow.port ∷ established ∷ []
    else open_upstream flow.host flow.port
      ∷ established
      ∷ forward flow.action ready flow
      ∷ close_upstream
      ∷ []

abbrev pub by_action : PolicyAction → Bool → Bool → Bool → ConnectRecord → List Effect
by_action block reachable drains ready flow =
    answer 403 ∷ submit (record flow { status_code = some 403 }) ∷ []
by_action bypass reachable drains ready flow = connect_upstream reachable drains ready flow
by_action intercept reachable drains ready flow = connect_upstream reachable drains ready flow

abbrev pub connect_record : Text → ℕ → Decision → Text → ConnectRecord
connect_record host port decision version = record {
  host = host;
  port = port;
  action = decision.action;
  rule_id = decision.rule_id;
  rule_name = decision.rule_name;
  http_version = version;
  status_code = none;
  fell_back = false;
}

-- `evaluate` is the policy engine for the client, `reachable` whether the origin accepts the connection,
-- `drains` whether the client takes the 200, and `ready` whether an authority is loaded
module _ (is_address : Text → Bool) (evaluate : Text → ℕ → Decision) (reachable : Text → ℕ → Bool)
    (drains ready : Bool) where
  abbrev pub connect_to : Option (Text × ℕ) → RequestHead → List Effect
  connect_to none head = answer 400 ∷ []
  connect_to (some (host, port)) head =
      let decision = evaluate host port in
      by_action decision.action (reachable host port) drains ready
        (connect_record host port decision head.version)

  unfoldable pub handle_connect : RequestHead → List Effect
  unfolding parse_authority
  handle_connect head = connect_to (parse_authority is_address head.target 443) head

-- `urlsplit(text).netloc`; `none` is a `ValueError`
module _ (is_address : Text → Bool) (netloc_of : Text → Option Text) where
  -- the authority in the target, or that of the header `Host`; `none` is a 400 either way
  abbrev from_host : Option Text → Text → Option Text
  from_host none target = none
  from_host (some []) target = none
  from_host (some (c ∷ host)) target = netloc_of (codes "http://" ++ (c ∷ host) ++ target)

  abbrev authority_from : Option Text → RequestHead → Option Text
  authority_from none head = none
  authority_from (some []) head = from_host (get head.headers (codes "host")) head.target
  authority_from (some (c ∷ netloc)) head = some (c ∷ netloc)

  abbrev target_from : Option Text → Option (Text × ℕ)
  target_from none = none
  target_from (some authority) = parse_authority is_address authority 80

  unfoldable pub plain_target : RequestHead → Option (Text × ℕ)
  plain_target head = target_from (authority_from (netloc_of head.target) head)

abbrev pub plain_by_action : PolicyAction → Bool → Text → ℕ → List Effect
plain_by_action block up host port = answer 403 ∷ []
plain_by_action bypass up host port =
    if up
    then open_upstream host port ∷ serve host port ∷ close_upstream ∷ []
    else open_upstream host port ∷ answer 502 ∷ []
plain_by_action intercept up host port =
    if up
    then open_upstream host port ∷ serve host port ∷ close_upstream ∷ []
    else open_upstream host port ∷ answer 502 ∷ []

module _ (is_address : Text → Bool) (netloc_of : Text → Option Text)
    (evaluate : Text → ℕ → Decision) (reachable : Text → ℕ → Bool) where
  abbrev pub plain_to : Option (Text × ℕ) → List Effect
  plain_to none = answer 400 ∷ []
  plain_to (some (host, port)) =
      plain_by_action (evaluate host port).action (reachable host port) host port

  -- `_handle_plain_http`
  unfoldable pub handle_plain_http : RequestHead → List Effect
  unfolding plain_target
  handle_plain_http head = plain_to (plain_target is_address netloc_of head)

  abbrev pub on_error : Error → List Effect
  on_error protocol_error = answer 400 ∷ []
  on_error value_error = answer 400 ∷ []
  on_error connection_reset = []
  on_error incomplete_read = []
  on_error timed_out = []
  on_error out_of_fuel = []

  abbrev pub on_head : Bool → Bool → Result (Option RequestHead × Reader) → List Effect
  on_head drains ready (err e) = on_error e
  on_head drains ready (ok (none, r)) = []
  on_head drains ready (ok (some head, r)) =
      if is_connect head
      then handle_connect is_address evaluate reachable drains ready head
      else handle_plain_http head

  -- `_on_client`: the limiter's answer, and the stream from the client; what a handler does is listed, and not
  -- what the tunnel or the exchanges raise
  unfoldable pub on_client : Bool → Bool → Bool → Reader → List Effect
  unfolding handle_plain_http
  on_client drains ready limited r =
      (if limited then answer 429 ∷ [] else on_head drains ready (read_request_head r))
      ++ close_client ∷ []
