-- ===== src/Balancer/WebSocket.antt =====
-- cmd/loadbalancer/websocket_handler.go: a WebSocket request is connected to the first healthy
-- node that can be dialled. The dialler and the upgrader belong to the WebSocket library: what
-- they answer is part of an `Environment`. What the two copying goroutines carry is in `Copying`.
pub mod Url
pub mod Copying
pub mod Laws
pub mod Trimming
pub mod Refusal
use consensus_proxy.Base.{
  ℕ, suc, Bool, not, List, [], ◌∷◌, if◌then◌else◌, length, ◌==◌, Option, none, some,
}
use consensus_proxy.Http.{Bytes, bytes_of, Writer, http_error}
use consensus_proxy.Http.Headers.{Header}
use consensus_proxy.Node.{increment_error, increment_requests}
use consensus_proxy.Validator.{BeaconEndpointValidator, is_valid_beacon_endpoint}
use consensus_proxy.Balancer.{LoadBalancer, modify, emit, incr, text, get_healthy_nodes}
use consensus_proxy.Balancer.Errors.{name_of, demote, exceeds}
use Url.{web_socket_url}

pub record Environment : Type 0 where
  -- Whether dial number `i`, to this URL and with these headers, succeeds.
  pub dial : ℕ → Bytes → Header → Bool
  -- Whether the client's connection is upgraded, and what the upgrader writes to the client.
  pub upgraded : Bool
  pub upgrade : Writer → Writer

-- What `Request` holds of the request's URL, and its headers.
pub record Target : Type 0 where
  pub path : Bytes
  pub raw_query : Bytes
  pub header : Header

-- A dial to the node at `p` failed.
pub dial_failed : ℕ → LoadBalancer → LoadBalancer
dial_failed p lb =
    let lb' = modify p increment_error lb in
    if exceeds lb' p
    then emit
        (incr "node.primary_demoted"
          (("node", text (name_of lb' p)) ∷ ("protocol", text "websocket") ∷ []))
        (demote p lb')
    else lb'

-- The balancer, and the node that is connected.
pub record Connected : Type 0 where
  pub balancer : LoadBalancer
  pub node : Option ℕ

module _ (env : Environment) (target : Target) where
  abbrev pub url_of : LoadBalancer → ℕ → Bytes
  url_of lb p = web_socket_url (bytes_of (lb.heap p).url) target.path target.raw_query

  -- The loop of `connectToUpstreamWebSocket`, from dial number `i` on.
  pub connect_from : ℕ → List ℕ → LoadBalancer → Connected
  unfolding dial_failed
  connect_from i [] lb = record { balancer = lb; node = none }
  connect_from i (p ∷ ps) lb =
      let rest = connect_from (suc i) ps (dial_failed p lb) in
      if env.dial i (url_of lb p) target.header
      then record { balancer = lb; node = some p }
      else rest

  -- `connectToUpstreamWebSocket`
  pub connect_to_upstream : List ℕ → LoadBalancer → Connected
  unfolding connect_from
  connect_to_upstream healthy lb = connect_from 0 healthy lb

  -- The proxied connection, from the upgrade to the end of the messages.
  pub proxy_connection : ℕ → LoadBalancer → LoadBalancer
  proxy_connection p lb =
      let lb' = modify p increment_requests lb in
      emit (incr "websocket.disconnected" (("node", text (name_of lb' p)) ∷ []))
        (emit (incr "websocket.connected" (("node", text (name_of lb' p)) ∷ [])) lb')

  -- What follows the dials.
  pub finish : Connected → Writer → LoadBalancer × Writer
  unfolding proxy_connection
  finish c w = elim c.node [
    | none ↦ (c.balancer, http_error "Failed to establish WebSocket connection to any node" 502 w)
    | some p ↦
        if env.upgraded
        then (proxy_connection p c.balancer, env.upgrade w)
        else (c.balancer, env.upgrade w)
  ]

  -- `handleWebSocket`
  pub handle_web_socket : BeaconEndpointValidator → LoadBalancer → Writer → LoadBalancer × Writer
  unfolding finish connect_to_upstream
  handle_web_socket v lb w =
      let healthy = get_healthy_nodes lb in
      if not (is_valid_beacon_endpoint v target.path)
      then (
        emit (incr "request.invalid_endpoint" (("protocol", text "websocket") ∷ [])) lb,
        http_error "Invalid Beacon Chain API endpoint" 403 w,
      )
      else if length healthy == 0
      then (lb, http_error "No healthy beacon nodes available" 503 w)
      else finish (connect_to_upstream healthy lb) w
