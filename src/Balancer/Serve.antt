-- ===== src/Balancer/Serve.antt =====
-- cmd/loadbalancer/http_handler.go: `ServeHTTP` validates the path, and hands the request to the
-- WebSocket or to the HTTP handler. Whether a request asks for an upgrade is decided by the
-- WebSocket library from its headers.
pub mod Laws
use consensus_proxy.Base.{Bool, not, [], ◌∷◌, if◌then◌else◌}
use consensus_proxy.Http.{Writer, http_error}
use consensus_proxy.Validator.{BeaconEndpointValidator, is_valid_beacon_endpoint}
use consensus_proxy.Balancer.{LoadBalancer, emit, incr, text}
use consensus_proxy.Balancer.Requests.{Served, handle_http_request}
use consensus_proxy.Balancer.Requests
use consensus_proxy.Balancer.WebSocket.{Target, handle_web_socket}
use consensus_proxy.Balancer.WebSocket

-- A request, with all that the outside answers to it.
pub record Request : Type 0 where
  pub target : Target
  pub is_web_socket_upgrade : Bool
  pub http : Requests.Environment
  pub web_socket : WebSocket.Environment

abbrev pub as_pair : Served → LoadBalancer × Writer
as_pair s = (s.balancer, s.writer)

pub serve_http : BeaconEndpointValidator → Request → LoadBalancer → Writer → LoadBalancer × Writer
serve_http v r lb w =
    if not (is_valid_beacon_endpoint v r.target.path)
    then (
      emit (incr "request.invalid_endpoint" (("protocol", text "http") ∷ [])) lb,
      http_error "Invalid Beacon Chain API endpoint" 403 w,
    )
    else if r.is_web_socket_upgrade
    then handle_web_socket r.web_socket r.target v lb w
    else as_pair (handle_http_request r.http lb w)
