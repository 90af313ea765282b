-- ===== src/Balancer/Serve/Laws.antt =====
-- cmd/loadbalancer/http_handler.go: `ServeHTTP` as the entry of the balancer.
use consensus_proxy.Base.{ℕ, ◌++◌, Elem, ◌≡◌, refl, ◌≢◌, inl, inr, arith, Bool-cases}
use consensus_proxy.Http.{Bytes, bytes_of, Writer, http_error-status}
use consensus_proxy.Validator.{
  BeaconEndpointValidator, is_valid_beacon_endpoint, new_beacon_endpoint_validator, normalize,
}
use consensus_proxy.Validator.Paths.{is_valid_beacon_endpoint_shape}
use consensus_proxy.Balancer.{LoadBalancer}
use consensus_proxy.Balancer.Kept.{IsKept}
use consensus_proxy.Balancer.Errors.Trimming.{Trims, Trims-same}
use consensus_proxy.Balancer.Requests.Trimming.{
  handle_http_request-Trims, handle_http_request_aside,
}
use consensus_proxy.Balancer.WebSocket.Trimming.{handle_web_socket-Trims, handle_web_socket_aside}
use consensus_proxy.Balancer.Requests.Bounds.{
  handle_http_request-IsKept, handle_http_request_subset,
}
use consensus_proxy.Balancer.WebSocket.Laws.{handle_web_socket-IsKept}
use consensus_proxy.Balancer.Serve.{Request, serve_http}

-- A request for a path outside `/eth/v`, to which nothing was sent yet, is answered 403 and changes
-- neither a node nor the healthy nodes.
pub serve_http_outside :
    (r : Request) (lb : LoadBalancer) (w : Writer)
    → w.status ≡ 0
    → ((t : Bytes) → normalize r.target.path ≢ bytes_of "/eth/v" ++ t)
    → let (lb', w') = serve_http new_beacon_endpoint_validator r lb w in
      (w'.status ≡ 403) × (lb'.heap ≡ lb.heap) × (lb'.healthy_nodes ≡ lb.healthy_nodes)
unfolding serve_http
serve_http_outside r lb w fresh outside =
    elim (Bool-cases (is_valid_beacon_endpoint new_beacon_endpoint_validator r.target.path)) [
      | inl valid ↦
          let (t, e) = (is_valid_beacon_endpoint_shape r.target.path valid).0 in
          absurd (outside t e)
      | inr bad ↦ simp bad (
        http_error-status "Invalid Beacon Chain API endpoint" 403 w fresh (omega arith),
        refl,
        refl,
      )
    ]

-- No request changes identities or adds a healthy node.
pub serve_http-IsKept :
    (v : BeaconEndpointValidator) (r : Request) (lb : LoadBalancer) (w : Writer)
    → IsKept lb (serve_http v r lb w).0
      × ((q : ℕ) → Elem q (serve_http v r lb w).0.healthy_nodes → Elem q lb.healthy_nodes)
unfolding serve_http
serve_http-IsKept v r lb w = elim (Bool-cases (is_valid_beacon_endpoint v r.target.path)) [
  | inr bad ↦
      simp bad
        (record { names = λ q. refl; originals = λ q. refl; nodes = refl; config = refl }, λ q e. e)
  | inl valid ↦ elim (Bool-cases r.is_web_socket_upgrade) [
    | inl up ↦ simp (valid, up) (handle_web_socket-IsKept r.web_socket r.target v lb w)
    | inr plain ↦
        simp (valid, plain)
          (
            handle_http_request-IsKept r.http lb w,
            λ q e. handle_http_request_subset r.http q lb w e,
          )
  ]
]

-- A request drops healthy nodes at most: it adds none, repeats none and keeps the priority of those
-- that stay.
pub serve_http-Trims :
    (v : BeaconEndpointValidator) (r : Request) (lb : LoadBalancer) (w : Writer)
    → Trims lb (serve_http v r lb w).0
unfolding serve_http
serve_http-Trims v r lb w = elim (Bool-cases (is_valid_beacon_endpoint v r.target.path)) [
  | inr bad ↦ simp bad (Trims-same refl (λ q. refl))
  | inl valid ↦ elim (Bool-cases r.is_web_socket_upgrade) [
    | inl up ↦ simp (valid, up) (handle_web_socket-Trims r.web_socket r.target v lb w)
    | inr plain ↦ simp (valid, plain) (handle_http_request-Trims r.http lb w)
  ]
]

-- A node that is not healthy keeps its priority.
pub serve_http_aside :
    (v : BeaconEndpointValidator) (r : Request) (q : ℕ) (lb : LoadBalancer) (w : Writer)
    → ¬ Elem q lb.healthy_nodes
    → ((serve_http v r lb w).0.heap q).priority ≡ (lb.heap q).priority
unfolding serve_http
serve_http_aside v r q lb w h = elim (Bool-cases (is_valid_beacon_endpoint v r.target.path)) [
  | inr bad ↦ simp bad refl
  | inl valid ↦ elim (Bool-cases r.is_web_socket_upgrade) [
    | inl up ↦ simp (valid, up) (handle_web_socket_aside r.web_socket r.target v q lb w h)
    | inr plain ↦ simp (valid, plain) (handle_http_request_aside r.http q lb w h)
  ]
]
