-- ===== src/Balancer/WebSocket/Trimming.antt =====
-- cmd/loadbalancer/websocket_handler.go: a WebSocket request trims the list of the healthy nodes.
use consensus_proxy.Base.{
  Elem, ◌≢◌, ◌≡◌, ◌∙◌, ℕ, suc, List, [], ◌∷◌, length, refl, ap, inl, inr, arith, ◌==◌, Bool-cases,
  Option, none, some,
}
use consensus_proxy.Http.{Writer}
use consensus_proxy.Node.{BeaconNode}
use consensus_proxy.Validator.{BeaconEndpointValidator, is_valid_beacon_endpoint}
use consensus_proxy.Balancer.{LoadBalancer}
use consensus_proxy.Balancer.Errors.Laws.{handle_node_error_frame}
use consensus_proxy.Balancer.Errors.Trimming.{
  Trims, Trims-refl, Trims-trans, Trims-same, handle_node_error-Trims,
}
use consensus_proxy.Balancer.WebSocket.{
  Environment, Target, Connected, dial_failed, connect_from, connect_to_upstream, url_of,
  handle_web_socket, finish, proxy_connection,
}
use consensus_proxy.Balancer.WebSocket.Laws.{dial_failed-handle_node_error}

dial_failed-Trims : (p : ℕ) (lb : LoadBalancer) → Trims lb (dial_failed p lb)
dial_failed-Trims p lb =
    let (heap, healthy) = dial_failed-handle_node_error p 500 lb (omega arith) in
    Trims-trans (handle_node_error-Trims p 500 lb)
      (Trims-same healthy (λ q. ap (λ (f : ℕ → BeaconNode). (f q).priority) heap))

dial_failed_aside :
    (p q : ℕ) (lb : LoadBalancer)
    → q ≢ p
    → ((dial_failed p lb).heap q).priority ≡ (lb.heap q).priority
dial_failed_aside p q lb h =
    ap (λ (f : ℕ → BeaconNode). (f q).priority)
      (dial_failed-handle_node_error p 500 lb (omega arith)).0
    ∙ ap (λ (n : BeaconNode). n.priority) ((handle_node_error_frame p 500 q lb).0 h)

module _ (env : Environment) (target : Target) where
  connect_from-Trims :
      (i : ℕ) (ps : List ℕ) (lb : LoadBalancer)
      → Trims lb (connect_from env target i ps lb).balancer
  unfolding connect_from
  connect_from-Trims i [] lb = Trims-refl lb
  connect_from-Trims i (p ∷ ps) lb =
      elim (Bool-cases (env.dial i (url_of env target lb p) target.header)) [
        | inl e ↦ rw (e, connect_from) (Trims-refl lb)
        | inr e ↦
            rw (e, connect_from)
              (Trims-trans (dial_failed-Trims p lb)
                (connect_from-Trims (suc i) ps (dial_failed p lb)))
      ]

  finish-Trims :
      (c : Connected) (o : Option ℕ) (w : Writer)
      → Trims c.balancer (finish env target (record c { node = o }) w).0
  unfolding finish proxy_connection
  finish-Trims c none w = Trims-refl c.balancer
  finish-Trims c (some p) w = Trims-same (ground arith) (λ q. ground arith)

  pub handle_web_socket-Trims :
      (v : BeaconEndpointValidator) (lb : LoadBalancer) (w : Writer)
      → Trims lb (handle_web_socket env target v lb w).0
  unfolding handle_web_socket connect_to_upstream
  handle_web_socket-Trims v lb w = elim (Bool-cases (is_valid_beacon_endpoint v target.path)) [
    | inr bad ↦ simp bad (Trims-same refl (λ q. refl))
    | inl valid ↦ elim (Bool-cases (length lb.healthy_nodes == 0)) [
      | inl empty ↦ simp (valid, empty) (Trims-refl lb)
      | inr full ↦
          let c = connect_from env target 0 lb.healthy_nodes lb in
          simp (valid, full)
            (Trims-trans (connect_from-Trims 0 lb.healthy_nodes lb) (finish-Trims c c.node w))
    ]
  ]

  -- A node that is not dialled keeps its priority.
  connect_from_aside :
      (i q : ℕ) (ps : List ℕ) (lb : LoadBalancer)
      → ¬ Elem q ps
      → ((connect_from env target i ps lb).balancer.heap q).priority ≡ (lb.heap q).priority
  unfolding connect_from
  connect_from_aside i q [] lb h = refl
  connect_from_aside i q (p ∷ ps) lb h =
      elim (Bool-cases (env.dial i (url_of env target lb p) target.header)) [
        | inl e ↦ rw (e, connect_from) refl
        | inr e ↦
            rw (e, connect_from)
              (connect_from_aside (suc i) q ps (dial_failed p lb) (λ m. h (inr m))
                ∙ dial_failed_aside p q lb (λ m. h (inl m)))
      ]

  finish_aside :
      (c : Connected) (o : Option ℕ) (q : ℕ) (w : Writer)
      → ((finish env target (record c { node = o }) w).0.heap q).priority
        ≡ (c.balancer.heap q).priority
  unfolding finish proxy_connection
  finish_aside c none q w = refl
  finish_aside c (some p) q w = ground arith

  pub handle_web_socket_aside :
      (v : BeaconEndpointValidator) (q : ℕ) (lb : LoadBalancer) (w : Writer)
      → ¬ Elem q lb.healthy_nodes
      → ((handle_web_socket env target v lb w).0.heap q).priority ≡ (lb.heap q).priority
  unfolding handle_web_socket connect_to_upstream
  handle_web_socket_aside v q lb w h = elim (Bool-cases (is_valid_beacon_endpoint v target.path)) [
    | inr bad ↦ simp bad refl
    | inl valid ↦ elim (Bool-cases (length lb.healthy_nodes == 0)) [
      | inl empty ↦ simp (valid, empty) refl
      | inr full ↦
          let c = connect_from env target 0 lb.healthy_nodes lb in
          simp (valid, full)
            (finish_aside c c.node q w ∙ connect_from_aside 0 q lb.healthy_nodes lb h)
    ]
  ]
