-- ===== src/Balancer/WebSocket/Laws.antt =====
-- cmd/loadbalancer/websocket_handler.go: the failed dials, and what a request leaves alone.
use consensus_proxy.Base.{
  length-zero, ℕ, suc, ◌≤◌, true, false, List, [], ◌∷◌, if◌then◌else◌, length, Elem, subst, ◌≡◌,
  refl, sym, ap, ◌∙◌, ◌⊎◌, inl, inr, arith, ◌==◌, Bool-cases, Option, none, some,
}
use consensus_proxy.Http.{Writer, http_error}
use consensus_proxy.Node.{BeaconNode, increment_error}
use consensus_proxy.Validator.{BeaconEndpointValidator, is_valid_beacon_endpoint}
use consensus_proxy.Balancer.{LoadBalancer, modify}
use consensus_proxy.Balancer.Errors.{handle_node_error, demote, exceeds}
use consensus_proxy.Balancer.Errors.Laws.{handle_node_error_subset, handle_node_error_count}
use consensus_proxy.Balancer.Kept.{IsKept, IsKept-refl, IsKept-trans, handle_node_error-IsKept}
use consensus_proxy.Balancer.WebSocket.{
  Environment, Target, Connected, dial_failed, connect_from, connect_to_upstream, url_of,
  handle_web_socket, finish, proxy_connection,
}

dial_failed_lem :
    (p : ℕ) (lb : LoadBalancer)
    → let counted = modify p increment_error lb in
      let after = (if exceeds counted p then demote p counted else counted) in
      ((dial_failed p lb).heap ≡ after.heap)
      × ((dial_failed p lb).healthy_nodes ≡ after.healthy_nodes)
      × ((dial_failed p lb).nodes ≡ lb.nodes)
      × ((dial_failed p lb).config ≡ lb.config)
unfolding dial_failed demote
dial_failed_lem p lb = elim (Bool-cases (exceeds (modify p increment_error lb) p)) [
  | inl e ↦ rw (e, dial_failed) (refl, refl, refl, refl)
  | inr e ↦ rw (e, dial_failed) (refl, refl, refl, refl)
]

-- A failed dial does to the nodes and to the healthy nodes what an answer with a server error does.
pub dial_failed-handle_node_error :
    (p status : ℕ) (lb : LoadBalancer)
    → 500 ≤ status
    → ((dial_failed p lb).heap ≡ (handle_node_error p status lb).heap)
      × ((dial_failed p lb).healthy_nodes ≡ (handle_node_error p status lb).healthy_nodes)
dial_failed-handle_node_error p status lb h =
    let dialled = dial_failed_lem p lb in
    let answered = handle_node_error_count p status lb h in
    (dialled.0 ∙ sym answered.0, dialled.1 ∙ sym answered.1)

pub dial_failed-IsKept : (p : ℕ) (lb : LoadBalancer) → IsKept lb (dial_failed p lb)
dial_failed-IsKept p lb =
    let same = (dial_failed-handle_node_error p 500 lb (omega arith)).0 in
    let k = handle_node_error-IsKept p 500 lb in
    record {
      names = λ q. ap (λ (f : ℕ → BeaconNode). (f q).name) same ∙ k.names q;
      originals = λ q. ap (λ (f : ℕ → BeaconNode). (f q).original_priority) same ∙ k.originals q;
      nodes = (dial_failed_lem p lb).2;
      config = (dial_failed_lem p lb).3;
    }

pub dial_failed_subset :
    (p q : ℕ) (lb : LoadBalancer)
    → Elem q (dial_failed p lb).healthy_nodes
    → Elem q lb.healthy_nodes
dial_failed_subset p q lb e =
    handle_node_error_subset p 500 q lb
      (subst (Elem q) (dial_failed-handle_node_error p 500 lb (omega arith)).1 e)

module _ (env : Environment) (target : Target) where
  -- Failed dials to these nodes.
  unfoldable pub dials_failed : List ℕ → LoadBalancer → LoadBalancer
  dials_failed [] lb = lb
  dials_failed (p ∷ ps) lb = dials_failed ps (dial_failed p lb)

  -- No dial to these nodes succeeds, from dial number `i` on.
  abbrev pub Unreachable : ℕ → List ℕ → LoadBalancer → Type 0
  Unreachable i [] lb = Unit
  Unreachable i (p ∷ ps) lb =
      (env.dial i (url_of env target lb p) target.header ≡ false)
      × Unreachable (suc i) ps (dial_failed p lb)

  connect_from-none :
      (i : ℕ) (ps : List ℕ) (lb : LoadBalancer)
      → Unreachable i ps lb
      → connect_from env target i ps lb ≡ record { balancer = dials_failed ps lb; node = none }
  unfolding connect_from dials_failed
  connect_from-none i [] lb u = refl
  connect_from-none i (q ∷ ps) lb u =
      rw (u.0, connect_from) (connect_from-none (suc i) ps (dial_failed q lb) u.1)

  -- For a valid path, the client gets the status 502 if no healthy node can be dialled, and 503 if
  -- there is none.
  pub handle_web_socket-none :
      (v : BeaconEndpointValidator) (lb : LoadBalancer) (w : Writer)
      → is_valid_beacon_endpoint v target.path ≡ true
      → Unreachable 0 lb.healthy_nodes lb
      → ((lb.healthy_nodes ≡ [])
          × (handle_web_socket env target v lb w
              ≡ (lb, http_error "No healthy beacon nodes available" 503 w)))
        ⊎ (handle_web_socket env target v lb w ≡ (
          dials_failed lb.healthy_nodes lb,
          http_error "Failed to establish WebSocket connection to any node" 502 w,
        ))
  unfolding handle_web_socket
  handle_web_socket-none v lb w valid u = elim (Bool-cases (length lb.healthy_nodes == 0)) [
    | inl empty ↦ inl (length-zero lb.healthy_nodes empty, simp (valid, empty) refl)
    | inr full ↦
        let missing : connect_to_upstream env target lb.healthy_nodes lb
            ≡ record { balancer = dials_failed lb.healthy_nodes lb; node = none } =
          unfold connect_to_upstream in connect_from-none 0 lb.healthy_nodes lb u in
        inr (simp (valid, full, missing) (unfold finish in refl))
  ]

  dials_failed-IsKept : (ps : List ℕ) (lb : LoadBalancer) → IsKept lb (dials_failed ps lb)
  unfolding dials_failed
  dials_failed-IsKept [] lb = IsKept-refl lb
  dials_failed-IsKept (p ∷ ps) lb =
      IsKept-trans (dial_failed-IsKept p lb) (dials_failed-IsKept ps (dial_failed p lb))

  -- What a connection attempt leaves alone.
  connect_from-IsKept :
      (i : ℕ) (ps : List ℕ) (lb : LoadBalancer)
      → IsKept lb (connect_from env target i ps lb).balancer
  unfolding connect_from
  connect_from-IsKept i [] lb = IsKept-refl lb
  connect_from-IsKept i (p ∷ ps) lb =
      elim (Bool-cases (env.dial i (url_of env target lb p) target.header)) [
        | inl e ↦ rw (e, connect_from) (IsKept-refl lb)
        | inr e ↦
            rw (e, connect_from)
              (IsKept-trans (dial_failed-IsKept p lb)
                (connect_from-IsKept (suc i) ps (dial_failed p lb)))
      ]

  connect_from_subset :
      (i q : ℕ) (ps : List ℕ) (lb : LoadBalancer)
      → Elem q (connect_from env target i ps lb).balancer.healthy_nodes
      → Elem q lb.healthy_nodes
  unfolding connect_from
  connect_from_subset i q [] lb e = e
  connect_from_subset i q (p ∷ ps) lb e =
      elim (Bool-cases (env.dial i (url_of env target lb p) target.header)) [
        | inl t ↦ rw (t, connect_from) at e
        | inr t ↦
            dial_failed_subset p q lb
              (connect_from_subset (suc i) q ps (dial_failed p lb) (rw (t, connect_from) at e))
      ]

  proxy_connection-IsKept :
      (p : ℕ) (lb : LoadBalancer) → IsKept lb (proxy_connection env target p lb)
  unfolding proxy_connection
  proxy_connection-IsKept p lb = record {
    names = λ q. ground arith;
    originals = λ q. ground arith;
    nodes = refl;
    config = refl;
  }

  finish-IsKept :
      (c : Connected) (o : Option ℕ) (w : Writer)
      → IsKept c.balancer (finish env target (record c { node = o }) w).0
  unfolding finish
  finish-IsKept c none w = IsKept-refl c.balancer
  finish-IsKept c (some p) w = elim (Bool-cases env.upgraded) [
    | inl e ↦ rw (e, finish) (proxy_connection-IsKept p c.balancer)
    | inr e ↦ rw (e, finish) (IsKept-refl c.balancer)
  ]

  finish-healthy :
      (c : Connected) (o : Option ℕ) (w : Writer)
      → (finish env target (record c { node = o }) w).0.healthy_nodes ≡ c.balancer.healthy_nodes
  unfolding finish proxy_connection
  finish-healthy c none w = refl
  finish-healthy c (some p) w = ground arith

  pub handle_web_socket-IsKept :
      (v : BeaconEndpointValidator) (lb : LoadBalancer) (w : Writer)
      → IsKept lb (handle_web_socket env target v lb w).0
        × ((q : ℕ)
            → Elem q (handle_web_socket env target v lb w).0.healthy_nodes
            → Elem q lb.healthy_nodes)
  unfolding handle_web_socket connect_to_upstream
  handle_web_socket-IsKept v lb w = elim (Bool-cases (is_valid_beacon_endpoint v target.path)) [
    | inr bad ↦
        simp bad (
          record { names = λ q. refl; originals = λ q. refl; nodes = refl; config = refl },
          λ q e. e,
        )
    | inl valid ↦ elim (Bool-cases (length lb.healthy_nodes == 0)) [
      | inl empty ↦ simp (valid, empty) (IsKept-refl lb, λ q e. e)
      | inr full ↦
          let c = connect_from env target 0 lb.healthy_nodes lb in
          simp (valid, full)
            (
              IsKept-trans (connect_from-IsKept 0 lb.healthy_nodes lb) (finish-IsKept c c.node w),
              λ q e.
                  connect_from_subset 0 q lb.healthy_nodes lb
                    (subst (Elem q) (finish-healthy c c.node w) e),
            )
    ]
  ]
