-- ===== src/Balancer/WebSocket/Refusal.antt =====
-- cmd/loadbalancer/websocket_handler.go: the headers of an upgrade request, passed on to the dialler.
use consensus_proxy.Base.{
  ℕ, suc, true, false, List, [], ◌∷◌, inc_int64, Elem, Distinct, subst, ◌≡◌, refl, sym, ap, ◌∙◌,
  ◌≢◌, inl, inr, arith, none,
}
use consensus_proxy.Http.{Bytes, Writer, http_error}
use consensus_proxy.Http.Headers.{Header, lookup}
use consensus_proxy.Node.{BeaconNode}
use consensus_proxy.Validator.{BeaconEndpointValidator, is_valid_beacon_endpoint}
use consensus_proxy.Balancer.{LoadBalancer}
use consensus_proxy.Balancer.Errors.Laws.{handle_node_error_server, handle_node_error_frame}
use consensus_proxy.Balancer.WebSocket.{Environment, Target, dial_failed, handle_web_socket}
use consensus_proxy.Balancer.WebSocket.Laws.{
  dial_failed-handle_node_error, dials_failed, Unreachable, handle_web_socket-none,
}

-- A failed dial counts one error for its node, and leaves every other node alone.
dial_failed_self :
    (p : ℕ) (lb : LoadBalancer)
    → ((dial_failed p lb).heap p).consecutive_errors ≡ inc_int64 (lb.heap p).consecutive_errors
dial_failed_self p lb =
    ap (λ (f : ℕ → BeaconNode). (f p).consecutive_errors)
      (dial_failed-handle_node_error p 500 lb (omega arith)).0
    ∙ (handle_node_error_server p 500 lb (omega arith)).0

dial_failed_other : (p q : ℕ) (lb : LoadBalancer) → q ≢ p → (dial_failed p lb).heap q ≡ lb.heap q
dial_failed_other p q lb h =
    ap (λ (f : ℕ → BeaconNode). f q) (dial_failed-handle_node_error p 500 lb (omega arith)).0
    ∙ (handle_node_error_frame p 500 q lb).0 h

module _ (env : Environment) (target : Target) where
  -- The dialler refuses headers that it sets itself, as the WebSocket library's does.
  abbrev pub RefusesUpgrade : Type 0
  RefusesUpgrade =
      (n : ℕ) (url : Bytes) (h : Header) → lookup "Upgrade" h ≢ none → env.dial n url h ≡ false

  refused-Unreachable :
      RefusesUpgrade
      → lookup "Upgrade" target.header ≢ none
      → (i : ℕ) (ps : List ℕ) (lb : LoadBalancer) → Unreachable env target i ps lb
  refused-Unreachable refuses asked i [] lb = tt
  refused-Unreachable refuses asked i (p ∷ ps) lb = (
    refuses i _ target.header asked,
    refused-Unreachable refuses asked (suc i) ps (dial_failed p lb),
  )

  dials_failed_other :
      (ps : List ℕ) (q : ℕ) (lb : LoadBalancer)
      → ¬ Elem q ps
      → (dials_failed env target ps lb).heap q ≡ lb.heap q
  unfolding dials_failed
  dials_failed_other [] q lb h = refl
  dials_failed_other (p ∷ ps) q lb h =
      dials_failed_other ps q (dial_failed p lb) (λ e. h (inr e))
      ∙ dial_failed_other p q lb (λ e. h (inl e))

  dials_failed_count :
      (ps : List ℕ) (q : ℕ) (lb : LoadBalancer)
      → Distinct ps
      → Elem q ps
      → ((dials_failed env target ps lb).heap q).consecutive_errors
        ≡ inc_int64 (lb.heap q).consecutive_errors
  unfolding dials_failed
  dials_failed_count [] q lb d e = absurd e
  dials_failed_count (p ∷ ps) q lb d (inl here) =
      let other : ¬ Elem q ps = subst (λ x. ¬ Elem x ps) (sym here) d.0 in
      ap (λ (n : BeaconNode). n.consecutive_errors)
        (dials_failed_other ps q (dial_failed p lb) other)
      ∙ subst
          (λ x.
            ((dial_failed x lb).heap q).consecutive_errors
            ≡ inc_int64 (lb.heap q).consecutive_errors)
          here (dial_failed_self q lb)
  dials_failed_count (p ∷ ps) q lb d (inr later) =
      let other : q ≢ p = λ same. d.0 (subst (λ x. Elem x ps) same later) in
      dials_failed_count ps q (dial_failed p lb) d.1 later
      ∙ ap (λ (n : BeaconNode). inc_int64 n.consecutive_errors) (dial_failed_other p q lb other)

  -- The bug: the headers of an upgrade request go to a dialler that refuses them. For a valid path,
  -- the client gets the status 502, and every healthy node, where none is listed twice, is counted
  -- an error.
  pub handle_web_socket-refused :
      (v : BeaconEndpointValidator) (q : ℕ) (lb : LoadBalancer) (w : Writer)
      → RefusesUpgrade
      → lookup "Upgrade" target.header ≢ none
      → is_valid_beacon_endpoint v target.path ≡ true
      → Distinct lb.healthy_nodes
      → Elem q lb.healthy_nodes
      → let (lb', w') = handle_web_socket env target v lb w in
        (w' ≡ http_error "Failed to establish WebSocket connection to any node" 502 w)
        × ((lb'.heap q).consecutive_errors ≡ inc_int64 (lb.heap q).consecutive_errors)
  handle_web_socket-refused v q lb w refuses asked valid once e =
      elim (handle_web_socket-none env target v lb w valid
        (refused-Unreachable refuses asked 0 lb.healthy_nodes lb)) [
          | inl (empty, _) ↦ absurd (subst (Elem q) empty e)
          | inr done ↦ (
            ap (λ r. r.1) done,
            ap (λ (r : LoadBalancer × Writer). (r.0.heap q).consecutive_errors) done
                ∙ dials_failed_count lb.healthy_nodes q lb once e,
          )
        ]
