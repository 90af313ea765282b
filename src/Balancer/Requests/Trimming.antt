-- ===== src/Balancer/Requests/Trimming.antt =====
-- cmd/loadbalancer/http_handler.go: a request trims the list of the healthy nodes.
use consensus_proxy.Base.{
  ℕ, suc, List, [], ◌∷◌, leb_ℤ, pos, Elem, ◌≡◌, refl, ap, ◌∙◌, inl, inr, arith,
}
use consensus_proxy.Http.{Writer}
use consensus_proxy.Balancer.{LoadBalancer}
use consensus_proxy.Balancer.Errors.{handle_node_error}
use consensus_proxy.Node.{BeaconNode}
use consensus_proxy.Balancer.Errors.Laws.{handle_node_error_frame}
use consensus_proxy.Balancer.Errors.Trimming.{
  Trims, Trims-refl, Trims-trans, Trims-same, handle_node_error-Trims,
}
use consensus_proxy.Balancer.Recorder.{ResponseRecorder}
use consensus_proxy.Balancer.Requests.{
  Environment, is_success, recorder_of, attempt, attempts, handle_http_request,
  handle_success_response, handle_all_nodes_failed,
}
use consensus_proxy.Balancer.Requests.Bounds.{served_if}

module _ (env : Environment) where
  attempt-Trims : (i p : ℕ) (lb : LoadBalancer) → Trims lb (attempt env i p lb)
  unfolding attempt
  attempt-Trims i p lb = Trims-same refl (λ q. ground arith)

  success-Trims :
      (p : ℕ) (rr : ResponseRecorder) (lb : LoadBalancer) (w : Writer)
      → Trims lb (handle_success_response env p rr lb w).balancer
  unfolding handle_success_response
  success-Trims p rr lb w = Trims-same refl (λ q. ground arith)

  failed-Trims :
      (last : ℕ) (lb : LoadBalancer) (w : Writer)
      → Trims lb (handle_all_nodes_failed env last lb w).balancer
  unfolding handle_all_nodes_failed
  failed-Trims last lb w = Trims-same refl (λ q. refl)

  attempts-Trims :
      (i last : ℕ) (ps : List ℕ) (lb : LoadBalancer) (w : Writer)
      → Trims lb (attempts env i ps last lb w).balancer
  unfolding attempts
  attempts-Trims i last [] lb w = failed-Trims last lb w
  attempts-Trims i last (p ∷ ps) lb w =
      let rr = recorder_of env i p in
      let lb' = attempt env i p lb in
      let failed = handle_node_error p rr.status_code lb' in
      let attempted : Trims lb lb' = attempt-Trims i p lb in
      served_if (Trims lb) (leb_ℤ lb.config.server.max_retries (pos i)) _ _ (failed-Trims last lb w)
        (served_if (Trims lb) (env.expired i) _ _ (Trims-refl lb) (
          served_if (Trims lb) (leb_ℤ lb.config.server.request_timeout (pos (env.elapsed i))) _ _
            (Trims-refl lb)
            (served_if (Trims lb) (is_success rr.status_code) _ _
              (Trims-trans attempted (success-Trims p rr lb' w))
              (Trims-trans attempted (
                Trims-trans (handle_node_error-Trims p rr.status_code lb')
                  (attempts-Trims (suc i) rr.status_code ps failed w))))))

  pub handle_http_request-Trims :
      (lb : LoadBalancer) (w : Writer) → Trims lb (handle_http_request env lb w).balancer
  unfolding handle_http_request
  handle_http_request-Trims lb w = attempts-Trims 0 0 lb.healthy_nodes lb w

  -- A node that is not tried keeps its priority.
  attempts_aside :
      (i last q : ℕ) (ps : List ℕ) (lb : LoadBalancer) (w : Writer)
      → ¬ Elem q ps
      → ((attempts env i ps last lb w).balancer.heap q).priority ≡ (lb.heap q).priority
  unfolding attempts handle_all_nodes_failed handle_success_response attempt
  attempts_aside i last q [] lb w h = refl
  attempts_aside i last q (p ∷ ps) lb w h =
      let rr = recorder_of env i p in
      let lb' = attempt env i p lb in
      let failed = handle_node_error p rr.status_code lb' in
      let Same : LoadBalancer → Type 0 = λ b. (b.heap q).priority ≡ (lb.heap q).priority in
      let tried : (lb'.heap q).priority ≡ (lb.heap q).priority = ground arith in
      let other : failed.heap q ≡ lb'.heap q =
        (handle_node_error_frame p rr.status_code q lb').0 (λ e. h (inl e)) in
      served_if Same (leb_ℤ lb.config.server.max_retries (pos i)) _ _ refl (
        served_if Same (env.expired i) _ _ refl (
          served_if Same (leb_ℤ lb.config.server.request_timeout (pos (env.elapsed i))) _ _ refl (
            served_if Same (is_success rr.status_code) _ _ (ground (arith, tried)) (
              attempts_aside (suc i) rr.status_code q ps failed w (λ e. h (inr e))
              ∙ ap (λ (n : BeaconNode). n.priority) other
              ∙ tried))))

  pub handle_http_request_aside :
      (q : ℕ) (lb : LoadBalancer) (w : Writer)
      → ¬ Elem q lb.healthy_nodes
      → ((handle_http_request env lb w).balancer.heap q).priority ≡ (lb.heap q).priority
  unfolding handle_http_request
  handle_http_request_aside q lb w h = attempts_aside 0 0 q lb.healthy_nodes lb w h
