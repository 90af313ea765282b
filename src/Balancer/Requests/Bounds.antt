-- ===== src/Balancer/Requests/Bounds.antt =====
-- cmd/loadbalancer/http_handler.go: what `handleHTTPRequest` leaves alone.
use consensus_proxy.Base.{
  ℕ, suc, Bool, true, false, List, [], ◌∷◌, leb_ℤ, pos, if◌then◌else◌, Elem, refl, arith,
}
use consensus_proxy.Balancer.{LoadBalancer}
use consensus_proxy.Balancer.Errors.{handle_node_error}
use consensus_proxy.Balancer.Recorder.{ResponseRecorder}
use consensus_proxy.Balancer.Requests.{
  Environment, Served, is_success, recorder_of, attempt, attempts, handle_http_request,
  handle_success_response, handle_all_nodes_failed,
}
use consensus_proxy.Http.{Writer}
use consensus_proxy.Balancer.Errors.Laws.{handle_node_error_subset}
use consensus_proxy.Balancer.Kept.{IsKept, IsKept-refl, IsKept-trans, handle_node_error-IsKept}
use consensus_proxy.Balancer.Requests.Order.{attempt_frame}

pub served_if :
    (P : LoadBalancer → Type 0) (t : Bool) (a b : Served)
    → P a.balancer
    → P b.balancer
    → P (if t then a else b).balancer
served_if P true a b x y = x
served_if P false a b x y = y

module _ (env : Environment) where
  pub attempt-IsKept : (i p : ℕ) (lb : LoadBalancer) → IsKept lb (attempt env i p lb)
  attempt-IsKept i p lb = record {
    names = λ q. (attempt_frame env i p q lb).1;
    originals = λ q. (attempt_frame env i p q lb).2;
    nodes = (attempt_frame env i p p lb).4;
    config = (attempt_frame env i p p lb).5;
  }

  success-IsKept :
      (p : ℕ) (rr : ResponseRecorder) (lb : LoadBalancer) (w : Writer)
      → IsKept lb (handle_success_response env p rr lb w).balancer
  unfolding handle_success_response
  success-IsKept p rr lb w = record {
    names = λ q. ground arith;
    originals = λ q. ground arith;
    nodes = refl;
    config = refl;
  }

  failed-IsKept :
      (last : ℕ) (lb : LoadBalancer) (w : Writer)
      → IsKept lb (handle_all_nodes_failed env last lb w).balancer
  unfolding handle_all_nodes_failed
  failed-IsKept last lb w = record {
    names = λ q. refl;
    originals = λ q. refl;
    nodes = refl;
    config = refl;
  }

  attempts-IsKept :
      (i last : ℕ) (ps : List ℕ) (lb : LoadBalancer) (w : Writer)
      → IsKept lb (attempts env i ps last lb w).balancer
  unfolding attempts
  attempts-IsKept i last [] lb w = failed-IsKept last lb w
  attempts-IsKept i last (p ∷ ps) lb w =
      let rr = recorder_of env i p in
      let lb' = attempt env i p lb in
      let failed = handle_node_error p rr.status_code lb' in
      let attempted : IsKept lb lb' = attempt-IsKept i p lb in
      served_if (IsKept lb) (leb_ℤ lb.config.server.max_retries (pos i)) _ _
        (failed-IsKept last lb w)
        (served_if (IsKept lb) (env.expired i) _ _ (IsKept-refl lb) (
          served_if (IsKept lb) (leb_ℤ lb.config.server.request_timeout (pos (env.elapsed i))) _ _
            (IsKept-refl lb)
            (served_if (IsKept lb) (is_success rr.status_code) _ _
              (IsKept-trans attempted (success-IsKept p rr lb' w))
              (IsKept-trans attempted (
                IsKept-trans (handle_node_error-IsKept p rr.status_code lb')
                  (attempts-IsKept (suc i) rr.status_code ps failed w))))))

  pub handle_http_request-IsKept :
      (lb : LoadBalancer) (w : Writer) → IsKept lb (handle_http_request env lb w).balancer
  unfolding handle_http_request
  handle_http_request-IsKept lb w = attempts-IsKept 0 0 lb.healthy_nodes lb w

  attempts_subset :
      (i last q : ℕ) (ps : List ℕ) (lb : LoadBalancer) (w : Writer)
      → Elem q (attempts env i ps last lb w).balancer.healthy_nodes
      → Elem q lb.healthy_nodes
  unfolding attempts handle_success_response handle_all_nodes_failed attempt
  attempts_subset i last q [] lb w e = e
  attempts_subset i last q (p ∷ ps) lb w e =
      let rr = recorder_of env i p in
      let lb' = attempt env i p lb in
      let failed = handle_node_error p rr.status_code lb' in
      let Kept : LoadBalancer → Type 0 = λ b. Elem q b.healthy_nodes → Elem q lb.healthy_nodes in
      served_if Kept (leb_ℤ lb.config.server.max_retries (pos i)) _ _ (λ h. h)
        (served_if Kept (env.expired i) _ _ (λ h. h)
          (served_if Kept (leb_ℤ lb.config.server.request_timeout (pos (env.elapsed i))) _ _
            (λ h. h)
            (served_if Kept (is_success rr.status_code) _ _ (λ h. h)
              (λ h.
                handle_node_error_subset p rr.status_code q lb'
                  (attempts_subset (suc i) rr.status_code q ps failed w h)))))
        e

  -- A request adds no healthy node.
  pub handle_http_request_subset :
      (q : ℕ) (lb : LoadBalancer) (w : Writer)
      → Elem q (handle_http_request env lb w).balancer.healthy_nodes
      → Elem q lb.healthy_nodes
  unfolding handle_http_request
  handle_http_request_subset q lb w e = attempts_subset 0 0 q lb.healthy_nodes lb w e
