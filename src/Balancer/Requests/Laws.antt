-- ===== src/Balancer/Requests/Laws.antt =====
-- cmd/loadbalancer/http_handler.go: the statuses that `handleHTTPRequest` answers.
use consensus_proxy.Base.{ℕ, suc, ◌<◌, ◌≤◌, List, [], ◌∷◌, ◌≡◌, ◌⊎◌, arith}
use consensus_proxy.Balancer.Recorder.Laws.{copy_to_response_writer-status}
use consensus_proxy.Http.{http_error-status, Writer}
use consensus_proxy.Balancer.{LoadBalancer}
use consensus_proxy.Balancer.Errors.{handle_node_error}
use consensus_proxy.Balancer.Requests.{
  Environment, recorder_of, attempt, attempts, handle_http_request, handle_success_response,
  handle_all_nodes_failed,
}

module _ (env : Environment) where
  -- The statuses that a client can see: a success of a node, the proxy's own 502 and 504, or
  -- nothing at all.
  abbrev pub IsAnswer : ℕ → Type 0
  IsAnswer s = (s ≡ 0) ⊎ ((200 ≤ s) × (s < 400)) ⊎ (s ≡ 502) ⊎ (s ≡ 504)

  attempts-IsAnswer :
      (i last : ℕ) (ps : List ℕ) (lb : LoadBalancer) (w : Writer)
      → w.status ≡ 0
      → IsAnswer (attempts env i ps last lb w).writer.status
  unfolding attempts handle_success_response handle_all_nodes_failed
  attempts-IsAnswer i last [] lb w h =
      ground (arith, http_error-status "All beacon nodes unavailable" 502 w h)
  attempts-IsAnswer i last (p ∷ ps) lb w h =
      let rr = recorder_of env i p in
      ground (
        arith,
        attempts-IsAnswer (suc i) rr.status_code ps
            (handle_node_error p rr.status_code (attempt env i p lb)) w h,
        http_error-status "All beacon nodes unavailable" 502 w h,
        http_error-status "Request timeout" 504 w h,
        copy_to_response_writer-status rr w h,
      )

  -- Whatever the nodes answer, a client that was sent nothing yet sees a status from 200 to 399,
  -- the proxy's 502 or 504, or no status at all: never an error of a node.
  pub handle_http_request-IsAnswer :
      (lb : LoadBalancer) (w : Writer)
      → w.status ≡ 0
      → IsAnswer (handle_http_request env lb w).writer.status
  unfolding handle_http_request
  handle_http_request-IsAnswer lb w h = attempts-IsAnswer 0 0 lb.healthy_nodes lb w h
