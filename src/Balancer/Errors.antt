-- ===== src/Balancer/Errors.antt =====
-- cmd/loadbalancer/http_handler.go: `handleNodeError`, and the demotion that it shares with the
-- WebSocket handler.
pub mod Laws
pub mod Trimming
pub mod Threshold
pub mod Concurrent
use consensus_proxy.Base.{
  ℕ, String, Bool, not, List, [], ◌∷◌, ◌&&◌, str_eq, leb, leb_ℤ, if◌then◌else◌, length, select,
}
use consensus_proxy.Node.{increment_error, set_priority, is_primary}
use consensus_proxy.Balancer.{LoadBalancer, modify, emit, incr, text, number}

-- cmd/loadbalancer/constants.go
abbrev pub http_status_success_min : ℕ
http_status_success_min = 200

abbrev pub http_status_success_max : ℕ
http_status_success_max = 400

abbrev pub http_status_client_error_min : ℕ
http_status_client_error_min = 400

abbrev pub http_status_server_error_min : ℕ
http_status_server_error_min = 500

abbrev pub name_of : LoadBalancer → ℕ → String
name_of lb p = (lb.heap p).name

-- The loop that drops every healthy node with the name of `p`.
abbrev pub without_name : LoadBalancer → String → List ℕ → List ℕ
without_name lb name = select (λ n. not (str_eq (name_of lb n) name))

-- The primary gets the lowest priority, and leaves the healthy nodes at once.
unfoldable pub demote : ℕ → LoadBalancer → LoadBalancer
demote p lb =
    let lb' = modify p (set_priority (length lb.nodes)) lb in
    record lb' { healthy_nodes = without_name lb' (name_of lb' p) lb'.healthy_nodes }

-- The threshold test after an error was counted.
abbrev pub exceeds : LoadBalancer → ℕ → Bool
exceeds lb p =
    is_primary (lb.heap p)
    && leb_ℤ lb.config.failover.error_threshold (lb.heap p).consecutive_errors

-- The branch for a server error.
pub count_error : ℕ → LoadBalancer → LoadBalancer
unfolding demote
count_error p lb =
    let lb' = modify p increment_error lb in
    if exceeds lb' p
    then emit (incr "node.primary_demoted" (("node", text (name_of lb' p)) ∷ [])) (demote p lb')
    else lb'

-- `handleNodeError`; the branch for a client error only logs.
pub handle_node_error : ℕ → ℕ → LoadBalancer → LoadBalancer
unfolding count_error
handle_node_error p status lb =
    emit
      (incr "request.failover"
        (("from_node", text (name_of lb p)) ∷ ("status_code", number status) ∷ []))
      (if leb http_status_server_error_min status then count_error p lb else lb)
