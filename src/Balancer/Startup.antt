-- ===== src/Balancer/Startup.antt =====
-- cmd/loadbalancer/health_check.go: the check of all nodes at startup. `sort.Slice` is insertion
-- sort, as in Go's library for short slices; the results arrive in the order of `arrival`.
pub mod Sorting
pub mod Laws
use consensus_proxy.Base.{
  ℕ, ◌+◌, String, List, [], ◌∷◌, ◌++◌, if◌then◌else◌, length, ◌==◌, Option, none, some,
}
use consensus_proxy.Node.{get_priority}
use consensus_proxy.Node.Sync.{SyncReply, check_sync_status}
use consensus_proxy.Balancer.{LoadBalancer}
use consensus_proxy.Balancer.Errors.{name_of}
use Sorting.{sort_by}

pub data StartupError : Type 0 where
  no_healthy_nodes : ℕ → StartupError

-- The state of the loop that collects the results.
pub record Results : Type 0 where
  pub healthy_nodes : List ℕ
  pub unhealthy_nodes : List String

unfoldable pub startup_result : (ℕ → SyncReply) → LoadBalancer → Results → ℕ → Results
startup_result reply lb r p =
    if (check_sync_status (reply p)).0
    then record r { healthy_nodes = r.healthy_nodes ++ p ∷ [] }
    else record r { unhealthy_nodes = r.unhealthy_nodes ++ name_of lb p ∷ [] }

unfoldable pub startup_results : (ℕ → SyncReply) → LoadBalancer → Results → List ℕ → Results
startup_results reply lb r [] = r
startup_results reply lb r (p ∷ ps) = startup_results reply lb (startup_result reply lb r p) ps

-- `StartupHealthCheck`
unfoldable pub startup_health_check :
    (List ℕ → List ℕ) → (ℕ → SyncReply) → LoadBalancer → LoadBalancer × Option StartupError
unfolding startup_results startup_result
startup_health_check arrival reply lb =
    let start : Results = record { healthy_nodes = []; unhealthy_nodes = [] } in
    let r = startup_results reply lb start (arrival lb.nodes) in
    let sorted = sort_by (λ p. get_priority (lb.heap p)) r.healthy_nodes in
    let lb' = record lb { healthy_nodes = sorted } in
    (lb', if length sorted == 0 then some (no_healthy_nodes (length lb.nodes)) else none)
