-- ===== src/Balancer/Errors/Concurrent.antt =====
-- cmd/loadbalancer/http_handler.go and cmd/beaconnode/node.go: `handleNodeError`, run by several
-- requests at once. Each access to a shared counter, to a node's priority and, under
-- the balancer's lock, to the healthy nodes is one step; a schedule says whose step is next.
pub mod Threads
pub mod Keeping
pub mod Interleaving
pub mod Progress
pub mod Clients
use consensus_proxy.Base.{
  ℕ, zero, suc, List, [], ◌∷◌, leb, leb_ℤ, ℤ, inc_int64, if◌then◌else◌, length, ◌&&◌,
}
use consensus_proxy.Node.{BeaconNode, is_primary, set_priority, reset_successes}
use consensus_proxy.Balancer.{LoadBalancer, modify, emit, incr, text, number}
use consensus_proxy.Balancer.Errors.{name_of, without_name, http_status_server_error_min}

-- What a thread does next.
pub data Next : Type 0 where
  test_status : Next
  add_error : Next
  add_failure : Next
  store_successes : Next
  load_errors : Next
  test_primary : ℤ → Next
  store_priority : Next
  filter_healthy : Next
  report_demotion : Next
  report_failover : Next
  returned : Next

-- A request whose attempt on the node was answered with this status.
pub record Thread : Type 0 where
  pub next : Next
  pub status : ℕ

abbrev pub add_error_to : BeaconNode → BeaconNode
add_error_to bn = record bn { consecutive_errors = inc_int64 bn.consecutive_errors }

abbrev pub add_failure_to : BeaconNode → BeaconNode
add_failure_to bn = record bn { total_failures = inc_int64 bn.total_failures }

-- One step of a thread in `handleNodeError` of the node at `p`. A client error is only logged and
-- counted as a failover.
pub micro : ℕ → ℕ → Next → LoadBalancer → Next × LoadBalancer
micro p status test_status lb =
    if leb http_status_server_error_min status then (add_error, lb) else (report_failover, lb)
micro p status add_error lb = (add_failure, modify p add_error_to lb)
micro p status add_failure lb = (store_successes, modify p add_failure_to lb)
micro p status store_successes lb = (load_errors, modify p reset_successes lb)
micro p status load_errors lb = (test_primary (lb.heap p).consecutive_errors, lb)
micro p status (test_primary errors) lb =
    if is_primary (lb.heap p) && leb_ℤ lb.config.failover.error_threshold errors
    then (store_priority, lb)
    else (report_failover, lb)
micro p status store_priority lb = (filter_healthy, modify p (set_priority (length lb.nodes)) lb)
micro p status filter_healthy lb =
    (report_demotion, record lb { healthy_nodes = without_name lb (name_of lb p) lb.healthy_nodes })
micro p status report_demotion lb =
    (report_failover, emit (incr "node.primary_demoted" (("node", text (name_of lb p)) ∷ [])) lb)
micro p status report_failover lb = (
  returned,
  emit
      (incr "request.failover"
        (("from_node", text (name_of lb p)) ∷ ("status_code", number status) ∷ []))
      lb,
)
micro p status returned lb = (returned, lb)

-- The threads and what they share.
pub record Shared : Type 0 where
  pub threads : List Thread
  pub balancer : LoadBalancer

abbrev pub step_thread : ℕ → Thread → LoadBalancer → Thread × LoadBalancer
step_thread p thread lb =
    let (next, lb') = micro p thread.status thread.next lb in (record thread { next = next }, lb')

abbrev add_thread : Thread → Shared → Shared
add_thread thread s = record s { threads = thread ∷ s.threads }

-- A step of thread number `i`, if there is one.
pub step_at : ℕ → ℕ → List Thread → LoadBalancer → Shared
unfolding micro
step_at p i [] lb = record { threads = []; balancer = lb }
step_at p zero (thread ∷ threads) lb =
    let (thread', lb') = step_thread p thread lb in
    record { threads = thread' ∷ threads; balancer = lb' }
step_at p (suc i) (thread ∷ threads) lb = add_thread thread (step_at p i threads lb)

-- The steps of a schedule.
pub run_schedule : ℕ → List ℕ → Shared → Shared
unfolding step_at
run_schedule p [] s = s
run_schedule p (i ∷ is) s = run_schedule p is (step_at p i s.threads s.balancer)

-- Requests that are about to handle these statuses.
abbrev pub entering : List ℕ → List Thread
entering [] = []
entering (s ∷ ss) = record { next = test_status; status = s } ∷ entering ss
