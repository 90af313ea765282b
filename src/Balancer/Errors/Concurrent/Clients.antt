-- ===== src/Balancer/Errors/Concurrent/Clients.antt =====
-- cmd/loadbalancer/http_handler.go: client errors whose handling overlaps in time.
use consensus_proxy.Base.{◌<◌, ◌≡◌}
use consensus_proxy.Balancer.{LoadBalancer}
use consensus_proxy.Balancer.Errors.Concurrent.{
  Next, test_status, report_failover, returned, Thread,
}

-- A thread that counts no error.
abbrev IsAside : Next → Type 0
IsAside test_status = Unit
IsAside report_failover = Unit
IsAside returned = Unit
IsAside _ = ⊥

abbrev IsClient : Thread → Type 0
IsClient thread = (thread.status < 500) × IsAside thread.next

-- The nodes and the healthy nodes are the same.
abbrev pub SameNodes : LoadBalancer → LoadBalancer → Type 0
SameNodes lb lb' =
    (lb'.heap ≡ lb.heap) × (lb'.healthy_nodes ≡ lb.healthy_nodes) × (lb'.nodes ≡ lb.nodes)
