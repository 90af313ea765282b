-- ===== src/Balancer/Tests.antt =====
-- A balancer of two nodes, for the runs of the child modules: cmd/loadbalancer.
pub mod Requests
pub mod Health
pub mod Startup
pub mod Sockets
pub mod Overlaps
use consensus_proxy.Base.{
  ℕ, ◌-◌, String, true, false, List, [], ◌∷◌, pos, if◌then◌else◌, Reorders, ◌≡◌, refl, ◌==◌,
}
use consensus_proxy.Config.{get_default_config}
use consensus_proxy.Node.{BeaconNode}
use consensus_proxy.Node.Sync.{SyncReply, response, decoded, health_check}
use consensus_proxy.Balancer.{LoadBalancer}
use consensus_proxy.Balancer.Health.Collecting.{passes}

abbrev pub node_at : ℕ → String → ℕ → BeaconNode
node_at i name priority = record {
  name = name;
  url = "http://beacon";
  consecutive_errors = pos 0;
  consecutive_successes = pos 0;
  total_failures = pos 0;
  requests = pos 0;
  last_check = 0;
  priority = priority;
  original_priority = i;
}

-- The node 0 has the first priority, the node 1 the second.
abbrev pub two_nodes : LoadBalancer
two_nodes = record {
  heap = λ p. if p == 0 then node_at 0 "a" 0 else node_at 1 "b" 1;
  nodes = 0 ∷ 1 ∷ [];
  config = get_default_config;
  metrics = [];
  healthy_nodes = 0 ∷ 1 ∷ [];
}

-- The node 0 was demoted, and the node 1 took its place.
abbrev pub failed_over : LoadBalancer
failed_over = record two_nodes {
  heap = λ p. if p == 0 then node_at 0 "a" 2 else node_at 1 "b" 0;
  healthy_nodes = 1 ∷ [];
}

abbrev pub synced_reply : ℕ → SyncReply
synced_reply p = response 200 (decoded (record { is_syncing = false; sync_distance = "0" }))

abbrev pub syncing_reply : ℕ → SyncReply
syncing_reply p = response 200 (decoded (record { is_syncing = true; sync_distance = "7" }))

abbrev pub in_order : List ℕ → List ℕ
in_order ps = ps

-- Two results arrive in the other order.
abbrev pub swapped : List ℕ → List ℕ
swapped (p ∷ q ∷ []) = q ∷ p ∷ []
swapped ps = ps

pub in_order-Reorders : Reorders in_order
in_order-Reorders = record { from = λ a xs e. e; into = λ a xs e. e; distinct = λ xs d. d }

-- Every node passes its check where every reply is a synced one.
pub synced_reply-passes : (p : ℕ) → passes synced_reply p ≡ true
unfolding health_check
synced_reply-passes p = refl
