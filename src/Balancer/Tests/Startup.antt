-- ===== src/Balancer/Tests/Startup.antt =====
-- Creation, the startup check and a history, with two nodes: cmd/loadbalancer/loadbalancer.go and
-- health_check.go.
use consensus_proxy.Base.{
  String, inl, inr, eq_iff, not_both, sym, Distinct, arith, ◌==◌, if◌then◌else◌, ℕ, true, [], ◌∷◌,
  Elem, ◌≡◌, refl, ◌↔◌,
}
use consensus_proxy.Balancer.Reach.{here, next, round}
use consensus_proxy.Balancer.Reach.Forgetting.{Reach-forgets}
use consensus_proxy.Balancer.Health.{perform_health_check, backup_nodes}
use consensus_proxy.Node.Sync.{SyncReply, check_sync_status}
use consensus_proxy.Validator.{new_beacon_endpoint_validator}
use consensus_proxy.Balancer.Tests.{syncing_reply}
use consensus_proxy.Config.{Config, get_default_config, get_all_nodes}
use consensus_proxy.Config.Loading.Laws.{names_of}
use consensus_proxy.Balancer.{LoadBalancer, new, ok, update}
use consensus_proxy.Balancer.Startup.{startup_health_check}
use consensus_proxy.Balancer.Startup.Sorting.{IsSorted}
use consensus_proxy.Balancer.Startup.Laws.{synced, startup_health_check_healthy}
use consensus_proxy.Balancer.Tests.{two_nodes, node_at, synced_reply, in_order, in_order-Reorders}

startup_healthy_example :
    let healthy = (startup_health_check in_order synced_reply two_nodes).0.healthy_nodes in
    ((q : ℕ) → Elem q healthy ↔ (Elem q two_nodes.nodes × (synced synced_reply q ≡ true)))
    × IsSorted (λ p. (two_nodes.heap p).priority) healthy
startup_healthy_example =
    startup_health_check_healthy in_order synced_reply two_nodes in_order-Reorders

abbrev configured : Config
configured = record get_default_config {
  beacons = record {
    nodes = [];
    parsed_nodes =
        record { name = "a"; url = "http://a"; beacon_type = "" }
        ∷ record { name = "b"; url = "http://b"; beacon_type = "" }
        ∷ [];
  };
}

-- What `New` returns for it, at the time 0.
abbrev created : LoadBalancer
created = record {
  heap =
      update (update (λ p. node_at 0 "" 0) 0 (record (node_at 0 "a" 0) { url = "http://a" })) 1
        (record (node_at 1 "b" 1) { url = "http://b" });
  nodes = 0 ∷ 1 ∷ [];
  config = configured;
  metrics = [];
  healthy_nodes = [];
}

created-new : new (λ url. true) 0 (node_at 0 "" 0) configured ≡ ok created
unfolding new
created-new = refl

-- The first node is behind at startup, and synced at the first round of checks.
abbrev first_behind : ℕ → SyncReply
first_behind p = if p == 0 then syncing_reply p else synced_reply p

abbrev started : LoadBalancer
started = (startup_health_check in_order first_behind created).0

abbrev checked : LoadBalancer
checked = perform_health_check in_order synced_reply started

names_once : Distinct (names_of (get_all_nodes configured))
names_once = (other, ((λ e. e), tt))
  where
    other : Elem {A = String} "a" ("b" ∷ []) → ⊥
    other (inl e) = not_both (sym ((eq_iff "a" "b").1 e))
    other (inr e) = e

forgets_example :
    (¬ Elem 0 checked.healthy_nodes)
    × (¬ Elem 0 (backup_nodes checked))
    × ((checked.heap 0).priority ≡ 0)
unfolding check_sync_status
forgets_example =
    Reach-forgets (λ url. true) 0 (node_at 0 "" 0) configured in_order first_behind
      new_beacon_endpoint_validator 0 (ground arith) names_once created-new in_order-Reorders
      (inl refl) refl refl (next here (round in_order synced_reply in_order-Reorders))
