-- ===== src/Balancer.antt =====
-- cmd/loadbalancer/loadbalancer.go: the balancer's state and its creation. A `*BeaconNode` is an
-- address of `heap`: `nodes` and `healthy_nodes` share the nodes that they hold. The calls of the
-- metrics client are kept in `metrics`, the latest first, with each tag as a pair of its key and
-- its value before formatting, and without the sampling rate, which is always 1.
pub mod Tests
pub mod Recorder
pub mod Errors
pub mod Health
pub mod Startup
pub mod WebSocket
pub mod Serve
pub mod Reach
pub mod Configured
pub mod Creation
pub mod Kept
pub mod Settled
pub mod WellFormed
pub mod Requests
use consensus_proxy.Base.{
  ℕ, suc, ◌+◌, String, Bool, none, some, List, [], ◌∷◌, ◌++◌, ◌==◌, if◌then◌else◌, length,
}
use consensus_proxy.Config.{Config, NodeConfig, get_all_nodes}
use consensus_proxy.Node.{BeaconNode, new_beacon_node}

pub data TagValue : Type 0 where
  text : String → TagValue
  number : ℕ → TagValue
  flag : Bool → TagValue

abbrev pub Tag : Type 0
Tag = String × TagValue

pub data Metric : Type 0 where
  incr : String → List Tag → Metric
  timing : String → ℕ → List Tag → Metric
  gauge : String → ℕ → List Tag → Metric

pub record LoadBalancer : Type 0 where
  pub heap : ℕ → BeaconNode
  pub nodes : List ℕ
  pub config : Config
  pub metrics : List Metric
  pub healthy_nodes : List ℕ

abbrev pub update : (ℕ → BeaconNode) → ℕ → BeaconNode → ℕ → BeaconNode
update heap p bn q = if q == p then bn else heap q

-- A method of the node at `p` that changes it.
abbrev pub modify : ℕ → (BeaconNode → BeaconNode) → LoadBalancer → LoadBalancer
modify p f lb = record lb { heap = update lb.heap p (f (lb.heap p)) }

abbrev pub emit : Metric → LoadBalancer → LoadBalancer
emit m lb = record lb { metrics = m ∷ lb.metrics }

pub data NewError : Type 0 where
  no_nodes_configured no_valid_nodes : NewError

pub data Result (A : Type 0) : Type 0 where
  ok : A → Result A
  err : NewError → Result A

-- The heap and the node list that the loop of `New` builds.
pub record Built : Type 0 where
  pub heap : ℕ → BeaconNode
  pub nodes : List ℕ

module _ (url_parses : String → Bool) (now : ℕ) where
  -- One round: the node for the `i`-th configuration is allocated at the address `i`.
  pub add_node : Built → ℕ → NodeConfig → Built
  add_node b i nc = elim (new_beacon_node url_parses nc now) [
    | none ↦ b
    | some bn ↦ record {
      heap = update b.heap i (record bn { priority = i; original_priority = i });
      nodes = b.nodes ++ i ∷ [];
    }
  ]

  pub build_nodes : Built → ℕ → List NodeConfig → Built
  unfolding add_node
  build_nodes b i [] = b
  build_nodes b i (nc ∷ ncs) = build_nodes (add_node b i nc) (suc i) ncs

  -- `New`, over a heap that holds `blank` everywhere.
  unfoldable pub new : BeaconNode → Config → Result LoadBalancer
  unfolding build_nodes
  new blank cfg =
      let all_nodes = get_all_nodes cfg in
      let b = build_nodes (record { heap = λ _. blank; nodes = [] }) 0 all_nodes in
      if length all_nodes == 0
      then err no_nodes_configured
      else if length b.nodes == 0
      then err no_valid_nodes
      else ok (record {
        heap = b.heap;
        nodes = b.nodes;
        config = cfg;
        metrics = [];
        healthy_nodes = [];
      })

abbrev pub get_nodes : LoadBalancer → List ℕ
get_nodes lb = lb.nodes

abbrev pub get_healthy_nodes : LoadBalancer → List ℕ
get_healthy_nodes lb = lb.healthy_nodes
