-- ===== src/Balancer/Kept.antt =====
-- cmd/loadbalancer/loadbalancer.go: two balancers with the same nodes, names, original priorities
-- and configuration.
use consensus_proxy.Base.{ℕ, ◌≡◌, refl, ◌∙◌}
use consensus_proxy.Balancer.{LoadBalancer}
use consensus_proxy.Balancer.Errors.{name_of, handle_node_error}
use consensus_proxy.Balancer.Errors.Laws.{handle_node_error_frame}

pub record IsKept (lb lb' : LoadBalancer) : Type 0 where
  pub names : (q : ℕ) → name_of lb' q ≡ name_of lb q
  pub originals : (q : ℕ) → (lb'.heap q).original_priority ≡ (lb.heap q).original_priority
  pub nodes : lb'.nodes ≡ lb.nodes
  pub config : lb'.config ≡ lb.config

pub IsKept-refl : (lb : LoadBalancer) → IsKept lb lb
IsKept-refl lb = record { names = λ q. refl; originals = λ q. refl; nodes = refl; config = refl }

pub IsKept-trans : {a b c : LoadBalancer} → IsKept a b → IsKept b c → IsKept a c
IsKept-trans k l = record {
  names = λ q. l.names q ∙ k.names q;
  originals = λ q. l.originals q ∙ k.originals q;
  nodes = l.nodes ∙ k.nodes;
  config = l.config ∙ k.config;
}

pub handle_node_error-IsKept :
    (p status : ℕ) (lb : LoadBalancer) → IsKept lb (handle_node_error p status lb)
handle_node_error-IsKept p status lb = record {
  names = λ q. (handle_node_error_frame p status q lb).1;
  originals = λ q. (handle_node_error_frame p status q lb).2;
  nodes = (handle_node_error_frame p status p lb).3;
  config = (handle_node_error_frame p status p lb).4;
}
