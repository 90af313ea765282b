-- ===== src/Balancer/Settled.antt =====
-- cmd/loadbalancer: balancers in which the list of the healthy nodes is in order, and those in which
-- it lacks the original primary for good.
use consensus_proxy.Base.{ℕ, Elem, Distinct, subst, ◌≡◌, sym, ◌∙◌, ◌⊎◌}
use consensus_proxy.Balancer.{LoadBalancer}
use consensus_proxy.Balancer.Errors.{name_of}
use consensus_proxy.Balancer.Errors.Trimming.{Trims}
use consensus_proxy.Balancer.Kept.{IsKept}

-- No two nodes have the same name.
abbrev pub NamesDiffer : LoadBalancer → Type 0
NamesDiffer lb = (q r : ℕ) → Elem q lb.nodes → Elem r lb.nodes → name_of lb q ≡ name_of lb r → q ≡ r

-- No node stands twice among the healthy nodes, and each of them is a primary or has its original
-- priority.
pub record IsSettled (lb : LoadBalancer) : Type 0 where
  pub distinct : Distinct lb.healthy_nodes
  pub ranks :
      (q : ℕ)
      → Elem q lb.healthy_nodes
      → ((lb.heap q).priority ≡ 0) ⊎ ((lb.heap q).priority ≡ (lb.heap q).original_priority)

pub IsKept-NamesDiffer : {lb lb' : LoadBalancer} → IsKept lb lb' → NamesDiffer lb → NamesDiffer lb'
IsKept-NamesDiffer k differ q r e f same =
    differ q r (subst (Elem q) k.nodes e) (subst (Elem r) k.nodes f)
      (sym (k.names q) ∙ same ∙ k.names r)

pub Trims-IsSettled :
    {lb lb' : LoadBalancer} → IsKept lb lb' → Trims lb lb' → IsSettled lb → IsSettled lb'
Trims-IsSettled k t v = record {
  distinct = t.distinct v.distinct;
  ranks = λ q e. rw (t.priorities q e, k.originals q) (v.ranks q (t.stays q e));
}

-- The original primary is taken for the primary, and is not among the healthy nodes.
pub record IsForgotten (p : ℕ) (lb : LoadBalancer) : Type 0 where
  pub listed : Elem p lb.nodes
  pub original : (lb.heap p).original_priority ≡ 0
  pub primary : (lb.heap p).priority ≡ 0
  pub unhealthy : ¬ Elem p lb.healthy_nodes

pub IsKept-IsForgotten :
    {p : ℕ} {lb lb' : LoadBalancer}
    → IsKept lb lb'
    → (lb'.heap p).priority ≡ 0
    → ¬ Elem p lb'.healthy_nodes
    → IsForgotten p lb
    → IsForgotten p lb'
IsKept-IsForgotten {p} k primary unhealthy f = record {
  listed = subst (Elem p) (sym k.nodes) f.listed;
  original = k.originals p ∙ f.original;
  primary = primary;
  unhealthy = unhealthy;
}
