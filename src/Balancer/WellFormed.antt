-- ===== src/Balancer/WellFormed.antt =====
-- cmd/loadbalancer/loadbalancer.go: what a well-formed balancer is.
use consensus_proxy.Base.{ℕ, ◌-◌, ◌<◌, ◌^◌, Elem, Distinct, subst, ◌≡◌, sym, ◌∙◌}
use consensus_proxy.Balancer.{LoadBalancer}
use consensus_proxy.Balancer.Kept.{IsKept}

abbrev pub max_int : ℕ
max_int = 2 ^ 63 - 1

-- No node is listed twice, the healthy nodes are nodes, and the original priorities of the nodes
-- are different and fit an `int`.
pub record IsWellFormed (lb : LoadBalancer) : Type 0 where
  pub distinct : Distinct lb.nodes
  pub listed : (q : ℕ) → Elem q lb.healthy_nodes → Elem q lb.nodes
  pub bounded : (q : ℕ) → Elem q lb.nodes → (lb.heap q).original_priority < max_int
  pub ranked :
      (q r : ℕ)
      → Elem q lb.nodes
      → Elem r lb.nodes
      → (lb.heap q).original_priority ≡ (lb.heap r).original_priority
      → q ≡ r

pub IsKept-IsWellFormed :
    {lb lb' : LoadBalancer}
    → IsKept lb lb'
    → ((q : ℕ) → Elem q lb'.healthy_nodes → Elem q lb.nodes)
    → IsWellFormed lb
    → IsWellFormed lb'
IsKept-IsWellFormed k sub v = record {
  distinct = subst Distinct (sym k.nodes) v.distinct;
  listed = λ q e. subst (Elem q) (sym k.nodes) (sub q e);
  bounded = λ q e. rw (k.originals q) (v.bounded q (subst (Elem q) k.nodes e));
  ranked = λ q r e f same.
      v.ranked q r (subst (Elem q) k.nodes e) (subst (Elem r) k.nodes f)
        (sym (k.originals q) ∙ same ∙ k.originals r);
}
