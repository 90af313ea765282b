-- ===== src/Balancer/Errors/Trimming.antt =====
-- cmd/loadbalancer/http_handler.go: what `handleNodeError` does to the list of the healthy nodes and
-- to the priorities of those that stay.
use consensus_proxy.Base.{
  not_both, ℕ, Bool, true, false, not, str_eq, eq_iff, Elem, Distinct, select-Distinct,
  Elem-of_Elem-select, subst, ◌≡◌, refl, sym, ap, ◌∙◌, ◌≢◌, inl, inr, arith,
}
use native.Mathlib.Decide.{dec_lt}
use consensus_proxy.Node.{BeaconNode}
use consensus_proxy.Balancer.{LoadBalancer}
use consensus_proxy.Balancer.Errors.{name_of, without_name, handle_node_error}
use consensus_proxy.Balancer.Errors.Laws.{
  handle_node_error_client, handle_node_error_server, handle_node_error_frame,
}

-- Healthy nodes may be dropped, none is added or repeated, and those that stay keep their priority.
pub record Trims (lb lb' : LoadBalancer) : Type 0 where
  pub stays : (q : ℕ) → Elem q lb'.healthy_nodes → Elem q lb.healthy_nodes
  pub priorities : (q : ℕ) → Elem q lb'.healthy_nodes → (lb'.heap q).priority ≡ (lb.heap q).priority
  pub distinct : Distinct lb.healthy_nodes → Distinct lb'.healthy_nodes

pub Trims-refl : (lb : LoadBalancer) → Trims lb lb
Trims-refl lb = record { stays = λ q e. e; priorities = λ q e. refl; distinct = λ d. d }

pub Trims-trans : {a b c : LoadBalancer} → Trims a b → Trims b c → Trims a c
Trims-trans k l = record {
  stays = λ q e. k.stays q (l.stays q e);
  priorities = λ q e. l.priorities q e ∙ k.priorities q (l.stays q e);
  distinct = λ d. l.distinct (k.distinct d);
}

-- Where the list is the same, and no priority changes.
pub Trims-same :
    {lb lb' : LoadBalancer}
    → lb'.healthy_nodes ≡ lb.healthy_nodes
    → ((q : ℕ) → (lb'.heap q).priority ≡ (lb.heap q).priority)
    → Trims lb lb'
Trims-same same keeps = record {
  stays = λ q e. subst (Elem q) same e;
  priorities = λ q e. keeps q;
  distinct = λ d. subst Distinct (sym same) d;
}

-- Only a demotion changes a priority, that of a node which it drops.
pub handle_node_error-Trims :
    (p status : ℕ) (lb : LoadBalancer) → Trims lb (handle_node_error p status lb)
handle_node_error-Trims p status lb = elim (dec_lt status 500) [
  | yes client ↦
      let (heap, healthy) = handle_node_error_client p status lb client in
      Trims-same healthy (λ q. ap (λ (f : ℕ → BeaconNode). (f q).priority) heap)
  | no server ↦ elim (handle_node_error_server p status lb (omega arith)).3 [
    | inl (_, _, healthy) ↦ dropped healthy
    | inr (_, own, healthy) ↦ Trims-same healthy (λ q. ground (arith, own, other q))
  ]
]
  where
    after : LoadBalancer
    after = handle_node_error p status lb

    other : (q : ℕ) → q ≢ p → after.heap q ≡ lb.heap q
    other q = (handle_node_error_frame p status q lb).0

    differs : ℕ → Bool
    differs n = not (str_eq (name_of lb n) (name_of lb p))

    dropped : after.healthy_nodes ≡ without_name lb (name_of lb p) lb.healthy_nodes → Trims lb after
    dropped healthy = record {
      stays = λ q e. (member q e).0;
      priorities = λ q e.
          ap (λ (n : BeaconNode). n.priority)
            (other q (λ same. not_both (sym (member q e).1 ∙ named q same)));
      distinct = λ d. subst Distinct (sym healthy) (select-Distinct differs lb.healthy_nodes d);
    }
      where
        member : (q : ℕ) → Elem q after.healthy_nodes → Elem q lb.healthy_nodes × (differs q ≡ true)
        member q e = Elem-of_Elem-select differs q lb.healthy_nodes (subst (Elem q) healthy e)

        named : (q : ℕ) → q ≡ p → differs q ≡ false
        named q same = rw same (ground (arith, eq_iff (name_of lb p) (name_of lb p)))
