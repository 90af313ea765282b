-- ===== src/Balancer/Errors/Laws.antt =====
-- cmd/loadbalancer/http_handler.go: `handleNodeError` on each of its branches.
use consensus_proxy.Base.{
  Elem-of_Elem-select, Elem-select_of_Elem, ℕ, ◌<◌, ◌≤◌, String, Bool, true, not, List, [], ◌∷◌,
  str_eq, eq_iff, leb_ℤ, pos, inc_int64, if◌then◌else◌, length, select, Elem, ◌≡◌, ◌≢◌, ◌↔◌, ◌⊎◌,
  inl, inr, arith,
}
use consensus_proxy.Node.{increment_error, set_priority}
use native.Mathlib.Decide.{dec_lt}
use consensus_proxy.Base.{subst}
use consensus_proxy.Balancer.{Metric, LoadBalancer, modify, incr, text, number}
use consensus_proxy.Balancer.Errors.{name_of, without_name, demote, exceeds, handle_node_error}

-- A status below 500 changes no node and no list.
pub handle_node_error_client :
    (p status : ℕ) (lb : LoadBalancer)
    → status < 500
    → let lb' = handle_node_error p status lb in
      (lb'.heap ≡ lb.heap) × (lb'.healthy_nodes ≡ lb.healthy_nodes)
unfolding handle_node_error
handle_node_error_client p status lb h = ground arith

-- The primary whose error count reaches the threshold is demoted; any other node is kept.
abbrev pub Reaches : LoadBalancer → ℕ → Type 0
Reaches lb p =
    ((lb.heap p).priority ≡ 0)
    × (leb_ℤ lb.config.failover.error_threshold (inc_int64 (lb.heap p).consecutive_errors) ≡ true)

-- A server error is counted once, ends the run of successes, and demotes exactly a primary whose
-- count reaches the threshold: it then has the number of nodes as its priority, and no healthy
-- node has its name.
pub handle_node_error_server :
    (p status : ℕ) (lb : LoadBalancer)
    → 500 ≤ status
    → let lb' = handle_node_error p status lb in
      let n = lb.heap p in
      let n' = lb'.heap p in
      (n'.consecutive_errors ≡ inc_int64 n.consecutive_errors)
      × (n'.total_failures ≡ inc_int64 n.total_failures)
      × (n'.consecutive_successes ≡ pos 0)
      × ((Reaches lb p
            × (n'.priority ≡ length lb.nodes)
            × (lb'.healthy_nodes ≡ without_name lb n.name lb.healthy_nodes))
          ⊎ ((¬ Reaches lb p)
              × (n'.priority ≡ n.priority)
              × (lb'.healthy_nodes ≡ lb.healthy_nodes)))
unfolding handle_node_error
handle_node_error_server p status lb h = ground arith

-- An attempt that fails changes no other node, no name and no original priority, and neither the
-- node list nor the configuration.
pub handle_node_error_frame :
    (p status q : ℕ) (lb : LoadBalancer)
    → let lb' = handle_node_error p status lb in
      (q ≢ p → lb'.heap q ≡ lb.heap q)
      × (name_of lb' q ≡ name_of lb q)
      × ((lb'.heap q).original_priority ≡ (lb.heap q).original_priority)
      × (lb'.nodes ≡ lb.nodes)
      × (lb'.config ≡ lb.config)
unfolding handle_node_error
handle_node_error_frame p status q lb = ground arith

-- The healthy nodes after a demotion: exactly those whose name is not the demoted node's.
pub Elem-demote :
    (p q : ℕ) (lb : LoadBalancer)
    → Elem q (demote p lb).healthy_nodes ↔ (Elem q lb.healthy_nodes × (name_of lb q ≢ name_of lb p))
unfolding demote
Elem-demote p q lb = (there, back)
  where
    names : (n : ℕ) → name_of (modify p (set_priority (length lb.nodes)) lb) n ≡ name_of lb n
    names n = ground arith

    other : ℕ → Bool
    other n = not (
        str_eq (name_of (modify p (set_priority (length lb.nodes)) lb) n)
          (name_of (modify p (set_priority (length lb.nodes)) lb) p))

    there :
        Elem q (select other lb.healthy_nodes)
        → Elem q lb.healthy_nodes × (name_of lb q ≢ name_of lb p)
    there e =
        let (kept, differs) = Elem-of_Elem-select other q lb.healthy_nodes e in
        (kept, ground (arith, eq_iff (name_of lb q) (name_of lb p), names q, names p))

    back :
        (Elem q lb.healthy_nodes × (name_of lb q ≢ name_of lb p))
        → Elem q (select other lb.healthy_nodes)
    back h =
        Elem-select_of_Elem other q lb.healthy_nodes h.0
          (ground (arith, eq_iff (name_of lb q) (name_of lb p), names q, names p))

abbrev pub failover_metric : ℕ → ℕ → LoadBalancer → Metric
failover_metric p status lb =
    incr "request.failover"
      (("from_node", text (name_of lb p)) ∷ ("status_code", number status) ∷ [])

abbrev pub demoted_metric : ℕ → LoadBalancer → Metric
demoted_metric p lb = incr "node.primary_demoted" (("node", text (name_of lb p)) ∷ [])

-- Each failed attempt counts one failover; a demotion is counted exactly where it happens.
pub handle_node_error-metrics :
    (p status : ℕ) (lb : LoadBalancer)
    → let lb' = handle_node_error p status lb in
      ((500 ≤ status)
        × Reaches lb p
        × (lb'.metrics ≡ failover_metric p status lb ∷ demoted_metric p lb ∷ lb.metrics))
      ⊎ ((¬ ((500 ≤ status) × Reaches lb p))
          × (lb'.metrics ≡ failover_metric p status lb ∷ lb.metrics))
unfolding handle_node_error
handle_node_error-metrics p status lb = ground arith

pub Elem-without_name :
    (lb : LoadBalancer) (name : String) (q : ℕ) (xs : List ℕ)
    → Elem q (without_name lb name xs)
    → Elem q xs
Elem-without_name lb name q xs e =
    (Elem-of_Elem-select (λ n. not (str_eq (name_of lb n) name)) q xs e).0

-- No failed attempt adds a healthy node.
pub handle_node_error_subset :
    (p status q : ℕ) (lb : LoadBalancer)
    → Elem q (handle_node_error p status lb).healthy_nodes
    → Elem q lb.healthy_nodes
handle_node_error_subset p status q lb e = elim (dec_lt status 500) [
  | yes client ↦ subst (Elem q) (handle_node_error_client p status lb client).1 e
  | no server ↦ elim (handle_node_error_server p status lb (omega arith)).3 [
    | inl (_, _, same) ↦
        Elem-without_name lb (name_of lb p) q lb.healthy_nodes (subst (Elem q) same e)
    | inr (_, _, same) ↦ subst (Elem q) same e
  ]
]

-- A server error, in the terms of the branch that counts it.
pub handle_node_error_count :
    (p status : ℕ) (lb : LoadBalancer)
    → 500 ≤ status
    → let counted = modify p increment_error lb in
      let after = (if exceeds counted p then demote p counted else counted) in
      ((handle_node_error p status lb).heap ≡ after.heap)
      × ((handle_node_error p status lb).healthy_nodes ≡ after.healthy_nodes)
unfolding handle_node_error
handle_node_error_count p status lb h = ground arith
