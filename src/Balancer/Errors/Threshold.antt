-- ===== src/Balancer/Errors/Threshold.antt =====
-- cmd/loadbalancer/http_handler.go: runs of server errors of the primary, against
-- `error_threshold`.
use consensus_proxy.Base.{
  ℕ, suc, ◌+◌, ◌<◌, ◌≤◌, String, List, [], ◌∷◌, pos, int64_end, length, All, ◌≡◌, refl, ◌∙◌, arith,
}
use consensus_proxy.Balancer.{LoadBalancer}
use consensus_proxy.Balancer.Errors.{name_of, without_name, handle_node_error}
use consensus_proxy.Balancer.Errors.Laws.{handle_node_error_server, handle_node_error_frame}

-- A run of failed attempts on the node at `p`, with these status codes.
pub failures : ℕ → List ℕ → LoadBalancer → LoadBalancer
failures p [] lb = lb
failures p (s ∷ ss) lb = failures p ss (handle_node_error p s lb)

-- A primary with `e` consecutive errors, under the threshold `t`.
pub record Counts (p e t : ℕ) (lb : LoadBalancer) : Type 0 where
  pub primary : (lb.heap p).priority ≡ 0
  pub errors : (lb.heap p).consecutive_errors ≡ pos e
  pub threshold : lb.config.failover.error_threshold ≡ pos t
  pub small : t < int64_end

count_one :
    (p e t s : ℕ) (lb : LoadBalancer)
    → Counts p e t lb
    → 500 ≤ s
    → e + 1 < t
    → Counts p (e + 1) t (handle_node_error p s lb)
      × ((handle_node_error p s lb).healthy_nodes ≡ lb.healthy_nodes)
count_one p e t s lb c h k =
    ground (arith, handle_node_error_server p s lb h, handle_node_error_frame p s p lb)

-- A run of server errors that stays under the threshold, with those that the primary had before,
-- leaves it primary and the healthy nodes as they are, and counts every one.
pub failures-Counts :
    (p e t : ℕ) (ss : List ℕ) (lb : LoadBalancer)
    → Counts p e t lb
    → All (λ s. 500 ≤ s) ss
    → e + length ss < t
    → Counts p (e + length ss) t (failures p ss lb)
      × ((failures p ss lb).healthy_nodes ≡ lb.healthy_nodes)
unfolding failures
failures-Counts p e t [] lb c h k =
    let same : e + length {A = ℕ} [] ≡ e = omega arith in rw same (c, refl)
failures-Counts p e t (s ∷ ss) lb c h k =
    let (c', same) = count_one p e t s lb c h.0 (omega arith) in
    let (c'', same') =
      failures-Counts p (e + 1) t ss (handle_node_error p s lb) c' h.1 (omega arith) in
    let sum : (e + 1) + length ss ≡ e + suc (length ss) = omega arith in
    (rw (← sum) c'', same' ∙ same)

failures_frame :
    (p q : ℕ) (ss : List ℕ) (lb : LoadBalancer)
    → let lb' = failures p ss lb in (name_of lb' q ≡ name_of lb q) × (lb'.nodes ≡ lb.nodes)
unfolding failures
failures_frame p q [] lb = (refl, refl)
failures_frame p q (s ∷ ss) lb =
    ground
      (arith, failures_frame p q ss (handle_node_error p s lb), handle_node_error_frame p s q lb)

pub without_name_same :
    (lb lb' : LoadBalancer) (name : String) (xs : List ℕ)
    → ((q : ℕ) → name_of lb' q ≡ name_of lb q)
    → without_name lb' name xs ≡ without_name lb name xs
without_name_same lb lb' name [] h = refl
without_name_same lb lb' name (x ∷ xs) h = ground (arith, h x, without_name_same lb lb' name xs h)

-- After a run of server errors that leaves a primary one short of the threshold, the next server
-- error demotes it: it gets the number of nodes as its priority, and the healthy nodes are those of
-- before with another name.
pub failures_demote :
    (p e t s : ℕ) (ss : List ℕ) (lb : LoadBalancer)
    → Counts p e t lb
    → All (λ c. 500 ≤ c) ss
    → 500 ≤ s
    → e + length ss + 1 ≡ t
    → let lb' = handle_node_error p s (failures p ss lb) in
      ((lb'.heap p).priority ≡ length lb.nodes)
      × (lb'.healthy_nodes ≡ without_name lb (name_of lb p) lb.healthy_nodes)
failures_demote p e t s ss lb c h k sum =
    let mid = failures p ss lb in
    let (c', same) = failures-Counts p e t ss lb c h (omega arith) in
    let names : (q : ℕ) → name_of mid q ≡ name_of lb q = λ q. (failures_frame p q ss lb).0 in
    ground (
      arith,
      handle_node_error_server p s mid k,
      failures_frame p p ss lb,
      without_name_same lb mid (name_of lb p) lb.healthy_nodes names,
    )
