-- ===== src/Balancer/Health/Arriving.antt =====
-- cmd/loadbalancer/health_check.go: the order of the healthy nodes after a round.
use consensus_proxy.Base.{
  ℕ, List, [], ◌∷◌, ◌++◌, Elem, select, find_first-some, subst, ◌≡◌, sym, ap, ◌∙◌, ◌⊎◌, inl, inr,
  arith, some,
}
use consensus_proxy.Node.{BeaconNode, is_primary}
use consensus_proxy.Node.Sync.{SyncReply}
use consensus_proxy.Balancer.{LoadBalancer}
use consensus_proxy.Balancer.Errors.{name_of}
use consensus_proxy.Balancer.Health.{
  collected, backup_nodes, find_primary, keep_primary, perform_health_check,
}
use consensus_proxy.Balancer.Health.Collecting.{
  passes, Collects, collected-Collects, collected-healthy,
}
use consensus_proxy.Balancer.Health.Committing.{priority_of}
use consensus_proxy.Balancer.Health.Promoting.{promote_if_none_primary}
use consensus_proxy.Balancer.Health.Guarantees.{restored, restored-Keeps, commit-heap}
use consensus_proxy.Balancer.Health.Settling.{keep_primary-cases}
use consensus_proxy.Balancer.Health.Laws.{perform_health_check-commits, healthy_backups}

module _ (arrival : List ℕ → List ℕ) (reply : ℕ → SyncReply) (lb : LoadBalancer) (b : ℕ)
    (backup : Elem b (backup_nodes lb)) where
  abbrev lb' : LoadBalancer
  lb' = perform_health_check arrival reply lb

  abbrev gathered : LoadBalancer
  gathered = (collected arrival reply lb).balancer

  abbrev backups : List ℕ
  backups = healthy_backups arrival reply lb

  abbrev lb₂ : LoadBalancer
  lb₂ = restored backups gathered

  same : Collects lb gathered
  same = collected-Collects reply arrival lb

  -- The primary of before the promotion is still one.
  still_primary : (p : ℕ) → find_primary lb₂ ≡ some p → priority_of lb' p ≡ 0
  still_primary p found =
      let zero_priority : priority_of lb₂ p ≡ 0 =
        ground (arith, find_first-some (λ q. is_primary (lb₂.heap q)) p lb₂.nodes found) in
      let commits = perform_health_check-commits arrival reply lb b backup in
      ap (λ (f : ℕ → BeaconNode). (f p).priority) (commits.0 ∙ (commit-heap backups gathered).0)
      ∙ promote_if_none_primary (find_primary lb₂) backups p lb₂ zero_priority

  listed :
      lb'.healthy_nodes
      ≡ keep_primary lb₂ (find_primary lb₂) ++ select (passes reply) (arrival (backup_nodes lb))
  listed =
      (perform_health_check-commits arrival reply lb b backup).1
      ∙ (commit-heap backups gathered).1
      ∙ ap (λ xs. keep_primary lb₂ (find_primary lb₂) ++ xs) (collected-healthy reply arrival lb)

  -- If there is a backup, then after a round the healthy nodes are at most one primary, which has
  -- the name of a node that was healthy before, and then the backups that passed, in the order in
  -- which their results arrived, whatever their priorities are.
  pub perform_health_check_order :
      (kept : List ℕ) × (lb'.healthy_nodes
        ≡ kept ++ select (passes reply) (arrival (backup_nodes lb)))
      × ((kept ≡ [])
          ⊎ ((p : ℕ) × (kept ≡ p ∷ [])
              × ((lb'.heap p).priority ≡ 0)
              × ((s : ℕ) × Elem s lb.healthy_nodes × (name_of lb s ≡ name_of lb p))))
  perform_health_check_order = (
    keep_primary lb₂ (find_primary lb₂),
    listed,
    elim (keep_primary-cases lb₂ (find_primary lb₂)) [
      | inl none_kept ↦ inl none_kept
      | inr (p, found, kept, (s, member, named)) ↦
          let k = restored-Keeps backups gathered in
          let names = λ (q : ℕ). k.kept.names q ∙ same.kept.names q in
          inr (
            p,
            kept,
            still_primary p found,
            (s, subst (Elem s) (k.healthy ∙ same.healthy) member, sym (names s) ∙ named ∙ names p),
          )
    ],
  )
