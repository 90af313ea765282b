-- ===== src/Balancer/Health/Repeated.antt =====
-- cmd/loadbalancer/health_check.go: the healthy nodes after a round, where two nodes have the same
-- name.
use consensus_proxy.Base.{
  ℕ, true, List, [], ◌∷◌, ◌++◌, Elem, Distinct, Reorders, subst, ◌≡◌, sym, ap, ◌∙◌, some,
}
use consensus_proxy.Node.Sync.{SyncReply}
use consensus_proxy.Balancer.{LoadBalancer}
use consensus_proxy.Balancer.Errors.{name_of}
use consensus_proxy.Balancer.WellFormed.{IsWellFormed}
use consensus_proxy.Balancer.Health.{
  collected, backup_nodes, find_primary, keep_primary, perform_health_check,
}
use consensus_proxy.Balancer.Health.Collecting.{passes, Collects, collected-Collects}
use consensus_proxy.Balancer.Health.Guarantees.{
  restored, restored-Keeps, commit-heap, find_primary_first,
}
use consensus_proxy.Balancer.Health.Failback.{primary_again, o_healthy}
use consensus_proxy.Balancer.Health.Settling.{keep_primary_kept}
use consensus_proxy.Balancer.Health.Laws.{perform_health_check-commits, healthy_backups}

module _ (arrival : List ℕ → List ℕ) (reply : ℕ → SyncReply) (order : Reorders arrival)
    (lb : LoadBalancer) (v : IsWellFormed lb) (o : ℕ) (rest : List ℕ) (first : lb.nodes ≡ o ∷ rest)
    (original : (lb.heap o).original_priority ≡ 0) (backup : Elem o (backup_nodes lb))
    (passed : passes reply o ≡ true) where
  abbrev gathered : LoadBalancer
  gathered = (collected arrival reply lb).balancer

  abbrev backups : List ℕ
  backups = healthy_backups arrival reply lb

  abbrev lb₂ : LoadBalancer
  lb₂ = restored backups gathered

  same : Collects lb gathered
  same = collected-Collects reply arrival lb

  found : find_primary lb₂ ≡ some o
  found =
      find_primary_first lb₂ o rest
        ((restored-Keeps backups gathered).kept.nodes ∙ same.kept.nodes ∙ first)
        (primary_again arrival reply order lb v o original backup passed)

  names : (q : ℕ) → name_of lb₂ q ≡ name_of lb q
  names q = (restored-Keeps backups gathered).kept.names q ∙ same.kept.names q

  -- The bug: in a well-formed balancer whose first node is the original primary, now a backup, that
  -- node passes a check while a healthy node has the same name. It then stands twice among the
  -- healthy nodes.
  pub perform_health_check_repeats :
      (s : ℕ)
      → Elem s lb.healthy_nodes
      → name_of lb s ≡ name_of lb o
      → ¬ Distinct (perform_health_check arrival reply lb).healthy_nodes
  perform_health_check_repeats s e named d =
      let healthy : Elem s lb₂.healthy_nodes =
        subst (Elem s) (sym ((restored-Keeps backups gathered).healthy ∙ same.healthy)) e in
      let kept : keep_primary lb₂ (find_primary lb₂) ≡ o ∷ [] =
        ap (keep_primary lb₂) found
        ∙ keep_primary_kept lb₂ o s healthy (names s ∙ named ∙ sym (names o)) in
      let listed : (perform_health_check arrival reply lb).healthy_nodes ≡ o ∷ backups =
        (perform_health_check-commits arrival reply lb o backup).1
        ∙ (commit-heap backups gathered).1
        ∙ ap (λ xs. xs ++ backups) kept in
      (subst Distinct listed d).0 (o_healthy arrival reply order lb v o original backup passed)
