-- ===== src/Balancer/Health/Stranded.antt =====
-- cmd/loadbalancer/health_check.go: the loop that restores original priorities, for an original
-- primary whose failback is not due.
use consensus_proxy.Base.{
  ℕ, true, false, List, ◌∷◌, leb_ℤ, inc_int64, Elem, Reorders, Elem-of_Elem-select, subst, ◌≡◌, sym,
  ap, ◌∙◌, inl, inr, arith, some,
}
use consensus_proxy.Node.{BeaconNode, is_backup}
use consensus_proxy.Node.Sync.{SyncReply}
use consensus_proxy.Balancer.{LoadBalancer}
use consensus_proxy.Balancer.Health.Collecting.{passes, Collects, collected-Collects}
use consensus_proxy.Balancer.Health.Committing.{priority_of, perform_failback_early}
use consensus_proxy.Balancer.Health.{
  collected, backup_nodes, find_original_primary, find_primary, perform_failback,
  perform_health_check, should_failback,
}
use consensus_proxy.Balancer.WellFormed.{IsWellFormed}
use consensus_proxy.Balancer.Health.Guarantees.{restored, restored-Keeps, commit-Elem}
use mathlib.Core.Option.{some-injective}
use consensus_proxy.Balancer.Health.Guarantees.{commit_primary, find_primary_first}
use consensus_proxy.Balancer.Health.Failback.{found_original, counted, primary_again, o_healthy}
use consensus_proxy.Balancer.Health.Laws.{
  committed, perform_health_check-commits, healthy_backups-Elem, perform_health_check_early,
}

module _ (arrival : List ℕ → List ℕ) (reply : ℕ → SyncReply) (order : Reorders arrival)
    (lb : LoadBalancer) (v : IsWellFormed lb) (o : ℕ) (rest : List ℕ) (first : lb.nodes ≡ o ∷ rest)
    (original : (lb.heap o).original_priority ≡ 0) (backup : Elem o (backup_nodes lb))
    (passed : passes reply o ≡ true)
    (few : leb_ℤ lb.config.health_check.successful_checks_for_failback
        (inc_int64 (lb.heap o).consecutive_successes)
      ≡ false) where
  abbrev gathered : LoadBalancer
  gathered = (collected arrival reply lb).balancer

  abbrev healthy : List ℕ
  healthy = (collected arrival reply lb).new_healthy_backups

  same : Collects lb gathered
  same = collected-Collects reply arrival lb

  -- The failback is not due.
  not_due : should_failback gathered (find_original_primary gathered healthy) ≡ false
  unfolding should_failback
  not_due =
      rw (found_original arrival reply order lb v o original backup passed, should_failback)
        (rw (same.kept.config, counted arrival reply order lb v o original backup passed) few)

  idle :
      perform_failback (find_original_primary gathered healthy) (find_primary gathered) gathered
      ≡ gathered
  idle =
      perform_failback_early (find_original_primary gathered healthy) (find_primary gathered)
        gathered not_due

  found_primary : find_primary (restored healthy gathered) ≡ some o
  found_primary =
      find_primary_first (restored healthy gathered) o rest
        ((restored-Keeps healthy gathered).kept.nodes ∙ same.kept.nodes ∙ first)
        (primary_again arrival reply order lb v o original backup passed)

  -- The bug: in a well-formed balancer whose first node is the original primary, now a backup, that
  -- node passes a check, but fewer in a row than a failback takes. It is primary again at once, and
  -- a node that is primary in its place keeps the priority 0, is not healthy any more, and is no
  -- backup, which a round would check.
  pub perform_health_check_strands :
      (s : ℕ)
      → (lb.heap s).priority ≡ 0
      → let lb' = perform_health_check arrival reply lb in
        ((lb'.heap o).priority ≡ 0)
        × ((lb'.heap s).priority ≡ 0)
        × (¬ Elem s lb'.healthy_nodes)
        × (¬ Elem s (backup_nodes lb'))
  perform_health_check_strands s primary = (
    perform_health_check_early arrival reply lb order o backup passed original,
    still,
    λ e. gone (subst (Elem s) (commits.1) e),
    λ e. unchecked e,
  )
    where
      lb' : LoadBalancer
      lb' = perform_health_check arrival reply lb

      commits :
          (lb'.heap ≡ (committed arrival reply lb).heap)
          × (lb'.healthy_nodes ≡ (committed arrival reply lb).healthy_nodes)
          × (lb'.nodes ≡ (committed arrival reply lb).nodes)
          × (lb'.config ≡ (committed arrival reply lb).config)
      commits = perform_health_check-commits arrival reply lb o backup

      no_backup : ¬ Elem s healthy
      no_backup e =
          let (_, positive) =
            Elem-of_Elem-select (λ p. is_backup (lb.heap p)) s lb.nodes
              (healthy_backups-Elem arrival reply lb order s e).0 in
          ground (arith, positive)

      kept :
          (priority_of (restored healthy gathered) s ≡ 0)
          × (priority_of (committed arrival reply lb) s ≡ 0)
      kept = commit_primary healthy s gathered idle no_backup (same.priorities s ∙ primary)

      still : (lb'.heap s).priority ≡ 0
      still = ap (λ (f : ℕ → BeaconNode). (f s).priority) commits.0 ∙ kept.1

      gone : ¬ Elem s (committed arrival reply lb).healthy_nodes
      gone e = elim (commit-Elem healthy s gathered e) [
        | inl found ↦ other (some-injective o s (sym found_primary ∙ found))
        | inr member ↦ no_backup member
      ]
        where
          other : o ≡ s → ⊥
          other h = no_backup (
              subst (λ x. Elem x healthy) h
                (o_healthy arrival reply order lb v o original backup passed))

      unchecked : ¬ Elem s (backup_nodes lb')
      unchecked e =
          let (_, positive) = Elem-of_Elem-select (λ p. is_backup (lb'.heap p)) s lb'.nodes e in
          ground (arith, positive, still)
