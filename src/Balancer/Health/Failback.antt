-- ===== src/Balancer/Health/Failback.antt =====
-- cmd/loadbalancer/health_check.go: a failback that is due.
use consensus_proxy.Base.{
  not_both, ℕ, Bool, true, List, [], ◌∷◌, leb_ℤ, inc_int64, find_first, Elem, Reorders,
  Elem-of_Elem-select, Elem-select_of_Elem, find_first-some, find_first-none, subst, ◌≡◌, refl, sym,
  ap, ◌∙◌, ◌≢◌, inl, inr, arith, ◌==◌, Option-cases, Option, some,
}
use consensus_proxy.Node.{BeaconNode, is_backup, is_primary}
use consensus_proxy.Node.Sync.{SyncReply}
use consensus_proxy.Balancer.{LoadBalancer}
use consensus_proxy.Balancer.Errors.{name_of}
use consensus_proxy.Balancer.Health.Collecting.{
  passes, Collects, collected-Collects, collected-Counted,
}
use consensus_proxy.Balancer.Health.Committing.{
  priority_of, perform_failback_due, restore_priorities_other,
}
use consensus_proxy.Balancer.Health.{
  collected, backup_nodes, find_original_primary, find_primary, perform_failback,
  perform_health_check, should_failback, promote_if_none,
}
use consensus_proxy.Balancer.WellFormed.{IsWellFormed}
use consensus_proxy.Balancer.Health.Guarantees.{
  restored, restored-Keeps, restored-priority, commit-heap,
}
use consensus_proxy.Balancer.Health.Laws.{
  perform_health_check-commits, healthy_backups-Elem, Elem-healthy_backups,
  perform_health_check_early, perform_health_check_healthy, perform_health_check-IsWellFormed,
}

find_first-same :
    (p q : ℕ → Bool) (xs : List ℕ) → ((x : ℕ) → p x ≡ q x) → find_first p xs ≡ find_first q xs
find_first-same p q [] h = refl
find_first-same p q (x ∷ xs) h = ground (arith, h x, find_first-same p q xs h)

-- With a primary among the nodes nothing is promoted.
promote_if_none_unless :
    (backups : List ℕ) (o q : ℕ) (lb : LoadBalancer)
    → Elem o lb.nodes
    → priority_of lb o ≡ 0
    → priority_of (promote_if_none (find_primary lb) backups lb) q ≡ priority_of lb q
unfolding promote_if_none
promote_if_none_unless backups o q lb e h = elim (Option-cases (find_primary lb)) [
  | inl missing ↦
      absurd (ground (arith, h, find_first-none (λ p. is_primary (lb.heap p)) o lb.nodes missing e))
  | inr (p, found) ↦ ap (λ x. priority_of (promote_if_none x backups lb) q) found
]

module _ (arrival : List ℕ → List ℕ) (reply : ℕ → SyncReply) (order : Reorders arrival)
    (lb : LoadBalancer) (v : IsWellFormed lb) (o : ℕ) (original : (lb.heap o).original_priority ≡ 0)
    (backup : Elem o (backup_nodes lb)) (passed : passes reply o ≡ true) where
  abbrev pub gathered : LoadBalancer
  gathered = (collected arrival reply lb).balancer

  abbrev pub healthy : List ℕ
  healthy = (collected arrival reply lb).new_healthy_backups

  pub same : Collects lb gathered
  same = collected-Collects reply arrival lb

  pub o_healthy : Elem o healthy
  o_healthy = Elem-healthy_backups arrival reply lb order o backup passed

  healthy_node : (q : ℕ) → Elem q healthy → Elem q lb.nodes
  healthy_node q e =
      (Elem-of_Elem-select (λ p. is_backup (lb.heap p)) q lb.nodes
        (healthy_backups-Elem arrival reply lb order q e).0).0

  abbrev is_original : ℕ → Bool
  is_original p = (gathered.heap p).original_priority == 0

  -- The original primary is the one node that the search can find.
  pub found_original : find_original_primary gathered healthy ≡ some o
  found_original = elim (Option-cases (find_original_primary gathered healthy)) [
    | inl missing ↦
        let wrong = find_first-none is_original o healthy missing o_healthy in
        absurd (ground (arith, wrong, same.kept.originals o))
    | inr (p, found) ↦
        let (member, original_p) = find_first-some is_original p healthy found in
        let one : p ≡ o =
          v.ranked p o (healthy_node p member) (healthy_node o o_healthy)
            (ground (arith, original_p, same.kept.originals p)) in
        found ∙ ap {B = Option ℕ} some one
  ]

  pub counted :
      (gathered.heap o).consecutive_successes ≡ inc_int64 (lb.heap o).consecutive_successes
  counted = elim (collected-Counted reply arrival lb o order v.distinct backup) [
    | inl (_, successes, _) ↦ successes
    | inr (failed, _, _) ↦ absurd (not_both (sym passed ∙ failed))
  ]

  pub primary_again : priority_of (restored healthy gathered) o ≡ 0
  primary_again = restored-priority healthy o gathered o_healthy ∙ same.kept.originals o ∙ original

  -- In a well-formed balancer, a failback takes place when the original primary passes the check
  -- that completes the required number in a row, and the current primary has another name: the
  -- original one is primary and healthy again, and the other has its own priority back and is a
  -- backup, which the next round checks.
  pub perform_health_check_failback :
      (s : ℕ)
      → leb_ℤ lb.config.health_check.successful_checks_for_failback
          (inc_int64 (lb.heap o).consecutive_successes)
        ≡ true
      → find_primary lb ≡ some s
      → name_of lb s ≢ name_of lb o
      → let lb' = perform_health_check arrival reply lb in
        ((lb'.heap o).priority ≡ 0)
        × Elem o lb'.healthy_nodes
        × ((lb'.heap s).priority ≡ (lb.heap s).original_priority)
        × Elem s (backup_nodes lb')
  unfolding should_failback
  perform_health_check_failback s enough primary differ = (
    perform_health_check_early arrival reply lb order o backup passed original,
    (perform_health_check_healthy arrival reply lb order o backup).1 passed,
    own,
    checked,
  )
    where
      lb' : LoadBalancer
      lb' = perform_health_check arrival reply lb

      s_primary : Elem s lb.nodes × (is_primary (lb.heap s) ≡ true)
      s_primary = find_first-some (λ p. is_primary (lb.heap p)) s lb.nodes primary

      current : find_primary gathered ≡ some s
      current =
          ap (find_first (λ p. is_primary (gathered.heap p))) same.kept.nodes
          ∙ find_first-same (λ p. is_primary (gathered.heap p)) (λ p. is_primary (lb.heap p))
              lb.nodes (λ p. ap (λ n. n == 0) (same.priorities p))
          ∙ primary

      due : should_failback gathered (some o) ≡ true
      due = rw (same.kept.config, counted) enough

      absent : ¬ Elem s healthy
      absent e =
          let (_, positive) =
            Elem-of_Elem-select (λ p. is_backup (lb.heap p)) s lb.nodes
              (healthy_backups-Elem arrival reply lb order s e).0 in
          ground (arith, positive, s_primary.1)

      other : name_of gathered s ≢ name_of gathered o
      other e = differ (sym (same.kept.names s) ∙ e ∙ same.kept.names o)

      restored_own : priority_of (restored healthy gathered) s ≡ (lb.heap s).original_priority
      restored_own =
          ap (λ (n : BeaconNode). n.priority) (restore_priorities_other healthy s _ absent)
          ∙ ap (λ x. priority_of (perform_failback x (find_primary gathered) gathered) s)
              found_original
          ∙ ap (λ x. priority_of (perform_failback (some o) x gathered) s) current
          ∙ perform_failback_due o s gathered due other
          ∙ same.kept.originals s

      own : (lb'.heap s).priority ≡ (lb.heap s).original_priority
      own =
          ap (λ (f : ℕ → BeaconNode). (f s).priority)
            (perform_health_check-commits arrival reply lb o backup).0
          ∙ ap (λ (f : ℕ → BeaconNode). (f s).priority) (commit-heap healthy gathered).0
          ∙ promote_if_none_unless healthy o s (restored healthy gathered)
              (subst (Elem o) (sym ((restored-Keeps healthy gathered).kept.nodes ∙ same.kept.nodes))
                (healthy_node o o_healthy))
              primary_again
          ∙ restored_own

      not_first : (lb.heap s).original_priority ≢ 0
      not_first e =
          differ (
            ap (name_of lb)
              (v.ranked s o s_primary.0 (healthy_node o o_healthy) (e ∙ sym original)))

      checked : Elem s (backup_nodes lb')
      checked =
          let kept = (perform_health_check-IsWellFormed arrival reply lb order v).0 in
          Elem-select_of_Elem (λ p. is_backup (lb'.heap p)) s lb'.nodes
            (subst (Elem s) (sym kept.nodes) s_primary.0) (ground (arith, own, not_first))
