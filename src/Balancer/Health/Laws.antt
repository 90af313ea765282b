-- ===== src/Balancer/Health/Laws.antt =====
-- cmd/loadbalancer/health_check.go: a round of `performHealthCheck`, from the balancer before to
-- the balancer after.
use consensus_proxy.Base.{
  ℕ, ◌<◌, true, false, List, [], Elem, Reorders, Elem-of_Elem-select, Elem-select_of_Elem,
  find_first-some, subst, ◌≡◌, sym, ap, ◌∙◌, ◌↔◌, ◌⊎◌, inl, inr, arith, Bool-cases, some,
}
use consensus_proxy.Node.{BeaconNode, is_primary, is_backup}
use consensus_proxy.Node.Sync.{SyncReply}
use consensus_proxy.Balancer.{LoadBalancer}
use consensus_proxy.Balancer.Kept.{IsKept, IsKept-refl, IsKept-trans}
use consensus_proxy.Balancer.Health.Collecting.{passes, collected-Collects, collected-healthy}
use consensus_proxy.Balancer.Health.{
  collected, backup_nodes, commit, find_primary, perform_health_check,
}
use consensus_proxy.Balancer.WellFormed.{IsWellFormed, IsKept-IsWellFormed}
use consensus_proxy.Balancer.Health.Guarantees.{
  restored, restored-Keeps, commit-Elem, commit_excludes, commit-IsKept, commit-backup,
  commit_has_primary, commit_original_primary,
}

true_not_false : true ≡ false → ⊥
true_not_false h = cc

module _ (arrival : List ℕ → List ℕ) (reply : ℕ → SyncReply) (lb : LoadBalancer) where
  abbrev pub healthy_backups : List ℕ
  healthy_backups = (collected arrival reply lb).new_healthy_backups

  abbrev pub committed : LoadBalancer
  committed = commit healthy_backups (collected arrival reply lb).balancer

  -- A round changes nothing where there is no backup, and otherwise commits what it collected.
  pub perform_health_check-cases :
      let lb' = perform_health_check arrival reply lb in
      ((backup_nodes lb ≡ []) × (lb' ≡ lb))
      ⊎ ((lb'.heap ≡ committed.heap)
          × (lb'.healthy_nodes ≡ committed.healthy_nodes)
          × (lb'.nodes ≡ committed.nodes)
          × (lb'.config ≡ committed.config))
  unfolding perform_health_check
  perform_health_check-cases = ground arith

  pub perform_health_check_idle : backup_nodes lb ≡ [] → perform_health_check arrival reply lb ≡ lb
  unfolding perform_health_check
  perform_health_check_idle h = ground arith

  -- The same from a backup.
  pub perform_health_check-commits :
      (q : ℕ)
      → Elem q (backup_nodes lb)
      → let lb' = perform_health_check arrival reply lb in
        (lb'.heap ≡ committed.heap)
        × (lb'.healthy_nodes ≡ committed.healthy_nodes)
        × (lb'.nodes ≡ committed.nodes)
        × (lb'.config ≡ committed.config)
  perform_health_check-commits q e = elim perform_health_check-cases [
    | inl (empty, _) ↦ absurd (subst (Elem q) empty e)
    | inr same ↦ same
  ]

  module _ (order : Reorders arrival) where
    pub healthy_backups-Elem :
        (q : ℕ) → Elem q healthy_backups → Elem q (backup_nodes lb) × (passes reply q ≡ true)
    healthy_backups-Elem q e =
        let (arrived, passed) =
          Elem-of_Elem-select (passes reply) q (arrival (backup_nodes lb))
            (subst (Elem q) (collected-healthy reply arrival lb) e) in
        (order.from q (backup_nodes lb) arrived, passed)

    pub Elem-healthy_backups :
        (q : ℕ) → Elem q (backup_nodes lb) → passes reply q ≡ true → Elem q healthy_backups
    Elem-healthy_backups q e h = subst (Elem q) (sym (collected-healthy reply arrival lb)) (
        Elem-select_of_Elem (passes reply) q (arrival (backup_nodes lb))
          (order.into q (backup_nodes lb) e) h)

    -- A backup is among the healthy nodes after a round exactly if it passes its check, in whatever
    -- order the results arrive.
    pub perform_health_check_healthy :
        (q : ℕ)
        → Elem q (backup_nodes lb)
        → Elem q (perform_health_check arrival reply lb).healthy_nodes ↔ (passes reply q ≡ true)
    perform_health_check_healthy q e = (there, back)
      where
        after : List ℕ
        after = (perform_health_check arrival reply lb).healthy_nodes

        same : after ≡ committed.healthy_nodes
        same = (perform_health_check-commits q e).1

        backup : 0 < ((collected arrival reply lb).balancer.heap q).priority
        backup = ground (
          arith,
          Elem-of_Elem-select (λ p. is_backup (lb.heap p)) q lb.nodes e,
          (collected-Collects reply arrival lb).priorities q,
        )

        there : Elem q after → passes reply q ≡ true
        there m = elim (Bool-cases (passes reply q)) [
          | inl passed ↦ passed
          | inr failed ↦ absurd (
              commit_excludes healthy_backups q (collected arrival reply lb).balancer
                (λ h. true_not_false (sym (healthy_backups-Elem q h).1 ∙ failed)) backup
                (subst (Elem q) same m))
        ]

        back : passes reply q ≡ true → Elem q after
        back h = subst (Elem q) (sym same) (
            commit-backup healthy_backups q (collected arrival reply lb).balancer
              (Elem-healthy_backups q e h))

    -- If a backup of a well-formed balancer passes its check, some node is primary afterwards.
    pub perform_health_check_primary :
        (q : ℕ)
        → IsWellFormed lb
        → Elem q (backup_nodes lb)
        → passes reply q ≡ true
        → (p : ℕ) × Elem p lb.nodes
          × (((perform_health_check arrival reply lb).heap p).priority ≡ 0)
    perform_health_check_primary q v e h =
        let k = (collected-Collects reply arrival lb).kept in
        let node : (r : ℕ) → Elem r (backup_nodes lb) → Elem r lb.nodes =
          λ r m. (Elem-of_Elem-select (λ p. is_backup (lb.heap p)) r lb.nodes m).0 in
        let (p, member, primary) =
          commit_has_primary healthy_backups q (collected arrival reply lb).balancer
            (Elem-healthy_backups q e h)
            (λ r m. subst (Elem r) (sym k.nodes) (node r (healthy_backups-Elem r m).0))
            (rw (k.originals q) (v.bounded q (node q e))) in
        (
          p,
          subst (Elem p) k.nodes member,
          ap (λ (f : ℕ → BeaconNode). (f p).priority) (perform_health_check-commits q e).0
              ∙ primary,
        )

    -- A backup that passes one check and whose original priority is 0 is primary again, however
    -- many successful checks the configuration asks for.
    pub perform_health_check_early :
        (q : ℕ)
        → Elem q (backup_nodes lb)
        → passes reply q ≡ true
        → (lb.heap q).original_priority ≡ 0
        → ((perform_health_check arrival reply lb).heap q).priority ≡ 0
    perform_health_check_early q e h original =
        ap (λ (f : ℕ → BeaconNode). (f q).priority) (perform_health_check-commits q e).0
        ∙ commit_original_primary healthy_backups q (collected arrival reply lb).balancer
            (Elem-healthy_backups q e h)
            ((collected-Collects reply arrival lb).kept.originals q ∙ original)

    -- A round keeps identities, and its healthy nodes are nodes.
    pub perform_health_check-IsWellFormed :
        IsWellFormed lb
        → IsKept lb (perform_health_check arrival reply lb)
          × IsWellFormed (perform_health_check arrival reply lb)
    perform_health_check-IsWellFormed v = elim perform_health_check-cases [
      | inl (_, same) ↦
          (subst (IsKept lb) (sym same) (IsKept-refl lb), subst IsWellFormed (sym same) v)
      | inr (heap, healthy, nodes, config) ↦
          let gathered = (collected arrival reply lb).balancer in
          let k : IsKept lb committed =
            IsKept-trans (collected-Collects reply arrival lb).kept
              (commit-IsKept healthy_backups gathered) in
          let kept : IsKept lb (perform_health_check arrival reply lb) = record {
            names = λ q. ap (λ (f : ℕ → BeaconNode). (f q).name) heap ∙ k.names q;
            originals =
                λ q. ap (λ (f : ℕ → BeaconNode). (f q).original_priority) heap ∙ k.originals q;
            nodes = nodes ∙ k.nodes;
            config = config ∙ k.config;
          } in
          (
            kept,
            IsKept-IsWellFormed kept
                (λ q e.
                  listed q (commit-Elem healthy_backups q gathered (subst (Elem q) healthy e)))
                v,
          )
    ]
      where
        listed :
            (q : ℕ)
            → (find_primary (restored healthy_backups (collected arrival reply lb).balancer)
                ≡ some q)
              ⊎ Elem q healthy_backups
            → Elem q lb.nodes
        listed q (inl found) =
            let gathered = (collected arrival reply lb).balancer in
            let lb₂ = restored healthy_backups gathered in
            let member = (find_first-some (λ p. is_primary (lb₂.heap p)) q lb₂.nodes found).0 in
            subst (Elem q)
              ((restored-Keeps healthy_backups gathered).kept.nodes
                ∙ (collected-Collects reply arrival lb).kept.nodes)
              member
        listed q (inr e) =
            (Elem-of_Elem-select (λ p. is_backup (lb.heap p)) q lb.nodes
              (healthy_backups-Elem q e).0).0
