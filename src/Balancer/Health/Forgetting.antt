-- ===== src/Balancer/Health/Forgetting.antt =====
-- cmd/loadbalancer/health_check.go: an original primary that is not healthy, in a round.
use consensus_proxy.Base.{
  ℕ, List, [], ◌∷◌, select, Elem, Reorders, Elem-of_Elem-select, Elem-append, find_first-some,
  subst, ◌≡◌, sym, ap, ◌∙◌, inl, inr, arith, ◌==◌, Option-cases, none,
}
use consensus_proxy.Node.{BeaconNode, is_backup}
use consensus_proxy.Node.Sync.{SyncReply}
use consensus_proxy.Balancer.{LoadBalancer}
use consensus_proxy.Balancer.Errors.{name_of}
use consensus_proxy.Balancer.Startup.Laws.{list-cases}
use consensus_proxy.Balancer.WellFormed.{IsWellFormed}
use consensus_proxy.Balancer.Settled.{NamesDiffer, IsForgotten, IsKept-IsForgotten}
use consensus_proxy.Balancer.Health.{
  collected, backup_nodes, find_original_primary, find_primary, perform_failback,
  perform_health_check,
}
use consensus_proxy.Balancer.Health.Collecting.{passes, Collects, collected-Collects}
use consensus_proxy.Balancer.Health.Committing.{original_of}
use consensus_proxy.Balancer.Health.Guarantees.{commit_primary}
use consensus_proxy.Balancer.Health.Arriving.{perform_health_check_order}
use consensus_proxy.Balancer.Health.Laws.{
  healthy_backups, healthy_backups-Elem, perform_health_check_idle, perform_health_check-commits,
  perform_health_check-IsWellFormed,
}

module _ (arrival : List ℕ → List ℕ) (reply : ℕ → SyncReply) (order : Reorders arrival)
    (lb : LoadBalancer) (v : IsWellFormed lb) (differ : NamesDiffer lb) (p : ℕ)
    (f : IsForgotten p lb) where
  abbrev gathered : LoadBalancer
  gathered = (collected arrival reply lb).balancer

  abbrev backups : List ℕ
  backups = healthy_backups arrival reply lb

  same : Collects lb gathered
  same = collected-Collects reply arrival lb

  no_backup : ¬ Elem p (backup_nodes lb)
  no_backup e =
      let (_, positive) = Elem-of_Elem-select (λ q. is_backup (lb.heap q)) p lb.nodes e in
      ground (arith, positive, f.primary)

  not_passed : ¬ Elem p backups
  not_passed e = no_backup (healthy_backups-Elem arrival reply lb order p e).0

  -- No backup is the original primary.
  no_original : find_original_primary gathered backups ≡ none
  no_original = elim (Option-cases (find_original_primary gathered backups)) [
    | inl missing ↦ missing
    | inr (q, found) ↦
        let (member, test) =
          find_first-some (λ r. (gathered.heap r).original_priority == 0) q backups found in
        let node =
          (Elem-of_Elem-select (λ r. is_backup (lb.heap r)) q lb.nodes
            (healthy_backups-Elem arrival reply lb order q member).0).0 in
        let zero_original : original_of lb q ≡ 0 = ground (arith, test, same.kept.originals q) in
        let one : q ≡ p = v.ranked q p node f.listed (zero_original ∙ sym f.original) in
        absurd (not_passed (subst (λ r. Elem r backups) one member))
  ]

  idle :
      perform_failback (find_original_primary gathered backups) (find_primary gathered) gathered
      ≡ gathered
  unfolding perform_failback
  idle = ap (λ o. perform_failback o (find_primary gathered) gathered) no_original

  still :
      (b : ℕ)
      → Elem b (backup_nodes lb)
      → ((perform_health_check arrival reply lb).heap p).priority ≡ 0
  still b e =
      ap (λ (h : ℕ → BeaconNode). (h p).priority)
        (perform_health_check-commits arrival reply lb b e).0
      ∙ (commit_primary backups p gathered idle not_passed (same.priorities p ∙ f.primary)).1

  absent :
      (b : ℕ)
      → Elem b (backup_nodes lb)
      → ¬ Elem p (perform_health_check arrival reply lb).healthy_nodes
  absent b e m =
      let (kept, listed, at_most) = perform_health_check_order arrival reply lb b e in
      elim (Elem-append p kept (select (passes reply) (arrival (backup_nodes lb)))
        (subst (Elem p) listed m)) [
          | inr passed ↦ no_backup (
              order.from p (backup_nodes lb)
                (Elem-of_Elem-select (passes reply) p (arrival (backup_nodes lb)) passed).0)
          | inl first ↦ elim at_most [
            | inl none_kept ↦ absurd (subst (Elem p) none_kept first)
            | inr (x, one, _, (s, healthy, named)) ↦
                let here : p ≡ x = only p x (subst (Elem p) one first) in
                let self : s ≡ p =
                  differ s p (v.listed s healthy) f.listed (named ∙ ap (name_of lb) (sym here)) in
                f.unhealthy (subst (λ r. Elem r lb.healthy_nodes) self healthy)
          ]
        ]
    where
      only : (a x : ℕ) → Elem a (x ∷ []) → a ≡ x
      only a x (inl e) = e
      only a x (inr e) = absurd e

  -- A round neither checks the original primary nor takes it for healthy.
  pub perform_health_check-IsForgotten : IsForgotten p (perform_health_check arrival reply lb)
  perform_health_check-IsForgotten = elim (list-cases (backup_nodes lb)) [
    | inl empty ↦ subst (IsForgotten p) (sym (perform_health_check_idle arrival reply lb empty)) f
    | inr (b, e) ↦
        IsKept-IsForgotten (perform_health_check-IsWellFormed arrival reply lb order v).0
          (still b e) (absent b e) f
  ]
