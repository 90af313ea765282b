-- ===== src/Balancer/Health/Settling.antt =====
-- cmd/loadbalancer/health_check.go: a round of `performHealthCheck` leaves a settled balancer.
use consensus_proxy.Base.{
  ℕ, ◌<◌, List, [], ◌∷◌, str_eq, eq_iff, exists, Elem, Distinct, Reorders, select-Distinct,
  Elem-of_Elem-select, find_first-some, exists-Elem, exists_of_Elem, subst, ◌≡◌, refl, sym, ap, ◌∙◌,
  ◌⊎◌, inl, inr, arith, Bool-cases, Option, none, some,
}
use consensus_proxy.Node.{BeaconNode, is_primary, is_backup}
use consensus_proxy.Node.Sync.{SyncReply}
use consensus_proxy.Balancer.{LoadBalancer}
use consensus_proxy.Balancer.Errors.{name_of}
use consensus_proxy.Balancer.WellFormed.{IsWellFormed, IsKept-IsWellFormed}
use consensus_proxy.Balancer.Errors.Trimming.{Trims-same}
use consensus_proxy.Balancer.Settled.{NamesDiffer, IsSettled, IsKept-NamesDiffer, Trims-IsSettled}
use consensus_proxy.Balancer.Health.{
  collected, backup_nodes, commit, find_primary, keep_primary, perform_health_check,
}
use consensus_proxy.Balancer.Health.Committing.{priority_of, original_of}
use consensus_proxy.Balancer.Health.Promoting.{promote_if_none_primary, promote_if_none_rank}
use consensus_proxy.Balancer.Health.Collecting.{passes, collected-Collects, collected-healthy}
use consensus_proxy.Balancer.Health.Guarantees.{
  restored, restored-Keeps, restored-priority, commit-heap, commit-Elem, commit-IsKept,
}
use consensus_proxy.Balancer.Health.Laws.{
  healthy_backups, perform_health_check-cases, healthy_backups-Elem,
}

-- The primary is kept only where a healthy node has its name.
pub keep_primary-cases :
    (lb : LoadBalancer) (o : Option ℕ)
    → (keep_primary lb o ≡ [])
      ⊎ ((p : ℕ) × (o ≡ some p)
          × (keep_primary lb o ≡ p ∷ [])
          × ((q : ℕ) × Elem q lb.healthy_nodes × (name_of lb q ≡ name_of lb p)))
unfolding keep_primary
keep_primary-cases lb none = inl refl
keep_primary-cases lb (some p) =
    let same = λ (q : ℕ). str_eq (name_of lb q) (name_of lb p) in
    elim (Bool-cases (exists same lb.healthy_nodes)) [
      | inl e ↦
          let (q, member, named) = exists-Elem same lb.healthy_nodes e in
          inr (p, refl, rw e refl, (q, member, (eq_iff (name_of lb q) (name_of lb p)).0 named))
      | inr e ↦ inl (rw e refl)
    ]

pub keep_primary_kept :
    (lb : LoadBalancer) (p q : ℕ)
    → Elem q lb.healthy_nodes
    → name_of lb q ≡ name_of lb p
    → keep_primary lb (some p) ≡ p ∷ []
unfolding keep_primary
keep_primary_kept lb p q e named =
    let found =
      exists_of_Elem (λ r. str_eq (name_of lb r) (name_of lb p)) q lb.healthy_nodes e
        ((eq_iff (name_of lb q) (name_of lb p)).1 named) in
    rw found refl

module _ (backups : List ℕ) (lb : LoadBalancer) (v : IsWellFormed lb) (differ : NamesDiffer lb)
    (s : IsSettled lb)
    (backup : (q : ℕ) → Elem q backups → Elem q lb.nodes × (0 < priority_of lb q)) where
  abbrev lb₂ : LoadBalancer
  lb₂ = restored backups lb

  primary_rank : (p : ℕ) → find_primary lb₂ ≡ some p → priority_of lb₂ p ≡ 0
  primary_rank p found =
      let h = (find_first-some (λ q. is_primary (lb₂.heap q)) p lb₂.nodes found).1 in ground arith

  -- A healthy backup that is primary after the restoration was not healthy before.
  kept_once :
      (p : ℕ)
      → find_primary lb₂ ≡ some p
      → (q : ℕ) × Elem q lb₂.healthy_nodes × (name_of lb₂ q ≡ name_of lb₂ p)
      → ¬ Elem p backups
  kept_once p found (q, member, named) e =
      let k = restored-Keeps backups lb in
      let healthy : Elem q lb.healthy_nodes = subst (Elem q) k.healthy member in
      let same : q ≡ p =
        differ q p (v.listed q healthy) (backup p e).0
          (sym (k.kept.names q) ∙ named ∙ k.kept.names p) in
      let rank = s.ranks p (subst (λ x. Elem x lb.healthy_nodes) same healthy) in
      let original : original_of lb p ≡ 0 =
        sym (restored-priority backups p lb e) ∙ primary_rank p found in
      ground (arith, (backup p e).1)

  commit-Distinct : Distinct backups → Distinct (commit backups lb).healthy_nodes
  commit-Distinct d =
      subst Distinct (sym (commit-heap backups lb).1)
        (elim (keep_primary-cases lb₂ (find_primary lb₂)) [
          | inl e ↦ rw e d
          | inr (p, found, e, there) ↦ rw e (kept_once p found there, d)
        ])

  commit-IsSettled : Distinct backups → IsSettled (commit backups lb)
  commit-IsSettled d = record {
    distinct = commit-Distinct d;
    ranks = λ q e.
        let heap = ap (λ (f : ℕ → BeaconNode). (f q).priority) (commit-heap backups lb).0 in
        elim (commit-Elem backups q lb e) [
          | inl found ↦ inl (
              heap
              ∙ promote_if_none_primary (find_primary lb₂) backups q lb₂ (primary_rank q found))
          | inr member ↦ elim (promote_if_none_rank (find_primary lb₂) backups q lb₂) [
            | inl primary ↦ inl (heap ∙ primary)
            | inr own ↦ inr (
                heap
                ∙ own
                ∙ restored-priority backups q lb member
                ∙ sym ((commit-IsKept backups lb).originals q))
          ]
        ];
  }

pub perform_health_check-IsSettled :
    (arrival : List ℕ → List ℕ) (reply : ℕ → SyncReply) (lb : LoadBalancer)
    → Reorders arrival
    → IsWellFormed lb
    → NamesDiffer lb
    → IsSettled lb
    → IsSettled (perform_health_check arrival reply lb)
perform_health_check-IsSettled arrival reply lb order v differ s =
    elim (perform_health_check-cases arrival reply lb) [
      | inl (_, same) ↦ subst IsSettled (sym same) s
      | inr (heap, healthy, _, _) ↦
          let c = collected-Collects reply arrival lb in
          let gathered = (collected arrival reply lb).balancer in
          let backups = healthy_backups arrival reply lb in
          let w = IsKept-IsWellFormed c.kept (λ q e. v.listed q (subst (Elem q) c.healthy e)) v in
          let before = Trims-IsSettled c.kept (Trims-same c.healthy c.priorities) s in
          let done =
            commit-IsSettled backups gathered w (IsKept-NamesDiffer c.kept differ) before
              (λ q e. backup q (healthy_backups-Elem arrival reply lb order q e).0) once in
          record {
            distinct = subst Distinct (sym healthy) done.distinct;
            ranks = λ q e.
                let same = ap (λ (f : ℕ → BeaconNode). f q) heap in
                rw same (done.ranks q (subst (Elem q) healthy e));
          }
    ]
  where
    backup :
        (q : ℕ)
        → Elem q (backup_nodes lb)
        → Elem q (collected arrival reply lb).balancer.nodes
          × (0 < priority_of (collected arrival reply lb).balancer q)
    backup q e =
        let c = collected-Collects reply arrival lb in
        let (member, test) = Elem-of_Elem-select (λ p. is_backup (lb.heap p)) q lb.nodes e in
        (subst (Elem q) (sym c.kept.nodes) member, ground (arith, test, c.priorities q))

    once : Distinct (healthy_backups arrival reply lb)
    once = subst Distinct (sym (collected-healthy reply arrival lb)) (
        select-Distinct (passes reply) (arrival (backup_nodes lb)) (
          order.distinct (backup_nodes lb)
            (select-Distinct (λ p. is_backup (lb.heap p)) lb.nodes v.distinct)))
