-- ===== src/Balancer/Health/Guarantees.antt =====
-- cmd/loadbalancer/health_check.go: the part of `performHealthCheck` under the lock, as a whole.
use consensus_proxy.Base.{
  ℕ, ◌<◌, true, List, ◌∷◌, ◌++◌, find_first, Elem, Elem-append, Elem-append_right, find_first-some,
  find_first-none, subst, ◌≡◌, refl, sym, ap, ◌∙◌, ◌⊎◌, inl, inr, arith, ◌==◌, Option-cases, Option,
  none, some,
}
use consensus_proxy.Node.{BeaconNode, is_primary}
use consensus_proxy.Balancer.{LoadBalancer}
use consensus_proxy.Balancer.WellFormed.{max_int}
use consensus_proxy.Balancer.Kept.{IsKept}
use consensus_proxy.Balancer.Health.Committing.{
  Keeps, Keeps-trans, priority_of, original_of, perform_failback-Keeps, perform_failback_other,
  restore_priorities-Keeps, restore_priorities_other, restore_priorities_lem,
}
use consensus_proxy.Balancer.Health.Promoting.{
  promote_if_none-Keeps, promote_if_none_primary, node_to_promote_lem, promote_if_none_promotes,
}
use consensus_proxy.Balancer.Health.{
  commit, find_original_primary, find_primary, perform_failback, restore_priorities,
  promote_if_none, keep_primary,
}

-- The balancer with the original priorities restored, before a promotion.
abbrev pub restored : List ℕ → LoadBalancer → LoadBalancer
restored backups lb =
    restore_priorities backups
      (perform_failback (find_original_primary lb backups) (find_primary lb) lb)

pub restored-Keeps : (backups : List ℕ) (lb : LoadBalancer) → Keeps lb (restored backups lb)
restored-Keeps backups lb =
    Keeps-trans (perform_failback-Keeps (find_original_primary lb backups) (find_primary lb) lb) (
      restore_priorities-Keeps backups
        (perform_failback (find_original_primary lb backups) (find_primary lb) lb))

pub restored-priority :
    (backups : List ℕ) (q : ℕ) (lb : LoadBalancer)
    → Elem q backups
    → priority_of (restored backups lb) q ≡ original_of lb q
restored-priority backups q lb e =
    restore_priorities_lem backups q _ e
    ∙ (perform_failback-Keeps (find_original_primary lb backups) (find_primary lb)
          lb).kept.originals
        q

pub commit-heap :
    (backups : List ℕ) (lb : LoadBalancer)
    → ((commit backups lb).heap
        ≡ (promote_if_none (find_primary (restored backups lb)) backups (restored backups lb)).heap)
      × ((commit backups lb).healthy_nodes
          ≡ keep_primary (restored backups lb) (find_primary (restored backups lb)) ++ backups)
      × ((commit backups lb).nodes
          ≡ (promote_if_none
              (find_primary (restored backups lb))
              backups
              (restored backups lb)).nodes)
      × ((commit backups lb).config
          ≡ (promote_if_none
              (find_primary (restored backups lb))
              backups
              (restored backups lb)).config)
unfolding commit
commit-heap backups lb = (refl, refl, refl, refl)

-- A healthy backup whose original priority is 0 has the priority 0 afterwards.
pub commit_original_primary :
    (backups : List ℕ) (q : ℕ) (lb : LoadBalancer)
    → Elem q backups
    → original_of lb q ≡ 0
    → priority_of (commit backups lb) q ≡ 0
commit_original_primary backups q lb e h =
    ap (λ (f : ℕ → BeaconNode). (f q).priority) (commit-heap backups lb).0
    ∙ promote_if_none_primary (find_primary (restored backups lb)) backups q (restored backups lb)
        (restored-priority backups q lb e ∙ h)

-- With a healthy backup there is a primary afterwards.
pub commit_has_primary :
    (backups : List ℕ) (b : ℕ) (lb : LoadBalancer)
    → Elem b backups
    → ((q : ℕ) → Elem q backups → Elem q lb.nodes)
    → original_of lb b < max_int
    → (p : ℕ) × Elem p lb.nodes × (priority_of (commit backups lb) p ≡ 0)
commit_has_primary backups b lb e sub small =
    elim (Option-cases (find_primary (restored backups lb))) [
      | inl missing ↦
          let lb₂ = restored backups lb in
          let k = (restored-Keeps backups lb).kept in
          let b_node : Elem b lb₂.nodes = subst (Elem b) (sym k.nodes) (sub b e) in
          let not_primary =
            find_first-none (λ p. is_primary (lb₂.heap p)) b lb₂.nodes missing b_node in
          let own : priority_of lb₂ b ≡ original_of lb b = restored-priority backups b lb e in
          let (y, chosen, member, _) =
            node_to_promote_lem lb₂ backups b e (ground (arith, not_primary))
              (omega (arith, own)) in
          (
            y,
            sub y member,
            ap (λ (f : ℕ → BeaconNode). (f y).priority) (commit-heap backups lb).0
                ∙ ap (λ o. priority_of (promote_if_none o backups lb₂) y) missing
                ∙ promote_if_none_promotes backups y lb₂ chosen,
          )
      | inr (p, found) ↦
          let lb₂ = restored backups lb in
          let (member, zero_priority) =
            find_first-some (λ q. is_primary (lb₂.heap q)) p lb₂.nodes found in
          (
            p,
            subst (Elem p) (restored-Keeps backups lb).kept.nodes member,
            ap (λ (f : ℕ → BeaconNode). (f p).priority) (commit-heap backups lb).0
                ∙ promote_if_none_primary (find_primary lb₂) backups p lb₂
                    (ground (arith, zero_priority)),
          )
    ]

pub keep_primary-Elem :
    (lb : LoadBalancer) (o : Option ℕ) (q : ℕ) → Elem q (keep_primary lb o) → o ≡ some q
unfolding keep_primary
keep_primary-Elem lb none q e = absurd e
keep_primary-Elem lb (some p) q e = ground arith

-- The healthy nodes after a round: the healthy backups, and at most the primary.
pub commit-Elem :
    (backups : List ℕ) (q : ℕ) (lb : LoadBalancer)
    → Elem q (commit backups lb).healthy_nodes
    → (find_primary (restored backups lb) ≡ some q) ⊎ Elem q backups
commit-Elem backups q lb e =
    let lb₂ = restored backups lb in
    elim (Elem-append q (keep_primary lb₂ (find_primary lb₂)) backups
      (subst (Elem q) (commit-heap backups lb).1 e)) [
        | inl kept ↦ inl (keep_primary-Elem lb₂ (find_primary lb₂) q kept)
        | inr backup ↦ inr backup
      ]

-- A backup that is not among the healthy ones keeps its priority.
pub restored_other :
    (backups : List ℕ) (q : ℕ) (lb : LoadBalancer)
    → ¬ Elem q backups
    → 0 < priority_of lb q
    → priority_of (restored backups lb) q ≡ priority_of lb q
restored_other backups q lb absent backup =
    ap (λ (n : BeaconNode). n.priority)
      (restore_priorities_other backups q _ absent
        ∙ perform_failback_other (find_original_primary lb backups) (find_primary lb) q lb
            (λ e. absent (find_first-some (λ p. (lb.heap p).original_priority == 0) q backups e).0)
            (λ e. not_zero (find_first-some (λ p. is_primary (lb.heap p)) q lb.nodes e).1))
  where
    not_zero : is_primary (lb.heap q) ≡ true → ⊥
    not_zero h = ground arith

pub commit_excludes :
    (backups : List ℕ) (q : ℕ) (lb : LoadBalancer)
    → ¬ Elem q backups
    → 0 < priority_of lb q
    → ¬ Elem q (commit backups lb).healthy_nodes
commit_excludes backups q lb absent backup e = elim (commit-Elem backups q lb e) [
  | inl primary ↦
      let lb₂ = restored backups lb in
      let same : priority_of lb₂ q ≡ priority_of lb q = restored_other backups q lb absent backup in
      let zero_priority = (find_first-some (λ p. is_primary (lb₂.heap p)) q lb₂.nodes primary).1 in
      ground (arith, zero_priority)
  | inr member ↦ absent member
]

pub commit-IsKept : (backups : List ℕ) (lb : LoadBalancer) → IsKept lb (commit backups lb)
commit-IsKept backups lb =
    let lb₂ = restored backups lb in
    let k : Keeps lb (promote_if_none (find_primary lb₂) backups lb₂) =
      Keeps-trans (restored-Keeps backups lb)
        (promote_if_none-Keeps (find_primary lb₂) backups lb₂) in
    record {
      names =
          λ q. ap (λ (f : ℕ → BeaconNode). (f q).name) (commit-heap backups lb).0 ∙ k.kept.names q;
      originals = λ q.
          ap (λ (f : ℕ → BeaconNode). (f q).original_priority) (commit-heap backups lb).0
          ∙ k.kept.originals q;
      nodes = (commit-heap backups lb).2 ∙ k.kept.nodes;
      config = (commit-heap backups lb).3 ∙ k.kept.config;
    }

pub commit-backup :
    (backups : List ℕ) (q : ℕ) (lb : LoadBalancer)
    → Elem q backups
    → Elem q (commit backups lb).healthy_nodes
commit-backup backups q lb e =
    subst (Elem q) (sym (commit-heap backups lb).1)
      (Elem-append_right q (keep_primary _ _) backups e)

-- Without a failback, a primary that is not among the healthy backups keeps its priority 0.
pub commit_primary :
    (backups : List ℕ) (q : ℕ) (lb : LoadBalancer)
    → perform_failback (find_original_primary lb backups) (find_primary lb) lb ≡ lb
    → ¬ Elem q backups
    → priority_of lb q ≡ 0
    → (priority_of (restored backups lb) q ≡ 0) × (priority_of (commit backups lb) q ≡ 0)
commit_primary backups q lb idle absent h = (
  before,
  ap (λ (f : ℕ → BeaconNode). (f q).priority) (commit-heap backups lb).0
      ∙ promote_if_none_primary (find_primary (restored backups lb)) backups q (restored backups lb)
          before,
)
  where
    before : priority_of (restored backups lb) q ≡ 0
    before =
        ap (λ (n : BeaconNode). n.priority) (restore_priorities_other backups q _ absent)
        ∙ ap (λ b. priority_of b q) idle
        ∙ h

-- The first node of the list is the primary that is found, if its priority is 0.
pub find_primary_first :
    (lb : LoadBalancer) (o : ℕ) (rest : List ℕ)
    → lb.nodes ≡ o ∷ rest
    → priority_of lb o ≡ 0
    → find_primary lb ≡ some o
find_primary_first lb o rest e h = ap (find_first (λ p. is_primary (lb.heap p))) e ∙ ground arith
