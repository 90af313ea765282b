-- ===== src/Balancer/Startup/Laws.antt =====
-- cmd/loadbalancer/health_check.go: the outcome of `StartupHealthCheck`.
use consensus_proxy.Base.{
  not_both, ◌≢◌, ℕ, Bool, true, false, List, [], ◌∷◌, ◌++◌, if◌then◌else◌, length, select, Elem,
  Distinct, Reorders, select-Distinct, Elem-of_Elem-select, Elem-select_of_Elem, subst, ◌≡◌, refl,
  sym, ap, ◌∙◌, ◌↔◌, ◌⊎◌, inl, inr, arith, ◌==◌, Bool-cases, none, some, append-nil, append_assoc,
}
use consensus_proxy.Node.Sync.{SyncReply, check_sync_status}
use consensus_proxy.Balancer.{LoadBalancer}
use consensus_proxy.Balancer.Creation.{IsFresh}
use consensus_proxy.Balancer.Settled.{IsSettled}
use consensus_proxy.Balancer.Startup.{
  Results, startup_result, startup_results, startup_health_check, no_healthy_nodes,
}
use consensus_proxy.Balancer.Startup.Sorting.{
  sort_by, IsSorted, Elem-sort_by, sort_by-Elem, sort_by-IsSorted, sort_by-Distinct,
  IsSorted-unique,
}

abbrev pub synced : (ℕ → SyncReply) → ℕ → Bool
synced reply p = (check_sync_status (reply p)).0

startup_results-healthy :
    (reply : ℕ → SyncReply) (lb : LoadBalancer) (r : Results) (ps : List ℕ)
    → (startup_results reply lb r ps).healthy_nodes ≡ r.healthy_nodes ++ select (synced reply) ps
unfolding startup_results startup_result
startup_results-healthy reply lb r [] = sym (append-nil _)
startup_results-healthy reply lb r (p ∷ ps) = ground (
  arith,
  startup_results-healthy reply lb (startup_result reply lb r p) ps,
  append_assoc r.healthy_nodes (p ∷ []) (select (synced reply) ps),
)

pub list-cases : (xs : List ℕ) → (xs ≡ []) ⊎ ((q : ℕ) × Elem q xs)
list-cases [] = inl refl
list-cases (x ∷ xs) = inr (x, inl refl)

module _ (arrival : List ℕ → List ℕ) (reply : ℕ → SyncReply) (lb : LoadBalancer) where
  abbrev found : List ℕ
  found = select (synced reply) (arrival lb.nodes)

  startup_healthy :
      (startup_health_check arrival reply lb).0.healthy_nodes
      ≡ sort_by (λ p. (lb.heap p).priority) found
  unfolding startup_health_check
  startup_healthy = ap (sort_by (λ p. (lb.heap p).priority)) (
      startup_results-healthy reply lb (record { healthy_nodes = []; unhealthy_nodes = [] })
        (arrival lb.nodes))

  -- The check changes nothing but the healthy nodes.
  pub startup_frame :
      let lb' = (startup_health_check arrival reply lb).0 in
      (lb'.heap ≡ lb.heap) × (lb'.nodes ≡ lb.nodes) × (lb'.config ≡ lb.config)
  unfolding startup_health_check
  startup_frame = (refl, refl, refl)

  startup_error : (startup_health_check arrival reply lb).1 ≡ (
      if length (startup_health_check arrival reply lb).0.healthy_nodes == 0
      then some (no_healthy_nodes (length lb.nodes))
      else none)
  unfolding startup_health_check
  startup_error = refl

  pub startup_health_check-none :
      (startup_health_check arrival reply lb).1 ≡ none
      → (startup_health_check arrival reply lb).0.healthy_nodes ≢ []
  startup_health_check-none e none_healthy = some_not_none (sym startup_error' ∙ e)
    where
      startup_error' :
          (startup_health_check arrival reply lb).1 ≡ some (no_healthy_nodes (length lb.nodes))
      startup_error' =
          startup_error
          ∙ ap
              (λ healthy.
                if length healthy == 0 then some (no_healthy_nodes (length lb.nodes)) else none)
              none_healthy

      some_not_none : some (no_healthy_nodes (length lb.nodes)) ≡ none → ⊥
      some_not_none h = cc

  module _ (order : Reorders arrival) where
    -- The healthy nodes at startup are exactly the synced ones, and stand in the order of their
    -- priorities.
    pub startup_health_check_healthy :
        let healthy = (startup_health_check arrival reply lb).0.healthy_nodes in
        ((q : ℕ) → Elem q healthy ↔ (Elem q lb.nodes × (synced reply q ≡ true)))
        × IsSorted (λ p. (lb.heap p).priority) healthy
    startup_health_check_healthy = (
      λ q. (
        (λ e.
            let (arrived, ok) = Elem-of_Elem-select (synced reply) q (arrival lb.nodes) (
              Elem-sort_by (λ p. (lb.heap p).priority) q found
                (subst (Elem q) startup_healthy e)) in
            (order.from q lb.nodes arrived, ok)),
        (λ h. subst (Elem q) (sym startup_healthy) (
            sort_by-Elem (λ p. (lb.heap p).priority) q found
              (Elem-select_of_Elem (synced reply) q (arrival lb.nodes) (order.into q lb.nodes h.0)
                h.1))),
      ),
      subst (IsSorted (λ p. (lb.heap p).priority)) (sym startup_healthy)
          (sort_by-IsSorted (λ p. (lb.heap p).priority) found),
    )

    -- Startup fails exactly if no node is synced.
    pub startup_health_check_error :
        ((startup_health_check arrival reply lb).1 ≡ some (no_healthy_nodes (length lb.nodes)))
        ↔ ((q : ℕ) → Elem q lb.nodes → synced reply q ≡ false)
    startup_health_check_error = (there, back)
      where
        healthy : List ℕ
        healthy = (startup_health_check arrival reply lb).0.healthy_nodes

        member : (q : ℕ) → Elem q healthy ↔ (Elem q lb.nodes × (synced reply q ≡ true))
        member = startup_health_check_healthy.0

        fails :
            (startup_health_check arrival reply lb).1 ≡ some (no_healthy_nodes (length lb.nodes))
            → healthy ≡ []
        fails e = ground (arith, startup_error, list-cases healthy)

        there :
            (startup_health_check arrival reply lb).1 ≡ some (no_healthy_nodes (length lb.nodes))
            → (q : ℕ) → Elem q lb.nodes
            → synced reply q ≡ false
        there e q m = elim (Bool-cases (synced reply q)) [
          | inl ok ↦ absurd (subst (Elem q) (fails e) ((member q).1 (m, ok)))
          | inr bad ↦ bad
        ]

        back :
            ((q : ℕ) → Elem q lb.nodes → synced reply q ≡ false)
            → (startup_health_check arrival reply lb).1 ≡ some (no_healthy_nodes (length lb.nodes))
        back h = elim (list-cases healthy) [
          | inl empty ↦ startup_error ∙ rw empty refl
          | inr (q, m) ↦ let (node, ok) = (member q).0 m in absurd (not_both (sym ok ∙ h q node))
        ]

startup-Distinct :
    (arrival : List ℕ → List ℕ) (reply : ℕ → SyncReply) (lb : LoadBalancer)
    → Reorders arrival
    → Distinct lb.nodes
    → Distinct (startup_health_check arrival reply lb).0.healthy_nodes
startup-Distinct arrival reply lb order d =
    subst Distinct (sym (startup_healthy arrival reply lb)) (
      sort_by-Distinct (λ p. (lb.heap p).priority) (found arrival reply lb)
        (select-Distinct (synced reply) (arrival lb.nodes) (order.distinct lb.nodes d)))

-- The startup check of a new balancer leaves it settled.
pub startup_health_check-IsSettled :
    (arrival : List ℕ → List ℕ) (reply : ℕ → SyncReply) (lb : LoadBalancer)
    → Reorders arrival
    → IsFresh lb
    → IsSettled (startup_health_check arrival reply lb).0
startup_health_check-IsSettled arrival reply lb order fresh = record {
  distinct = startup-Distinct arrival reply lb order fresh.well_formed.distinct;
  ranks = λ q e.
      let node = (((startup_health_check_healthy arrival reply lb order).0 q).0 e).0 in
      let (own, original, _) = fresh.ranks q node in
      inr (rw (startup_frame arrival reply lb).0 (own ∙ sym original));
}

-- The order in which the results arrive does not change the list of healthy nodes, if no node is
-- listed twice and the priorities differ.
startup_health_check_order :
    (arrival arrival' : List ℕ → List ℕ) (reply : ℕ → SyncReply) (lb : LoadBalancer)
    → Reorders arrival
    → Reorders arrival'
    → Distinct lb.nodes
    → ((q r : ℕ)
        → Elem q lb.nodes
        → Elem r lb.nodes
        → (lb.heap q).priority ≡ (lb.heap r).priority
        → q ≡ r)
    → (startup_health_check arrival reply lb).0.healthy_nodes
      ≡ (startup_health_check arrival' reply lb).0.healthy_nodes
startup_health_check_order arrival arrival' reply lb order order' d differ =
    let rank = λ (p : ℕ). (lb.heap p).priority in
    let all = startup_health_check_healthy arrival reply lb order in
    let all' = startup_health_check_healthy arrival' reply lb order' in
    IsSorted-unique rank _ _ all.1 all'.1 (startup-Distinct arrival reply lb order d)
      (startup-Distinct arrival' reply lb order' d) (λ q e. (all'.0 q).1 ((all.0 q).0 e))
      (λ q e. (all.0 q).1 ((all'.0 q).0 e))
      (λ q r e f. differ q r ((all.0 q).0 e).0 ((all.0 r).0 f).0)
