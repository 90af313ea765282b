-- ===== src/Balancer/Health/Collecting.antt =====
-- cmd/loadbalancer/health_check.go: the loop of `performHealthCheck` that collects the results.
use consensus_proxy.Base.{
  ℕ, Bool, true, false, List, [], ◌∷◌, ◌++◌, pos, inc_int64, select, Elem, Distinct, Reorders,
  select-Distinct, subst, ◌≡◌, refl, sym, ap, ◌∙◌, ◌≢◌, ◌⊎◌, inl, inr, arith, Bool-cases, Option,
  none, some, append-nil, append_assoc,
}
use consensus_proxy.Node.{is_backup}
use consensus_proxy.Node.Sync.{SyncReply, HealthCheckError, health_check}
use consensus_proxy.Balancer.{LoadBalancer}
use consensus_proxy.Balancer.Kept.{IsKept, IsKept-refl, IsKept-trans}
use consensus_proxy.Balancer.Health.{
  Collected, mark_healthy, mark_unhealthy, collect_result, collect_results, collected, backup_nodes,
}

-- Whether the node at `p` passes its check.
abbrev pub passes : (ℕ → SyncReply) → ℕ → Bool
passes reply p = (health_check (reply p)).0

-- What collecting a result leaves alone: all but the counters.
pub record Collects (lb lb' : LoadBalancer) : Type 0 where
  pub kept : IsKept lb lb'
  pub priorities : (q : ℕ) → (lb'.heap q).priority ≡ (lb.heap q).priority
  pub healthy : lb'.healthy_nodes ≡ lb.healthy_nodes

Collects-refl : (lb : LoadBalancer) → Collects lb lb
Collects-refl lb = record { kept = IsKept-refl lb; priorities = λ q. refl; healthy = refl }

Collects-trans : {a b c : LoadBalancer} → Collects a b → Collects b c → Collects a c
Collects-trans k l = record {
  kept = IsKept-trans k.kept l.kept;
  priorities = λ q. l.priorities q ∙ k.priorities q;
  healthy = l.healthy ∙ k.healthy;
}

mark_healthy-Collects : (p : ℕ) (lb : LoadBalancer) → Collects lb (mark_healthy p lb)
unfolding mark_healthy
mark_healthy-Collects p lb = record {
  kept = record {
    names = λ q. ground arith;
    originals = λ q. ground arith;
    nodes = refl;
    config = refl;
  };
  priorities = λ q. ground arith;
  healthy = refl;
}

mark_unhealthy-Collects :
    (p : ℕ) (e : Option HealthCheckError) (lb : LoadBalancer) → Collects lb (mark_unhealthy p e lb)
unfolding mark_unhealthy
mark_unhealthy-Collects p none lb = record {
  kept = record {
    names = λ q. ground arith;
    originals = λ q. ground arith;
    nodes = refl;
    config = refl;
  };
  priorities = λ q. ground arith;
  healthy = refl;
}
mark_unhealthy-Collects p (some e) lb = record {
  kept = record {
    names = λ q. ground arith;
    originals = λ q. ground arith;
    nodes = refl;
    config = refl;
  };
  priorities = λ q. ground arith;
  healthy = refl;
}

module _ (reply : ℕ → SyncReply) where
  -- The two outcomes of one result.
  collect_result-cases :
      (c : Collected) (p : ℕ)
      → let c' = collect_result reply c p in
        ((passes reply p ≡ true)
          × (c'.balancer ≡ mark_healthy p c.balancer)
          × (c'.new_healthy_backups ≡ c.new_healthy_backups ++ p ∷ []))
        ⊎ ((passes reply p ≡ false)
            × ((e : Option HealthCheckError) × (c'.balancer ≡ mark_unhealthy p e c.balancer))
            × (c'.new_healthy_backups ≡ c.new_healthy_backups))
  unfolding collect_result
  collect_result-cases c p = elim (Bool-cases (passes reply p)) [
    | inl e ↦ inl (e, rw e refl, rw e refl)
    | inr e ↦ inr (e, ((health_check (reply p)).1, rw e refl), rw e refl)
  ]

  collect_result-Collects :
      (c : Collected) (p : ℕ) → Collects c.balancer (collect_result reply c p).balancer
  collect_result-Collects c p = elim (collect_result-cases c p) [
    | inl (_, e, _) ↦ subst (Collects c.balancer) (sym e) (mark_healthy-Collects p c.balancer)
    | inr (_, (err, e), _) ↦
        subst (Collects c.balancer) (sym e) (mark_unhealthy-Collects p err c.balancer)
  ]

  collect_results-Collects :
      (c : Collected) (ps : List ℕ) → Collects c.balancer (collect_results reply c ps).balancer
  unfolding collect_results
  collect_results-Collects c [] = Collects-refl c.balancer
  collect_results-Collects c (p ∷ ps) =
      Collects-trans (collect_result-Collects c p)
        (collect_results-Collects (collect_result reply c p) ps)

  collect_results-healthy :
      (c : Collected) (ps : List ℕ)
      → (collect_results reply c ps).new_healthy_backups
        ≡ c.new_healthy_backups ++ select (passes reply) ps
  unfolding collect_results
  collect_results-healthy c [] = sym (append-nil _)
  collect_results-healthy c (p ∷ ps) = ground (
    arith,
    collect_result-cases c p,
    collect_results-healthy (collect_result reply c p) ps,
    append_assoc c.new_healthy_backups (p ∷ []) (select (passes reply) ps),
  )

  -- The counters of a node before and after its check.
  abbrev pub Counted : (lb lb' : LoadBalancer) (q : ℕ) → Type 0
  Counted lb lb' q =
      ((passes reply q ≡ true)
        × ((lb'.heap q).consecutive_successes ≡ inc_int64 (lb.heap q).consecutive_successes)
        × ((lb'.heap q).consecutive_errors ≡ pos 0))
      ⊎ ((passes reply q ≡ false)
          × ((lb'.heap q).consecutive_successes ≡ pos 0)
          × ((lb'.heap q).consecutive_errors ≡ (lb.heap q).consecutive_errors))

  mark_healthy_other :
      (p q : ℕ) (lb : LoadBalancer) → q ≢ p → (mark_healthy p lb).heap q ≡ lb.heap q
  unfolding mark_healthy
  mark_healthy_other p q lb h = ground arith

  mark_unhealthy_other :
      (p q : ℕ) (e : Option HealthCheckError) (lb : LoadBalancer)
      → q ≢ p
      → (mark_unhealthy p e lb).heap q ≡ lb.heap q
  unfolding mark_unhealthy
  mark_unhealthy_other p q none lb h = ground arith
  mark_unhealthy_other p q (some e) lb h = ground arith

  collect_result_other :
      (c : Collected) (p q : ℕ)
      → q ≢ p
      → (collect_result reply c p).balancer.heap q ≡ c.balancer.heap q
  collect_result_other c p q h = elim (collect_result-cases c p) [
    | inl (_, e, _) ↦ ap (λ lb. lb.heap q) e ∙ mark_healthy_other p q c.balancer h
    | inr (_, (err, e), _) ↦ ap (λ lb. lb.heap q) e ∙ mark_unhealthy_other p q err c.balancer h
  ]

  collect_results_other :
      (c : Collected) (q : ℕ) (ps : List ℕ)
      → ¬ Elem q ps
      → (collect_results reply c ps).balancer.heap q ≡ c.balancer.heap q
  unfolding collect_results
  collect_results_other c q [] h = refl
  collect_results_other c q (p ∷ ps) h =
      collect_results_other (collect_result reply c p) q ps (λ e. h (inr e))
      ∙ collect_result_other c p q (λ e. h (inl e))

  mark_unhealthy_self :
      (q : ℕ) (e : Option HealthCheckError) (lb : LoadBalancer)
      → let n = (mark_unhealthy q e lb).heap q in
        (n.consecutive_successes ≡ pos 0) × (n.consecutive_errors ≡ (lb.heap q).consecutive_errors)
  unfolding mark_unhealthy
  mark_unhealthy_self q none lb = ground arith
  mark_unhealthy_self q (some e) lb = ground arith

  collect_result-Counted :
      (c : Collected) (q : ℕ) → Counted c.balancer (collect_result reply c q).balancer q
  unfolding mark_healthy
  collect_result-Counted c q = elim (collect_result-cases c q) [
    | inl (passed, e, _) ↦ rw e (inl (passed, ground arith, ground arith))
    | inr (failed, (err, e), _) ↦ rw e (
        inr (
          failed,
          (mark_unhealthy_self q err c.balancer).0,
          (mark_unhealthy_self q err c.balancer).1,
        ))
  ]

  collect_results-Counted :
      (c : Collected) (q : ℕ) (ps : List ℕ)
      → Distinct ps
      → Elem q ps
      → Counted c.balancer (collect_results reply c ps).balancer q
  unfolding collect_results
  collect_results-Counted c q [] d e = absurd e
  collect_results-Counted c q (p ∷ ps) d (inl here) =
      let c' = collect_result reply c q in
      let same : (collect_results reply c' ps).balancer.heap q ≡ c'.balancer.heap q =
        collect_results_other c' q ps (subst (λ x. ¬ Elem x ps) (sym here) d.0) in
      rw (← here) (rw same (collect_result-Counted c q))
  collect_results-Counted c q (p ∷ ps) d (inr later) =
      let other : q ≢ p = λ same. d.0 (subst (λ x. Elem x ps) same later) in
      ground (
        arith,
        collect_results-Counted (collect_result reply c p) q ps d.1 later,
        collect_result_other c p q other,
      )

  module _ (arrival : List ℕ → List ℕ) (lb : LoadBalancer) where
    pub collected-Collects : Collects lb (collected arrival reply lb).balancer
    unfolding collected
    collected-Collects = collect_results-Collects _ (arrival (backup_nodes lb))

    -- The healthy backups stand in the order of arrival.
    pub collected-healthy :
        (collected arrival reply lb).new_healthy_backups
        ≡ select (passes reply) (arrival (backup_nodes lb))
    unfolding collected
    collected-healthy = collect_results-healthy _ (arrival (backup_nodes lb))

    -- Each backup node is counted once.
    pub collected-Counted :
        (q : ℕ)
        → Reorders arrival
        → Distinct lb.nodes
        → Elem q (backup_nodes lb)
        → Counted lb (collected arrival reply lb).balancer q
    unfolding collected
    collected-Counted q r d e =
        collect_results-Counted _ q (arrival (backup_nodes lb))
          (r.distinct (backup_nodes lb) (select-Distinct (λ p. is_backup (lb.heap p)) lb.nodes d))
          (r.into q (backup_nodes lb) e)
