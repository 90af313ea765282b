-- ===== src/Balancer/Errors/Concurrent/Interleaving.antt =====
-- cmd/loadbalancer/http_handler.go: server errors of the primary whose handling overlaps in time.
use consensus_proxy.Base.{
  not_both, ℕ, zero, suc, ◌+◌, ◌<◌, ◌≤◌, Bool, true, List, [], ◌∷◌, leb, le→leb, leb_ℤ, ℤ, pos,
  inc_int64, int64_end, if◌then◌else◌, length, All, subst, ◌≡◌, refl, sym, ap, ◌∙◌, ◌⊎◌, inl, inr,
  arith, Bool-cases, ◌&&◌, ==_refl,
}
use consensus_proxy.Node.{is_primary, set_priority, reset_successes}
use consensus_proxy.Balancer.{LoadBalancer, modify}
use consensus_proxy.Balancer.Errors.Threshold.{Counts}
use consensus_proxy.Balancer.Errors.Concurrent.{
  Next, test_status, add_error, add_failure, store_successes, load_errors, test_primary,
  store_priority, filter_healthy, report_demotion, report_failover, returned, Thread, micro, Shared,
  step_thread, step_at, run_schedule, entering, add_error_to, add_failure_to,
}
use consensus_proxy.Balancer.Errors.Concurrent.Threads.{
  Some, counted, WillDemote, WillFilter, Stepped, head, later, Stepped-counted, Stepped-length,
  Stepped-room, Stepped-Some, Stepped-IsServerError, IsServerError,
}
use consensus_proxy.Balancer.Errors.Concurrent.Keeping.{
  IsGone, Invariant, Keeps-IsDemoted, Keeps-Invariant, modify-Keeps, same-Keeps, filter-Keeps,
}

inc_small : (n m : ℕ) → m ≡ n + 1 → m < int64_end → inc_int64 (pos n) ≡ pos m
inc_small n m e h = ground arith

module _ (p e t : ℕ) where
  add_error-Invariant :
      (status : ℕ) (xs ys : List Thread) (lb : LoadBalancer)
      → let a : Thread = record { next = add_error; status = status } in
        let b : Thread = record { next = add_failure; status = status } in
        Stepped a b xs ys → Invariant p e t xs lb → Invariant p e t ys (modify p add_error_to lb)
  add_error-Invariant status xs ys lb s v =
      let one_more : counted ys ≡ counted xs + 1 = omega (arith, Stepped-counted s) in
      record {
        errors =
            rw (==_refl p, v.errors)
              (inc_small (e + counted xs) (e + counted ys) (omega (arith, one_more))
                (omega (arith, one_more, v.room, Stepped-room s refl)));
        threshold = v.threshold;
        some_node = v.some_node;
        server_errors = (Stepped-IsServerError s (λ h. h) v.server_errors).1;
        room = rw (Stepped-length s) v.room;
        pending = λ first enough. Stepped-Some (WillDemote t) s tt;
        demoted =
            Keeps-IsDemoted p e t s (modify-Keeps p e t _ lb add_error_to refl refl (λ h. h))
              v.demoted;
      }

  store_priority-Invariant :
      (status : ℕ) (xs ys : List Thread) (lb : LoadBalancer)
      → let a : Thread = record { next = store_priority; status = status } in
        let b : Thread = record { next = filter_healthy; status = status } in
        Stepped a b xs ys
        → Invariant p e t xs lb
        → Invariant p e t ys (modify p (set_priority (length lb.nodes)) lb)
  store_priority-Invariant status xs ys lb s v =
      let same : counted ys ≡ counted xs = omega (arith, Stepped-counted s) in
      record {
        errors = rw (==_refl p, same) v.errors;
        threshold = v.threshold;
        some_node = v.some_node;
        server_errors = (Stepped-IsServerError s (λ h. h) v.server_errors).1;
        room = rw (Stepped-length s) v.room;
        pending = λ first enough. absurd (omega (arith, v.some_node, rw (==_refl p) at first));
        demoted = inr (rw (==_refl p) refl, inr (Stepped-Some WillFilter s tt));
      }

  abbrev demotes : LoadBalancer → ℤ → Bool
  demotes lb n = is_primary (lb.heap p) && leb_ℤ lb.config.failover.error_threshold n

  demotes-over :
      (lb : LoadBalancer) (n : ℤ) (m : ℕ)
      → (lb.heap p).priority ≡ 0
      → lb.config.failover.error_threshold ≡ pos t
      → n ≡ pos m
      → t ≤ m
      → demotes lb n ≡ true
  demotes-over lb n m first threshold same over = rw (threshold, same, first) (ground (arith, over))

  test-Invariant :
      (status : ℕ) (n : ℤ) (xs ys : List Thread) (lb : LoadBalancer) (r : Next × LoadBalancer)
      → r ≡ (if demotes lb n then (store_priority, lb) else (report_failover, lb))
      → let a : Thread = record { next = test_primary n; status = status } in
        let b : Thread = record { next = r.0; status = status } in
        Stepped a b xs ys → Invariant p e t xs lb → Invariant p e t ys r.1
  test-Invariant status n xs ys lb r is_next s v = elim (Bool-cases (demotes lb n)) [
    | inl over ↦
        let taken : r ≡ (store_priority, lb) = is_next ∙ rw over refl in
        subst Preserved (sym taken)
          (λ s'.
            Keeps-Invariant p e t s' refl (same-Keeps p e t _ lb lb.metrics (λ h. h)) refl refl
              (λ _ _ h. tt) v)
          s
    | inr under ↦
        let taken : r ≡ (report_failover, lb) = is_next ∙ rw under refl in
        subst Preserved (sym taken)
          (λ s'.
            Keeps-Invariant p e t s' refl (same-Keeps p e t _ lb lb.metrics (λ h. h)) refl refl
              (λ first _ (m, same, enough).
                absurd (not_both (sym (demotes-over lb n m first v.threshold same enough) ∙ under)))
              v)
          s
  ]
    where
      Preserved : Next × LoadBalancer → Type 0
      Preserved (next, lb') =
          Stepped (record { next = test_primary n; status = status })
            (record { next = next; status = status }) xs ys
          → Invariant p e t ys lb'

  -- The thread of a server error goes on to count it.
  status-Invariant :
      (status : ℕ) (xs ys : List Thread) (lb : LoadBalancer) (r : Next × LoadBalancer)
      → r ≡ (if leb 500 status then (add_error, lb) else (report_failover, lb))
      → let a : Thread = record { next = test_status; status = status } in
        let b : Thread = record { next = r.0; status = status } in
        Stepped a b xs ys → Invariant p e t xs lb → Invariant p e t ys r.1
  status-Invariant status xs ys lb r is_next s v =
      let server : 500 ≤ status = (Stepped-IsServerError s (λ h. h) v.server_errors).0 in
      let taken : r ≡ (add_error, lb) = is_next ∙ rw (le→leb 500 status server) refl in
      subst Preserved (sym taken)
        (λ s'.
          Keeps-Invariant p e t s' refl (same-Keeps p e t _ lb lb.metrics (λ h. h)) refl refl
            (λ _ _ h. h) v)
        s
    where
      Preserved : Next × LoadBalancer → Type 0
      Preserved (next, lb') =
          Stepped (record { next = test_status; status = status })
            (record { next = next; status = status }) xs ys
          → Invariant p e t ys lb'

  pub micro-Invariant :
      (status : ℕ) (next : Next) (xs ys : List Thread) (lb : LoadBalancer)
      → let a : Thread = record { next = next; status = status } in
        let (next', lb') = micro p status next lb in
        let b : Thread = record { next = next'; status = status } in
        Stepped a b xs ys → Invariant p e t xs lb → Invariant p e t ys lb'
  unfolding micro
  micro-Invariant status test_status xs ys lb s v =
      status-Invariant status xs ys lb (micro p status test_status lb) refl s v
  micro-Invariant status add_error xs ys lb s v = add_error-Invariant status xs ys lb s v
  micro-Invariant status add_failure xs ys lb s v =
      Keeps-Invariant p e t s refl (modify-Keeps p e t _ lb add_failure_to refl refl (λ h. h)) refl
        (rw (==_refl p) refl) (λ _ _ h. tt) v
  micro-Invariant status store_successes xs ys lb s v =
      Keeps-Invariant p e t s refl (modify-Keeps p e t _ lb reset_successes refl refl (λ h. h)) refl
        (rw (==_refl p) refl) (λ _ _ h. tt) v
  micro-Invariant status load_errors xs ys lb s v =
      Keeps-Invariant p e t s refl (same-Keeps p e t _ lb lb.metrics (λ h. h)) refl refl
        (λ _ enough h. (e + counted xs, v.errors, enough)) v
  micro-Invariant status (test_primary n) xs ys lb s v =
      test-Invariant status n xs ys lb (micro p status (test_primary n) lb) refl s v
  micro-Invariant status store_priority xs ys lb s v = store_priority-Invariant status xs ys lb s v
  micro-Invariant status filter_healthy xs ys lb s v =
      Keeps-Invariant p e t s refl (filter-Keeps p e t _ lb) refl refl (λ _ _ h. h) v
  micro-Invariant status report_demotion xs ys lb s v =
      Keeps-Invariant p e t s refl (same-Keeps p e t _ lb _ (λ h. h)) refl refl (λ _ _ h. h) v
  micro-Invariant status report_failover xs ys lb s v =
      Keeps-Invariant p e t s refl (same-Keeps p e t _ lb _ (λ h. h)) refl refl (λ _ _ h. h) v
  micro-Invariant status returned xs ys lb s v =
      Keeps-Invariant p e t s refl (same-Keeps p e t _ lb lb.metrics (λ h. h)) refl refl
        (λ _ _ h. h) v

  step_at-cases :
      (i : ℕ) (xs : List Thread) (lb : LoadBalancer)
      → let s = step_at p i xs lb in
        ((s.threads ≡ xs) × (s.balancer ≡ lb))
        ⊎ ((a : Thread) × Stepped a (step_thread p a lb).0 xs s.threads
            × (s.balancer ≡ (step_thread p a lb).1))
  unfolding step_at
  step_at-cases i [] lb = inl (refl, refl)
  step_at-cases zero (x ∷ xs) lb = inr (x, head, refl)
  step_at-cases (suc i) (x ∷ xs) lb = elim (step_at-cases i xs lb) [
    | inl (same, kept) ↦ inl (ap (◌∷◌ x) same, kept)
    | inr (a, s, done) ↦ inr (a, later x s, done)
  ]

  step_at-Invariant :
      (i : ℕ) (xs : List Thread) (lb : LoadBalancer)
      → Invariant p e t xs lb
      → let s = step_at p i xs lb in
        Invariant p e t s.threads s.balancer × (length s.threads ≡ length xs)
  step_at-Invariant i xs lb v = elim (step_at-cases i xs lb) [
    | inl (same, kept) ↦ (
      subst (λ ys. Invariant p e t ys (step_at p i xs lb).balancer) (sym same)
          (subst (Invariant p e t xs) (sym kept) v),
      ap length same,
    )
    | inr (a, s, done) ↦ (
      subst (Invariant p e t (step_at p i xs lb).threads) (sym done)
          (micro-Invariant a.status a.next xs (step_at p i xs lb).threads lb s v),
      Stepped-length s,
    )
  ]

  run_schedule-Invariant :
      (is : List ℕ) (s : Shared)
      → Invariant p e t s.threads s.balancer
      → let s' = run_schedule p is s in
        Invariant p e t s'.threads s'.balancer × (length s'.threads ≡ length s.threads)
  unfolding run_schedule
  run_schedule-Invariant [] s v = (v, refl)
  run_schedule-Invariant (i ∷ is) s v =
      let (v', same) = step_at-Invariant i s.threads s.balancer v in
      let (v'', same') = run_schedule-Invariant is (step_at p i s.threads s.balancer) v' in
      (v'', same' ∙ same)

abbrev pub HasReturned : Thread → Type 0
HasReturned thread = thread.next ≡ returned

returned-counted : (xs : List Thread) → All HasReturned xs → counted xs ≡ length xs
returned-counted [] h = refl
returned-counted (x ∷ xs) (r, h) = rw r (omega (arith, returned-counted xs h))

none_left :
    (P : Next → Type 0) (xs : List Thread) → (P returned → ⊥) → All HasReturned xs → Some P xs → ⊥
none_left P [] done h k = absurd k
none_left P (x ∷ xs) done (r, h) (inl k) = done (subst P r k)
none_left P (x ∷ xs) done (r, h) (inr k) = none_left P xs done h k

pub length-entering : (ss : List ℕ) → length (entering ss) ≡ length ss
length-entering [] = refl
length-entering (s ∷ ss) = ap suc (length-entering ss)

counted-entering : (ss : List ℕ) → counted (entering ss) ≡ 0
counted-entering [] = refl
counted-entering (s ∷ ss) = omega (arith, counted-entering ss)

entering-IsServerError : (ss : List ℕ) → All (λ s. 500 ≤ s) ss → All IsServerError (entering ss)
entering-IsServerError [] h = tt
entering-IsServerError (s ∷ ss) (h, hs) = (h, entering-IsServerError ss hs)

-- However the steps of requests interleave that got server errors of a primary under its threshold:
-- when all have returned, and their errors reach the threshold with those that it had before, the
-- node has the number of nodes as its priority, and no healthy node has its name. Between the steps
-- there is no success and no round of checks, and the errors fit an `int64`.
pub run_schedule-demoted :
    (p e t : ℕ) (statuses schedule : List ℕ) (lb : LoadBalancer)
    → Counts p e t lb
    → 1 ≤ length lb.nodes
    → All (λ s. 500 ≤ s) statuses
    → e < t
    → t ≤ e + length statuses
    → e + length statuses < int64_end
    → All HasReturned
        (run_schedule p schedule (record { threads = entering statuses; balancer = lb })).threads
    → let lb' =
        (run_schedule p schedule
          (record { threads = entering statuses; balancer = lb })).balancer in
      ((lb'.heap p).priority ≡ length lb'.nodes) × IsGone p lb'
run_schedule-demoted p e t statuses schedule lb c some_node server under enough room done =
    let start : Shared = record { threads = entering statuses; balancer = lb } in
    let (v, same) = run_schedule-Invariant p e t schedule start (begin) in
    let all = returned-counted (run_schedule p schedule start).threads done in
    elim v.demoted [
      | inl first ↦ absurd (
          none_left (WillDemote t) _ (λ k. k) done
            (v.pending first (omega (arith, all, same, length-entering statuses, enough))))
      | inr (last, inl gone) ↦ (last, gone)
      | inr (last, inr filter) ↦ absurd (none_left WillFilter _ (λ k. k) done filter)
    ]
  where
    begin : Invariant p e t (entering statuses) lb
    begin = record {
      errors = c.errors ∙ ap pos (omega (arith, counted-entering statuses));
      threshold = c.threshold;
      some_node = some_node;
      server_errors = entering-IsServerError statuses server;
      room = omega (arith, room, length-entering statuses);
      pending = λ first over. absurd (omega (arith, over, counted-entering statuses, under));
      demoted = inl c.primary;
    }
