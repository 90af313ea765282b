-- ===== src/Balancer/Errors/Concurrent/Progress.antt =====
-- cmd/loadbalancer/http_handler.go: requests that handle server errors at once all return.
use consensus_proxy.Base.{
  not_both, ℕ, zero, suc, ◌+◌, ◌-◌, ◌<◌, ◌≤◌, false, List, [], ◌∷◌, int64_end, if◌then◌else◌,
  length, All, subst, ◌≡◌, refl, ap, ◌∙◌, inl, inr, arith, ◌==◌, Bool-cases, ==_iff,
}
use consensus_proxy.Balancer.{LoadBalancer}
use consensus_proxy.Balancer.Errors.Threshold.{Counts}
use consensus_proxy.Balancer.Errors.Concurrent.{
  Next, test_status, add_error, add_failure, store_successes, load_errors, test_primary,
  store_priority, filter_healthy, report_demotion, report_failover, returned, Thread, micro, Shared,
  step_at, run_schedule, entering,
}
use consensus_proxy.Balancer.Errors.Concurrent.Keeping.{IsGone}
use consensus_proxy.Balancer.Errors.Concurrent.Interleaving.{
  HasReturned, run_schedule-demoted, length-entering,
}

-- A bound on the steps that a thread still makes.
abbrev pub left : Next → ℕ
left test_status = 10
left add_error = 9
left add_failure = 8
left store_successes = 7
left load_errors = 6
left (test_primary n) = 5
left store_priority = 4
left filter_healthy = 3
left report_demotion = 2
left report_failover = 1
left returned = 0

micro-left :
    (p status : ℕ) (next : Next) (lb : LoadBalancer)
    → left (micro p status next lb).0 ≤ left next - 1
unfolding micro
micro-left p status test_status lb = ground arith
micro-left p status add_error lb = omega arith
micro-left p status add_failure lb = omega arith
micro-left p status store_successes lb = omega arith
micro-left p status load_errors lb = omega arith
micro-left p status (test_primary n) lb = ground arith
micro-left p status store_priority lb = omega arith
micro-left p status filter_healthy lb = omega arith
micro-left p status report_demotion lb = omega arith
micro-left p status report_failover lb = omega arith
micro-left p status returned lb = omega arith

left-zero : (next : Next) → left next ≡ 0 → next ≡ returned
left-zero test_status h = absurd (omega (arith, h))
left-zero add_error h = absurd (omega (arith, h))
left-zero add_failure h = absurd (omega (arith, h))
left-zero store_successes h = absurd (omega (arith, h))
left-zero load_errors h = absurd (omega (arith, h))
left-zero (test_primary n) h = absurd (omega (arith, h))
left-zero store_priority h = absurd (omega (arith, h))
left-zero filter_healthy h = absurd (omega (arith, h))
left-zero report_demotion h = absurd (omega (arith, h))
left-zero report_failover h = absurd (omega (arith, h))
left-zero returned h = refl

-- The steps that thread number `i` still makes, at most.
abbrev left_at : ℕ → List Thread → ℕ
left_at i [] = 0
left_at zero (x ∷ xs) = left x.next
left_at (suc i) (x ∷ xs) = left_at i xs

-- How often a schedule names a thread.
abbrev pub occurrences : ℕ → List ℕ → ℕ
occurrences i [] = 0
occurrences i (j ∷ js) = if j == i then suc (occurrences i js) else occurrences i js

step_at-left :
    (p i : ℕ) (xs : List Thread) (lb : LoadBalancer)
    → left_at i (step_at p i xs lb).threads ≤ left_at i xs - 1
unfolding step_at
step_at-left p i [] lb = omega arith
step_at-left p zero (x ∷ xs) lb = micro-left p x.status x.next lb
step_at-left p (suc i) (x ∷ xs) lb = step_at-left p i xs lb

step_at-other :
    (p i j : ℕ) (xs : List Thread) (lb : LoadBalancer)
    → (i == j) ≡ false
    → left_at j (step_at p i xs lb).threads ≡ left_at j xs
unfolding step_at
step_at-other p i j [] lb h = refl
step_at-other p zero zero (x ∷ xs) lb h = absurd (not_both h)
step_at-other p zero (suc j) (x ∷ xs) lb h = refl
step_at-other p (suc i) zero (x ∷ xs) lb h = refl
step_at-other p (suc i) (suc j) (x ∷ xs) lb h = step_at-other p i j xs lb (ground (arith, h))

run_schedule-left :
    (p j : ℕ) (is : List ℕ) (s : Shared)
    → left_at j (run_schedule p is s).threads ≤ left_at j s.threads - occurrences j is
unfolding run_schedule
run_schedule-left p j [] s = omega arith
run_schedule-left p j (i ∷ is) s =
    let rest = run_schedule-left p j is (step_at p i s.threads s.balancer) in
    elim (Bool-cases (i == j)) [
      | inl e ↦
          let one =
            subst
              (λ k. left_at k (step_at p i s.threads s.balancer).threads ≤ left_at k s.threads - 1)
              ((==_iff i j).0 e) (step_at-left p i s.threads s.balancer) in
          rw e (omega (arith, rest, one))
      | inr e ↦ rw e (omega (arith, rest, step_at-other p i j s.threads s.balancer e))
    ]

step_at-length :
    (p i : ℕ) (xs : List Thread) (lb : LoadBalancer)
    → length (step_at p i xs lb).threads ≡ length xs
unfolding step_at
step_at-length p i [] lb = refl
step_at-length p zero (x ∷ xs) lb = refl
step_at-length p (suc i) (x ∷ xs) lb = ap suc (step_at-length p i xs lb)

run_schedule-length :
    (p : ℕ) (is : List ℕ) (s : Shared) → length (run_schedule p is s).threads ≡ length s.threads
unfolding run_schedule
run_schedule-length p [] s = refl
run_schedule-length p (i ∷ is) s =
    run_schedule-length p is (step_at p i s.threads s.balancer)
    ∙ step_at-length p i s.threads s.balancer

nothing_left :
    (xs : List Thread) → ((i : ℕ) → i < length xs → left_at i xs ≡ 0) → All HasReturned xs
nothing_left [] h = tt
nothing_left (x ∷ xs) h =
    (left-zero x.next (h 0 (ground arith)), nothing_left xs (λ i k. h (suc i) (ground (arith, k))))

left_at-entering : (i : ℕ) (ss : List ℕ) → left_at i (entering ss) ≤ 10
left_at-entering i [] = omega arith
left_at-entering zero (s ∷ ss) = omega arith
left_at-entering (suc i) (s ∷ ss) = left_at-entering i ss

-- Every schedule that names each request ten times brings all of them to their end.
run_schedule-returns :
    (p : ℕ) (statuses schedule : List ℕ) (lb : LoadBalancer)
    → ((i : ℕ) → i < length statuses → 10 ≤ occurrences i schedule)
    → All HasReturned
        (run_schedule p schedule (record { threads = entering statuses; balancer = lb })).threads
run_schedule-returns p statuses schedule lb fair =
    let start : Shared = record { threads = entering statuses; balancer = lb } in
    nothing_left (run_schedule p schedule start).threads (λ i k. omega (
      arith,
      run_schedule-left p i schedule start,
      left_at-entering i statuses,
      fair i (omega (arith, k, run_schedule-length p schedule start, length-entering statuses)),
    ))

-- However the steps of requests interleave that got server errors of a primary under its threshold:
-- if each gets its ten steps, and their errors reach the threshold with those that it had before,
-- then the node has the number of nodes as its priority in the end, and no healthy node has its
-- name. Between the steps there is no success and no round of checks, and the errors fit an `int64`.
pub run_schedule-demotes :
    (p e t : ℕ) (statuses schedule : List ℕ) (lb : LoadBalancer)
    → Counts p e t lb
    → 1 ≤ length lb.nodes
    → All (λ s. 500 ≤ s) statuses
    → e < t
    → t ≤ e + length statuses
    → e + length statuses < int64_end
    → ((i : ℕ) → i < length statuses → 10 ≤ occurrences i schedule)
    → let lb' =
        (run_schedule p schedule
          (record { threads = entering statuses; balancer = lb })).balancer in
      ((lb'.heap p).priority ≡ length lb'.nodes) × IsGone p lb'
run_schedule-demotes p e t statuses schedule lb c some_node server under enough room fair =
    run_schedule-demoted p e t statuses schedule lb c some_node server under enough room
      (run_schedule-returns p statuses schedule lb fair)
