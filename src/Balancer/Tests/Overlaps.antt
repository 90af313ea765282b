-- ===== src/Balancer/Tests/Overlaps.antt =====
-- Two requests that handle a server error of the primary at once: cmd/loadbalancer/http_handler.go.
use consensus_proxy.Base.{
  ℕ, zero, suc, ◌<◌, ◌≤◌, List, [], ◌∷◌, pos, if◌then◌else◌, length, ◌≡◌, refl, arith, ◌==◌,
}
use consensus_proxy.Balancer.{LoadBalancer}
use consensus_proxy.Balancer.Errors.Threshold.{Counts}
use consensus_proxy.Balancer.Errors.Concurrent.{run_schedule, entering}
use consensus_proxy.Balancer.Errors.Concurrent.Keeping.{IsGone}
use consensus_proxy.Balancer.Errors.Concurrent.Progress.{occurrences, run_schedule-demotes}
use consensus_proxy.Balancer.Tests.{two_nodes, node_at}

-- Three errors of five, and two more on their way.
abbrev three_errors : LoadBalancer
three_errors = record two_nodes {
  heap = λ p.
      if p == 0 then record (node_at 0 "a" 0) { consecutive_errors = pos 3 } else node_at 1 "b" 1;
}

three_errors-Counts : Counts 0 3 5 three_errors
three_errors-Counts = record {
  primary = refl;
  errors = refl;
  threshold = refl;
  small = ground arith;
}

-- The two take turns.
abbrev turns : ℕ → List ℕ
turns zero = []
turns (suc n) = 0 ∷ 1 ∷ turns n

abbrev statuses : List ℕ
statuses = 500 ∷ 503 ∷ []

fair_turns : (i : ℕ) → i < length statuses → 10 ≤ occurrences i (turns 10)
fair_turns zero h = ground arith
fair_turns (suc zero) h = ground arith
fair_turns (suc (suc i)) h = absurd (ground (arith, h))

overlap_example :
    let lb' =
      (run_schedule 0
        (turns 10)
        (record { threads = entering statuses; balancer = three_errors })).balancer in
    ((lb'.heap 0).priority ≡ length lb'.nodes) × IsGone 0 lb'
overlap_example =
    run_schedule-demotes 0 3 5 statuses (turns 10) three_errors three_errors-Counts (ground arith)
      (ground arith) (ground arith) (ground arith) (ground arith) fair_turns
