-- ===== src/Balancer/Tests/Health.antt =====
-- Rounds of periodic checks on two nodes: cmd/loadbalancer/health_check.go.
use consensus_proxy.Base.{
  List, ◌++◌, select, ◌⊎◌, ℕ, true, false, [], ◌∷◌, eq_iff, pos, if◌then◌else◌, Elem, Distinct, ◌≡◌,
  refl, ◌↔◌, inl, arith, ◌==◌,
}
use consensus_proxy.Balancer.WellFormed.{IsWellFormed}
use consensus_proxy.Balancer.Health.{perform_health_check, backup_nodes}
use consensus_proxy.Balancer.Health.Collecting.{passes}
use consensus_proxy.Balancer.Health.Laws.{
  perform_health_check_healthy, perform_health_check_primary,
}
use consensus_proxy.Balancer.Health.Failback.{perform_health_check_failback}
use consensus_proxy.Balancer.Health.Arriving.{perform_health_check_order}
use consensus_proxy.Balancer.Errors.{name_of}
use consensus_proxy.Balancer.Health.Repeated.{perform_health_check_repeats}
use consensus_proxy.Balancer.Health.Stranded.{perform_health_check_strands}
use consensus_proxy.Balancer.{LoadBalancer}
use consensus_proxy.Balancer.Tests.{
  node_at, two_nodes, failed_over, synced_reply, in_order, in_order-Reorders, swapped,
  synced_reply-passes,
}

two_nodes-IsWellFormed : IsWellFormed two_nodes
two_nodes-IsWellFormed = record {
  distinct = ground arith;
  listed = λ q e. e;
  bounded = λ q e. ground arith;
  ranked = λ q r e f same. ground arith;
}

failed_over-IsWellFormed : IsWellFormed failed_over
failed_over-IsWellFormed = record {
  distinct = ground arith;
  listed = λ q e. ground arith;
  bounded = λ q e. ground arith;
  ranked = λ q r e f same. ground arith;
}

healthy_example :
    Elem 1 (perform_health_check in_order synced_reply two_nodes).healthy_nodes
    ↔ (passes synced_reply 1 ≡ true)
healthy_example =
    perform_health_check_healthy in_order synced_reply two_nodes in_order-Reorders 1 (inl refl)

primary_example :
    (p : ℕ) × Elem p two_nodes.nodes
    × (((perform_health_check in_order synced_reply two_nodes).heap p).priority ≡ 0)
primary_example =
    perform_health_check_primary in_order synced_reply two_nodes in_order-Reorders 1
      two_nodes-IsWellFormed (inl refl) (synced_reply-passes 1)

strands_example :
    let lb' = perform_health_check in_order synced_reply failed_over in
    ((lb'.heap 0).priority ≡ 0)
    × ((lb'.heap 1).priority ≡ 0)
    × (¬ Elem 1 lb'.healthy_nodes)
    × (¬ Elem 1 (backup_nodes lb'))
strands_example =
    perform_health_check_strands in_order synced_reply in_order-Reorders failed_over
      failed_over-IsWellFormed 0 (1 ∷ []) refl refl (inl refl) (synced_reply-passes 0) refl 1 refl

-- Two backups, of which the second answers first.
abbrev three_nodes : LoadBalancer
three_nodes = record two_nodes {
  heap =
      λ p. if p == 0 then node_at 0 "a" 0 else if p == 1 then node_at 1 "b" 1 else node_at 2 "c" 2;
  nodes = 0 ∷ 1 ∷ 2 ∷ [];
  healthy_nodes = 0 ∷ 1 ∷ 2 ∷ [];
}

arriving_example :
    let lb' = perform_health_check swapped synced_reply three_nodes in
    (kept : List ℕ) × (lb'.healthy_nodes
      ≡ kept ++ select (passes synced_reply) (swapped (backup_nodes three_nodes)))
    × ((kept ≡ [])
        ⊎ ((p : ℕ) × (kept ≡ p ∷ [])
            × ((lb'.heap p).priority ≡ 0)
            × ((s : ℕ) × Elem s three_nodes.healthy_nodes
                × (name_of three_nodes s ≡ name_of three_nodes p))))
arriving_example = perform_health_check_order swapped synced_reply three_nodes 1 (inl refl)

-- The balancer after a failover, with one name for both nodes.
abbrev same_names : LoadBalancer
same_names = record failed_over { heap = λ p. if p == 0 then node_at 0 "a" 2 else node_at 1 "a" 0 }

same_names-IsWellFormed : IsWellFormed same_names
same_names-IsWellFormed = record {
  distinct = ground arith;
  listed = λ q e. ground arith;
  bounded = λ q e. ground arith;
  ranked = λ q r e f same. ground arith;
}

repeats_example : ¬ Distinct (perform_health_check in_order synced_reply same_names).healthy_nodes
repeats_example =
    perform_health_check_repeats in_order synced_reply in_order-Reorders same_names
      same_names-IsWellFormed 0 (1 ∷ []) refl refl (inl refl) (synced_reply-passes 0) 1 (inl refl)
      refl

-- The original primary needs one more passed check.
abbrev nearly_back : LoadBalancer
nearly_back = record failed_over {
  heap = λ p.
      if p == 0
      then record (node_at 0 "a" 2) { consecutive_successes = pos 2 }
      else node_at 1 "b" 0;
}

nearly_back-IsWellFormed : IsWellFormed nearly_back
nearly_back-IsWellFormed = record {
  distinct = ground arith;
  listed = λ q e. ground arith;
  bounded = λ q e. ground arith;
  ranked = λ q r e f same. ground arith;
}

different : false ≡ true → ⊥
different h = cc

failback_example :
    let lb' = perform_health_check in_order synced_reply nearly_back in
    ((lb'.heap 0).priority ≡ 0)
    × Elem 0 lb'.healthy_nodes
    × ((lb'.heap 1).priority ≡ 1)
    × Elem 1 (backup_nodes lb')
failback_example =
    perform_health_check_failback in_order synced_reply in_order-Reorders nearly_back
      nearly_back-IsWellFormed 0 refl (inl refl) (synced_reply-passes 0) 1 refl refl
      (λ e. different ((eq_iff "b" "a").1 e))
