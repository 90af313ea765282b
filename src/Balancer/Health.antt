-- ===== src/Balancer/Health.antt =====
-- cmd/loadbalancer/health_check.go: the periodic health check. The checks of the backup nodes run
-- concurrently and their results arrive in any order: `arrival` orders them, and `reply` is what
-- each node's syncing endpoint answers. The rest runs under the balancer's lock.
pub mod Collecting
pub mod Committing
pub mod Guarantees
pub mod Laws
pub mod Settling
pub mod Failback
pub mod Stranded
pub mod Repeated
pub mod Arriving
pub mod Forgetting
pub mod Promoting
use consensus_proxy.Base.{
  ℕ, ◌+◌, String, Bool, false, not, List, [], ◌∷◌, ◌++◌, str_eq, ltb, leb_ℤ, if◌then◌else◌, length,
  select, find_first, exists, ◌==◌, Option, none, some, ◌&&◌, ◌||◌,
}
use consensus_proxy.Node.{
  increment_success, reset_successes, reset_errors, set_priority, get_priority,
  get_consecutive_successes, is_primary, is_backup,
}
use consensus_proxy.Node.Sync.{SyncReply, HealthCheckError, health_check}
use consensus_proxy.Balancer.{
  LoadBalancer, Metric, Tag, modify, emit, incr, gauge, text, number, flag,
}
use consensus_proxy.Balancer.Errors.{name_of}
use consensus_proxy.Balancer.WellFormed.{max_int}

abbrev pub node_tag : LoadBalancer → ℕ → Tag
node_tag lb p = ("node", text (name_of lb p))

-- The `switch` on the reason of a failed check.
unfoldable pub failure_metric : Tag → HealthCheckError → Metric
failure_metric node e =
    let failed =
      λ (reason : String). incr "healthcheck.failed" (node ∷ ("reason", text reason) ∷ []) in
    if str_eq e.reason "request_failed"
    then failed "request_failed"
    else if str_eq e.reason "non_200_status"
    then incr "healthcheck.failed"
        (node ∷ ("reason", text "non_200_status") ∷ ("status_code", number e.status_code) ∷ [])
    else if str_eq e.reason "read_body_failed"
    then failed "read_body_failed"
    else if str_eq e.reason "json_parse_failed"
    then failed "json_parse_failed"
    else if str_eq e.reason "is_syncing"
        || (str_eq e.reason "sync_distance_not_zero" || str_eq e.reason "not_synced")
    then incr "healthcheck.not_synced" (
        node
        ∷ ("reason", text e.reason)
        ∷ ("is_syncing", flag e.is_syncing)
        ∷ ("sync_distance", text e.sync_distance)
        ∷ [])
    else failed "unknown"

-- The state of the loop that collects the results.
pub record Collected : Type 0 where
  pub balancer : LoadBalancer
  pub new_healthy_backups : List ℕ
  pub unhealthy_backup_count : ℕ

-- A node that passed its check.
pub mark_healthy : ℕ → LoadBalancer → LoadBalancer
mark_healthy p lb =
    let lb' = modify p reset_errors (modify p increment_success lb) in
    emit (incr "healthcheck.success" (node_tag lb' p ∷ [])) lb'

-- A node that failed it. `HealthCheck` gives an error with every failure.
pub mark_unhealthy : ℕ → Option HealthCheckError → LoadBalancer → LoadBalancer
unfolding failure_metric
mark_unhealthy p none lb = modify p reset_successes lb
mark_unhealthy p (some e) lb =
    let lb' = modify p reset_successes lb in emit (failure_metric (node_tag lb' p) e) lb'

pub collect_result : (ℕ → SyncReply) → Collected → ℕ → Collected
unfolding mark_healthy mark_unhealthy
collect_result reply c p =
    let (passed, e) = health_check (reply p) in
    if passed
    then record {
      balancer = mark_healthy p c.balancer;
      new_healthy_backups = c.new_healthy_backups ++ p ∷ [];
      unhealthy_backup_count = c.unhealthy_backup_count;
    }
    else record {
      balancer = mark_unhealthy p e c.balancer;
      new_healthy_backups = c.new_healthy_backups;
      unhealthy_backup_count = c.unhealthy_backup_count + 1;
    }

pub collect_results : (ℕ → SyncReply) → Collected → List ℕ → Collected
collect_results reply c [] = c
collect_results reply c (p ∷ ps) = collect_results reply (collect_result reply c p) ps

-- The first of these nodes whose original priority is 0.
abbrev pub find_original_primary : LoadBalancer → List ℕ → Option ℕ
find_original_primary lb = find_first (λ p. (lb.heap p).original_priority == 0)

-- The first node whose priority is 0.
abbrev pub find_primary : LoadBalancer → Option ℕ
find_primary lb = find_first (λ p. is_primary (lb.heap p)) lb.nodes

pub should_failback : LoadBalancer → Option ℕ → Bool
should_failback lb none = false
should_failback lb (some p) =
    leb_ℤ lb.config.health_check.successful_checks_for_failback
      (get_consecutive_successes (lb.heap p))

-- The failback itself: the original primary gets the priority 0, the current one its own.
pub failback : ℕ → ℕ → LoadBalancer → LoadBalancer
failback original current lb =
    let lb₁ = modify original reset_errors (modify original (set_priority 0) lb) in
    let lb₂ = modify current (set_priority (lb₁.heap current).original_priority) lb₁ in
    emit (incr "node.failback_to_original_primary" (node_tag lb₂ original ∷ [])) lb₂

pub perform_failback : Option ℕ → Option ℕ → LoadBalancer → LoadBalancer
unfolding should_failback failback
perform_failback none current lb = lb
perform_failback (some original) none lb = lb
perform_failback (some original) (some current) lb =
    if should_failback lb (some original) && not (str_eq (name_of lb current) (name_of lb original))
    then failback original current lb
    else lb

-- One round of the loop that restores the original priorities.
pub restore_priority : ℕ → LoadBalancer → LoadBalancer
restore_priority p lb =
    let n = lb.heap p in
    if get_priority n == n.original_priority
    then lb
    else modify p (set_priority n.original_priority) lb

pub restore_priorities : List ℕ → LoadBalancer → LoadBalancer
restore_priorities [] lb = lb
restore_priorities (p ∷ ps) lb = restore_priorities ps (restore_priority p lb)

-- The current primary, if the healthy list so far has a node of its name.
pub keep_primary : LoadBalancer → Option ℕ → List ℕ
keep_primary lb none = []
keep_primary lb (some p) =
    if exists (λ q. str_eq (name_of lb q) (name_of lb p)) lb.healthy_nodes then p ∷ [] else []

-- The search for the lowest positive priority, with the lowest one so far and its node.
pub lowest_backup : LoadBalancer → List ℕ → ℕ → Option ℕ → Option ℕ
lowest_backup lb [] lowest found = found
lowest_backup lb (p ∷ ps) lowest found =
    let n = get_priority (lb.heap p) in
    let better = ltb n lowest && ltb 0 n in
    lowest_backup lb ps (if better then n else lowest) (if better then some p else found)

pub node_to_promote : LoadBalancer → List ℕ → Option ℕ
unfolding lowest_backup
node_to_promote lb backups = elim (find_original_primary lb backups) [
  | none ↦ lowest_backup lb backups max_int none
  | some p ↦ some p
]

pub promote : Option ℕ → LoadBalancer → LoadBalancer
promote none lb = lb
promote (some p) lb =
    let lb' = modify p reset_errors (modify p (set_priority 0) lb) in
    emit (incr "node.backup_promoted" (node_tag lb' p ∷ [])) lb'

-- The promotion of a backup where there is no primary.
pub promote_if_none : Option ℕ → List ℕ → LoadBalancer → LoadBalancer
unfolding promote node_to_promote
promote_if_none (some primary) backups lb = lb
promote_if_none none backups lb = promote (node_to_promote lb backups) lb

-- What runs under the lock, once all results are there.
pub commit : List ℕ → LoadBalancer → LoadBalancer
unfolding perform_failback restore_priorities restore_priority keep_primary promote_if_none
commit backups lb =
    let lb₁ = perform_failback (find_original_primary lb backups) (find_primary lb) lb in
    let lb₂ = restore_priorities backups lb₁ in
    let primary = find_primary lb₂ in
    let kept = keep_primary lb₂ primary in
    let lb₃ = promote_if_none primary backups lb₂ in record lb₃ { healthy_nodes = kept ++ backups }

abbrev pub backup_nodes : LoadBalancer → List ℕ
backup_nodes lb = select (λ p. is_backup (lb.heap p)) lb.nodes

-- The results of this round of checks.
pub collected : (List ℕ → List ℕ) → (ℕ → SyncReply) → LoadBalancer → Collected
unfolding collect_results collect_result
collected arrival reply lb =
    collect_results reply
      (record { balancer = lb; new_healthy_backups = []; unhealthy_backup_count = 0 })
      (arrival (backup_nodes lb))

-- `performHealthCheck`
pub perform_health_check : (List ℕ → List ℕ) → (ℕ → SyncReply) → LoadBalancer → LoadBalancer
unfolding commit collected
perform_health_check arrival reply lb =
    let c = collected arrival reply lb in
    if length (backup_nodes lb) == 0
    then lb
    else emit (gauge "loadbalancer.unhealthy_backup_nodes" c.unhealthy_backup_count []) (
        emit (gauge "loadbalancer.healthy_backup_nodes" (length c.new_healthy_backups) [])
          (commit c.new_healthy_backups c.balancer))
