-- ===== src/Balancer/Reach/Forgetting.antt =====
-- cmd/loadbalancer: a balancer whose original primary did not pass the startup check.
use consensus_proxy.Base.{
  not_both, ℕ, ◌<◌, String, Bool, false, List, length, Elem, Distinct, Reorders,
  Elem-of_Elem-select, subst, ◌≡◌, sym, ap, ◌∙◌, arith,
}
use consensus_proxy.Node.{BeaconNode, is_backup}
use consensus_proxy.Node.Sync.{SyncReply}
use consensus_proxy.Validator.{BeaconEndpointValidator}
use consensus_proxy.Config.{Config, get_all_nodes}
use consensus_proxy.Config.Loading.Laws.{names_of}
use consensus_proxy.Balancer.{LoadBalancer, new, ok}
use consensus_proxy.Balancer.Health.{backup_nodes}
use consensus_proxy.Balancer.Creation.{new-IsFresh}
use consensus_proxy.Balancer.Creation.Names.{new-NamesDiffer}
use consensus_proxy.Balancer.WellFormed.{max_int, IsWellFormed, IsKept-IsWellFormed}
use consensus_proxy.Balancer.Settled.{
  NamesDiffer, IsKept-NamesDiffer, IsForgotten, IsKept-IsForgotten,
}
use consensus_proxy.Balancer.Serve.Laws.{serve_http-IsKept, serve_http_aside}
use consensus_proxy.Balancer.Health.Forgetting.{perform_health_check-IsForgotten}
use consensus_proxy.Balancer.Startup.{startup_health_check}
use consensus_proxy.Balancer.Startup.Laws.{synced, startup_frame, startup_health_check_healthy}
use consensus_proxy.Balancer.Reach.{
  Step, request, round, Reach, here, next, startup-IsKept, Reach-IsWellFormed,
}

Step-IsForgotten :
    {v : BeaconEndpointValidator} {a b : LoadBalancer} (p : ℕ)
    → IsWellFormed a
    → NamesDiffer a
    → IsForgotten p a
    → Step v a b
    → IsForgotten p b
Step-IsForgotten {v} {a} p wf differ f (request r w) =
    let (kept, sub) = serve_http-IsKept v r a w in
    IsKept-IsForgotten kept (serve_http_aside v r p a w f.unhealthy ∙ f.primary)
      (λ e. f.unhealthy (sub p e)) f
Step-IsForgotten {v} {a} p wf differ f (round arrival reply order) =
    perform_health_check-IsForgotten arrival reply order a wf differ p f

pub Reach-IsForgotten :
    {v : BeaconEndpointValidator} {a b : LoadBalancer} (p : ℕ)
    → IsWellFormed a
    → NamesDiffer a
    → IsForgotten p a
    → Reach v a b
    → IsForgotten p b
Reach-IsForgotten p wf differ f here = f
Reach-IsForgotten p wf differ f (next r step) =
    let (kept, wf') = Reach-IsWellFormed wf r in
    Step-IsForgotten p wf' (IsKept-NamesDiffer kept differ) (Reach-IsForgotten p wf differ f r) step

-- The bug: in a new balancer of fewer than 2^63 - 1 configurations whose names differ, an original
-- primary that does not pass the startup check is not among the healthy nodes after any history of
-- requests and rounds of checks, whatever it answers in them. It keeps the priority 0, with which
-- no round checks it.
pub Reach-forgets :
    (url_parses : String → Bool) (now : ℕ) (blank : BeaconNode) (cfg : Config)
    (arrival : List ℕ → List ℕ) (reply : ℕ → SyncReply) (v : BeaconEndpointValidator)
    {lb lb' : LoadBalancer} (p : ℕ)
    → length (get_all_nodes cfg) < max_int
    → Distinct (names_of (get_all_nodes cfg))
    → new url_parses now blank cfg ≡ ok lb
    → Reorders arrival
    → Elem p lb.nodes
    → (lb.heap p).original_priority ≡ 0
    → synced reply p ≡ false
    → Reach v (startup_health_check arrival reply lb).0 lb'
    → (¬ Elem p lb'.healthy_nodes) × (¬ Elem p (backup_nodes lb')) × ((lb'.heap p).priority ≡ 0)
Reach-forgets url_parses now blank cfg arrival reply v {lb} {lb'} p small once made order node
      original bad history =
    let fresh = new-IsFresh url_parses now blank cfg lb small made in
    let differ = new-NamesDiffer url_parses now blank cfg lb once made in
    let kept = startup-IsKept arrival reply lb in
    let member = λ (q : ℕ). ((startup_health_check_healthy arrival reply lb order).0 q).0 in
    let wf = IsKept-IsWellFormed kept (λ q e. (member q e).0) fresh.well_formed in
    let start : IsForgotten p (startup_health_check arrival reply lb).0 = record {
      listed = subst (Elem p) (sym kept.nodes) node;
      original = kept.originals p ∙ original;
      primary =
          ap (λ (f : ℕ → BeaconNode). (f p).priority) (startup_frame arrival reply lb).0
          ∙ (fresh.ranks p node).0
          ∙ sym (fresh.ranks p node).1
          ∙ original;
      unhealthy = λ e. not_both (sym (member p e).1 ∙ bad);
    } in
    let after = Reach-IsForgotten p wf (IsKept-NamesDiffer kept differ) start history in
    (after.unhealthy, unchecked after.primary, after.primary)
  where
    unchecked : (lb'.heap p).priority ≡ 0 → ¬ Elem p (backup_nodes lb')
    unchecked primary e =
        let (_, positive) = Elem-of_Elem-select (λ q. is_backup (lb'.heap q)) p lb'.nodes e in
        ground (arith, positive, primary)
