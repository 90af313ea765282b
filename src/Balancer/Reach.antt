-- ===== src/Balancer/Reach.antt =====
-- The balancer as a transition system: after the startup check, requests and rounds of checks
-- follow one another in any order, with any answers from outside.
pub mod Forgetting
use consensus_proxy.Base.{
  [], ◌∷◌, ◌++◌, Option, none, some, ℕ, ◌<◌, String, Bool, List, length, Reorders, ◌≡◌, ap,
}
use consensus_proxy.Http.{Writer}
use consensus_proxy.Node.Sync.{SyncReply}
use consensus_proxy.Validator.{BeaconEndpointValidator}
use consensus_proxy.Config.{Config, get_all_nodes}
use consensus_proxy.Node.{BeaconNode}
use consensus_proxy.Balancer.{LoadBalancer, new, ok}
use consensus_proxy.Balancer.Creation.{new-IsFresh}
use consensus_proxy.Balancer.WellFormed.{max_int}
use consensus_proxy.Balancer.Startup.Laws.{startup_frame, startup_health_check_healthy}
use consensus_proxy.Balancer.Kept.{IsKept, IsKept-refl, IsKept-trans}
use consensus_proxy.Balancer.WellFormed.{IsWellFormed, IsKept-IsWellFormed}
use consensus_proxy.Balancer.Settled.{NamesDiffer, IsSettled, IsKept-NamesDiffer, Trims-IsSettled}
use consensus_proxy.Balancer.Health.Settling.{perform_health_check-IsSettled}
use consensus_proxy.Balancer.Health.{perform_health_check}
use consensus_proxy.Balancer.Health.Laws.{perform_health_check-IsWellFormed}
use consensus_proxy.Balancer.Serve.{Request, serve_http}
use consensus_proxy.Balancer.Serve.Laws.{serve_http-IsKept, serve_http-Trims}
use consensus_proxy.Balancer.Startup.{startup_health_check}

pub data Step (v : BeaconEndpointValidator) (lb : LoadBalancer) : LoadBalancer → Type 0 where
  request : (r : Request) (w : Writer) → Step v lb (serve_http v r lb w).0
  round :
      (arrival : List ℕ → List ℕ) (reply : ℕ → SyncReply)
      → Reorders arrival
      → Step v lb (perform_health_check arrival reply lb)

pub data Reach (v : BeaconEndpointValidator) (lb : LoadBalancer) : LoadBalancer → Type 0 where
  here : Reach v lb lb
  next : {a b : LoadBalancer} → Reach v lb a → Step v a b → Reach v lb b

-- The requests and, as `none`, the rounds of a history, in order.
abbrev pub events_of :
    {v : BeaconEndpointValidator} {a b : LoadBalancer} → Reach v a b → List (Option Request)
events_of here = []
events_of (next r (request q w)) = events_of r ++ some q ∷ []
events_of (next r (round arrival reply order)) = events_of r ++ none ∷ []

Step-IsKept :
    {v : BeaconEndpointValidator} {a b : LoadBalancer}
    → IsWellFormed a
    → Step v a b
    → IsKept a b × IsWellFormed b
Step-IsKept {v} {a} wf (request r w) =
    let (kept, sub) = serve_http-IsKept v r a w in
    (kept, IsKept-IsWellFormed kept (λ q e. wf.listed q (sub q e)) wf)
Step-IsKept {v} {a} wf (round arrival reply order) =
    perform_health_check-IsWellFormed arrival reply a order wf

-- After any history the balancer is well-formed, with the same nodes, names and original
-- priorities.
pub Reach-IsWellFormed :
    {v : BeaconEndpointValidator} {a b : LoadBalancer}
    → IsWellFormed a
    → Reach v a b
    → IsKept a b × IsWellFormed b
Reach-IsWellFormed {v} {a} wf here = (IsKept-refl a, wf)
Reach-IsWellFormed wf (next r s) =
    let (kept, wf') = Reach-IsWellFormed wf r in
    let (kept', wf'') = Step-IsKept wf' s in (IsKept-trans kept kept', wf'')

-- The startup check changes nothing but the healthy nodes.
pub startup-IsKept :
    (arrival : List ℕ → List ℕ) (reply : ℕ → SyncReply) (lb : LoadBalancer)
    → IsKept lb (startup_health_check arrival reply lb).0
startup-IsKept arrival reply lb =
    let same = startup_frame arrival reply lb in
    record {
      names = λ q. ap (λ (f : ℕ → BeaconNode). (f q).name) same.0;
      originals = λ q. ap (λ (f : ℕ → BeaconNode). (f q).original_priority) same.0;
      nodes = same.1;
      config = same.2;
    }

-- A balancer that `New` returns for fewer than 2^63 - 1 configurations, after the startup check and
-- any history of requests and rounds of checks, is well-formed, and its nodes, names, original
-- priorities and configuration are those of its creation.
pub Reach-from_new :
    (url_parses : String → Bool) (now : ℕ) (blank : BeaconNode) (cfg : Config)
    (arrival : List ℕ → List ℕ) (reply : ℕ → SyncReply) (v : BeaconEndpointValidator)
    {lb lb' : LoadBalancer}
    → length (get_all_nodes cfg) < max_int
    → new url_parses now blank cfg ≡ ok lb
    → Reorders arrival
    → Reach v (startup_health_check arrival reply lb).0 lb'
    → IsKept lb lb' × IsWellFormed lb'
Reach-from_new url_parses now blank cfg arrival reply v {lb} small made order history =
    let fresh = new-IsFresh url_parses now blank cfg lb small made in
    let kept = startup-IsKept arrival reply lb in
    let started =
      IsKept-IsWellFormed kept
        (λ q e. (((startup_health_check_healthy arrival reply lb order).0 q).0 e).0)
        fresh.well_formed in
    let (kept', wf) = Reach-IsWellFormed started history in (IsKept-trans kept kept', wf)

Step-IsSettled :
    {v : BeaconEndpointValidator} {a b : LoadBalancer}
    → IsWellFormed a
    → NamesDiffer a
    → IsSettled a
    → Step v a b
    → IsSettled b
Step-IsSettled {v} {a} wf differ s (request r w) =
    Trims-IsSettled (serve_http-IsKept v r a w).0 (serve_http-Trims v r a w) s
Step-IsSettled {v} {a} wf differ s (round arrival reply order) =
    perform_health_check-IsSettled arrival reply a order wf differ s

-- A settled balancer whose nodes have different names stays settled in every history.
pub Reach-IsSettled :
    {v : BeaconEndpointValidator} {a b : LoadBalancer}
    → IsWellFormed a
    → NamesDiffer a
    → IsSettled a
    → Reach v a b
    → IsSettled b
Reach-IsSettled wf differ s here = s
Reach-IsSettled wf differ s (next r step) =
    let (kept, wf') = Reach-IsWellFormed wf r in
    Step-IsSettled wf' (IsKept-NamesDiffer kept differ) (Reach-IsSettled wf differ s r) step
