-- ===== src/Balancer/Errors/Concurrent/Keeping.antt =====
-- cmd/loadbalancer/http_handler.go: the invariant of overlapping server errors of a node, and the
-- steps that count no error and store no priority.
use consensus_proxy.Base.{
  ℕ, ◌+◌, ◌<◌, ◌≤◌, false, List, str_eq, pos, int64_end, length, All, Elem, Elem-of_Elem-select,
  ◌≡◌, refl, sym, ap, ◌∙◌, ◌⊎◌, inl, inr, arith, ◌==◌, Bool-cases, ==_iff, ==_refl,
}
use consensus_proxy.Config.{Config}
use consensus_proxy.Node.{BeaconNode}
use consensus_proxy.Balancer.{LoadBalancer, Metric, modify}
use consensus_proxy.Balancer.Errors.{name_of, without_name}
use consensus_proxy.Balancer.Errors.Concurrent.{Thread}
use consensus_proxy.Balancer.Errors.Concurrent.Threads.{
  Some, has_counted, counted, WillDemote, WillFilter, Stepped, Stepped-counted, Stepped-length,
  Stepped-IsServerError, IsServerError, Some-Stepped, Stepped-Some,
}

-- No healthy node has the name of the node at `p`.
abbrev pub IsGone : ℕ → LoadBalancer → Type 0
IsGone p lb = (q : ℕ) → Elem q lb.healthy_nodes → str_eq (name_of lb q) (name_of lb p) ≡ false

module _ (p e t : ℕ) where
  abbrev pub IsDemoted : List Thread → LoadBalancer → Type 0
  IsDemoted xs lb = ((lb.heap p).priority ≡ length lb.nodes) × (IsGone p lb ⊎ Some WillFilter xs)

  pub record Invariant (xs : List Thread) (lb : LoadBalancer) : Type 0 where
    pub errors : (lb.heap p).consecutive_errors ≡ pos (e + counted xs)
    pub threshold : lb.config.failover.error_threshold ≡ pos t
    pub some_node : 1 ≤ length lb.nodes
    pub server_errors : All IsServerError xs
    pub room : e + length xs < int64_end
    pub pending : (lb.heap p).priority ≡ 0 → t ≤ e + counted xs → Some (WillDemote t) xs
    pub demoted : ((lb.heap p).priority ≡ 0) ⊎ IsDemoted xs lb

  -- What a step that stores no priority leaves alone.
  pub record Keeps (a : Thread) (lb lb' : LoadBalancer) : Type 0 where
    pub priority : (lb'.heap p).priority ≡ (lb.heap p).priority
    pub config : lb'.config ≡ lb.config
    pub nodes : lb'.nodes ≡ lb.nodes
    pub gone : IsGone p lb → IsGone p lb'
    pub filters : WillFilter a.next → IsGone p lb'

  pub Keeps-IsDemoted :
      {a b : Thread} {xs ys : List Thread} {lb lb' : LoadBalancer}
      → Stepped a b xs ys
      → Keeps a lb lb'
      → ((lb.heap p).priority ≡ 0) ⊎ IsDemoted xs lb
      → ((lb'.heap p).priority ≡ 0) ⊎ IsDemoted ys lb'
  Keeps-IsDemoted s k (inl first) = inl (k.priority ∙ first)
  Keeps-IsDemoted s k (inr (last, inl gone)) =
      inr (k.priority ∙ last ∙ ap length (sym k.nodes), inl (k.gone gone))
  Keeps-IsDemoted s k (inr (last, inr filter)) = inr (
    k.priority ∙ last ∙ ap length (sym k.nodes),
    elim (Some-Stepped WillFilter s filter) [ inl h ↦ inl (k.filters h) | inr h ↦ inr h ],
  )

  -- A step that counts no error and stores no priority.
  pub Keeps-Invariant :
      {a b : Thread} {xs ys : List Thread} {lb lb' : LoadBalancer}
      → Stepped a b xs ys
      → a.status ≡ b.status
      → Keeps a lb lb'
      → has_counted b.next ≡ has_counted a.next
      → (lb'.heap p).consecutive_errors ≡ (lb.heap p).consecutive_errors
      → ((lb.heap p).priority ≡ 0 → t ≤ e + counted xs → WillDemote t a.next → WillDemote t b.next)
      → Invariant xs lb
      → Invariant ys lb'
  Keeps-Invariant {a} {b} {xs} {ys} s status k counts errors still v =
      let same : counted ys ≡ counted xs = omega (arith, Stepped-counted s, counts) in
      record {
        errors = errors ∙ v.errors ∙ ap (λ n. pos (e + n)) (sym same);
        threshold = ap (λ (c : Config). c.failover.error_threshold) k.config ∙ v.threshold;
        some_node = rw k.nodes v.some_node;
        server_errors = (Stepped-IsServerError s (λ h. rw (← status) h) v.server_errors).1;
        room = rw (Stepped-length s) v.room;
        pending = λ first enough.
            let first' = sym k.priority ∙ first in
            let enough' : t ≤ e + counted xs = omega (arith, enough, same) in
            elim (Some-Stepped (WillDemote t) s (v.pending first' enough')) [
              | inl h ↦ Stepped-Some (WillDemote t) s (still first' enough' h)
              | inr h ↦ h
            ];
        demoted = Keeps-IsDemoted s k v.demoted;
      }

  modify-name :
      (lb : LoadBalancer) (f : BeaconNode → BeaconNode)
      → (f (lb.heap p)).name ≡ (lb.heap p).name
      → (q : ℕ) → name_of (modify p f lb) q ≡ name_of lb q
  modify-name lb f name q = elim (Bool-cases (q == p)) [
    | inl e ↦ rw (e, name_of) (name ∙ ap (name_of lb) (sym ((==_iff q p).0 e)))
    | inr e ↦ rw (e, name_of) refl
  ]

  modify-IsGone :
      (lb : LoadBalancer) (f : BeaconNode → BeaconNode)
      → (f (lb.heap p)).name ≡ (lb.heap p).name
      → IsGone p lb
      → IsGone p (modify p f lb)
  modify-IsGone lb f name gone q h =
      rw (modify-name lb f name q, modify-name lb f name p) (gone q h)

  -- A step that changes the node at `p`, but not its name and priority.
  pub modify-Keeps :
      (a : Thread) (lb : LoadBalancer) (f : BeaconNode → BeaconNode)
      → (f (lb.heap p)).name ≡ (lb.heap p).name
      → (f (lb.heap p)).priority ≡ (lb.heap p).priority
      → (WillFilter a.next → ⊥)
      → Keeps a lb (modify p f lb)
  modify-Keeps a lb f name priority no_filter = record {
    priority = rw (==_refl p) priority;
    config = refl;
    nodes = refl;
    gone = modify-IsGone lb f name;
    filters = λ h. absurd (no_filter h);
  }

  -- A step that leaves the balancer as it is, or adds to its metrics.
  pub same-Keeps :
      (a : Thread) (lb : LoadBalancer) (metrics : List Metric)
      → (WillFilter a.next → ⊥)
      → Keeps a lb (record lb { metrics = metrics })
  same-Keeps a lb metrics no_filter = record {
    priority = refl;
    config = refl;
    nodes = refl;
    gone = λ gone. gone;
    filters = λ h. absurd (no_filter h);
  }

  pub filter-Keeps :
      (a : Thread) (lb : LoadBalancer)
      → Keeps a lb (record lb { healthy_nodes = without_name lb (name_of lb p) lb.healthy_nodes })
  filter-Keeps a lb = record {
    priority = refl;
    config = refl;
    nodes = refl;
    gone = λ gone q h. gone q (Elem-of_Elem-select _ q lb.healthy_nodes h).0;
    filters = λ _ q h. ground (arith, (Elem-of_Elem-select _ q lb.healthy_nodes h).1);
  }
