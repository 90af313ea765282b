-- ===== src/Metrics/Mismatch.antt =====
-- cmd/metrics/client.go and cmd/loadbalancer/health_check.go: failed checks whose calls do not agree
-- on their labels.
use consensus_proxy.Base.{
  All-append, ℕ, String, true, List, [], ◌∷◌, ◌++◌, str_eq, length, All, ◌≡◌, refl, ap, arith, none,
  some, ◌&&◌,
}
use consensus_proxy.Config.{MetricsConfig}
use consensus_proxy.Node.Sync.{HealthCheckError}
use consensus_proxy.Balancer.{LoadBalancer, Metric, Tag, incr, text, number}
use consensus_proxy.Balancer.Health.{node_tag, failure_metric}
use consensus_proxy.Metrics.{
  Kind, counter, Observation, PrometheusClient, prometheus, new_client, report_all, report,
}
use consensus_proxy.Metrics.Tags.{IsKey}
use consensus_proxy.Metrics.Vectors.{
  tags_of, kind_of, name_of_call, same_kind, first_keys, expected, report_all-expected, keys,
  with_keys,
}

-- The keys of a call whose vector no earlier call created.
first_keys-append :
    (k : Kind) (q : String) (ms ns : List Metric) (m : Metric)
    → first_keys k q ms ≡ none
    → (same_kind (kind_of m) k && str_eq q (name_of_call m)) ≡ true
    → first_keys k q (ms ++ m ∷ ns) ≡ some (keys (tags_of m))
first_keys-append k q [] ns m e h = rw h refl
first_keys-append k q (n ∷ ms) ns m e h = ground (arith, first_keys-append k q ms ns m)

request_failed_call :
    (node : Tag) (e : HealthCheckError)
    → e.reason ≡ "request_failed"
    → failure_metric node e
      ≡ incr "healthcheck.failed" (node ∷ ("reason", text "request_failed") ∷ [])
unfolding failure_metric
request_failed_call node e r = rw r refl

non_200_call :
    (node : Tag) (e : HealthCheckError)
    → e.reason ≡ "non_200_status"
    → failure_metric node e
      ≡ incr "healthcheck.failed"
          (node ∷ ("reason", text "non_200_status") ∷ ("status_code", number e.status_code) ∷ [])
unfolding failure_metric
non_200_call node e r = rw r refl

-- The bug: if the first check that fails gets no response, and a later one gets another status than
-- 200, then the call for the later one gives three values to a vector of two labels, whatever calls
-- came before, between them and for other names.
pub failure_metric-mismatch :
    (cfg : MetricsConfig) (lb lb' : LoadBalancer) (p p' : ℕ) (e e' : HealthCheckError)
    (ms ns : List Metric)
    → cfg.enabled ≡ true
    → All (λ n. All IsKey (tags_of n)) ms
    → All (λ n. All IsKey (tags_of n)) ns
    → first_keys counter "healthcheck.failed" ms ≡ none
    → e.reason ≡ "request_failed"
    → e'.reason ≡ "non_200_status"
    → let history = ms ++ failure_metric (node_tag lb p) e ∷ ns in
      (c c' : PrometheusClient) × (o : Observation) × (report_all (new_client cfg) history
        ≡ prometheus c)
      × (report (prometheus c) (failure_metric (node_tag lb' p') e') ≡ prometheus c')
      × (c'.observed ≡ o ∷ c.observed)
      × (length o.label_names ≡ 2)
      × (length o.label_values ≡ 3)
failure_metric-mismatch cfg lb lb' p p' e e' ms ns on hs hn new r r' =
    rw (request_failed_call (node_tag lb p) e r, non_200_call (node_tag lb' p') e' r')
      (let (c, c', made, then_made, seen) =
          report_all-expected cfg history call on plain plain_call in
        (
          c,
          c',
          expected history call,
          made,
          then_made,
          seen,
          ap (λ o. length (with_keys (keys (tags_of call)) o))
              (first_keys-append counter "healthcheck.failed" ms ns first_call new refl),
          refl,
        ))
  where
    first_call : Metric
    first_call = incr "healthcheck.failed" (node_tag lb p ∷ ("reason", text "request_failed") ∷ [])

    call : Metric
    call = incr "healthcheck.failed" (
        node_tag lb' p'
        ∷ ("reason", text "non_200_status")
        ∷ ("status_code", number e'.status_code)
        ∷ [])

    history : List Metric
    history = ms ++ first_call ∷ ns

    plain : All (λ n. All IsKey (tags_of n)) history
    plain = All-append (λ n. All IsKey (tags_of n)) ms (first_call ∷ ns) hs (ground arith, hn)

    plain_call : All IsKey (tags_of call)
    plain_call = ground arith
