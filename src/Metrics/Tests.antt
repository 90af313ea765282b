-- ===== src/Metrics/Tests.antt =====
-- Small runs of cmd/metrics/client.go.
use consensus_proxy.Base.{
  true, false, List, [], ◌∷◌, ◌++◌, length, ◌≡◌, refl, arith, none, some, map,
}
use consensus_proxy.Http.{bytes_of}
use consensus_proxy.Config.{MetricsConfig}
use consensus_proxy.Node.Sync.{HealthCheckError}
use consensus_proxy.Balancer.{Tag, incr, text, number}
use consensus_proxy.Balancer.Tests.{two_nodes}
use consensus_proxy.Balancer.Health.{node_tag, failure_metric}
use consensus_proxy.Metrics.{
  PrometheusClient, Observation, prometheus, new_client, report_all, report, format_tag, value_text,
  parse_tags,
}
use consensus_proxy.Metrics.Tags.{parse_tags-format_tag}
use consensus_proxy.Metrics.Vectors.{expected, report_all-expected}
use consensus_proxy.Metrics.Mismatch.{failure_metric-mismatch}

abbrev cfg : MetricsConfig
cfg = record { enabled = true; statsd_addr = ""; namespace = "consensus_proxy" }

abbrev two_tags : List Tag
two_tags = ("node", text "a:b") ∷ ("status_code", number 503) ∷ []

parsed :
    parse_tags (bytes_of "node:a:b" ∷ bytes_of "no colon" ∷ [])
    ≡ (bytes_of "node" ∷ [], bytes_of "a:b" ∷ [])
unfolding parse_tags
parsed = refl

tags_example :
    parse_tags (map format_tag two_tags)
    ≡ (map (λ tag. bytes_of tag.0) two_tags, map (λ tag. value_text tag.1) two_tags)
tags_example = parse_tags-format_tag two_tags (ground arith)

vectors_example :
    (c c' : PrometheusClient) × (report_all (new_client cfg) (incr "request.success" two_tags ∷ [])
      ≡ prometheus c)
    × (report (prometheus c) (incr "request.success" []) ≡ prometheus c')
    × (c'.observed
        ≡ expected (incr "request.success" two_tags ∷ []) (incr "request.success" []) ∷ c.observed)
vectors_example =
    report_all-expected cfg (incr "request.success" two_tags ∷ []) (incr "request.success" []) refl
      (ground arith) tt

abbrev no_answer : HealthCheckError
no_answer = record {
  reason = "request_failed";
  status_code = 0;
  is_syncing = false;
  sync_distance = "";
  err = some "timeout";
}

abbrev bad_status : HealthCheckError
bad_status = record no_answer { reason = "non_200_status"; status_code = 503; err = none }

mismatch_example :
    let history = [] ++ failure_metric (node_tag two_nodes 1) no_answer ∷ [] in
    (c c' : PrometheusClient) × (o : Observation) × (report_all (new_client cfg) history
      ≡ prometheus c)
    × (report (prometheus c) (failure_metric (node_tag two_nodes 1) bad_status) ≡ prometheus c')
    × (c'.observed ≡ o ∷ c.observed)
    × (length o.label_names ≡ 2)
    × (length o.label_values ≡ 3)
mismatch_example =
    failure_metric-mismatch cfg two_nodes two_nodes 1 1 no_answer bad_status [] [] refl tt tt refl
      refl refl
