-- ===== src/Metrics.antt =====
-- cmd/metrics/client.go: the client that counts and times for the balancer. A tag is a list of
-- characters. The Prometheus library is outside: a vector is the label names that it was created
-- with, and what is asked of the vectors is kept in `observed`, the latest first. `Close` does
-- nothing, and the sampling rate is always 1.
pub mod Tags
pub mod Vectors
pub mod Mismatch
pub mod Tests
use consensus_proxy.Base.{
  ℕ, ◌+◌, String, true, false, not, List, [], ◌∷◌, ◌++◌, str_eq, if◌then◌else◌, ◌==◌, Option, none,
  some, map,
}
use consensus_proxy.Http.{Bytes, bytes_of}
use consensus_proxy.Format.{decimal}
use consensus_proxy.Config.{MetricsConfig}
use consensus_proxy.Balancer.{TagValue, text, number, flag, Tag, Metric, incr, timing, gauge}

-- What `%s`, `%d` and `%t` print.
pub value_text : TagValue → Bytes
value_text (text s) = bytes_of s
value_text (number n) = decimal n
value_text (flag b) = if b then bytes_of "true" else bytes_of "false"

-- "key:value", as the callers format it.
pub format_tag : Tag → Bytes
unfolding value_text
format_tag (key, value) = bytes_of key ++ b':' ∷ value_text value

-- The inner loop of `parseTags`: the parts before and after the first colon.
pub split_tag : Bytes → Option (Bytes × Bytes)
split_tag [] = none
split_tag (c ∷ s) =
    let rest = split_tag s in
    if c == b':' then some ([], s) else elim rest [ none ↦ none | some p ↦ some (c ∷ p.0, p.1) ]

-- A tag without a colon is left out.
abbrev pub add_label : Option (Bytes × Bytes) → List Bytes × List Bytes → List Bytes × List Bytes
add_label none labels = labels
add_label (some (name, value)) (label_names, label_values) =
    (name ∷ label_names, value ∷ label_values)

-- `parseTags`
unfoldable pub parse_tags : List Bytes → List Bytes × List Bytes
unfolding split_tag
parse_tags [] = ([], [])
parse_tags (tag ∷ tags) = add_label (split_tag tag) (parse_tags tags)

-- The vectors of one kind, by name.
abbrev pub Vectors : Type 0
Vectors = String → Option (List Bytes)

pub data Kind : Type 0 where
  counter gauge_of summary : Kind

-- `WithLabelValues` of a vector, with the amount that is added, set or observed.
pub record Observation : Type 0 where
  pub kind : Kind
  pub name : String
  pub label_names : List Bytes
  pub label_values : List Bytes
  pub amount : ℕ

pub record PrometheusClient : Type 0 where
  pub namespace : String
  pub counters : Vectors
  pub gauges : Vectors
  pub summaries : Vectors
  pub observed : List Observation

-- The vector of a name, which is created from the tags where there is none.
pub find_or_create : String → List Bytes → Vectors → List Bytes × Vectors
find_or_create name tags vectors = elim (vectors name) [
  | some label_names ↦ (label_names, vectors)
  | none ↦
      let label_names = (parse_tags tags).0 in
      (label_names, λ q. if str_eq q name then some label_names else vectors q)
]

-- `Incr`
pub prometheus_incr : String → List Bytes → PrometheusClient → PrometheusClient
unfolding find_or_create
prometheus_incr name tags c =
    let (label_names, counters) = find_or_create name tags c.counters in
    let seen : Observation = record {
      kind = counter;
      name = name;
      label_names = label_names;
      label_values = (parse_tags tags).1;
      amount = 1;
    } in
    record c { counters = counters; observed = seen ∷ c.observed }

-- `Timing`
pub prometheus_timing : String → ℕ → List Bytes → PrometheusClient → PrometheusClient
unfolding find_or_create
prometheus_timing name value tags c =
    let (label_names, summaries) = find_or_create name tags c.summaries in
    let seen : Observation = record {
      kind = summary;
      name = name;
      label_names = label_names;
      label_values = (parse_tags tags).1;
      amount = value;
    } in
    record c { summaries = summaries; observed = seen ∷ c.observed }

-- `Gauge`
pub prometheus_gauge : String → ℕ → List Bytes → PrometheusClient → PrometheusClient
unfolding find_or_create
prometheus_gauge name value tags c =
    let (label_names, gauges) = find_or_create name tags c.gauges in
    let seen : Observation = record {
      kind = gauge_of;
      name = name;
      label_names = label_names;
      label_values = (parse_tags tags).1;
      amount = value;
    } in
    record c { gauges = gauges; observed = seen ∷ c.observed }

pub data Client : Type 0 where
  no_op : Client
  prometheus : PrometheusClient → Client

abbrev pub new_prometheus : String → PrometheusClient
new_prometheus namespace = record {
  namespace = namespace;
  counters = λ q. none;
  gauges = λ q. none;
  summaries = λ q. none;
  observed = [];
}

-- `NewClient`
abbrev pub new_client : MetricsConfig → Client
new_client cfg = if not cfg.enabled then no_op else prometheus (new_prometheus cfg.namespace)

-- A call of the balancer, on the Prometheus client.
unfoldable pub call : Metric → PrometheusClient → PrometheusClient
unfolding format_tag prometheus_incr prometheus_timing prometheus_gauge
call (incr name tags) = prometheus_incr name (map format_tag tags)
call (timing name value tags) = prometheus_timing name value (map format_tag tags)
call (gauge name value tags) = prometheus_gauge name value (map format_tag tags)

-- A call, on either client: the other one does nothing.
pub report : Client → Metric → Client
unfolding call
report no_op m = no_op
report (prometheus c) m = prometheus (call m c)

-- The calls in order.
abbrev pub report_all : Client → List Metric → Client
report_all c [] = c
report_all c (m ∷ ms) = report_all (report c m) ms
