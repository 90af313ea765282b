-- ===== src/Metrics/Vectors.antt =====
-- cmd/metrics/client.go: which vector a call uses.
use consensus_proxy.Base.{
  ℕ, String, Bool, true, false, List, [], ◌∷◌, str_eq, eq_iff, if◌then◌else◌, All, ◌≡◌, refl, ap,
  ◌∙◌, arith, Option, none, some, ◌&&◌, map,
}
use consensus_proxy.Http.{Bytes, bytes_of}
use consensus_proxy.Config.{MetricsConfig}
use consensus_proxy.Balancer.{Tag, Metric, incr, timing, gauge}
use consensus_proxy.Metrics.{
  Kind, counter, gauge_of, summary, Vectors, Observation, PrometheusClient, prometheus, new_client,
  new_prometheus, call, report, report_all, format_tag, value_text, find_or_create, prometheus_incr,
  prometheus_timing, prometheus_gauge,
}
use consensus_proxy.Metrics.Tags.{IsKey, parse_tags-format_tag}

abbrev pub kind_of : Metric → Kind
kind_of (incr name tags) = counter
kind_of (timing name value tags) = summary
kind_of (gauge name value tags) = gauge_of

abbrev pub name_of_call : Metric → String
name_of_call (incr name tags) = name
name_of_call (timing name value tags) = name
name_of_call (gauge name value tags) = name

abbrev pub tags_of : Metric → List Tag
tags_of (incr name tags) = tags
tags_of (timing name value tags) = tags
tags_of (gauge name value tags) = tags

abbrev pub amount_of : Metric → ℕ
amount_of (incr name tags) = 1
amount_of (timing name value tags) = value
amount_of (gauge name value tags) = value

abbrev pub same_kind : Kind → Kind → Bool
same_kind counter counter = true
same_kind counter gauge_of = false
same_kind counter summary = false
same_kind gauge_of counter = false
same_kind gauge_of gauge_of = true
same_kind gauge_of summary = false
same_kind summary counter = false
same_kind summary gauge_of = false
same_kind summary summary = true

abbrev pub keys : List Tag → List Bytes
keys tags = map (λ tag. bytes_of tag.0) tags

abbrev pub values : List Tag → List Bytes
values tags = map (λ tag. value_text tag.1) tags

-- The keys of the first call of a kind and a name.
abbrev pub first_keys : Kind → String → List Metric → Option (List Bytes)
first_keys k q [] = none
first_keys k q (m ∷ ms) =
    if same_kind (kind_of m) k && str_eq q (name_of_call m)
    then some (keys (tags_of m))
    else first_keys k q ms

abbrev vectors : Kind → PrometheusClient → Vectors
vectors counter c = c.counters
vectors gauge_of c = c.gauges
vectors summary c = c.summaries

abbrev or_first : Option (List Bytes) → Option (List Bytes) → Option (List Bytes)
or_first none b = b
or_first (some a) b = some a

abbrev pub with_keys : List Bytes → Option (List Bytes) → List Bytes
with_keys d none = d
with_keys d (some a) = a

-- What is asked of the vectors for a call after others.
abbrev pub expected : List Metric → Metric → Observation
expected ms m = record {
  kind = kind_of m;
  name = name_of_call m;
  label_names = with_keys (keys (tags_of m)) (first_keys (kind_of m) (name_of_call m) ms);
  label_values = values (tags_of m);
  amount = amount_of m;
}

or_first-none : (o : Option (List Bytes)) → o ≡ or_first o none
or_first-none none = refl
or_first-none (some a) = refl

or_first-chain :
    (a : Option (List Bytes)) (b : Bool) (ks : List Bytes) (d : Option (List Bytes))
    → or_first (or_first a (if b then some ks else none)) d ≡ or_first a (if b then some ks else d)
or_first-chain none true ks d = refl
or_first-chain none false ks d = refl
or_first-chain (some x) b ks d = refl

find_or_create-vectors :
    (name q : String) (tags : List Tag) (vs : Vectors)
    → All IsKey tags
    → (find_or_create name (map format_tag tags) vs).1 q
      ≡ or_first (vs q) (if str_eq q name then some (keys tags) else none)
unfolding find_or_create
find_or_create-vectors name q tags vs h =
    ground (arith, eq_iff q name, parse_tags-format_tag tags h)

find_or_create-names :
    (name : String) (tags : List Tag) (vs : Vectors)
    → All IsKey tags
    → (find_or_create name (map format_tag tags) vs).0 ≡ with_keys (keys tags) (vs name)
unfolding find_or_create
find_or_create-names name tags vs h = ground (arith, parse_tags-format_tag tags h)

call-vectors :
    (k : Kind) (q : String) (m : Metric) (c : PrometheusClient)
    → All IsKey (tags_of m)
    → vectors k (call m c) q ≡ or_first (vectors k c q) (first_keys k q (m ∷ []))
unfolding call prometheus_incr prometheus_timing prometheus_gauge
call-vectors counter q (incr name tags) c h = find_or_create-vectors name q tags c.counters h
call-vectors gauge_of q (incr name tags) c h = or_first-none (c.gauges q)
call-vectors summary q (incr name tags) c h = or_first-none (c.summaries q)
call-vectors counter q (timing name value tags) c h = or_first-none (c.counters q)
call-vectors gauge_of q (timing name value tags) c h = or_first-none (c.gauges q)
call-vectors summary q (timing name value tags) c h =
    find_or_create-vectors name q tags c.summaries h
call-vectors counter q (gauge name value tags) c h = or_first-none (c.counters q)
call-vectors gauge_of q (gauge name value tags) c h = find_or_create-vectors name q tags c.gauges h
call-vectors summary q (gauge name value tags) c h = or_first-none (c.summaries q)

-- After some calls, a vector has the keys of the first one of its kind and name.
report_all-vectors :
    (k : Kind) (q : String) (ms : List Metric) (c : PrometheusClient)
    → All (λ m. All IsKey (tags_of m)) ms
    → (c' : PrometheusClient) × (report_all (prometheus c) ms ≡ prometheus c')
      × (vectors k c' q ≡ or_first (vectors k c q) (first_keys k q ms))
unfolding report
report_all-vectors k q [] c h = (c, refl, or_first-none (vectors k c q))
report_all-vectors k q (m ∷ ms) c h =
    let (c', e, v) = report_all-vectors k q ms (call m c) h.1 in
    (
      c',
      e,
      v
          ∙ ap (λ o. or_first o (first_keys k q ms)) (call-vectors k q m c h.0)
          ∙ or_first-chain (vectors k c q) (same_kind (kind_of m) k && str_eq q (name_of_call m))
              (keys (tags_of m)) (first_keys k q ms),
    )

call-observed :
    (m : Metric) (c : PrometheusClient) (o : Option (List Bytes))
    → All IsKey (tags_of m)
    → vectors (kind_of m) c (name_of_call m) ≡ o
    → (call m c).observed
      ≡ record {
        kind = kind_of m;
        name = name_of_call m;
        label_names = with_keys (keys (tags_of m)) o;
        label_values = values (tags_of m);
        amount = amount_of m;
      }
        ∷ c.observed
unfolding call prometheus_incr prometheus_timing prometheus_gauge
call-observed (incr name tags) c o h e =
    rw (find_or_create-names name tags c.counters h, parse_tags-format_tag tags h, e) refl
call-observed (timing name value tags) c o h e =
    rw (find_or_create-names name tags c.summaries h, parse_tags-format_tag tags h, e) refl
call-observed (gauge name value tags) c o h e =
    rw (find_or_create-names name tags c.gauges h, parse_tags-format_tag tags h, e) refl

-- With metrics enabled, and after any calls whose keys hold no colon, a call is made on the vector
-- that the first call of its kind and name created: with that call's keys as the labels and its own
-- tags' values. What was asked before is kept.
pub report_all-expected :
    (cfg : MetricsConfig) (ms : List Metric) (m : Metric)
    → cfg.enabled ≡ true
    → All (λ n. All IsKey (tags_of n)) ms
    → All IsKey (tags_of m)
    → (c c' : PrometheusClient) × (report_all (new_client cfg) ms ≡ prometheus c)
      × (report (prometheus c) m ≡ prometheus c')
      × (c'.observed ≡ expected ms m ∷ c.observed)
unfolding report
report_all-expected cfg ms m on hs h =
    let first = first_keys (kind_of m) (name_of_call m) ms in
    let (c, e, v) =
      report_all-vectors (kind_of m) (name_of_call m) ms (new_prometheus cfg.namespace) hs in
    (c, call m c, rw on e, refl, call-observed m c first h (v ∙ no_vector (kind_of m) first))
  where
    no_vector :
        (k : Kind) (d : Option (List Bytes))
        → or_first (vectors k (new_prometheus cfg.namespace) (name_of_call m)) d ≡ d
    no_vector counter d = refl
    no_vector gauge_of d = refl
    no_vector summary d = refl
