-- ===== src/Balancer/Requests/Attempts.antt =====
-- cmd/loadbalancer/http_handler.go: the nodes that `handleHTTPRequest` tries, read off the calls of
-- the metrics client.
use consensus_proxy.Base.{
  ℕ, suc, ◌+◌, ◌≤◌, String, List, [], ◌∷◌, str_eq, leb_ℤ, pos, if◌then◌else◌, length, take, ◌≡◌,
  refl, ap, ◌∙◌, arith, inl, inr, Bool-cases,
}
use consensus_proxy.Http.{Writer}
use consensus_proxy.Balancer.{LoadBalancer, Metric, Tag, text, number, flag, incr, timing, gauge}
use consensus_proxy.Balancer.Errors.{name_of, handle_node_error}
use consensus_proxy.Balancer.Errors.Laws.{handle_node_error-metrics}
use consensus_proxy.Balancer.Kept.{IsKept-trans, handle_node_error-IsKept}
use consensus_proxy.Balancer.Requests.{
  Environment, is_success, recorder_of, attempt, attempts, handle_http_request,
  handle_success_response, handle_all_nodes_failed,
}
use consensus_proxy.Balancer.Requests.Bounds.{served_if, attempt-IsKept}

-- The node that the first tag of a call names.
abbrev tagged_node : List Tag → List String → List String
tagged_node [] names = names
tagged_node ((k, text s) ∷ tags) names = s ∷ names
tagged_node ((k, number n) ∷ tags) names = names
tagged_node ((k, flag b) ∷ tags) names = names

-- The nodes of the recorded attempts, the latest first.
pub attempted : List Metric → List String
attempted [] = []
attempted (incr name tags ∷ ms) = attempted ms
attempted (timing name d tags ∷ ms) =
    let names = attempted ms in
    if str_eq name "request.attempt_duration" then tagged_node tags names else names
attempted (gauge name v tags ∷ ms) = attempted ms

-- The names of these nodes in front of others, the last one first.
abbrev pub then_names : (ℕ → String) → List ℕ → List String → List String
then_names name [] names = names
then_names name (p ∷ ps) names = then_names name ps (name p ∷ names)

handle_node_error-attempted :
    (p status : ℕ) (lb : LoadBalancer)
    → attempted (handle_node_error p status lb).metrics ≡ attempted lb.metrics
unfolding attempted
handle_node_error-attempted p status lb = ground (arith, handle_node_error-metrics p status lb)

module _ (env : Environment) where
  attempt-attempted :
      (i p : ℕ) (lb : LoadBalancer)
      → attempted (attempt env i p lb).metrics ≡ name_of lb p ∷ attempted lb.metrics
  unfolding attempt attempted
  attempt-attempted i p lb = ground arith

  success-attempted :
      (p : ℕ) (lb : LoadBalancer) (w : Writer) (i : ℕ)
      → attempted (handle_success_response env p (recorder_of env i p) lb w).balancer.metrics
        ≡ attempted lb.metrics
  unfolding handle_success_response attempted
  success-attempted p lb w i = refl

  failed-attempted :
      (last : ℕ) (lb : LoadBalancer) (w : Writer)
      → attempted (handle_all_nodes_failed env last lb w).balancer.metrics ≡ attempted lb.metrics
  unfolding handle_all_nodes_failed attempted
  failed-attempted last lb w = refl

  -- The attempts of a request so far: on the first nodes of a list.
  abbrev Tries : ℕ → ℕ → (ℕ → String) → List ℕ → List String → LoadBalancer → Type 0
  Tries m i name ps names b =
      (n : ℕ) × (n + i ≤ m)
      × (n ≤ length ps)
      × (attempted b.metrics ≡ then_names name (take n ps) names)

  attempts-Tries :
      (m i last : ℕ) (name : ℕ → String) (ps : List ℕ) (lb : LoadBalancer) (w : Writer)
      → lb.config.server.max_retries ≡ pos m
      → ((q : ℕ) → name_of lb q ≡ name q)
      → i ≤ m
      → Tries m i name ps (attempted lb.metrics) (attempts env i ps last lb w).balancer
  unfolding attempts
  attempts-Tries m i last name [] lb w hm hn hi =
      (0, omega (arith, hi), omega arith, failed-attempted last lb w)
  attempts-Tries m i last name (p ∷ ps) lb w hm hn hi =
      let rr = recorder_of env i p in
      let lb' = attempt env i p lb in
      let failed = handle_node_error p rr.status_code lb' in
      let P : LoadBalancer → Type 0 = Tries m i name (p ∷ ps) (attempted lb.metrics) in
      let one : attempted lb'.metrics ≡ name p ∷ attempted lb.metrics =
        attempt-attempted i p lb ∙ ap (λ s. s ∷ attempted lb.metrics) (hn p) in
      let none_tried : P lb = (0, omega (arith, hi), omega arith, refl) in
      elim (Bool-cases (leb_ℤ lb.config.server.max_retries (pos i))) [
        | inl over ↦
            rw (over, attempts) (0, omega (arith, hi), omega arith, failed-attempted last lb w)
        | inr under ↦
            let room : suc i ≤ m = ground (arith, under, hm) in
            let k =
              IsKept-trans (attempt-IsKept env i p lb)
                (handle_node_error-IsKept p rr.status_code lb') in
            let rest =
              attempts-Tries m (suc i) rr.status_code name ps failed w
                (ap (λ c. c.server.max_retries) k.config ∙ hm) (λ q. k.names q ∙ hn q) room in
            rw (under, attempts)
              (served_if P (env.expired i) _ _ none_tried (
                served_if P (leb_ℤ lb.config.server.request_timeout (pos (env.elapsed i))) _ _
                  none_tried
                  (served_if P (is_success rr.status_code) _ _
                    (1, omega (arith, room), omega arith, success-attempted p lb' w i ∙ one)
                    (
                      suc rest.0,
                      omega (arith, rest.1),
                      omega (arith, rest.2),
                      rest.3
                          ∙ ap (then_names name (take rest.0 ps))
                              (handle_node_error-attempted p rr.status_code lb' ∙ one),
                    ))))
      ]

  -- With a limit that is not negative, the attempts that a request records are, in order, one each
  -- on the first nodes of the list of the healthy ones, as it was when the request came: at most as
  -- many as the limit says.
  pub handle_http_request-attempted :
      (m : ℕ) (lb : LoadBalancer) (w : Writer)
      → lb.config.server.max_retries ≡ pos m
      → (n : ℕ) × (n ≤ m)
        × (n ≤ length lb.healthy_nodes)
        × (attempted (handle_http_request env lb w).balancer.metrics
            ≡ then_names (name_of lb) (take n lb.healthy_nodes) (attempted lb.metrics))
  unfolding handle_http_request
  handle_http_request-attempted m lb w hm =
      let t =
        attempts-Tries m 0 0 (name_of lb) lb.healthy_nodes lb w hm (λ q. refl) (omega arith) in
      (t.0, omega (arith, t.1), t.2, t.3)
