-- ===== src/Main/Answers.antt =====
-- main.go: what a client gets from the handler of "/".
use consensus_proxy.Base.{
  ℕ, ◌<◌, ◌≤◌, String, true, List, ℤ, pos, length, select, ◌≡◌, ap, ◌∙◌, ◌≢◌, ◌⊎◌, inl, inr, some,
}
use consensus_proxy.Http.{Writer, http_error}
use consensus_proxy.Http.Headers.{header_get}
use consensus_proxy.Validator.{new_beacon_endpoint_validator}
use consensus_proxy.RateLimit.{RateLimiter, expiry}
use consensus_proxy.RateLimit.Windows.{live, History}
use consensus_proxy.RateLimit.Middleware.{middleware-allow}
use consensus_proxy.Handlers.{cors_headers}
use consensus_proxy.Handlers.Laws.{cors_handler_lem, last_given}
use consensus_proxy.Balancer.{LoadBalancer}
use consensus_proxy.Balancer.Serve.{serve_http}
use consensus_proxy.Main.{State}
use consensus_proxy.Main.Routes.{
  Incoming, Outside, balanced, chain_over, route, is_proxied, client_of, route_over-chain,
}

-- The outcomes of a request that reaches the CORS wrapper.
abbrev pub Passed : Incoming → LoadBalancer → Writer → LoadBalancer → Writer → Type 0
Passed i lb w lb' w' =
    ((i.method ≡ "OPTIONS") × (lb' ≡ lb) × (w'.status ≡ w.status) × (w'.body ≡ w.body))
    ⊎ ((i.method ≢ "OPTIONS")
        × ((w'' : Writer) × (lb' ≡ (serve_http new_beacon_endpoint_validator i.request lb w'').0)
            × (w' ≡ (serve_http new_beacon_endpoint_validator i.request lb w'').1)
            × (w''.status ≡ w.status)
            × ((j : String)
                → header_get j w''.header ≡ last_given j cors_headers (header_get j w.header))))

balanced-Passed :
    (i : Incoming) (lb : LoadBalancer) (w : Writer)
    → Passed i lb w (balanced i lb w).0 (balanced i lb w).1
unfolding balanced
balanced-Passed i lb w =
    let (w'', cases, status, body, headers) =
      cors_handler_lem (serve_http new_beacon_endpoint_validator i.request) i.method lb w in
    elim cases [
      | inl (preflight, e) ↦
          inl (
            preflight,
            ap (λ x. x.0) e,
            ap (λ x. x.1.status) e ∙ status,
            ap (λ x. x.1.body) e ∙ body,
          )
      | inr (other, e) ↦ inr (other, (w'', ap (λ x. x.0) e, ap (λ x. x.1) e, status, headers))
    ]

-- Behind a limiter that has seen such a history of the client: a request over the limit is answered
-- 429 and leaves the balancer as it is; a preflight within it leaves the balancer and the writer's
-- status and body as they are; any other request within it is served by the balancer, with the
-- security and CORS headers set before.
pub route-limited :
    {limit : ℤ} {window t : ℕ} {served : List ℕ} (o : Outside) (i : Incoming) (s : State)
    (w : Writer) (rl : RateLimiter) (r : ℕ)
    → is_proxied o i ≡ true
    → s.rate_limiter ≡ some rl
    → limit ≡ pos r
    → window ≤ expiry
    → History limit window (client_of o i) rl t served
    → t ≤ i.at
    → let (s', w') = route o i s w in
      let count = length (select (live window i.at) served) in
      ((count < r) × Passed i s.balancer w s'.balancer w')
      ⊎ ((r ≤ count) × (s'.balancer ≡ s.balancer) × (w' ≡ http_error "Rate limit exceeded" 429 w))
unfolding route chain_over
route-limited {limit} {window} {t} {served} o i s w rl r proxied limited e small history later =
    rw (route_over-chain o (balanced i) i s.rate_limiter s.balancer w proxied) (
      rw (limited, chain_over)
        (elim (middleware-allow o.parses o.split_host (balanced i) i.request.target.header
          i.remote_addr r i.at s.balancer w e small history later) [
            | inl (under, same_lb, same_w) ↦
                inl (under, rw (same_lb, same_w) (balanced-Passed i s.balancer w))
            | inr (over, same_lb, same_w) ↦ inr (over, same_lb, same_w)
          ]))
