-- ===== src/Main/Routes.antt =====
-- main.go: the routes that `setupRoutes` registers, composed of the limiter, the CORS wrapper and the
-- balancer. Go's ServeMux answers some paths itself, with a redirect to a clean one; the page of the
-- Prometheus handler is outside too.
use consensus_proxy.Base.{
  ℕ, suc, refl, ap, String, Bool, true, false, not, [], ◌∷◌, if◌then◌else◌, ◌≡◌, arith, ◌==◌,
  Option, none, some, ◌&&◌,
}
use consensus_proxy.Http.{Bytes, bytes_of, Writer}
use consensus_proxy.Validator.{new_beacon_endpoint_validator}
use consensus_proxy.Handlers.{Handler, cors_handler, healthz_handler}
use consensus_proxy.RateLimit.{RateLimiter, allow, middleware, get_client_ip}
use consensus_proxy.RateLimit.Middleware.{middleware-frame}
use consensus_proxy.Balancer.{LoadBalancer}
use consensus_proxy.Balancer.Serve.{Request, serve_http}
use consensus_proxy.Main.{State}

-- A request at the time `at`, with what the balancer meets when it serves it.
pub record Incoming : Type 0 where
  pub request : Request
  pub method : String
  pub remote_addr : String
  pub at : ℕ

-- What the libraries answer.
pub record Outside : Type 0 where
  -- What ServeMux answers itself for a path.
  pub redirect : Bytes → Option (Writer → Writer)
  pub metrics_page : Writer → Writer
  pub parses : String → Bool
  pub split_host : String → Option String

abbrev pub path_eq : Bytes → Bytes → Bool
path_eq [] [] = true
path_eq [] (d ∷ t) = false
path_eq (c ∷ s) [] = false
path_eq (c ∷ s) (d ∷ t) = c == d && path_eq s t

-- The balancer behind the CORS wrapper.
unfoldable pub balanced : Incoming → Handler LoadBalancer
balanced i = cors_handler (serve_http new_beacon_endpoint_validator i.request) i.method

module _ (o : Outside) where
  -- The handler of "/" around a wrapped one: with a limiter, its middleware stands in front.
  unfoldable pub chain_over :
      {S : Type 0}
      → Handler S
      → Incoming
      → Option RateLimiter
      → S
      → Writer
      → Option RateLimiter × S × Writer
  chain_over next i none x w = (none, (next x w).0, (next x w).1)
  chain_over next i (some rl) x w =
      let (rl', x', w') =
        middleware o.parses o.split_host next i.request.target.header i.remote_addr i.at rl x w in
      (some rl', x', w')

  -- The handler that ServeMux picks, around the handler that "/" wraps.
  unfoldable pub route_over :
      {S : Type 0}
      → Handler S
      → Incoming
      → Option RateLimiter
      → S
      → Writer
      → Option RateLimiter × S × Writer
  unfolding chain_over
  route_over next i limiter x w = elim (o.redirect i.request.target.path) [
    | some answer ↦ (limiter, x, answer w)
    | none ↦
        let rest = chain_over next i limiter x w in
        if path_eq i.request.target.path (bytes_of "/healthz")
        then (limiter, x, healthz_handler w)
        else if path_eq i.request.target.path (bytes_of "/metrics")
        then (limiter, x, o.metrics_page w)
        else rest
  ]

  -- The routes with the balancer behind them.
  unfoldable pub route : Incoming → Handler State
  unfolding route_over balanced
  route i s w =
      let (limiter, lb, w') = route_over (balanced i) i s.rate_limiter s.balancer w in
      (record { balancer = lb; rate_limiter = limiter }, w')

  -- How often a request is handed on to what "/" wraps: the routes around a handler that counts its
  -- calls.
  abbrev pub calls_of : Incoming → State → Writer → ℕ
  calls_of i s w = (route_over (λ n w'. (suc n, w')) i s.rate_limiter 0 w).1

  -- Whether a request is meant for the handler of "/".
  abbrev pub is_proxied : Incoming → Bool
  is_proxied i = elim (o.redirect i.request.target.path) [
    | some answer ↦ false
    | none ↦
        not (path_eq i.request.target.path (bytes_of "/healthz"))
        && not (path_eq i.request.target.path (bytes_of "/metrics"))
  ]

  abbrev pub client_of : Incoming → String
  client_of i = get_client_ip o.parses o.split_host i.request.target.header i.remote_addr

  -- Whether a limiter, where there is one, lets a client's request pass.
  abbrev pub grants : Option RateLimiter → String → ℕ → Bool
  grants none ip now = true
  grants (some rl) ip now = (allow ip now rl).1

  -- A request that the handler of "/" does not get leaves the state as it is.
  pub route_over-aside :
      {S : Type 0} (next : Handler S) (i : Incoming) (limiter : Option RateLimiter) (x : S)
      (w : Writer)
      → is_proxied i ≡ false
      → ((route_over next i limiter x w).0 ≡ limiter) × ((route_over next i limiter x w).1 ≡ x)
  unfolding route_over
  route_over-aside next i limiter x w h = ground arith

  pub route_over-chain :
      {S : Type 0} (next : Handler S) (i : Incoming) (limiter : Option RateLimiter) (x : S)
      (w : Writer)
      → is_proxied i ≡ true
      → route_over next i limiter x w ≡ chain_over next i limiter x w
  unfolding route_over
  route_over-chain next i limiter x w h = ground arith

  pub chain_over-limited :
      {S : Type 0} (next : Handler S) (i : Incoming) (rl : RateLimiter) (x : S) (w : Writer)
      → let (rl', granted) = allow (client_of i) i.at rl in
        ((chain_over next i (some rl) x w).0 ≡ some rl')
        × ((chain_over next i (some rl) x w).1 ≡ (if granted then (next x w).0 else x))
  unfolding chain_over
  chain_over-limited next i rl x w =
      let (left, done) =
        middleware-frame o.parses o.split_host next i.request.target.header i.remote_addr i.at rl x
          w in
      (ap some left, done)

  -- The wrapped handler takes place exactly if the limiter lets the request pass.
  pub chain_over-frame :
      {S : Type 0} (next : Handler S) (i : Incoming) (limiter : Option RateLimiter) (x : S)
      (w : Writer)
      → (chain_over next i limiter x w).1
        ≡ (if grants limiter (client_of i) i.at then (next x w).0 else x)
  unfolding chain_over
  chain_over-frame next i none x w = refl
  chain_over-frame next i (some rl) x w = (chain_over-limited next i rl x w).1
