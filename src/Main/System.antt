-- ===== src/Main/System.antt =====
-- main.go: the running program. Requests, rounds of checks and cleanups of the limiter follow one
-- another in any order, with time going forward.
use consensus_proxy.Base.{
  ℕ, ◌≤◌, Bool, true, false, not, ◌&&◌, str_eq, eq_iff, List, [], ◌∷◌, ◌++◌, arith, if◌then◌else◌,
  Reorders, subst, ◌≡◌, refl, sym, ap, ◌∙◌, ◌⊎◌, inl, inr, Bool-cases, Option, none, some,
}
use consensus_proxy.Http.{Writer}
use consensus_proxy.Validator.{new_beacon_endpoint_validator}
use consensus_proxy.Node.Sync.{SyncReply}
use consensus_proxy.RateLimit.{RateLimiter, cleanup}
use consensus_proxy.Handlers.Laws.{cors_handler_lem}
use consensus_proxy.Balancer.{LoadBalancer}
use consensus_proxy.Balancer.Health.{perform_health_check}
use consensus_proxy.Balancer.Serve.{Request, serve_http}
use consensus_proxy.Balancer.Reach.{Reach, here, next, events_of}
use consensus_proxy.Balancer.Reach
use consensus_proxy.Main.{State}
use consensus_proxy.Main.Routes.{
  Incoming, Outside, balanced, chain_over, route, is_proxied, client_of, grants, route_over-aside,
  route_over-chain, chain_over-frame,
}

-- One round of `performHealthCheck` on the shared balancer.
abbrev pub check_state : (List ℕ → List ℕ) → (ℕ → SyncReply) → State → State
check_state arrival reply s = record s { balancer = perform_health_check arrival reply s.balancer }

-- A cleanup, where there is a limiter.
abbrev pub clean_state : ℕ → State → State
clean_state now s = record s {
  rate_limiter = elim s.rate_limiter [ none ↦ none | some rl ↦ some (cleanup now rl) ];
}

pub data Run (o : Outside) (from : State) : State → ℕ → Type 0 where
  begin : Run o from from 0
  serve :
      {s : State} {t : ℕ} (i : Incoming) (w : Writer)
      → Run o from s t
      → t ≤ i.at
      → Run o from (route o i s w).0 i.at
  check :
      {s : State} {t : ℕ} (arrival : List ℕ → List ℕ) (reply : ℕ → SyncReply)
      → Run o from s t
      → Reorders arrival
      → Run o from (check_state arrival reply s) t
  clean :
      {s : State} {t : ℕ} (now : ℕ) → Run o from s t → t ≤ now → Run o from (clean_state now s) now

-- Whether the balancer serves a request: it is meant for "/", within the limit and no preflight.
abbrev pub is_served : Outside → Incoming → State → Bool
is_served o i s =
    is_proxied o i
    && (grants o s.rate_limiter (client_of o i) i.at && not (str_eq i.method "OPTIONS"))

-- The requests that the balancer serves in a run and, as `none`, the rounds of checks, in order.
abbrev pub served_in :
    {o : Outside} {from s : State} {t : ℕ} → Run o from s t → List (Option Request)
served_in begin = []
served_in {o} (serve {s} i w r h) =
    let before = served_in r in if is_served o i s then before ++ some i.request ∷ [] else before
served_in (check arrival reply r order) = served_in r ++ none ∷ []
served_in (clean now r h) = served_in r

balanced-frame :
    (i : Incoming) (lb : LoadBalancer) (w : Writer)
    → ((str_eq i.method "OPTIONS" ≡ true) × ((balanced i lb w).0 ≡ lb))
      ⊎ ((str_eq i.method "OPTIONS" ≡ false)
          × ((w' : Writer) × ((balanced i lb w).0
                ≡ (serve_http new_beacon_endpoint_validator i.request lb w').0)))
unfolding balanced
balanced-frame i lb w =
    let (w', cases, _, _, _) =
      cors_handler_lem (serve_http new_beacon_endpoint_validator i.request) i.method lb w in
    elim cases [
      | inl (preflight, e) ↦ inl ((eq_iff i.method "OPTIONS").1 preflight, ap (λ out. out.0) e)
      | inr (other, e) ↦
          inr (ground (arith, other, eq_iff i.method "OPTIONS"), (w', ap (λ out. out.0) e))
    ]

-- What a request does to the balancer.
abbrev Effect : Outside → Incoming → State → LoadBalancer → Type 0
Effect o i s lb =
    ((is_served o i s ≡ false) × (lb ≡ s.balancer))
    ⊎ ((is_served o i s ≡ true)
        × ((w' : Writer) × (lb
              ≡ (serve_http new_beacon_endpoint_validator i.request s.balancer w').0)))

chain-Effect :
    (o : Outside) (i : Incoming) (s : State) (w : Writer)
    → is_proxied o i ≡ true
    → Effect o i s (chain_over o (balanced i) i s.rate_limiter s.balancer w).1
chain-Effect o i s w proxied =
    let passed = chain_over-frame o (balanced i) i s.rate_limiter s.balancer w in
    elim (Bool-cases (grants o s.rate_limiter (client_of o i) i.at)) [
      | inr refused ↦ inl (rw (proxied, refused) refl, passed ∙ rw refused refl)
      | inl granted ↦ elim (balanced-frame i s.balancer w) [
        | inl (preflight, same) ↦
            inl (rw (proxied, granted, preflight) refl, passed ∙ rw granted same)
        | inr (other, (w', same)) ↦
            inr (rw (proxied, granted, other) refl, (w', passed ∙ rw granted same))
      ]
    ]

route-Effect :
    (o : Outside) (i : Incoming) (s : State) (w : Writer) → Effect o i s (route o i s w).0.balancer
unfolding route
route-Effect o i s w = elim (Bool-cases (is_proxied o i)) [
  | inl e ↦
      subst (λ (x : Option RateLimiter × LoadBalancer × Writer). Effect o i s x.1)
        (sym (route_over-chain o (balanced i) i s.rate_limiter s.balancer w e))
        (chain-Effect o i s w e)
  | inr e ↦ inl (rw e refl, (route_over-aside o (balanced i) i s.rate_limiter s.balancer w e).1)
]

-- Every run of the program is, for the balancer, a history of exactly the rounds of checks of the
-- run and those of its requests that are meant for "/", within the limit and no preflight, in
-- order: no other request, and no cleanup, changes the balancer.
pub Run-Reach :
    {o : Outside} {from s : State} {t : ℕ} (run : Run o from s t)
    → (history : Reach new_beacon_endpoint_validator from.balancer s.balancer) × (events_of history
        ≡ served_in run)
Run-Reach begin = (here, refl)
Run-Reach {o} {from} (serve {s} i w r h) =
    let (history, same) = Run-Reach r in
    elim (route-Effect o i s w) [
      | inl (aside, e) ↦ subst Follows (sym e) (history, rw aside same)
      | inr (served, (w', e)) ↦ subst Follows (sym e) (
        next history (Reach.request i.request w'),
        rw served (ap (λ xs. xs ++ some i.request ∷ []) same),
      )
    ]
  where
    Follows : LoadBalancer → Type 0
    Follows lb =
        (history : Reach new_beacon_endpoint_validator from.balancer lb) × (events_of history
          ≡ (if is_served o i s then served_in r ++ some i.request ∷ [] else served_in r))
Run-Reach (check arrival reply r order) =
    let (history, same) = Run-Reach r in
    (next history (Reach.round arrival reply order), ap (λ xs. xs ++ none ∷ []) same)
Run-Reach (clean now r h) = Run-Reach r
