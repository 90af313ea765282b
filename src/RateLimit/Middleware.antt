-- ===== src/RateLimit/Middleware.antt =====
-- cmd/ratelimit/ratelimit.go: the middleware, over any wrapped handler.
use consensus_proxy.Base.{
  not_both, ℕ, ◌<◌, ◌≤◌, String, Bool, true, List, ℤ, pos, if◌then◌else◌, length, select, ◌≡◌, refl,
  sym, ◌∙◌, ◌↔◌, ◌⊎◌, inl, inr, arith, Bool-cases, Option,
}
use consensus_proxy.Http.{Writer, http_error}
use consensus_proxy.Http.Headers.{Header}
use consensus_proxy.RateLimit.{RateLimiter, allow, expiry, get_client_ip, middleware}
use consensus_proxy.RateLimit.Windows.{live, History}
use consensus_proxy.RateLimit.Laws.{allow_iff}

-- After such a history of its client, the middleware hands a request to the wrapped handler if the
-- client was served less often than the limit says in the window that ends now, and otherwise
-- answers 429 and the wrapped handler's state stays as it is.
pub middleware-allow :
    {S : Type 0} {limit : ℤ} {w : ℕ} {rl : RateLimiter} {t : ℕ} {served : List ℕ}
    (parses : String → Bool) (split_host : String → Option String) (next : S → Writer → S × Writer)
    (header : Header) (remote_addr : String) (r now : ℕ) (s : S) (out : Writer)
    → limit ≡ pos r
    → w ≤ expiry
    → History limit w (get_client_ip parses split_host header remote_addr) rl t served
    → t ≤ now
    → let (_, s', out') = middleware parses split_host next header remote_addr now rl s out in
      ((length (select (live w now) served) < r) × (s' ≡ (next s out).0) × (out' ≡ (next s out).1))
      ⊎ ((r ≤ length (select (live w now) served))
          × (s' ≡ s)
          × (out' ≡ http_error "Rate limit exceeded" 429 out))
unfolding middleware
middleware-allow {limit} {w} {rl} {t} {served} parses split_host next header remote_addr r now s out
      e small history h =
    let ip = get_client_ip parses split_host header remote_addr in
    let n = length (select (live w now) served) in
    let room : ((allow ip now rl).1 ≡ true) ↔ (n < r) = allow_iff r now e small history h in
    elim (Bool-cases (allow ip now rl).1) [
      | inl granted ↦ inl (room.0 granted, rw granted refl, rw granted refl)
      | inr refused ↦ inr (
        omega (arith, λ (k : n < r). not_both (sym (room.1 k) ∙ refused)),
        rw refused refl,
        rw refused refl,
      )
    ]

-- The limiter afterwards is that of a call for the request's client, and the wrapped handler takes
-- place exactly if that call is granted.
pub middleware-frame :
    {S : Type 0} (parses : String → Bool) (split_host : String → Option String)
    (next : S → Writer → S × Writer) (header : Header) (remote_addr : String) (now : ℕ)
    (rl : RateLimiter) (s : S) (out : Writer)
    → let (rl', s', _) = middleware parses split_host next header remote_addr now rl s out in
      let (rl'', granted) = allow (get_client_ip parses split_host header remote_addr) now rl in
      (rl' ≡ rl'') × (s' ≡ (if granted then (next s out).0 else s))
unfolding middleware
middleware-frame parses split_host next header remote_addr now rl s out =
    elim (Bool-cases (allow (get_client_ip parses split_host header remote_addr) now rl).1) [
      | inl e ↦ rw e (refl, refl)
      | inr e ↦ rw e (refl, refl)
    ]
