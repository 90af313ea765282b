-- ===== src/RateLimit.antt =====
-- cmd/ratelimit/ratelimit.go: a sliding window of requests for each client, the cleanup of clients
-- that were not seen for a while, and the middleware. An instant is a number of nanoseconds; the
-- map of clients is a function; each operation runs under the limiter's lock. `net.ParseIP` and
-- `net.SplitHostPort` belong to Go's library: whether a text is an address, and the host of one,
-- are arguments.
pub mod Windows
pub mod Addresses
pub mod Laws
pub mod Middleware
pub mod Tests
use consensus_proxy.Base.{
  ℕ, suc, ◌+◌, ◌*◌, ◌-◌, String, Bool, true, false, not, List, [], ◌∷◌, ◌++◌, str_eq, ltb, leb_ℤ, ℤ,
  pos, negsuc, if◌then◌else◌, length, select, ◌==◌, Option, none, some, ◌&&◌,
}
use Prim.Native.Char.{code}
use consensus_proxy.Config.{Duration, minute}
use consensus_proxy.Http.{Writer, http_error}
use consensus_proxy.Http.Headers.{Header, header_get}

pub record ClientBucket : Type 0 where
  pub requests : List ℕ
  pub last_seen : ℕ

pub record RateLimiter : Type 0 where
  pub clients : String → Option ClientBucket
  pub rps : ℤ
  pub window : Duration

-- `New`; the ticks of the cleanup's ticker are calls of `cleanup`.
abbrev pub new_rate_limiter : ℤ → Duration → RateLimiter
new_rate_limiter requests_per_second window = record {
  clients = λ ip. none;
  rps = requests_per_second;
  window = window;
}

abbrev pub store : String → ClientBucket → RateLimiter → RateLimiter
store ip bucket rl = record rl { clients = λ q. if str_eq q ip then some bucket else rl.clients q }

-- The requests of a client, none where there is no bucket yet.
abbrev pub requests_of : RateLimiter → String → List ℕ
requests_of rl ip = elim (rl.clients ip) [ none ↦ [] | some bucket ↦ bucket.requests ]

-- `t.After(now.Add(-window))`
abbrev pub is_after_cutoff : Duration → ℕ → ℕ → Bool
is_after_cutoff (pos w) now t = ltb now (t + w)
is_after_cutoff (negsuc n) now t = ltb (now + suc n) t

-- `Allow` at the time `now`.
pub allow : String → ℕ → RateLimiter → RateLimiter × Bool
allow ip now rl =
    let valid_requests = select (is_after_cutoff rl.window now) (requests_of rl ip) in
    if leb_ℤ rl.rps (pos (length valid_requests))
    then (store ip (record { requests = valid_requests; last_seen = now }) rl, false)
    else (store ip (record { requests = valid_requests ++ now ∷ []; last_seen = now }) rl, true)

-- Clients that were not seen for this long are removed.
abbrev pub expiry : ℕ
expiry = 5 * minute

-- A client's bucket after a cleanup.
abbrev pub swept : ℕ → Option ClientBucket → Option ClientBucket
swept now none = none
swept now (some bucket) = if ltb (bucket.last_seen + expiry) now then none else some bucket

-- One round of `cleanup` at the time `now`.
pub cleanup : ℕ → RateLimiter → RateLimiter
cleanup now rl = record rl { clients = λ ip. swept now (rl.clients ip) }

-- The text before the first comma.
pub before_comma : String → Option String
before_comma String.[] = none
before_comma (String.◌∷◌ c s) =
    if code c == b','
    then some ""
    else elim (before_comma s) [ none ↦ none | some ip ↦ some (String.◌∷◌ c ip) ]

abbrev pub with_default : String → Option String → String
with_default s none = s
with_default s (some h) = h

module _ (parses : String → Bool) (split_host : String → Option String) where
  -- `parseFirstIP`
  pub parse_first_ip : String → String
  parse_first_ip ips =
      let whole = if parses ips then ips else "" in
      elim (before_comma ips) [ none ↦ whole | some ip ↦ if parses ip then ip else whole ]

  -- `getClientIP`, of a request's headers and remote address.
  pub get_client_ip : Header → String → String
  unfolding parse_first_ip
  get_client_ip header remote_addr =
      let xff = header_get "X-Forwarded-For" header in
      let xri = header_get "X-Real-IP" header in
      let host = with_default remote_addr (split_host remote_addr) in
      let real = if not (str_eq xri "") && parses xri then xri else host in
      if not (str_eq xff "") && not (str_eq (parse_first_ip xff) "")
      then parse_first_ip xff
      else real

  -- The handler that `Middleware` returns. The wrapped handler, `next`, changes a state of its own.
  pub middleware :
      {S : Type 0}
      → (S → Writer → S × Writer)
      → Header
      → String
      → ℕ
      → RateLimiter
      → S
      → Writer
      → RateLimiter × S × Writer
  unfolding get_client_ip allow
  middleware next header remote_addr now rl s w =
      let (rl', allowed) = allow (get_client_ip header remote_addr) now rl in
      if not allowed
      then (rl', s, http_error "Rate limit exceeded" 429 w)
      else (rl', (next s w).0, (next s w).1)
