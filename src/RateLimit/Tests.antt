-- ===== src/RateLimit/Tests.antt =====
-- Calls of one client with a limit of two requests in ten nanoseconds: cmd/ratelimit/ratelimit.go.
use consensus_proxy.Base.{
  ℕ, ◌*◌, ◌<◌, ◌≤◌, String, Bool, true, false, List, [], ◌∷◌, ◌++◌, str_eq, pos, if◌then◌else◌,
  length, select, ◌≡◌, refl, ◌↔◌, ◌⊎◌, arith, Option, none, some, ◌&&◌,
}
use consensus_proxy.Http.Headers.{header_get, Header}
use consensus_proxy.Config.{minute}
use consensus_proxy.RateLimit.{RateLimiter, new_rate_limiter, allow, cleanup, expiry, get_client_ip}
use consensus_proxy.RateLimit.Windows.{live, History, start, call}
use consensus_proxy.RateLimit.Laws.{allow-bounded, allow_iff, allow-cleanup}
use consensus_proxy.RateLimit.Addresses.{Names, NamesNone, host_of, get_client_ip_lem}

abbrev limiter : RateLimiter
limiter = new_rate_limiter (pos 2) (pos 10)

abbrev after_one : RateLimiter
after_one = (allow "1.2.3.4" 5 limiter).0

abbrev one_call : List ℕ
one_call = if str_eq "1.2.3.4" "1.2.3.4" && (allow "1.2.3.4" 5 limiter).1 then [] ++ 5 ∷ [] else []

one_call-History : History (pos 2) 10 "1.2.3.4" after_one 5 one_call
one_call-History = call "1.2.3.4" 5 start (omega arith)

small_window : 10 ≤ expiry
small_window = ground arith

bounded_example : length (select (live 10 7) one_call) ≤ 2
bounded_example = allow-bounded 2 7 refl small_window one_call-History (omega arith)

allow_example :
    ((allow "1.2.3.4" 7 after_one).1 ≡ true) ↔ (length (select (live 10 7) one_call) < 2)
allow_example = allow_iff 2 7 refl small_window one_call-History (omega arith)

-- A window of ten minutes, and a client that was served at the time 0.
abbrev long_window : RateLimiter
long_window = record {
  clients = λ ip. some (record { requests = 0 ∷ []; last_seen = 0 });
  rps = pos 1;
  window = pos (10 * minute);
}

cleanup_example : (allow "1.2.3.4" (6 * minute) (cleanup (6 * minute) long_window)).1 ≡ true
cleanup_example =
    allow-cleanup "1.2.3.4" (6 * minute) 1 (record { requests = 0 ∷ []; last_seen = 0 }) long_window
      refl (ground arith) refl (omega arith)

-- Only X-Real-IP holds an address.
abbrev forwarded : Header
forwarded = ("X-Forwarded-For", "unknown" ∷ []) ∷ ("X-Real-IP", "1.2.3.4" ∷ []) ∷ []

abbrev parses : String → Bool
parses s = str_eq s "1.2.3.4"

abbrev no_host : String → Option String
no_host s = none

address_example :
    let ip = get_client_ip parses no_host forwarded "@" in
    let xff = header_get "X-Forwarded-For" forwarded in
    let xri = header_get "X-Real-IP" forwarded in
    Names parses no_host xff ip
    ⊎ (NamesNone parses no_host xff × (parses xri ≡ true) × (ip ≡ xri))
    ⊎ (NamesNone parses no_host xff × (parses xri ≡ false) × (ip ≡ host_of parses no_host "@"))
address_example = get_client_ip_lem parses no_host forwarded "@" refl

abbrev counted : String
counted = get_client_ip parses no_host [] "@"
