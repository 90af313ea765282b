-- ===== src/Node/DnsCache.antt =====
-- cmd/beaconnode/dns_cache.go: the resolver's cache of addresses and the deletions that it has
-- scheduled. Splitting an address, the lookup and the dialling belong to Go's net package: what
-- they answer is a `Network`. An instant is a number of nanoseconds, and a call and a deletion
-- are single steps.
pub mod Laws
use consensus_proxy.Base.{
  ℕ, ◌+◌, String, Bool, not, List, [], ◌∷◌, str_eq, leb, pos, negsuc, if◌then◌else◌, select,
  find_first, exists, Option, none, some, ◌&&◌,
}
use consensus_proxy.Config.{Duration}

pub record Network : Type 0 where
  -- The host and the port of an address.
  pub split_host_port : String → Option (String × String)
  pub lookup_ip : String → Option (List String)
  pub dial : String → String → Bool

pub record DnsCache : Type 0 where
  pub entries : String → Option (List String)
  -- The scheduled deletions: a host and a time.
  pub expiries : List (String × ℕ)

pub data Dialled : Type 0 where
  connected : String → Dialled
  bad_address : Dialled
  lookup_failed : Dialled
  not_connected : String → Dialled

-- When a sleep of this length ends.
abbrev pub wake : Duration → ℕ → ℕ
wake (pos d) now = now + d
wake (negsuc d) now = now

-- The loop that dials one address after the other.
pub dial_ips : Network → String → String → List String → Dialled
dial_ips net host port ips = elim (find_first (λ ip. net.dial ip port) ips) [
  | none ↦ not_connected host
  | some ip ↦ connected ip
]

-- The new entry, and its deletion after the time to live.
pub cache_host : String → List String → ℕ → DnsCache → DnsCache
cache_host host ips deadline cache = record {
  entries = λ q. if str_eq q host then some ips else cache.entries q;
  expiries = (host, deadline) ∷ cache.expiries;
}

-- A lookup's result is cached.
pub cache_lookup : String → ℕ → DnsCache → Option (List String) → DnsCache × Option (List String)
unfolding cache_host
cache_lookup host deadline cache none = (cache, none)
cache_lookup host deadline cache (some ips) = (cache_host host ips deadline cache, some ips)

-- The addresses of a host, from its entry: the cached ones, if any, and else those looked up.
pub resolve :
    Network
    → Duration
    → String
    → ℕ
    → DnsCache
    → Option (List String)
    → DnsCache × Option (List String)
unfolding cache_lookup
resolve net cache_ttl host now cache none =
    cache_lookup host (wake cache_ttl now) cache (net.lookup_ip host)
resolve net cache_ttl host now cache (some []) =
    cache_lookup host (wake cache_ttl now) cache (net.lookup_ip host)
resolve net cache_ttl host now cache (some (ip ∷ ips)) = (cache, some (ip ∷ ips))

-- What follows the addresses.
pub dial_resolved : Network → String → String → Option (List String) → Dialled
unfolding dial_ips
dial_resolved net host port none = lookup_failed
dial_resolved net host port (some ips) = dial_ips net host port ips

-- The host and the port, where the address has them.
pub connect : Network → Duration → ℕ → DnsCache → Option (String × String) → DnsCache × Dialled
unfolding resolve dial_resolved
connect net cache_ttl now cache none = (cache, bad_address)
connect net cache_ttl now cache (some (host, port)) =
    let r = resolve net cache_ttl host now cache (cache.entries host) in
    (r.0, dial_resolved net host port r.1)

-- The function that `cachedResolver` returns, at the time `now`.
pub cached_resolver : Network → Duration → String → ℕ → DnsCache → DnsCache × Dialled
unfolding connect
cached_resolver net cache_ttl address now cache =
    connect net cache_ttl now cache (net.split_host_port address)

-- The goroutines that wake up until `now` delete their hosts.
pub expire : ℕ → DnsCache → DnsCache
expire now cache = record {
  entries = λ q.
      if exists (λ (x : String × ℕ). str_eq x.0 q && leb x.1 now) cache.expiries
      then none
      else cache.entries q;
  expiries = select (λ (x : String × ℕ). not (leb x.1 now)) cache.expiries;
}
