-- ===== src/Node/Tests.antt =====
-- A rewritten request and a cached host: cmd/beaconnode/proxy_config.go and dns_cache.go.
use consensus_proxy.Base.{true, [], ◌∷◌, str_eq, pos, if◌then◌else◌, ◌≡◌, arith, none, some}
use consensus_proxy.Http.Headers.{header_get, lookup}
use consensus_proxy.Node.Director.{OutRequest, proxy_director}
use consensus_proxy.Node.Director.Laws.{proxy_director_lem}
use consensus_proxy.Node.DnsCache.{Network, DnsCache, cached_resolver, expire}
use consensus_proxy.Node.DnsCache.Laws.{start, call, wake_up, Scheduled, History-Scheduled}

abbrev forwarded_request : OutRequest
forwarded_request = record {
  method = "GET";
  host = "proxy";
  header = ("X-Forwarded-For", "1.2.3.4" ∷ []) ∷ ("Referer", "r" ∷ []) ∷ [];
}

abbrev unchanged : OutRequest → OutRequest
unchanged r = r

director_example :
    let before = forwarded_request.header in
    let out = proxy_director unchanged "node" "https" "proxy/1" forwarded_request in
    (out.host ≡ "node")
    × (header_get "Accept" out.header ≡ "application/json")
    × (header_get "User-Agent" out.header ≡ (
        if str_eq (header_get "User-Agent" before) ""
        then "proxy/1"
        else header_get "User-Agent" before))
    × (lookup "X-Forwarded-For" out.header ≡ none)
    × (lookup "X-Real-IP" out.header ≡ none)
    × (lookup "Referer" out.header ≡ none)
director_example = proxy_director_lem unchanged "node" "https" "proxy/1" forwarded_request

-- Each host has one address, which answers.
abbrev network : Network
network = record {
  split_host_port = λ a. some (a, "80");
  lookup_ip = λ host. some ("10.0.0.1" ∷ []);
  dial = λ ip port. true;
}

abbrev empty : DnsCache
empty = record { entries = λ q. none; expiries = [] }

abbrev cached : DnsCache
cached = (cached_resolver network (pos 30) "node" 5 empty).0

deletion_example : Scheduled 30 (expire 20 cached) 20 "node"
deletion_example =
    History-Scheduled "node" (wake_up 20 (call network "node" 5 start (omega arith)) (omega arith))
