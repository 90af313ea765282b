-- ===== src/Config/Validation/Laws.antt =====
-- cmd/config/config.go: the conditions that `Validate` tests.
use consensus_proxy.Base.{
  ℕ, suc, ◌<◌, ◌≤◌, true, false, List, [], ◌∷◌, eq_iff, pos, length, All, ◌≡◌, refl, ◌≢◌, ◌↔◌, ◌⊎◌,
  arith, Option, none, some,
}
use consensus_proxy.Config.{
  Config, NodeConfig, LoggerConfig, RateLimitConfig, HealthCheckConfig, get_all_nodes,
}
use consensus_proxy.Config.Validation.{
  ConfigError, or_else, validate_beacons, validate_server, valid_types, valid_levels, valid_formats,
  among, validate_node, validate_nodes, validate_logger, validate_rate_limit, validate_health_check,
  validate,
}

-- Some nodes, one for each name.
abbrev pub ValidBeacons : Config → Type 0
ValidBeacons c =
    (c.beacons.parsed_nodes ≢ []) × (length c.beacons.parsed_nodes ≡ length c.beacons.nodes)

abbrev pub ValidServer : Config → Type 0
ValidServer c =
    ((p : ℕ) × (c.server.port ≡ pos p) × (1 ≤ p) × (p ≤ 65535))
    × ((m : ℕ) × (c.server.max_retries ≡ pos m) × (1 ≤ m))
    × ((t : ℕ) × (c.server.request_timeout ≡ pos t) × (1 ≤ t))
    × ((e : ℕ) × (c.failover.error_threshold ≡ pos e) × (1 ≤ e))

-- A name, a URL, and a type that is known or left out.
abbrev pub ValidNode : NodeConfig → Type 0
ValidNode n =
    (n.name ≢ "") × (n.url ≢ "") × ((n.beacon_type ≡ "") ⊎ (among n.beacon_type valid_types ≡ true))

abbrev pub ValidLogger : LoggerConfig → Type 0
ValidLogger l = (among l.level valid_levels ≡ true) × (among l.format valid_formats ≡ true)

abbrev pub ValidRateLimit : RateLimitConfig → Type 0
ValidRateLimit r =
    (r.enabled ≡ false)
    ⊎ (((n : ℕ) × (r.requests_per_second ≡ pos n) × (1 ≤ n))
        × ((w : ℕ) × (r.window ≡ pos w) × (1 ≤ w)))

abbrev pub ValidHealthCheck : HealthCheckConfig → Type 0
ValidHealthCheck h =
    (i : ℕ) × (t : ℕ) × (n : ℕ) × (h.interval ≡ pos i)
    × (h.timeout ≡ pos t)
    × (h.successful_checks_for_failback ≡ pos n)
    × (1 ≤ t)
    × (t < i)
    × (1 ≤ n)

-- The first error is missing exactly if both are.
chain :
    {P Q : Type 0} (a b : Option ConfigError)
    → (a ≡ none) ↔ P
    → (b ≡ none) ↔ Q
    → (or_else a b ≡ none) ↔ (P × Q)
chain none b f g = ((λ e. (f.0 refl, g.0 e)), λ h. g.1 h.1)
chain (some e) b f g = ((λ h. cc), λ h. f.1 h.0)

beacons_lem : (c : Config) → (validate_beacons c ≡ none) ↔ ValidBeacons c
unfolding validate_beacons
beacons_lem c = ground arith

node_lem : (i : ℕ) (n : NodeConfig) → (validate_node i n ≡ none) ↔ ValidNode n
unfolding validate_node
node_lem i n = ground (arith, eq_iff n.name "", eq_iff n.url "", eq_iff n.beacon_type "")

nodes_lem : (i : ℕ) (ns : List NodeConfig) → (validate_nodes i ns ≡ none) ↔ All ValidNode ns
unfolding validate_nodes
nodes_lem i [] = ((λ e. tt), λ h. refl)
nodes_lem i (n ∷ ns) =
    chain (validate_node i n) (validate_nodes (suc i) ns) (node_lem i n) (nodes_lem (suc i) ns)

server_lem : (c : Config) → (validate_server c ≡ none) ↔ ValidServer c
unfolding validate_server
server_lem c = ground arith

logger_lem : (l : LoggerConfig) → (validate_logger l ≡ none) ↔ ValidLogger l
unfolding validate_logger
logger_lem l = ground arith

rate_limit_lem : (r : RateLimitConfig) → (validate_rate_limit r ≡ none) ↔ ValidRateLimit r
unfolding validate_rate_limit
rate_limit_lem r = ground arith

health_check_lem : (h : HealthCheckConfig) → (validate_health_check h ≡ none) ↔ ValidHealthCheck h
unfolding validate_health_check
health_check_lem h = ground arith

-- A configuration that may be used.
pub record IsValid (c : Config) : Type 0 where
  pub beacons : ValidBeacons c
  pub server : ValidServer c
  pub nodes : All ValidNode (get_all_nodes c)
  pub logger : ValidLogger c.logger
  pub rate_limit : ValidRateLimit c.rate_limit
  pub health_check : ValidHealthCheck c.health_check

-- A configuration is accepted exactly if there is a node, and one for each name, the port, the
-- counts and the durations are in their ranges, those of the rate limit if it is enabled, each node
-- has a name, a URL and a known type, if any, and the logger's level and format are known.
pub validate_iff : (c : Config) → (validate c ≡ none) ↔ IsValid c
unfolding validate
validate_iff c =
    let all = chain (validate_beacons c) _ (beacons_lem c) (
      chain (validate_server c) _ (server_lem c) (
        chain (validate_nodes 0 (get_all_nodes c)) _ (nodes_lem 0 (get_all_nodes c)) (
          chain (validate_logger c.logger) _ (logger_lem c.logger) (
            chain (validate_rate_limit c.rate_limit) (validate_health_check c.health_check)
              (rate_limit_lem c.rate_limit) (health_check_lem c.health_check))))) in
    (
      λ e.
          let (b, (s, (n, (l, (r, h))))) = all.0 e in
          record {
            beacons = b;
            server = s;
            nodes = n;
            logger = l;
            rate_limit = r;
            health_check = h;
          },
      λ v. all.1 (v.beacons, (v.server, (v.nodes, (v.logger, (v.rate_limit, v.health_check))))),
    )
