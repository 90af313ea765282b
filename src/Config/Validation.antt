-- ===== src/Config/Validation.antt =====
-- cmd/config/config.go: `Validate`, section by section, with the first guard that fires. The
-- arguments of an error's text are the arguments of its constructor.
pub mod Laws
use consensus_proxy.Base.{
  ℕ, suc, String, Bool, not, List, [], ◌∷◌, str_eq, ltb_ℤ, leb_ℤ, ℤ, pos, if◌then◌else◌, length,
  exists, ◌==◌, Option, none, some, ◌&&◌, ◌||◌,
}
use consensus_proxy.Config.{
  Config, NodeConfig, LoggerConfig, RateLimitConfig, HealthCheckConfig, get_all_nodes,
}

pub data ConfigError : Type 0 where
  no_nodes names_empty no_configurations mismatch : ConfigError
  invalid_port : ℤ → ConfigError
  max_retries_small request_timeout_small error_threshold_small : ConfigError
  name_empty : ℕ → ConfigError
  url_empty : ℕ → String → ConfigError
  invalid_type : ℕ → String → String → ConfigError
  invalid_level invalid_format : String → ConfigError
  rate_small window_small : ConfigError
  interval_small timeout_small timeout_large failback_small : ConfigError

-- The first error of the guards so far, and else what the rest says.
abbrev pub or_else : Option ConfigError → Option ConfigError → Option ConfigError
or_else (some e) rest = some e
or_else none rest = rest

-- The number of beacons against the names.
pub validate_beacons : Config → Option ConfigError
validate_beacons c =
    if length (get_all_nodes c) == 0
    then some no_nodes
    else if length c.beacons.nodes == 0
    then some names_empty
    else if length c.beacons.parsed_nodes == 0
    then some no_configurations
    else if not (length c.beacons.parsed_nodes == length c.beacons.nodes)
    then some mismatch
    else none

pub validate_server : Config → Option ConfigError
validate_server c =
    if ltb_ℤ c.server.port (pos 1) || ltb_ℤ (pos 65535) c.server.port
    then some (invalid_port c.server.port)
    else if ltb_ℤ c.server.max_retries (pos 1)
    then some max_retries_small
    else if leb_ℤ c.server.request_timeout (pos 0)
    then some request_timeout_small
    else if ltb_ℤ c.failover.error_threshold (pos 1)
    then some error_threshold_small
    else none

abbrev pub valid_types : List String
valid_types = "lighthouse" ∷ "prysm" ∷ "nimbus" ∷ "teku" ∷ "erigon" ∷ "infura" ∷ "alchemy" ∷ []

abbrev pub valid_levels : List String
valid_levels = "debug" ∷ "info" ∷ "warn" ∷ "error" ∷ []

abbrev pub valid_formats : List String
valid_formats = "json" ∷ "text" ∷ []

-- A lookup in a map of texts that are all true.
abbrev pub among : String → List String → Bool
among s = exists (λ t. str_eq s t)

pub validate_node : ℕ → NodeConfig → Option ConfigError
validate_node i node =
    if str_eq node.name ""
    then some (name_empty i)
    else if str_eq node.url ""
    then some (url_empty i node.name)
    else if not (str_eq node.beacon_type "") && not (among node.beacon_type valid_types)
    then some (invalid_type i node.name node.beacon_type)
    else none

-- The loop over the nodes, from number `i` on.
pub validate_nodes : ℕ → List NodeConfig → Option ConfigError
unfolding validate_node
validate_nodes i [] = none
validate_nodes i (node ∷ nodes) = or_else (validate_node i node) (validate_nodes (suc i) nodes)

pub validate_logger : LoggerConfig → Option ConfigError
validate_logger logger =
    if not (among logger.level valid_levels)
    then some (invalid_level logger.level)
    else if not (among logger.format valid_formats)
    then some (invalid_format logger.format)
    else none

pub validate_rate_limit : RateLimitConfig → Option ConfigError
validate_rate_limit rate_limit =
    if rate_limit.enabled && ltb_ℤ rate_limit.requests_per_second (pos 1)
    then some rate_small
    else if rate_limit.enabled && leb_ℤ rate_limit.window (pos 0)
    then some window_small
    else none

pub validate_health_check : HealthCheckConfig → Option ConfigError
validate_health_check health_check =
    if leb_ℤ health_check.interval (pos 0)
    then some interval_small
    else if leb_ℤ health_check.timeout (pos 0)
    then some timeout_small
    else if leb_ℤ health_check.interval health_check.timeout
    then some timeout_large
    else if ltb_ℤ health_check.successful_checks_for_failback (pos 1)
    then some failback_small
    else none

-- `Validate`
unfoldable pub validate : Config → Option ConfigError
unfolding validate_beacons validate_server validate_nodes validate_logger validate_rate_limit
    validate_health_check
validate c = or_else (validate_beacons c) (
    or_else (validate_server c) (
      or_else (validate_nodes 0 (get_all_nodes c)) (
        or_else (validate_logger c.logger)
          (or_else (validate_rate_limit c.rate_limit) (validate_health_check c.health_check)))))
