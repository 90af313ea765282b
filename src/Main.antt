-- ===== src/Main.antt =====
-- main.go: the arguments, the start of the parts, and what main itself logs. What the parts log
-- through the default logger is left out, and the log's times are that of the start. The system
-- outside is an `Environment`.
pub mod Routes
pub mod Laws
pub mod System
pub mod Limits
pub mod Tests
pub mod Answers
pub mod Lifetime
use consensus_proxy.Base.{
  ℕ, suc, ◌+◌, ◌-◌, String, Bool, false, not, List, [], ◌∷◌, ◌++◌, str_eq, ltb, if◌then◌else◌,
  length, Option, none, some, ◌||◌,
}
use consensus_proxy.Http.{Bytes, bytes_of}
use consensus_proxy.Format.{decimal}
use consensus_proxy.Config.{Config, NodeConfig, Duration, get_all_nodes, get_listen_addr}
use consensus_proxy.Config.Loading.{ConfigFile, load_or_default}
use consensus_proxy.Node.{BeaconNode}
use consensus_proxy.Node.Sync.{SyncReply}
use consensus_proxy.Logger.{
  Attr, text, printed, int, Logger, LogConfig, Logging, new_from_config_struct, level_info, log,
  log_config, log_error, log_startup, init,
}
use consensus_proxy.Balancer.{LoadBalancer, NewError, new, ok, err}
use consensus_proxy.Balancer.Startup.{StartupError, startup_health_check}
use consensus_proxy.RateLimit.{RateLimiter, new_rate_limiter}

pub record Environment : Type 0 where
  -- The value of CONSENSUS_PROXY_CONFIG, "" if it is not set.
  pub config_variable : String
  pub files : String → ConfigFile
  -- The files that can be opened for the log.
  pub opens : String → Bool
  pub url_parses : String → Bool
  pub now : ℕ
  -- The node at an address that is not allocated.
  pub blank : BeaconNode
  -- The order in which the results of the startup check arrive, and the nodes' replies.
  pub arrival : List ℕ → List ℕ
  pub reply : ℕ → SyncReply
  -- The texts of times, durations and errors.
  pub rfc3339 : ℕ → String
  pub duration_text : Duration → String
  pub new_error_text : NewError → String
  pub startup_error_text : StartupError → String

-- What the command line asks for.
pub data Command : Type 0 where
  show_help : Command
  run : String → Command

abbrev value_or : String → List String → String
value_or path [] = path
value_or path (value ∷ rest) = value

-- The `switch` on the first argument, with the arguments that follow it.
abbrev first_argument : String → String → List String → Command
first_argument path argument rest =
    if str_eq argument "--config" || str_eq argument "-c"
    then run (value_or path rest)
    else if str_eq argument "--help" || str_eq argument "-h"
    then show_help
    else run argument

-- The file to load, from the environment variable and `os.Args`.
unfoldable pub command : String → List String → Command
command config_variable args =
    let path = if str_eq config_variable "" then "config.toml" else config_variable in
    elim args [
      | [] ↦ run path
      | (program ∷ rest) ↦ elim rest [
        | [] ↦ run path
        | (argument ∷ values) ↦ first_argument path argument values
      ]
    ]

-- What the handlers share.
pub record State : Type 0 where
  pub balancer : LoadBalancer
  pub rate_limiter : Option RateLimiter

-- The `http.Server` that listens, and the state of its handlers.
pub record Server : Type 0 where
  pub addr : Bytes
  pub read_timeout : Duration
  pub write_timeout : Duration
  pub idle_timeout : Duration
  pub read_header_timeout : Duration
  pub state : State

pub data Failure : Type 0 where
  creation_failed : NewError → Failure
  check_failed : StartupError → Failure

-- The end of `main` before it serves, with the exit status 0 or 1, or the server that it starts.
pub data Outcome : Type 0 where
  helped : Outcome
  exited : Failure → Logging → Outcome
  serving : Server → Logging → Outcome

abbrev pub server_of : Config → State → Server
server_of cfg s = record {
  addr = get_listen_addr cfg;
  read_timeout = cfg.server.read_timeout;
  write_timeout = cfg.server.write_timeout;
  idle_timeout = cfg.server.idle_timeout;
  read_header_timeout = cfg.server.read_header_timeout;
  state = s;
}

abbrev priority_text : ℕ → Attr
priority_text i =
    ("priority", if ltb 0 i then printed (bytes_of "backup-" ++ decimal i) else text "primary")

abbrev node_fields : ℕ → NodeConfig → List Attr
node_fields i node =
    let fields : List Attr = ("name", text node.name) ∷ priority_text i ∷ [] in
    if not (str_eq node.beacon_type "")
    then fields ++ ("type", text node.beacon_type) ∷ []
    else fields

module _ (env : Environment) where
  -- The loop that logs the nodes, from number `i` on.
  log_nodes : ℕ → List NodeConfig → Logger → Logging → Logging
  log_nodes i [] l st = st
  log_nodes i (node ∷ nodes) l st =
      log_nodes (suc i) nodes l
        (log env.rfc3339 level_info env.now "beacon node configured" (node_fields i node) l st)

  abbrev pub limiter_of : Config → Option RateLimiter
  limiter_of cfg =
      if cfg.rate_limit.enabled
      then some (new_rate_limiter cfg.rate_limit.requests_per_second cfg.rate_limit.window)
      else none

  log_limiter : Config → Logger → Logging → Logging
  log_limiter cfg l st =
      if cfg.rate_limit.enabled
      then log env.rfc3339 level_info env.now "rate limiting enabled"
          (("requests_per_second", int cfg.rate_limit.requests_per_second)
            ∷ ("window", text (env.duration_text cfg.rate_limit.window))
            ∷ [])
          l st
      else st

  -- What is logged between the startup check and the server's start.
  log_start : String → Config → Logger → Logging → Logging
  unfolding log_nodes log_limiter
  log_start path cfg l st =
      let nodes = get_all_nodes cfg in
      let st' = log_limiter cfg l st in
      let st'' = log_startup env.rfc3339 cfg.server.port path (length nodes) env.now l st' in
      log env.rfc3339 level_info env.now "starting HTTP server" (("port", int cfg.server.port) ∷ [])
        l (log_nodes 0 nodes l st'')

  -- From the balancer on: the startup check, the limiter and the server.
  pub start_server : String → Config → Logger → Logging → LoadBalancer → Outcome
  unfolding log_start
  start_server path cfg l st lb =
      let (lb', failed) = startup_health_check env.arrival env.reply lb in
      elim failed [
        | some e ↦ exited (check_failed e) (
            log_error env.rfc3339 "startup health check" (env.startup_error_text e) [] env.now l st)
        | none ↦
            serving (server_of cfg (record { balancer = lb'; rate_limiter = limiter_of cfg }))
              (log_start path cfg l st)
      ]

  -- From the configuration on: the logger and the balancer.
  pub start_balancer : String → Config → Logging → Outcome
  unfolding start_server
  start_balancer path cfg st =
      let l =
        new_from_config_struct env.opens cfg.logger.level cfg.logger.format cfg.logger.output in
      let config : LogConfig = record {
        level = cfg.logger.level;
        format = cfg.logger.format;
        output = cfg.logger.output;
      } in
      let st' = init env.opens (some config) st in
      elim (new env.url_parses env.now env.blank cfg) [
        | err e ↦
            exited (creation_failed e) (
              log_error env.rfc3339 "loadbalancer creation" (env.new_error_text e) [] env.now l st')
        | ok lb ↦ start_server path cfg l st' lb
      ]

  -- The path that is logged as the configuration's source.
  abbrev config_source : String → Bytes
  config_source path =
      if not (str_eq env.config_variable "")
      then bytes_of path ++ bytes_of " (via CONSENSUS_PROXY_CONFIG)"
      else bytes_of path

  -- What the first logger is told of a loaded configuration.
  pub log_loaded : String → Config → Logging → Logging
  log_loaded path cfg st =
      let boot = new_from_config_struct env.opens "info" "json" "stdout" in
      log_config env.rfc3339 (config_source path) false (length (get_all_nodes cfg)) env.now boot st

  -- From the path on.
  pub start : String → Logging → Outcome
  unfolding start_balancer log_loaded
  start path st =
      let cfg = load_or_default (env.files path) in start_balancer path cfg (log_loaded path cfg st)

  -- `main`, with `os.Args`.
  pub main : List String → Outcome
  unfolding start command
  main args = elim (command env.config_variable args) [
    | show_help ↦ helped
    | run path ↦ start path (record { default_logger = none; written = [] })
  ]
