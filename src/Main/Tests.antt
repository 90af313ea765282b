-- ===== src/Main/Tests.antt =====
-- A program that is started with one node and a limiter of two requests in ten nanoseconds: main.go.
use consensus_proxy.Base.{
  ◌<◌, ◌≤◌, String, true, false, List, [], ◌∷◌, str_eq, pos, if◌then◌else◌, length, select, subst,
  ◌≡◌, refl, ap, ◌⊎◌, inl, inr, arith, Bool-cases, Option, none, some,
}
use consensus_proxy.Http.{fresh_writer, http_error}
use consensus_proxy.Config.{Config}
use consensus_proxy.Config.Loading.{
  ConfigFile, missing, undecodable, decoded, config_file_not_found, load, failed, load_or_default,
  Section,
}
use consensus_proxy.Config.Tests.{one_beacon, named}
use consensus_proxy.Logger.{Logging}
use consensus_proxy.Balancer.{LoadBalancer, new, no_nodes_configured}
use consensus_proxy.Balancer.Kept.{IsKept}
use consensus_proxy.Balancer.WellFormed.{IsWellFormed, max_int}
use consensus_proxy.Balancer.Startup.{startup_health_check}
use consensus_proxy.Balancer.Tests.{node_at, synced_reply, in_order, in_order-Reorders}
use consensus_proxy.Config.{set_parsed_nodes}
use consensus_proxy.Node.Sync.{check_sync_status}
use consensus_proxy.Balancer.{update}
use consensus_proxy.Balancer.Startup.{startup_results, startup_result}
use consensus_proxy.Balancer.Startup.Sorting.{sort_by, insert_by}
use consensus_proxy.RateLimit.{new_rate_limiter}
use consensus_proxy.Main.{
  server_of, start as start_program, start_balancer, start_server, Environment, run, command, State,
  Server, Outcome, helped, exited, serving, creation_failed, main,
}
use consensus_proxy.Main.Laws.{Serves, IsDecoder, main-Serves}
use consensus_proxy.Balancer.Tests.Sockets.{other_path}
use consensus_proxy.Validator.{new_beacon_endpoint_validator}
use consensus_proxy.Balancer.Reach.{Reach, events_of}
use consensus_proxy.Balancer.Settled.{IsSettled}
use consensus_proxy.RateLimit.Windows.{live, start}
use consensus_proxy.Main.Routes.{Outside, Incoming, route, is_proxied}
use consensus_proxy.Main.System.{Run, begin, serve, served_in, Run-Reach}
use consensus_proxy.Main.Limits.{handed_on}
use consensus_proxy.Main.Answers.{Passed, route-limited}
use consensus_proxy.Main.Lifetime.{failure_of, main-no_nodes, main-IsSettled, main-bounded}

abbrev limited : Config
limited = record named {
  rate_limit = record {
    enabled = true;
    requests_per_second = pos 2;
    window = pos 10;
    cleanup_interval = pos 1;
    client_expiry = pos 1;
  };
}

abbrev file_at : String → ConfigFile
file_at path = if str_eq path "config.toml" then decoded (some one_beacon) limited else missing

abbrev env : Environment
env = record {
  config_variable = "";
  files = file_at;
  opens = λ path. false;
  url_parses = λ url. true;
  now = 0;
  blank = node_at 0 "" 0;
  arrival = in_order;
  reply = synced_reply;
  rfc3339 = λ t. "1970-01-01T00:00:00Z";
  duration_text = λ d. "10ns";
  new_error_text = λ e. "error";
  startup_error_text = λ e. "error";
}

-- The arguments are read.
commands :
    (command "" ("proxy" ∷ []) ≡ run "config.toml")
    × (command "a.toml" ("proxy" ∷ []) ≡ run "a.toml")
    × (command "a.toml" ("proxy" ∷ "-c" ∷ "b.toml" ∷ []) ≡ run "b.toml")
    × (command "a.toml" ("proxy" ∷ "-c" ∷ []) ≡ run "a.toml")
    × (command "" ("proxy" ∷ "b.toml" ∷ []) ≡ run "b.toml")
unfolding command
commands = (refl, refl, refl, refl, refl)

no_file : load (file_at "b.toml") ≡ failed config_file_not_found
unfolding load
no_file = refl

named_file : command "" ("proxy" ∷ "b.toml" ∷ []) ≡ run "b.toml"
unfolding command
named_file = refl

no_nodes_example :
    failure_of (main env ("proxy" ∷ "b.toml" ∷ [])) ≡ some (creation_failed no_nodes_configured)
no_nodes_example =
    main-no_nodes env ("proxy" ∷ "b.toml" ∷ []) "b.toml" config_file_not_found named_file no_file

abbrev args : List String
args = "proxy" ∷ []

abbrev loaded_limited : Config
loaded_limited = record limited {
  beacons = record {
    nodes = "a" ∷ [];
    parsed_nodes = record { name = "a"; url = "http://a"; beacon_type = "teku" } ∷ [];
  };
}

abbrev config_in : Config → ConfigFile → Config
config_in default missing = default
config_in default (undecodable e) = default
config_in default (decoded raw c) = c

limited-decoded :
    (raw : Option Section) (c : Config)
    → (let file : ConfigFile = decoded (some one_beacon) limited in file) ≡ decoded raw c
    → (c.beacons.parsed_nodes ≡ []) × (length c.beacons.nodes < max_int)
limited-decoded raw c e =
    subst (λ (x : Config). (x.beacons.parsed_nodes ≡ []) × (length x.beacons.nodes < max_int))
      (ap (config_in limited) e) (refl, ground arith)

missing_not_decoded : {raw : Option Section} {c : Config} → missing ≡ decoded raw c → ⊥
missing_not_decoded e = cc

decoder : IsDecoder env
decoder path raw c e = elim (Bool-cases (str_eq path "config.toml")) [
  | inl there ↦ limited-decoded raw c (rw there at e)
  | inr elsewhere ↦ absurd (missing_not_decoded (rw elsewhere at e))
]

abbrev log_of : Outcome → Logging
log_of helped = record { default_logger = none; written = [] }
log_of (exited failure out) = out
log_of (serving server out) = out

-- The node's state and the server after the start.
abbrev made : LoadBalancer
made = record {
  heap = update (λ p. node_at 0 "" 0) 0 (record (node_at 0 "a" 0) { url = "http://a" });
  nodes = 0 ∷ [];
  config = loaded_limited;
  metrics = [];
  healthy_nodes = 0 ∷ [];
}

abbrev server : Server
server =
    server_of loaded_limited
      (record { balancer = made; rate_limiter = some (new_rate_limiter (pos 2) (pos 10)) })

started : main env args ≡ serving server (log_of (main env args))
unfolding main start_program command start_balancer start_server load_or_default load new
    startup_health_check startup_results startup_result check_sync_status sort_by insert_by
    set_parsed_nodes
started = refl

program_example : Serves env args server
program_example =
    main-Serves env args decoder in_order-Reorders server (log_of (main env args)) started

abbrev outside : Outside
outside = record {
  redirect = λ path. none;
  metrics_page = λ w. w;
  parses = λ s. false;
  split_host = λ s. none;
}

-- A request at the time 3.
abbrev request_at_3 : Incoming
request_at_3 = record { request = other_path; method = "GET"; remote_addr = "1.2.3.4"; at = 3 }

abbrev after_request : State
after_request = (route outside request_at_3 server.state fresh_writer).0

one_request : Run outside server.state after_request 3
one_request = serve request_at_3 fresh_writer begin (omega arith)

steps_example :
    (history : Reach new_beacon_endpoint_validator server.state.balancer after_request.balancer)
    × (events_of history ≡ served_in one_request)
steps_example = Run-Reach one_request

run_example :
    IsKept server.state.balancer after_request.balancer
    × IsWellFormed after_request.balancer
    × IsSettled after_request.balancer
run_example =
    main-IsSettled env args decoder in_order-Reorders server (log_of (main env args)) started
      one_request ((λ e. e), tt)

program_limit_example : length (select (live 10 4) (handed_on "1.2.3.4" one_request)) ≤ 2
program_limit_example =
    main-bounded env args decoder in_order-Reorders server (log_of (main env args)) started
      one_request 2 10 4 "1.2.3.4" refl refl refl (ground arith) (omega arith)

limited_example :
    let (s', w') = route outside request_at_3 server.state fresh_writer in
    let count = length (select (live 10 3) []) in
    ((count < 2) × Passed request_at_3 made fresh_writer s'.balancer w')
    ⊎ ((2 ≤ count)
        × (s'.balancer ≡ made)
        × (w' ≡ http_error "Rate limit exceeded" 429 fresh_writer))
limited_example =
    route-limited {t = 0} {served = []} outside request_at_3 server.state fresh_writer
      (new_rate_limiter (pos 2) (pos 10)) 2 proxied refl refl (ground arith) start (omega arith)
  where
    proxied : is_proxied outside request_at_3 ≡ true
    proxied = refl
