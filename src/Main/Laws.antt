-- ===== src/Main/Laws.antt =====
-- main.go: when the program serves, and with what.
use consensus_proxy.Base.{
  ℕ, ◌<◌, String, true, List, [], length, Elem, Reorders, subst, ◌≡◌, refl, sym, ap, ◌∙◌, ◌≢◌, ◌⊎◌,
  inl, inr, Option-cases, Option, none,
}
use consensus_proxy.Config.{Config, get_all_nodes}
use consensus_proxy.Config.Validation.Laws.{IsValid}
use consensus_proxy.Config.Loading.{decoded, load, loaded, load_or_default, Section}
use consensus_proxy.Config.Loading.Laws.{
  load_lem, load-decoded, load-outcome, load_or_default-loaded, length-names_of,
}
use consensus_proxy.Logger.{Logger, Logging}
use consensus_proxy.Balancer.{LoadBalancer, NewError, Result, new, ok, err}
use consensus_proxy.Balancer.WellFormed.{IsWellFormed, max_int}
use consensus_proxy.Balancer.Startup.{startup_health_check}
use consensus_proxy.Balancer.Startup.Laws.{
  startup_health_check-IsSettled, synced, startup_frame, startup_health_check-none,
  startup_health_check_healthy,
}
use consensus_proxy.Balancer.Creation.{new-config, new-IsFresh}
use consensus_proxy.Balancer.Settled.{IsSettled}
use consensus_proxy.Balancer.Reach.{Reach-from_new, here}
use consensus_proxy.Validator.{new_beacon_endpoint_validator}
use consensus_proxy.Balancer.Configured.{new-load_or_default}
use consensus_proxy.Main.{
  Environment, Command, show_help, run, command, Server, Failure, Outcome, helped, exited, serving,
  server_of, limiter_of, start_server, start_balancer, log_loaded, start, main,
}

Result-cases : {A : Type 0} (x : Result A) → ((e : NewError) × (x ≡ err e)) ⊎ ((a : A) × (x ≡ ok a))
Result-cases (err e) = inl (e, refl)
Result-cases (ok a) = inr (a, refl)

serving-injective :
    {a b : Server} {l m : Logging} → (let x : Outcome = serving a l in x) ≡ serving b m → a ≡ b
serving-injective h = cc

exited_not_serving :
    {e : Failure} {l m : Logging} {b : Server}
    → (let x : Outcome = exited e l in x) ≡ serving b m
    → ⊥
exited_not_serving h = cc

helped_not_serving : {m : Logging} {b : Server} → helped ≡ serving b m → ⊥
helped_not_serving h = cc

module _ (env : Environment) {server : Server} {out : Logging} where
  start_server-serving :
      (path : String) (cfg : Config) (l : Logger) (st : Logging) (lb : LoadBalancer)
      → start_server env path cfg l st lb ≡ serving server out
      → ((startup_health_check env.arrival env.reply lb).1 ≡ none)
        × (server
            ≡ server_of cfg (record {
              balancer = (startup_health_check env.arrival env.reply lb).0;
              rate_limiter = limiter_of env cfg;
            }))
  unfolding start_server
  start_server-serving path cfg l st lb h =
      elim (Option-cases (startup_health_check env.arrival env.reply lb).1) [
        | inl e ↦ (e, sym (serving-injective (rw (e, start_server) at h)))
        | inr (x, e) ↦ absurd (exited_not_serving (rw (e, start_server) at h))
      ]

  start_balancer-serving :
      (path : String) (cfg : Config) (st : Logging)
      → start_balancer env path cfg st ≡ serving server out
      → (lb : LoadBalancer) × (new env.url_parses env.now env.blank cfg ≡ ok lb)
        × ((startup_health_check env.arrival env.reply lb).1 ≡ none)
        × (server
            ≡ server_of cfg (record {
              balancer = (startup_health_check env.arrival env.reply lb).0;
              rate_limiter = limiter_of env cfg;
            }))
  unfolding start_balancer
  start_balancer-serving path cfg st h =
      elim (Result-cases (new env.url_parses env.now env.blank cfg)) [
        | inl (x, e) ↦ absurd (exited_not_serving (rw (e, start_balancer) at h))
        | inr (lb, e) ↦
            let (healthy, made) =
              start_server-serving path cfg _ _ lb (rw (e, start_balancer) at h) in
            (lb, e, healthy, made)
      ]

-- What a program that serves has loaded and found out.
pub record Serves (env : Environment) (args : List String) (server : Server) : Type 0 where
  pub path : String
  pub config : Config
  pub from_path : command env.config_variable args ≡ run path
  pub from_file : load (env.files path) ≡ loaded config
  pub is_valid : IsValid config
  pub created : LoadBalancer
  pub is_created : new env.url_parses env.now env.blank config ≡ ok created
  pub is_checked : server.state.balancer ≡ (startup_health_check env.arrival env.reply created).0
  pub is_server : server ≡ server_of config server.state
  pub has_config : server.state.balancer.config ≡ config
  pub has_limiter : server.state.rate_limiter ≡ limiter_of env config
  pub is_well_formed : IsWellFormed server.state.balancer
  pub is_settled : IsSettled server.state.balancer
  pub some_healthy : server.state.balancer.healthy_nodes ≢ []
  pub synced_healthy :
      (q : ℕ) → Elem q server.state.balancer.healthy_nodes → synced env.reply q ≡ true

-- The decoder does not touch the parsed nodes, and no file names 2^63 - 1 nodes.
abbrev pub IsDecoder : Environment → Type 0
IsDecoder env =
    (path : String) (raw : Option Section) (c : Config)
    → env.files path ≡ decoded raw c
    → (c.beacons.parsed_nodes ≡ []) × (length c.beacons.nodes < max_int)

Command-cases : (c : Command) → (c ≡ show_help) ⊎ ((path : String) × (c ≡ run path))
Command-cases show_help = inl refl
Command-cases (run path) = inr (path, refl)

main-start :
    (env : Environment) (args : List String) {server : Server} {out : Logging}
    → main env args ≡ serving server out
    → (path : String) × (command env.config_variable args ≡ run path)
      × (start env path (record { default_logger = none; written = [] }) ≡ serving server out)
unfolding main
main-start env args h = elim (Command-cases (command env.config_variable args)) [
  | inl e ↦ absurd (helped_not_serving (rw (e, main) at h))
  | inr (path, e) ↦ (path, e, rw (e, main) at h)
]

err_not_ok : {e : NewError} {a : LoadBalancer} → err e ≡ ok a → ⊥
err_not_ok h = cc

-- The loaded configuration, where a balancer is created from what `LoadOrDefault` returns.
loaded_config :
    (env : Environment) (path : String) (lb : LoadBalancer)
    → new env.url_parses env.now env.blank (load_or_default (env.files path)) ≡ ok lb
    → (d : Config) × (load (env.files path) ≡ loaded d) × (load_or_default (env.files path) ≡ d)
loaded_config env path lb made = elim (load-outcome (env.files path)) [
  | inl (x, e) ↦ absurd (
      err_not_ok
        (sym (new-load_or_default env.url_parses env.now env.blank (env.files path) x e) ∙ made))
  | inr (d, e) ↦ (d, e, load_or_default-loaded (env.files path) d e)
]

module _ (env : Environment) (args : List String) (decoder : IsDecoder env)
    (order : Reorders env.arrival) where
  -- The server that a loaded configuration gives.
  started-Serves :
      (path : String) (d : Config) (lb : LoadBalancer)
      → command env.config_variable args ≡ run path
      → load (env.files path) ≡ loaded d
      → new env.url_parses env.now env.blank d ≡ ok lb
      → (startup_health_check env.arrival env.reply lb).1 ≡ none
      → Serves env args (
          server_of d (record {
            balancer = (startup_health_check env.arrival env.reply lb).0;
            rate_limiter = limiter_of env d;
          }))
  started-Serves path d lb named read made healthy =
      let (raw, c, file) = load-decoded (env.files path) d read in
      let (fresh, small) = decoder path raw c file in
      let (valid, names) = load_lem raw c d fresh (sym (ap load file) ∙ read) in
      let few : length (get_all_nodes d) < max_int =
        subst (λ n. n < max_int) (sym (sym (length-names_of (get_all_nodes d)) ∙ ap length names))
          small in
      record {
        path = path;
        config = d;
        from_path = named;
        from_file = read;
        is_valid = valid;
        created = lb;
        is_created = made;
        is_checked = refl;
        is_server = refl;
        has_config =
            (startup_frame env.arrival env.reply lb).2
            ∙ new-config env.url_parses env.now env.blank d lb made;
        has_limiter = refl;
        is_well_formed =
            (Reach-from_new env.url_parses env.now env.blank d env.arrival env.reply
              new_beacon_endpoint_validator few made order here).1;
        is_settled =
            startup_health_check-IsSettled env.arrival env.reply lb order
              (new-IsFresh env.url_parses env.now env.blank d lb few made);
        some_healthy = startup_health_check-none env.arrival env.reply lb healthy;
        synced_healthy =
            λ q e. (((startup_health_check_healthy env.arrival env.reply lb order).0 q).0 e).1;
      }

  -- If the program serves, then the command line names a file that loads to a valid configuration,
  -- and it serves with that configuration's address, timeouts and limiter, with the balancer that
  -- `New` creates from it after the startup check, which is well-formed and settled, and with some
  -- healthy nodes, all of them synced at startup.
  pub main-Serves :
      (server : Server) (out : Logging)
      → main env args ≡ serving server out
      → Serves env args server
  unfolding start
  main-Serves server out h =
      let (path, named, started) = main-start env args h in
      let cfg = load_or_default (env.files path) in
      let st = log_loaded env path cfg (record { default_logger = none; written = [] }) in
      let (lb, made, healthy, same) = start_balancer-serving env path cfg st started in
      let (d, read, is_d) = loaded_config env path lb made in
      subst (Serves env args)
        (sym (
          same
          ∙ ap
              (λ c. server_of c (record {
                balancer = (startup_health_check env.arrival env.reply lb).0;
                rate_limiter = limiter_of env c;
              }))
              is_d))
        (started-Serves path d lb named read
          (subst (λ c. new env.url_parses env.now env.blank c ≡ ok lb) is_d made) healthy)
