-- ===== src/Main/Lifetime.antt =====
-- main.go: the program from its start on.
use consensus_proxy.Base.{
  Distinct, subst, ℕ, ◌≤◌, String, true, List, pos, length, select, Reorders, ◌≡◌, refl, sym, ap,
  ◌∙◌, Option, none, some,
}
use consensus_proxy.Config.{Config, get_all_nodes}
use consensus_proxy.Config.Loading.Laws.{names_of}
use consensus_proxy.Config.Loading.{LoadError, load, failed}
use consensus_proxy.Logger.{Logging}
use consensus_proxy.RateLimit.{new_rate_limiter, expiry}
use consensus_proxy.RateLimit.Windows.{live}
use consensus_proxy.Balancer.{no_nodes_configured}
use consensus_proxy.Balancer.WellFormed.{IsWellFormed}
use consensus_proxy.Balancer.Kept.{IsKept}
use consensus_proxy.Balancer.Reach.{startup-IsKept, Reach-IsWellFormed, Reach-IsSettled}
use consensus_proxy.Balancer.Settled.{IsSettled, IsKept-NamesDiffer}
use consensus_proxy.Balancer.Creation.Names.{new-NamesDiffer}
use consensus_proxy.Balancer.Configured.{new-load_or_default}
use consensus_proxy.Main.{
  Environment, run, command, State, Server, Outcome, serving, exited, creation_failed, limiter_of,
  start_balancer, start, main, Failure, helped,
}
use consensus_proxy.Main.Laws.{IsDecoder, main-Serves}
use consensus_proxy.Main.Routes.{Outside}
use consensus_proxy.Main.System.{Run, Run-Reach}
use consensus_proxy.Main.Limits.{handed_on, handed_on-bounded}

-- Why the program ends, if it ends before it serves.
abbrev pub failure_of : Outcome → Option Failure
failure_of helped = none
failure_of (exited failure out) = some failure
failure_of (serving server out) = none

-- Whatever is wrong with the file that the command line names, a missing file included, the program
-- exits before it serves, with the one error that no node is configured.
pub main-no_nodes :
    (env : Environment) (args : List String) (path : String) (e : LoadError)
    → command env.config_variable args ≡ run path
    → load (env.files path) ≡ failed e
    → failure_of (main env args) ≡ some (creation_failed no_nodes_configured)
unfolding main start start_balancer
main-no_nodes env args path e named bad =
    let refused = new-load_or_default env.url_parses env.now env.blank (env.files path) e bad in
    rw (named, main) (rw (refused, start_balancer) refl)

module _ (env : Environment) (args : List String) (decoder : IsDecoder env)
    (order : Reorders env.arrival) (server : Server) (out : Logging)
    (started : main env args ≡ serving server out) {o : Outside} {s : State} {t : ℕ}
    (run : Run o server.state s t) where
  run_invariant : IsKept server.state.balancer s.balancer × IsWellFormed s.balancer
  run_invariant =
      let v = main-Serves env args decoder order server out started in
      Reach-IsWellFormed v.is_well_formed (Run-Reach run).0

  -- If no name stands twice in the configuration, then after any run of a program that serves the
  -- nodes, names, original priorities and configuration are those of the start, the balancer is
  -- well-formed, no node stands twice among the healthy nodes, and each of these is a primary or has
  -- its original priority.
  pub main-IsSettled :
      Distinct (names_of (get_all_nodes server.state.balancer.config))
      → IsKept server.state.balancer s.balancer × IsWellFormed s.balancer × IsSettled s.balancer
  main-IsSettled once =
      let v = main-Serves env args decoder order server out started in
      let kept : IsKept v.created server.state.balancer =
        subst (IsKept v.created) (sym v.is_checked)
          (startup-IsKept env.arrival env.reply v.created) in
      let differ =
        new-NamesDiffer env.url_parses env.now env.blank v.config v.created
          (subst (λ (c : Config). Distinct (names_of (get_all_nodes c))) v.has_config once)
          v.is_created in
      (
        run_invariant.0,
        run_invariant.1,
        Reach-IsSettled v.is_well_formed (IsKept-NamesDiffer kept differ) v.is_settled
            (Run-Reach run).0,
      )

  -- If the configuration enables the limiter, with a window of at most five minutes, then in every
  -- run of a program that serves, and in any window that ends at or after the run's end, at most as
  -- many requests of a client are handed on to the balancer as the configuration says.
  pub main-bounded :
      (r w now : ℕ) (ip : String)
      → server.state.balancer.config.rate_limit.enabled ≡ true
      → server.state.balancer.config.rate_limit.requests_per_second ≡ pos r
      → server.state.balancer.config.rate_limit.window ≡ pos w
      → w ≤ expiry
      → t ≤ now
      → length (select (live w now) (handed_on ip run)) ≤ r
  main-bounded r w now ip on limit window small later =
      let v = main-Serves env args decoder order server out started in
      let limited : server.state.rate_limiter ≡ some (new_rate_limiter (pos r) (pos w)) =
        v.has_limiter
        ∙ ap (λ (c : Config). limiter_of env c) (sym v.has_config)
        ∙ rw (on, limit, window) refl in
      handed_on-bounded r w now ip limited small run later
