-- ===== src/Balancer/Configured.antt =====
-- cmd/config/config.go and cmd/loadbalancer/loadbalancer.go: the configuration that main.go loads,
-- and the balancer that is created from it.
use consensus_proxy.Base.{ℕ, String, Bool, ◌≡◌, refl, ap, ◌∙◌}
use consensus_proxy.Config.Loading.{ConfigFile, LoadError, failed, load, load_or_default}
use consensus_proxy.Config.Loading.Laws.{load_or_default-cases}
use consensus_proxy.Node.{BeaconNode}
use consensus_proxy.Balancer.{new, err, no_nodes_configured}

-- Whatever is wrong with a file, the balancer that is created next fails with the one error that
-- no node is configured.
pub new-load_or_default :
    (url_parses : String → Bool) (now : ℕ) (blank : BeaconNode) (file : ConfigFile) (e : LoadError)
    → load file ≡ failed e
    → new url_parses now blank (load_or_default file) ≡ err no_nodes_configured
unfolding new
new-load_or_default url_parses now blank file e h =
    let default = load_or_default-cases file e h in
    ap (λ c. new url_parses now blank c) default ∙ refl
