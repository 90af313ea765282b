-- ===== src/Node/Director.antt =====
-- cmd/beaconnode/proxy_config.go: the proxy's director, which rewrites a request for its node. The
-- director of Go's single-host proxy is an argument.
pub mod Laws
use consensus_proxy.Base.{◌-◌, String, str_eq, if◌then◌else◌, ◌&&◌, ◌||◌}
use consensus_proxy.Http.Headers.{Header, header_get, header_set, header_del}

pub record OutRequest : Type 0 where
  pub method : String
  pub host : String
  pub header : Header

-- A missing User-Agent is set to the configured one.
pub set_user_agent : String → Header → Header
set_user_agent user_agent h =
    if str_eq (header_get "User-Agent" h) "" then header_set "User-Agent" user_agent h else h

pub set_content : String → Header → Header
set_content method h =
    let h' = header_set "Accept" "application/json" h in
    if str_eq (header_get "Content-Type" h') "" && (str_eq method "POST" || str_eq method "PUT")
    then header_set "Content-Type" "application/json" h'
    else h'

pub set_proto : String → Header → Header
set_proto scheme h = if str_eq scheme "https" then header_set "X-Forwarded-Proto" "https" h else h

pub delete_rejected : Header → Header
delete_rejected h =
    let h' = header_del "Referer" (header_del "X-Real-IP" (header_del "X-Forwarded-For" h)) in
    if str_eq (header_get "Connection" h') "close" then header_del "Connection" h' else h'

-- The director that `createProxyDirector` returns, for a target's host and scheme.
pub proxy_director : (OutRequest → OutRequest) → String → String → String → OutRequest → OutRequest
unfolding set_user_agent set_content set_proto delete_rejected
proxy_director original_director target_host target_scheme user_agent req =
    let r = original_director req in
    record r {
      host = target_host;
      header =
          delete_rejected
            (set_proto target_scheme (set_content r.method (set_user_agent user_agent r.header)));
    }
