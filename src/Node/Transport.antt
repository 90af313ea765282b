-- ===== src/Node/Transport.antt =====
-- cmd/beaconnode/proxy_config.go: the settings of Go's HTTP transport that a node's proxy uses. Its
-- dialler is the cached resolver of Node/DnsCache, here a parameter.
use consensus_proxy.Base.{
  not_both, ℕ, String, Bool, true, false, not, ◌++◌, ℤ, ◌≡◌, refl, sym, ◌∙◌, ◌↔◌, inl, inr,
  Bool-cases,
}
use consensus_proxy.Http.{Bytes, bytes_of}
use consensus_proxy.Http.Texts.{occurs, occurs_iff}
use consensus_proxy.Config.{Config, Duration}
use consensus_proxy.Node.DnsCache.{Network, DnsCache, Dialled, cached_resolver}

-- The fields of `http.Transport` that the proxy sets.
pub record Transport : Type 0 where
  pub max_idle_conns : ℤ
  pub idle_conn_timeout : Duration
  pub max_idle_conns_per_host : ℤ
  pub max_conns_per_host : ℤ
  pub disable_compression : Bool
  pub disable_keep_alives : Bool
  pub force_attempt_http2 : Bool
  pub response_header_timeout : Duration
  pub tls_handshake_timeout : Duration
  pub expect_continue_timeout : Duration
  pub dial_context : String → ℕ → DnsCache → DnsCache × Dialled

-- `createProxyTransport`
pub create_proxy_transport : Network → Config → Bytes → Transport
create_proxy_transport net cfg node_url = record {
  max_idle_conns = cfg.proxy.max_idle_conns;
  idle_conn_timeout = cfg.proxy.idle_conn_timeout;
  max_idle_conns_per_host = cfg.proxy.max_idle_conns_per_host;
  max_conns_per_host = cfg.proxy.max_conns_per_host;
  disable_compression = true;
  disable_keep_alives = false;
  force_attempt_http2 = not (occurs (bytes_of "chainstack.com") node_url);
  response_header_timeout = cfg.proxy.response_header_timeout;
  tls_handshake_timeout = cfg.proxy.tls_handshake_timeout;
  expect_continue_timeout = cfg.proxy.expect_continue_timeout;
  dial_context = cached_resolver net cfg.dns.cache_ttl;
}

-- HTTP/2 is not attempted exactly with the nodes whose URL names `chainstack.com` anywhere.
pub create_proxy_transport-http2 :
    (net : Network) (cfg : Config) (node_url : Bytes)
    → ((create_proxy_transport net cfg node_url).force_attempt_http2 ≡ false)
      ↔ ((a : Bytes) × (b : Bytes) × (node_url ≡ a ++ (bytes_of "chainstack.com" ++ b)))
unfolding create_proxy_transport
create_proxy_transport-http2 net cfg node_url =
    let (found, stands) = occurs_iff b'c' (bytes_of "hainstack.com") node_url in
    elim (Bool-cases (occurs (bytes_of "chainstack.com") node_url)) [
      | inl named ↦ ((λ e. found named), λ s. rw named refl)
      | inr absent ↦ (
        (λ e. absurd (not_both (rw absent at e))),
        λ s. absurd (not_both (sym (stands s) ∙ absent)),
      )
    ]
