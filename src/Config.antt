-- ===== src/Config.antt =====
-- cmd/config/config.go: the configuration records, their defaults and their accessors. Integers
-- and durations (nanoseconds) are signed, since a file may hold any value.
pub mod Loading
pub mod Validation
pub mod Address
pub mod Tests
use consensus_proxy.Base.{◌∷◌, String, Bool, false, List, [], ℕ, ◌*◌, ℤ, pos}
use consensus_proxy.Http.{Bytes}
use consensus_proxy.Format.{decimal_ℤ}

-- time.Duration counts nanoseconds.
abbrev pub Duration : Type 0
Duration = ℤ

abbrev pub millisecond : ℕ
millisecond = 1_000_000

abbrev pub second : ℕ
second = 1_000 * millisecond

abbrev pub minute : ℕ
minute = 60 * second

pub record ServerConfig : Type 0 where
  pub port : ℤ
  pub read_timeout : Duration
  pub write_timeout : Duration
  pub max_retries : ℤ
  pub request_timeout : Duration
  pub idle_timeout : Duration
  pub read_header_timeout : Duration

pub record RateLimitConfig : Type 0 where
  pub enabled : Bool
  pub requests_per_second : ℤ
  pub window : Duration
  pub cleanup_interval : Duration
  pub client_expiry : Duration

pub record DnsConfig : Type 0 where
  pub cache_ttl : Duration
  pub connection_timeout : Duration

pub record ProxyConfig : Type 0 where
  pub user_agent : String
  pub max_idle_conns : ℤ
  pub idle_conn_timeout : Duration
  pub max_idle_conns_per_host : ℤ
  pub max_conns_per_host : ℤ
  pub response_header_timeout : Duration
  pub tls_handshake_timeout : Duration
  pub expect_continue_timeout : Duration

pub record WebSocketConfig : Type 0 where
  pub read_buffer_size : ℤ
  pub write_buffer_size : ℤ
  pub error_channel_buffer : ℤ

-- `Type` is the beacon client's name; "" stands for none.
pub record NodeConfig : Type 0 where
  pub name : String
  pub url : String
  pub beacon_type : String

pub record BeaconsConfig : Type 0 where
  pub nodes : List String
  pub parsed_nodes : List NodeConfig

pub record FailoverConfig : Type 0 where
  pub error_threshold : ℤ

pub record MetricsConfig : Type 0 where
  pub enabled : Bool
  pub statsd_addr : String
  pub namespace : String

pub record LoggerConfig : Type 0 where
  pub level : String
  pub format : String
  pub output : String

pub record HealthCheckConfig : Type 0 where
  pub interval : Duration
  pub timeout : Duration
  pub successful_checks_for_failback : ℤ

pub record Config : Type 0 where
  pub server : ServerConfig
  pub beacons : BeaconsConfig
  pub failover : FailoverConfig
  pub metrics : MetricsConfig
  pub logger : LoggerConfig
  pub rate_limit : RateLimitConfig
  pub dns : DnsConfig
  pub proxy : ProxyConfig
  pub web_socket : WebSocketConfig
  pub health_check : HealthCheckConfig

-- `getDefaultConfig`. The beacons section is Go's zero value.
abbrev pub get_default_config : Config
get_default_config = record {
  server = record {
    port = pos 8080;
    read_timeout = pos (30 * second);
    write_timeout = pos (30 * second);
    max_retries = pos 3;
    request_timeout = pos (30 * millisecond);
    idle_timeout = pos (90 * second);
    read_header_timeout = pos (10 * second);
  };
  beacons = record { nodes = []; parsed_nodes = [] };
  failover = record { error_threshold = pos 5 };
  metrics = record {
    enabled = false;
    statsd_addr = "localhost:8125";
    namespace = "consensus_proxy";
  };
  logger = record { level = "info"; format = "json"; output = "stdout" };
  rate_limit = record {
    enabled = false;
    requests_per_second = pos 100;
    window = pos (1 * minute);
    cleanup_interval = pos (5 * minute);
    client_expiry = pos (10 * minute);
  };
  dns = record { cache_ttl = pos (5 * minute); connection_timeout = pos (10 * second) };
  proxy = record {
    user_agent = "consensus-proxy/1.0";
    max_idle_conns = pos 100;
    idle_conn_timeout = pos (90 * second);
    max_idle_conns_per_host = pos 10;
    max_conns_per_host = pos 100;
    response_header_timeout = pos (10 * second);
    tls_handshake_timeout = pos (10 * second);
    expect_continue_timeout = pos (1 * second);
  };
  web_socket = record {
    read_buffer_size = pos 4096;
    write_buffer_size = pos 4096;
    error_channel_buffer = pos 100;
  };
  health_check = record {
    interval = pos (30 * second);
    timeout = pos (5 * second);
    successful_checks_for_failback = pos 3;
  };
}

-- `SetParsedNodes`, on the beacons section of a configuration.
unfoldable pub set_parsed_nodes : BeaconsConfig → List NodeConfig → BeaconsConfig
set_parsed_nodes bc nodes = record bc { parsed_nodes = nodes }

abbrev pub get_all_nodes : Config → List NodeConfig
get_all_nodes c = c.beacons.parsed_nodes

-- `GetListenAddr`
pub get_listen_addr : Config → Bytes
get_listen_addr c = b':' ∷ decimal_ℤ c.server.port
