-- ===== src/Balancer/WebSocket/Url.antt =====
-- cmd/loadbalancer/websocket_handler.go: the WebSocket URL of a node, by `strings.Replace`.
use consensus_proxy.Base.{false, ◌++◌, ◌≡◌, refl}
use consensus_proxy.Http.{Bytes, bytes_of}
use consensus_proxy.Http.Texts.{strip_prefix, replace_first, occurs, replace_first_absent}

pub web_socket_url : Bytes → Bytes → Bytes → Bytes
unfolding replace_first
web_socket_url url path raw_query =
    let ws = replace_first (bytes_of "http://") (bytes_of "ws://") url in
    let wss = replace_first (bytes_of "https://") (bytes_of "wss://") ws in
    wss ++ (path ++ (bytes_of "?" ++ raw_query))

-- An `http` URL becomes a `ws` URL and an `https` URL a `wss` URL, at the request's path and
-- query, where the rest of the URL holds no second scheme.
pub web_socket_url_lem :
    (host path query : Bytes)
    → occurs (bytes_of "http://") host ≡ false
    → occurs (bytes_of "https://") host ≡ false
    → (web_socket_url (bytes_of "http://" ++ host) path query
        ≡ bytes_of "ws://" ++ (host ++ (path ++ (bytes_of "?" ++ query))))
      × (web_socket_url (bytes_of "https://" ++ host) path query
          ≡ bytes_of "wss://" ++ (host ++ (path ++ (bytes_of "?" ++ query))))
unfolding web_socket_url strip_prefix
web_socket_url_lem host path query h hs = (
  rw (replace_first_absent (bytes_of "https://") (bytes_of "wss://") host hs) refl,
  rw (replace_first_absent (bytes_of "http://") (bytes_of "ws://") host h) refl,
)
