-- ===== src/Balancer/Tests/Sockets.antt =====
-- WebSocket requests to two nodes, and refused requests: cmd/loadbalancer/websocket_handler.go and
-- http_handler.go.
use consensus_proxy.Base.{
  Bool, String, Option, none, some, Option-cases, inl, inr, ap, arith, ◌≢◌, inc_int64, List, true,
  false, [], ◌∷◌, ◌≡◌, refl,
}
use consensus_proxy.Http.{bytes_of, fresh_writer, http_error}
use consensus_proxy.Http.Headers.{lookup}
use consensus_proxy.Validator.{new_beacon_endpoint_validator, is_valid_beacon_endpoint}
use consensus_proxy.Balancer.WebSocket.{Environment, Target, handle_web_socket}
use consensus_proxy.Balancer.WebSocket.Copying.{
  Direction, client_to_upstream, upstream_to_client, Round, copies, write_fails, IsPrefix, sent,
  copy_messages, nothing_copied, read_in, copy_messages-IsPrefix,
}
use consensus_proxy.Balancer.WebSocket.Refusal.{RefusesUpgrade, handle_web_socket-refused}
use consensus_proxy.Balancer.Serve.{Request}
use consensus_proxy.Balancer.Tests.{two_nodes}

abbrev absent : Option (List String) → Bool
absent none = true
absent (some vs) = false

-- A dialler that reaches every node, but refuses a header that it sets itself.
abbrev strict : Environment
strict = record {
  dial = λ i url h. absent (lookup "Upgrade" h);
  upgraded = true;
  upgrade = λ w. record w { status = 101 };
}

abbrev events : Target
events = record {
  path = bytes_of "/eth/v1/events";
  raw_query = bytes_of "topics=head";
  header = ("Connection", "Upgrade" ∷ []) ∷ ("Upgrade", "websocket" ∷ []) ∷ [];
}

events_valid : is_valid_beacon_endpoint new_beacon_endpoint_validator events.path ≡ true
unfolding is_valid_beacon_endpoint new_beacon_endpoint_validator
events_valid = refl

refuses : RefusesUpgrade strict events
refuses n url h asked = elim (Option-cases (lookup "Upgrade" h)) [
  | inl e ↦ absurd (asked e)
  | inr (vs, e) ↦ ap absent e
]

asks : lookup "Upgrade" events.header ≢ none
unfolding lookup
asks e = cc

refused_example :
    let (lb', w') =
      handle_web_socket strict events new_beacon_endpoint_validator two_nodes fresh_writer in
    (w' ≡ http_error "Failed to establish WebSocket connection to any node" 502 fresh_writer)
    × ((lb'.heap 1).consecutive_errors ≡ inc_int64 (two_nodes.heap 1).consecutive_errors)
refused_example =
    handle_web_socket-refused strict events new_beacon_endpoint_validator 1 two_nodes fresh_writer
      refuses asks events_valid (ground arith) (inr (inl refl))

-- A request for another path.
abbrev pub other_path : Request
other_path = record {
  target = record { path = bytes_of "/admin"; raw_query = []; header = [] };
  is_web_socket_upgrade = false;
  http = record {
    expired = λ i. false;
    elapsed = λ i. 0;
    calls = λ i p. [];
    attempt_duration = λ i. 0;
    total_duration = 0;
  };
  web_socket = strict;
}

-- A message each way, and one that cannot be written.
abbrev rounds : List (Direction × Round)
rounds =
    (client_to_upstream, copies (1, bytes_of "ping"))
    ∷ (upstream_to_client, copies (1, bytes_of "pong"))
    ∷ (client_to_upstream, write_fails (1, bytes_of "ping") "closed")
    ∷ []

copying_example :
    IsPrefix
      (sent client_to_upstream (copy_messages rounds nothing_copied))
      (read_in client_to_upstream rounds)
copying_example = copy_messages-IsPrefix client_to_upstream rounds
