-- ===== src/Node.antt =====
-- cmd/beaconnode/node.go: a beacon node's counters and priority. The counters are `int64` values
-- that wrap around. A priority is only ever an index of the node list or its length, so it is a
-- natural number. The reverse proxy of a node is not part of the record: what it does is an
-- argument of the functions that use it.
pub mod Sync
pub mod Director
pub mod DnsCache
pub mod Transport
pub mod Tests
use consensus_proxy.Base.{
  ℕ, String, Bool, Option, none, some, ℤ, pos, ltb_ℤ, inc_int64, ltb, ◌==◌, if◌then◌else◌,
}
use consensus_proxy.Config.{NodeConfig}

pub record BeaconNode : Type 0 where
  pub name : String
  pub url : String
  pub consecutive_errors : ℤ
  pub consecutive_successes : ℤ
  pub total_failures : ℤ
  pub requests : ℤ
  pub last_check : ℕ
  pub priority : ℕ
  pub original_priority : ℕ

-- `NewBeaconNode` at the time `now`: it fails where `url.Parse` does.
abbrev pub new_beacon_node : (String → Bool) → NodeConfig → ℕ → Option BeaconNode
new_beacon_node url_parses nc now =
    if url_parses nc.url
    then some (record {
      name = nc.name;
      url = nc.url;
      consecutive_errors = pos 0;
      consecutive_successes = pos 0;
      total_failures = pos 0;
      requests = pos 0;
      last_check = now;
      priority = 0;
      original_priority = 0;
    })
    else none

abbrev pub is_healthy : ℤ → BeaconNode → Bool
is_healthy error_threshold bn = ltb_ℤ bn.consecutive_errors error_threshold

abbrev pub reset_errors : BeaconNode → BeaconNode
reset_errors bn = record bn { consecutive_errors = pos 0 }

abbrev pub increment_error : BeaconNode → BeaconNode
increment_error bn = record bn {
  consecutive_errors = inc_int64 bn.consecutive_errors;
  total_failures = inc_int64 bn.total_failures;
  consecutive_successes = pos 0;
}

abbrev pub increment_success : BeaconNode → BeaconNode
increment_success bn = record bn { consecutive_successes = inc_int64 bn.consecutive_successes }

abbrev pub reset_successes : BeaconNode → BeaconNode
reset_successes bn = record bn { consecutive_successes = pos 0 }

abbrev pub get_consecutive_successes : BeaconNode → ℤ
get_consecutive_successes bn = bn.consecutive_successes

abbrev pub increment_requests : BeaconNode → BeaconNode
increment_requests bn = record bn { requests = inc_int64 bn.requests }

abbrev pub get_stats : BeaconNode → ℤ × ℤ × ℤ
get_stats bn = (bn.consecutive_errors, bn.total_failures, bn.requests)

abbrev pub set_priority : ℕ → BeaconNode → BeaconNode
set_priority priority bn = record bn { priority = priority }

abbrev pub get_priority : BeaconNode → ℕ
get_priority bn = bn.priority

abbrev pub is_primary : BeaconNode → Bool
is_primary bn = get_priority bn == 0

abbrev pub is_backup : BeaconNode → Bool
is_backup bn = ltb 0 (get_priority bn)
