-- ===== src/Node/Sync/Laws.antt =====
-- cmd/beaconnode/health_check.go: `CheckSyncStatus` and `HealthCheck` on the same reply.
use consensus_proxy.Base.{String, true, false, eq_iff, ◌≡◌, ◌↔◌, ◌⊎◌, arith, none, some}
use consensus_proxy.Node.Sync.{
  SyncReply, no_response, response, unreadable, undecodable, decoded, check_sync_status,
  health_check, HealthCheckError,
}

-- A node is synced: status 200, a decoded body, no syncing and the distance "0".
abbrev pub IsSynced : SyncReply → Type 0
IsSynced (no_response e) = ⊥
IsSynced (response code (unreadable e)) = ⊥
IsSynced (response code (undecodable e)) = ⊥
IsSynced (response code (decoded r)) =
    (code ≡ 200) × (r.is_syncing ≡ false) × (r.sync_distance ≡ "0")

-- The reasons that `HealthCheck` gives.
abbrev pub IsReason : String → Type 0
IsReason s =
    (s ≡ "request_failed")
    ⊎ (s ≡ "non_200_status")
    ⊎ (s ≡ "read_body_failed")
    ⊎ (s ≡ "json_parse_failed")
    ⊎ (s ≡ "is_syncing")
    ⊎ (s ≡ "sync_distance_not_zero")

-- Both checks pass exactly for a synced node.
pub checks_iff :
    (r : SyncReply)
    → ((check_sync_status r).0 ≡ (health_check r).0) × (((health_check r).0 ≡ true) ↔ IsSynced r)
unfolding check_sync_status health_check
checks_iff (no_response e) = ground arith
checks_iff (response code (unreadable e)) = ground arith
checks_iff (response code (undecodable e)) = ground arith
checks_iff (response code (decoded r)) = ground (arith, eq_iff r.sync_distance "0")

-- A check that fails gives an error with one of six reasons, and one that passes gives none: the
-- reason "not_synced" never occurs.
pub health_check_error :
    (r : SyncReply)
    → (((health_check r).0 ≡ true) × ((health_check r).1 ≡ none))
      ⊎ (((health_check r).0 ≡ false)
          × ((e : HealthCheckError) × ((health_check r).1 ≡ some e) × IsReason e.reason))
unfolding health_check
health_check_error (no_response e) = ground arith
health_check_error (response code (unreadable e)) = ground arith
health_check_error (response code (undecodable e)) = ground arith
health_check_error (response code (decoded r)) = ground (arith, eq_iff r.sync_distance "0")
