-- ===== src/Node/Sync/Tests.antt =====
-- The checks of one node's reply: cmd/beaconnode/health_check.go.
use consensus_proxy.Base.{true, false, ◌≡◌, ◌↔◌}
use consensus_proxy.Node.Sync.{SyncReply, response, decoded, check_sync_status, health_check}
use consensus_proxy.Node.Sync.Laws.{IsSynced, checks_iff}

-- A node that is synced to a distance of 3.
abbrev behind : SyncReply
behind = response 200 (decoded (record { is_syncing = false; sync_distance = "3" }))

checks_example :
    ((check_sync_status behind).0 ≡ (health_check behind).0)
    × (((health_check behind).0 ≡ true) ↔ IsSynced behind)
checks_example = checks_iff behind
