-- ===== src/Node/Sync.antt =====
-- cmd/beaconnode/health_check.go: the two checks of a node's syncing endpoint. What the HTTP
-- client, the body reader and the JSON decoder return is a value of `SyncReply`.
pub mod Laws
pub mod Tests
use consensus_proxy.Base.{
  ℕ, String, Bool, true, false, not, ◌&&◌, Option, none, some, ◌==◌, str_eq, if◌then◌else◌,
}

pub record SyncingResponse : Type 0 where
  pub is_syncing : Bool
  pub sync_distance : String

-- The body of a response: read or not, decoded or not.
pub data SyncBody : Type 0 where
  unreadable : String → SyncBody
  undecodable : String → SyncBody
  decoded : SyncingResponse → SyncBody

pub data SyncReply : Type 0 where
  no_response : String → SyncReply
  response : ℕ → SyncBody → SyncReply

-- The errors that `CheckSyncStatus` formats.
pub data SyncError : Type 0 where
  request_failed : String → SyncError
  non_200_status : ℕ → SyncError
  read_body_failed : String → SyncError
  json_parse_failed : String → SyncError
  not_synced : Bool → String → SyncError

check_sync_body : SyncBody → Bool × Option SyncError
check_sync_body (unreadable e) = (false, some (read_body_failed e))
check_sync_body (undecodable e) = (false, some (json_parse_failed e))
check_sync_body (decoded r) =
    let healthy = not r.is_syncing && str_eq r.sync_distance "0" in
    if not healthy then (false, some (not_synced r.is_syncing r.sync_distance)) else (true, none)

-- `CheckSyncStatus`
unfoldable pub check_sync_status : SyncReply → Bool × Option SyncError
unfolding check_sync_body
check_sync_status (no_response e) = (false, some (request_failed e))
check_sync_status (response code body) =
    if not (code == 200) then (false, some (non_200_status code)) else check_sync_body body

-- `HealthCheckError`; `err` is the wrapped error's text.
pub record HealthCheckError : Type 0 where
  pub reason : String
  pub status_code : ℕ
  pub is_syncing : Bool
  pub sync_distance : String
  pub err : Option String

abbrev reason_only : String → Option String → HealthCheckError
reason_only reason err = record {
  reason = reason;
  status_code = 0;
  is_syncing = false;
  sync_distance = "";
  err = err;
}

-- `HealthCheckError.Error`
unfoldable pub error_text : HealthCheckError → String
error_text e = elim e.err [
  | none ↦ e.reason
  | some inner ↦ Prim.Native.String.◌++◌ e.reason (Prim.Native.String.◌++◌ ": " inner)
]

sync_reason : SyncingResponse → String
sync_reason r =
    if r.is_syncing
    then "is_syncing"
    else if not (str_eq r.sync_distance "0")
    then "sync_distance_not_zero"
    else "not_synced"

health_check_body : SyncBody → Bool × Option HealthCheckError
unfolding sync_reason
health_check_body (unreadable e) = (false, some (reason_only "read_body_failed" (some e)))
health_check_body (undecodable e) = (false, some (reason_only "json_parse_failed" (some e)))
health_check_body (decoded r) =
    let healthy = not r.is_syncing && str_eq r.sync_distance "0" in
    if not healthy
    then (
      false,
      some (record (reason_only (sync_reason r) none) {
        is_syncing = r.is_syncing;
        sync_distance = r.sync_distance;
      }),
    )
    else (true, none)

-- `HealthCheck`
unfoldable pub health_check : SyncReply → Bool × Option HealthCheckError
unfolding health_check_body
health_check (no_response e) = (false, some (reason_only "request_failed" (some e)))
health_check (response code body) =
    if not (code == 200)
    then (false, some (record (reason_only "non_200_status" none) { status_code = code }))
    else health_check_body body
