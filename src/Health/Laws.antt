-- ===== src/Health/Laws.antt =====
-- The health checks of app/health/palworld.py and app/jobs/health.py against what their states say.
use palworld_manager.Prelude.{
  ◌+◌, ◌≤◌, ◌≡◌, ◌≢◌, ◌↔◌, ◌⊎◌, Bool, true, false, String, some, arith, str_eq, eq_iff, refl, sym,
  subst,
}
use palworld_manager.Prelude.Result.{Error, err}
use palworld_manager.Db.Enums.{PalworldHealthState}
use palworld_manager.Db.Rows.{Time, WorkerHeartbeat, Db, second}
use palworld_manager.Heartbeat.{record_worker_start}
use palworld_manager.Health.{
  RestApiState, PalworldServiceStatus, evaluated_state, is_available, WorkerServiceStatus,
  WorkerHealthState, check_worker_health, evaluate_palworld_health, heartbeat_age_at,
}

-- A unit that systemd is neither starting, stopping nor has given up.
abbrev pub IsSettled : PalworldServiceStatus → Type 0
IsSettled service =
    (str_eq service.source_state "failed" ≡ false)
    × (str_eq service.source_state "activating" ≡ false)
    × (str_eq service.source_state "inactive" ≡ false)
    × (str_eq service.source_state "deactivating" ≡ false)

abbrev pub IsDown : PalworldServiceStatus → Type 0
IsDown service =
    (str_eq service.source_state "inactive" ≡ true)
    ⊎ (str_eq service.source_state "deactivating" ≡ true)

-- A text is not two literals.
differs : (s a b : String) → str_eq a b ≡ false → str_eq s a ≡ true → str_eq s b ≡ false
differs s a b apart same = subst (λ t. str_eq t b ≡ false) (sym ((eq_iff s a).0 same)) apart

-- What three of the states of `evaluate_palworld_health` mean: the server is online exactly if its
-- unit is active and is in none of the states failed, activating, inactive and deactivating, its
-- process runs and its REST API answers; it is offline exactly if its unit is inactive or
-- deactivating and neither the process runs nor the API answers; it is starting exactly if its unit
-- is activating.
pub evaluate_palworld_health-Meaning :
    (service : PalworldServiceStatus) (process : Bool) (rest_api : RestApiState)
    → let state = (evaluate_palworld_health service process rest_api).state in
      ((state ≡ PalworldHealthState.online) ↔ (
        IsSettled service
        × (service.active ≡ true)
        × (process ≡ true)
        × (is_available rest_api ≡ true)))
      × ((state ≡ PalworldHealthState.offline)
          ↔ (IsDown service × (process ≡ false) × (is_available rest_api ≡ false)))
      × ((state ≡ PalworldHealthState.starting) ↔ (str_eq service.source_state "activating" ≡ true))
unfolding evaluated_state
evaluate_palworld_health-Meaning service process rest_api =
    let s = service.source_state in
    let from_inactive_1 = differs s "inactive" "failed" refl in
    let from_inactive_2 = differs s "inactive" "activating" refl in
    let from_deactivating_1 = differs s "deactivating" "failed" refl in
    let from_deactivating_2 = differs s "deactivating" "activating" refl in
    let from_deactivating_3 = differs s "deactivating" "inactive" refl in
    let from_activating = differs s "activating" "failed" refl in
    (ground arith, ground arith, ground arith)

-- The worker is shown as healthy exactly if its service is active and another worker that asked for
-- the lease at that time would be refused, where the heartbeat is one of this activation of the
-- service: it is not older than the service, give or take a second.
pub check_worker_health-Lease :
    (now : Time) (service : WorkerServiceStatus) (db : Db) (heartbeat : WorkerHeartbeat)
    (other : String)
    → db.heartbeat ≡ some heartbeat
    → heartbeat_age_at now heartbeat ≤ service.active_for + second
    → other ≢ ""
    → other ≢ heartbeat.worker_id
    → ((check_worker_health now (some service) db).state ≡ WorkerHealthState.healthy) ↔ (
        (service.active ≡ true)
        × (record_worker_start other now db ≡ err Error.worker_already_running))
unfolding check_worker_health record_worker_start
check_worker_health-Lease now service db heartbeat other there fresh named different =
    ground (arith, there, eq_iff other "", eq_iff heartbeat.worker_id other)
