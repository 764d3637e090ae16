-- ===== src/Health.antt =====
-- app/health/palworld.py and app/jobs/health.py: the health of the game server and of the worker.
pub mod Laws
use palworld_manager.Prelude.{
  ℕ, ◌+◌, ◌-◌, Bool, true, false, not, ◌&&◌, ◌||◌, String, Option, none, some, ltb, str_eq,
  if◌then◌else◌,
}
use palworld_manager.Db.Enums.{PalworldHealthState}
use palworld_manager.Db.Rows.{Time, second, WorkerHeartbeat, Db}
use palworld_manager.Heartbeat.{worker_lease_timeout}

pub data RestApiState : Type 0 where
  available unauthorized unavailable invalid_response failure : RestApiState

pub record PalworldServiceStatus : Type 0 where
  pub active : Bool
  pub source_state : String

pub record PalworldHealthSnapshot : Type 0 where
  pub state : PalworldHealthState
  pub service_state : Option String
  pub process_running : Option Bool
  pub rest_api_state : RestApiState

abbrev pub is_available : RestApiState → Bool
is_available RestApiState.available = true
is_available _ = false

-- The chain of tests of `evaluate_palworld_health`.
unfoldable pub evaluated_state : PalworldServiceStatus → Bool → Bool → PalworldHealthState
evaluated_state service process_running rest_available =
    if str_eq service.source_state "failed"
    then PalworldHealthState.failure
    else if str_eq service.source_state "activating"
    then PalworldHealthState.starting
    else if str_eq service.source_state "inactive"
    then (if not process_running && not rest_available
        then PalworldHealthState.offline
        else PalworldHealthState.failure)
    else if str_eq service.source_state "deactivating"
    then (if process_running || rest_available
        then PalworldHealthState.degraded
        else PalworldHealthState.offline)
    else if service.active
    then (if not process_running
        then PalworldHealthState.failure
        else if rest_available
        then PalworldHealthState.online
        else PalworldHealthState.degraded)
    else if process_running && rest_available
    then PalworldHealthState.degraded
    else PalworldHealthState.failure

abbrev pub evaluate_palworld_health :
    PalworldServiceStatus → Bool → RestApiState → PalworldHealthSnapshot
evaluate_palworld_health service process_running rest_api = record {
  state = evaluated_state service process_running (is_available rest_api);
  service_state = some service.source_state;
  process_running = some process_running;
  rest_api_state = rest_api;
}

abbrev pub failed_snapshot : Option String → PalworldHealthSnapshot
failed_snapshot service_state = record {
  state = PalworldHealthState.failure;
  service_state = service_state;
  process_running = none;
  rest_api_state = RestApiState.failure;
}

-- The protocols PalworldService, PalworldProcessProbe and PalworldRestHealthProbe; none is the
-- query's own error.
pub record HealthProbes : Type 1 where
  pub World : Type 0
  pub get_status : World → Option PalworldServiceStatus × World
  pub is_running : World → Option Bool × World
  pub probe : World → RestApiState × World

-- `PalworldHealthCheck.check`
unfoldable pub check_health : (p : HealthProbes) → p.World → PalworldHealthSnapshot × p.World
check_health p w =
    let (status, w1) = p.get_status w in
    elim status [
      | none ↦ (failed_snapshot none, w1)
      | some service ↦
          let (running, w2) = p.is_running w1 in
          elim running [
            | none ↦ (failed_snapshot (some service.source_state), w2)
            | some process_running ↦
                let (rest_api, w3) = p.probe w2 in
                (evaluate_palworld_health service process_running rest_api, w3)
          ]
    ]

pub data WorkerHealthState : Type 0 where
  starting healthy unresponsive offline : WorkerHealthState

-- `active_for` is a time in microseconds here, and a float of seconds in the source.
pub record WorkerServiceStatus : Type 0 where
  pub active : Bool
  pub source_state : String
  pub active_for : ℕ

pub record WorkerHealthSnapshot : Type 0 where
  pub state : WorkerHealthState
  pub service_state : String
  pub heartbeat_age : Option ℕ
  pub worker_id : Option String

abbrev pub worker_health_threshold : ℕ
worker_health_threshold = worker_lease_timeout

-- `_without_heartbeat`
abbrev pub without_heartbeat : WorkerServiceStatus → WorkerHealthSnapshot
without_heartbeat service = record {
  state =
      if ltb service.active_for worker_health_threshold
      then WorkerHealthState.starting
      else WorkerHealthState.unresponsive;
  service_state = service.source_state;
  heartbeat_age = none;
  worker_id = none;
}

-- `max((now - heartbeat_at).total_seconds(), 0.0)`: the subtraction on ℕ stops at 0.
abbrev pub heartbeat_age_at : Time → WorkerHeartbeat → ℕ
heartbeat_age_at now heartbeat = now - heartbeat.heartbeat_at

abbrev pub with_heartbeat : Time → WorkerServiceStatus → WorkerHeartbeat → WorkerHealthSnapshot
with_heartbeat now service heartbeat =
    if ltb (service.active_for + second) (heartbeat_age_at now heartbeat)
    then without_heartbeat service
    else record {
      state =
          if ltb (heartbeat_age_at now heartbeat) worker_health_threshold
          then WorkerHealthState.healthy
          else WorkerHealthState.unresponsive;
      service_state = service.source_state;
      heartbeat_age = some (heartbeat_age_at now heartbeat);
      worker_id = some heartbeat.worker_id;
    }

-- `WorkerHealthChecker.check`; none is a WorkerServiceQueryError.
unfoldable pub check_worker_health : Time → Option WorkerServiceStatus → Db → WorkerHealthSnapshot
check_worker_health now none db = record {
  state = WorkerHealthState.unresponsive;
  service_state = "unavailable";
  heartbeat_age = none;
  worker_id = none;
}
check_worker_health now (some service) db =
    if not service.active
    then record {
      state = WorkerHealthState.offline;
      service_state = service.source_state;
      heartbeat_age = none;
      worker_id = none;
    }
    else (elim db.heartbeat [
      | none ↦ without_heartbeat service
      | some heartbeat ↦ with_heartbeat now service heartbeat
    ])
