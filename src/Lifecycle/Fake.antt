-- ===== src/Lifecycle/Fake.antt =====
-- `FakeLifecycleEnvironment` of app/lifecycle/service.py, with a clock that its `sleep` moves.
use palworld_manager.Prelude.{
  ℕ, zero, suc, ◌+◌, ◌<◌, ◌≡◌, refl, Bool, true, false, some, arith, if◌then◌else◌,
}
use palworld_manager.Prelude.Result.{ok}
use palworld_manager.Db.Enums.{LifecycleAction, PalworldHealthState}
use palworld_manager.Db.Rows.{second}
use palworld_manager.Environment.{Environment, Clock}
use palworld_manager.Lifecycle.Executor.{LifecycleOutcome, LifecycleResult, poll_interval, execute}
use palworld_manager.Lifecycle.Returns.{AtTarget}

pub record FakeLifecycleEnvironment : Type 0 where
  pub active : Bool
  pub restart_pending : Bool

abbrev pub fake_start : FakeLifecycleEnvironment → FakeLifecycleEnvironment
fake_start f = record { active = true; restart_pending = false }

abbrev pub fake_stop : FakeLifecycleEnvironment → FakeLifecycleEnvironment
fake_stop f = record { active = false; restart_pending = false }

abbrev pub fake_restart : FakeLifecycleEnvironment → FakeLifecycleEnvironment
fake_restart f = record { active = true; restart_pending = true }

-- The `state` of the snapshot that `check` returns.
abbrev pub fake_check : FakeLifecycleEnvironment → PalworldHealthState × FakeLifecycleEnvironment
fake_check f =
    if f.restart_pending
    then (PalworldHealthState.starting, record f { restart_pending = false })
    else (if f.active then PalworldHealthState.online else PalworldHealthState.offline, f)

abbrev pub fake : Environment
fake = record {
  World = FakeLifecycleEnvironment × ℕ;
  check = λ w. let (state, f) = fake_check w.0 in (state, (f, w.1));
  start = λ w. (true, (fake_start w.0, w.1));
  stop = λ w. (true, (fake_stop w.0, w.1));
  restart = λ w. (true, (fake_restart w.0, w.1));
  send_signal = λ s w. (true, (fake_stop w.0, w.1));
  is_open = λ w. (w.0.active, w);
  monotonic = λ w. (w.1, w);
  sleep = λ d w. (w.0, w.1 + d);
  online_player_count = λ w. (some 0, w);
  announce = λ s w. (true, w);
}

pub fake_clock : Clock fake
fake_clock = record {
  now = λ w. w.1;
  monotonic_reads = λ w. omega arith;
  check_later = λ w. ground arith;
  is_open_later = λ w. omega arith;
  start_later = λ w. omega arith;
  stop_later = λ w. omega arith;
  restart_later = λ w. omega arith;
  send_signal_later = λ s w. omega arith;
  sleep_lasts = λ d w. omega arith;
}

-- Whatever the fake's state, each of the three actions succeeds on it with the state that the
-- action is for.
fake-execute :
    (action : LifecycleAction) (timeout_seconds : ℕ) (w : fake.World)
    → 0 < timeout_seconds
    → (r : LifecycleResult) × (w' : fake.World) × (execute fake
          (suc timeout_seconds)
          poll_interval
          action
          timeout_seconds
          w
        ≡ some (ok (r, w')))
      × (r.outcome ≡ LifecycleOutcome.succeeded)
      × AtTarget action r.final_state
unfolding execute
fake-execute LifecycleAction.start (suc t) w positive = (
  record {
    outcome = LifecycleOutcome.succeeded;
    final_state = PalworldHealthState.online;
    timed_out = false;
  },
  (fake_start w.0, w.1),
  ground arith,
  refl,
  refl,
)
fake-execute LifecycleAction.stop (suc t) w positive = (
  record {
    outcome = LifecycleOutcome.succeeded;
    final_state = PalworldHealthState.offline;
    timed_out = false;
  },
  (fake_stop w.0, w.1),
  ground arith,
  refl,
  refl,
)
fake-execute LifecycleAction.restart (suc t) w positive = (
  record {
    outcome = LifecycleOutcome.succeeded;
    final_state = PalworldHealthState.online;
    timed_out = false;
  },
  (fake_start w.0, w.1 + second),
  ground arith,
  refl,
  refl,
)
fake-execute _ zero w positive = absurd (omega arith)
