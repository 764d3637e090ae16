-- ===== src/Environment.antt =====
-- The protocols that the executors of app/lifecycle/service.py and app/shutdown/service.py call:
-- PalworldServiceController, PalworldSignalController, PalworldHealthChecker, PortProbe,
-- PalworldShutdownCommunicator, `time.monotonic` and `time.sleep`. A call takes the state of the
-- outside world and returns the next one. Times are in microseconds.
use palworld_manager.Prelude.{ℕ, ◌+◌, ◌≤◌, Bool, String, Option}
use palworld_manager.Db.Enums.{PalworldSignal, PalworldHealthState}

pub record Environment : Type 1 where
  pub World : Type 0
  -- the `state` of the snapshot
  pub check : World → PalworldHealthState × World
  -- false: PalworldServiceControlError
  pub start : World → Bool × World
  pub stop : World → Bool × World
  pub restart : World → Bool × World
  pub send_signal : PalworldSignal → World → Bool × World
  pub is_open : World → Bool × World
  pub monotonic : World → ℕ × World
  pub sleep : ℕ → World → World
  -- none, false: PalworldRestOperationError
  pub online_player_count : World → Option ℕ × World
  pub announce : String → World → Bool × World

-- What Python documents of the clock: it never goes back, and `sleep` lasts at least as long as it
-- is told to. `now` is the clock's value in a state of the world.
pub record Clock (e : Environment) : Type 0 where
  pub now : e.World → ℕ
  pub monotonic_reads :
      (w : e.World) → (now w ≤ (e.monotonic w).0) × ((e.monotonic w).0 ≤ now (e.monotonic w).1)
  pub check_later : (w : e.World) → now w ≤ now (e.check w).1
  pub is_open_later : (w : e.World) → now w ≤ now (e.is_open w).1
  pub start_later : (w : e.World) → now w ≤ now (e.start w).1
  pub stop_later : (w : e.World) → now w ≤ now (e.stop w).1
  pub restart_later : (w : e.World) → now w ≤ now (e.restart w).1
  pub send_signal_later : (s : PalworldSignal) (w : e.World) → now w ≤ now (e.send_signal s w).1
  pub sleep_lasts : (d : ℕ) (w : e.World) → now w + d ≤ now (e.sleep d w)
