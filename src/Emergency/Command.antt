-- ===== src/Emergency/Command.antt =====
-- `applyCommand` of firmware/Services/EmergencySupervisor.cpp, and the slot of the pending event
-- (`queueEvent`, `peekPendingEvent`, `consumePendingEvent`).
use pltsmonitoring_firmware.Prelude.{
  leb, if◌then◌else◌, Bool, true, false, ◌+◌, ◌%◌, ◌^◌, ◌&&◌, ℕ, Option, none, some,
}
use pltsmonitoring_firmware.Measure.{Float}
use pltsmonitoring_firmware.Emergency.{
  run, emergency, operator, Event, disarmed, config_refused, Supervisor, Env, obtained, busy,
  missing, is_obtained, put_over,
}
use pltsmonitoring_firmware.Emergency.Relay.{set_energized}
use pltsmonitoring_firmware.Emergency.Triggers.{read_sensors, arm_block_reason}
use pltsmonitoring_firmware.Emergency.Machine.{arm}
use pltsmonitoring_firmware.Emergency.Settings.{Patch, asks_locked, save_config}

abbrev pub crash_chain_limit : ℕ
crash_chain_limit = 3

-- The word of the command in upper case; `config none` has no configuration object.
pub data Command (F : Type 0) : Type 0 where
  arming disarming unknown : Command F
  config : Option (Patch F) → Command F

pub data Outcome : Type 0 where
  applied rejected refused : Outcome

module _ (fl : Float) where
  open fl use {F}

  unfoldable pub apply_arm : Env F → Supervisor F → Outcome × Supervisor F
  unfolding arm
  apply_arm e s = elim s.state [
    | run ↦ (applied, s)
    | emergency ↦
        if leb crash_chain_limit s.crash_chain
        then (rejected, s)
        else let (block, t) = arm_block_reason fl e (read_sensors fl e) s in
          elim block [ some b ↦ (rejected, t) | none ↦ (applied, arm fl t) ]
  ]

  -- DISARM has no gate.
  unfoldable pub apply_disarm : Env F → Supervisor F → Outcome × Supervisor F
  unfolding set_energized
  apply_disarm e s = elim s.state [
    | run ↦ (
      applied,
      record s {
        state = emergency;
        reason = operator;
        trip_at_ms = e.now;
        trips = (s.trips + 1) % 2 ^ 32;
        nvs_trips =
            put_over (e.nvs.opens && e.nvs.stores_trips) ((s.trips + 1) % 2 ^ 32) s.nvs_trips;
        pending = some disarmed;
        trip_alarm = true;
        driver = set_energized false s.driver;
      },
    )
    | emergency ↦ (applied, record s { driver = set_energized false s.driver })
  ]

  unfoldable pub apply_config :
      Bool → Env F → Option (Patch F) → Supervisor F → Outcome × Supervisor F
  unfolding asks_locked save_config
  apply_config production e none s = (rejected, s)
  apply_config production e (some p) s =
      let (saved, t) = save_config fl production e p s in
      if production && asks_locked fl p s.config
      then (refused, record s { pending = some config_refused })
      else (if saved then applied else refused, t)

  -- A mutex that was not created is taken like a busy one (`xSemaphoreTake` asserts there).
  unfoldable pub apply_command : Bool → Env F → Command F → Supervisor F → Outcome × Supervisor F
  apply_command production e arming s = if is_obtained e.lock then apply_arm e s else (rejected, s)
  apply_command production e disarming s =
      if is_obtained e.lock then apply_disarm e s else (rejected, s)
  apply_command production e (config p) s =
      if is_obtained e.lock then apply_config production e p s else (rejected, s)
  apply_command production e unknown s = (rejected, s)

  -- The slot holds the latest event that is not sent yet.
  unfoldable pub queue_event : Env F → Event → Supervisor F → Supervisor F
  queue_event e event s = elim e.lock [
    | busy ↦ s
    | obtained ↦ record s { pending = some event }
    | missing ↦ record s { pending = some event }
  ]

  unfoldable pub peek_pending_event : Env F → Supervisor F → Option Event
  peek_pending_event e s = if is_obtained e.lock then s.pending else none

  unfoldable pub consume_pending_event : Env F → Supervisor F → Supervisor F
  consume_pending_event e s = if is_obtained e.lock then record s { pending = none } else s
