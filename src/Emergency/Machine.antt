-- ===== src/Emergency/Machine.antt =====
-- The 10 Hz tick of firmware/Services/EmergencySupervisor.cpp: `_arm`, `_pollEstop`,
-- `_markRuntimeHealthy`, `_ledTick` and `tick`. Publishing the status is output and is left out.
use pltsmonitoring_firmware.Prelude.{
  ℕ, ◌+◌, ◌-◌, ◌%◌, ◌^◌, ltb, leb, if◌then◌else◌, true, false, not, ◌&&◌, some,
}
use pltsmonitoring_firmware.Measure.{Float}
use pltsmonitoring_firmware.Expander.{force_safety_all_off, clear_safety_latch}
use pltsmonitoring_firmware.Emergency.{
  run, emergency, estop, internal, no_reason, tripped, armed, estop_opened, estop_released,
  Supervisor, Env, obtained, busy, missing, put_over,
}
use pltsmonitoring_firmware.Emergency.Relay.{bool_eq, set_energized, is_estop_open}
use pltsmonitoring_firmware.Emergency.Triggers.{read_sensors, trip, evaluate_triggers, track_clear}

abbrev pub starve_limit : ℕ
starve_limit = 20

abbrev pub healthy_runtime_ms : ℕ
healthy_runtime_ms = 300000

abbrev pub led_blink_ms : ℕ
led_blink_ms = 250

module _ (fl : Float) where
  open fl use {F}

  unfoldable pub arm : Supervisor F → Supervisor F
  unfolding set_energized clear_safety_latch
  arm s = record s {
    state = run;
    reason = no_reason;
    trip_at_ms = 0;
    driver = set_energized true s.driver;
    bank = clear_safety_latch s.bank;
    pending = some armed;
    trip_alarm = false;
  }

  -- `_pollEstop`: only an edge of the line does anything.
  unfoldable pub poll_estop : Env F → Supervisor F → Supervisor F
  unfolding is_estop_open
  poll_estop e s =
      let open_now = is_estop_open e.line_high s.driver in
      let t = record s { estop_open = open_now } in
      if bool_eq open_now s.estop_open
      then s
      else if open_now
      then elim s.state [
        | run ↦ trip fl e estop estop_opened t
        | emergency ↦ record t { pending = some estop_opened }
      ]
      else record t { pending = some estop_released }

  unfoldable pub mark_runtime_healthy : Env F → Supervisor F → Supervisor F
  mark_runtime_healthy e s =
      if s.run_ok_marked then s else if ltb e.now healthy_runtime_ms then s else record s {
        run_ok_marked = true;
        nvs_run_ok = put_over (e.nvs.opens && e.nvs.stores_run_ok) 1 s.nvs_run_ok;
      }

  unfoldable pub led_tick : Env F → Supervisor F → Supervisor F
  led_tick e s = elim s.state [
    | run ↦ record s { led_state = true }
    | emergency ↦
        if leb led_blink_ms ((e.now + 2 ^ 32 - s.last_led_toggle_ms) % 2 ^ 32)
        then record s { led_state = not s.led_state; last_led_toggle_ms = e.now }
        else s
  ]

  -- A tick that does not get the mutex: after 20 in a row the relay is forced off without it.
  unfoldable pub starved_tick : Env F → Supervisor F → Supervisor F
  unfolding set_energized
  starved_tick e s =
      let n = (s.lock_starve_cycles + 1) % 256 in
      if leb starve_limit n && not s.lock_starve_escalated
      then record s {
        lock_starve_cycles = n;
        lock_starve_escalated = true;
        lock_starve_events = (s.lock_starve_events + 1) % 2 ^ 32;
        bank = force_safety_all_off e.bus s.bank;
        driver = if s.driver.energized then set_energized false s.driver else s.driver;
        trip_alarm = true;
      }
      else record s { lock_starve_cycles = n }

  -- A watchdog escalation becomes a trip once the mutex is back.
  unfoldable pub reconcile : Env F → Supervisor F → Supervisor F
  reconcile e s =
      let t = record s { lock_starve_cycles = 0; lock_starve_escalated = false } in
      if s.lock_starve_escalated
      then trip fl e internal tripped t
      else record s { lock_starve_cycles = 0 }

  -- The triggers are evaluated in RUN only; the recovery clock always.
  unfoldable pub evaluate : Env F → Supervisor F → Supervisor F
  evaluate e s =
      let x = read_sensors fl e in
      elim s.state [
        | run ↦ track_clear fl e x (evaluate_triggers fl e x s)
        | emergency ↦ track_clear fl e x s
      ]

  unfoldable pub tick : Env F → Supervisor F → Supervisor F
  tick e s = elim e.lock [
    | missing ↦ s
    | busy ↦ starved_tick e s
    | obtained ↦ led_tick e (mark_runtime_healthy e (evaluate e (poll_estop e (reconcile e s))))
  ]
