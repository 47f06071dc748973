-- ===== src/Emergency/Boot.antt =====
-- `begin` of firmware/Services/EmergencySupervisor.cpp and of firmware/Drivers/EmergencyRelayDriver.cpp:
-- what a boot does, from the state that the power-on left.
use pltsmonitoring_firmware.Prelude.{
  ℕ, ◌+◌, ◌%◌, leb, ◌==◌, if◌then◌else◌, Bool, true, false, ◌&&◌, none,
}
use pltsmonitoring_firmware.Measure.{Float}
use pltsmonitoring_firmware.Emergency.{
  pos, emergency, boot, crashloop, booted, crash_looped, Counters, Supervisor, Env, Driver, get_or,
  put_over,
}
use pltsmonitoring_firmware.Emergency.Relay.{set_energized, is_estop_open}
use pltsmonitoring_firmware.Emergency.Settings.{repin}
use pltsmonitoring_firmware.Emergency.Command.{crash_chain_limit, queue_event}

abbrev pub no_counts : Counters
no_counts = record { vbat_lo = 0; vbat_hi = 0; i_dc = 0; i_ac = 0; i_ac_gen = 0; loss = 0 }

-- `EmergencyRelayDriver::begin`: isolated before anything else.
unfoldable pub begin_driver : Driver → Driver
unfolding set_energized
begin_driver d = set_energized false d

module _ (fl : Float) where
  open fl use {F}

  -- The initial values of the objects; the configuration, NVS, the alarm and the expander's output
  -- register outlive the restart.
  unfoldable pub power_on : Supervisor F → Supervisor F
  power_on s = record s {
    state = emergency;
    reason = boot;
    trip_at_ms = 0;
    trips = 0;
    crash_chain = 0;
    estop_open = false;
    run_ok_marked = false;
    debounce = no_counts;
    clear_at_ms = 0;
    lock_starve_cycles = 0;
    lock_starve_escalated = false;
    lock_starve_events = 0;
    pending = none;
    led_state = false;
    last_led_toggle_ms = 0;
    driver = record {
      relay_pin = 27;
      estop_pin = pos 14;
      estop_enabled = true;
      energized = false;
      pins_refused = false;
    };
    bank = record {
      available = false;
      shadow_unknown = false;
      address = 0x20;
      output_state = 0xFF;
      safety_latched = true;
      port = s.bank.port;
    };
  }

  -- The crash chain as NVS reads: 0 after a boot that stayed healthy, else one more.
  unfoldable pub next_chain : Env F → Supervisor F → ℕ
  next_chain e s =
      let run_ok = get_or (e.nvs.opens && e.nvs.finds_run_ok) s.nvs_run_ok 1 in
      let chain = get_or (e.nvs.opens && e.nvs.finds_chain) s.nvs_chain 0 in
      if run_ok == 0 then (chain + 1) % 256 else 0

  unfoldable pub begin : Bool → Env F → Supervisor F → Supervisor F
  unfolding next_chain is_estop_open queue_event
  begin production e s =
      let pinned = repin fl production s.config s in
      let chain = next_chain e s in
      let looping = leb crash_chain_limit chain in
      let t = record pinned {
        trips = get_or (e.nvs.opens && e.nvs.finds_trips) s.nvs_trips 0;
        nvs_run_ok = put_over (e.nvs.opens && e.nvs.stores_run_ok) 0 s.nvs_run_ok;
        crash_chain = chain;
        nvs_chain = put_over (e.nvs.opens && e.nvs.stores_chain) chain s.nvs_chain;
        run_ok_marked = false;
        state = emergency;
        trip_at_ms = 0;
        clear_at_ms = 0;
        debounce = no_counts;
        estop_open = is_estop_open e.line_high pinned.driver;
        reason = if looping then crashloop else boot;
        trip_alarm = true;
      } in
      queue_event fl e (if looping then crash_looped else booted) t

  -- A restart of the controller.
  unfoldable pub restart : Bool → Env F → Supervisor F → Supervisor F
  unfolding power_on begin begin_driver
  restart production e s =
      let fresh = power_on s in
      begin production e (record fresh { driver = begin_driver fresh.driver })
