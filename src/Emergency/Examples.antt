-- ===== src/Emergency/Examples.antt =====
-- A supervisor whose readings are whole numbers, in tenths; `none` stands for NaN.
mod Commands
mod Ticks
use pltsmonitoring_firmware.Prelude.{
  ℕ, ◌≡◌, ◌≢◌, ◌↔◌, ◌⊎◌, ◌≤◌, ◌<◌, ◌+◌, ◌-◌, ◌*◌, ◌/◌, ◌%◌, ◌^◌, ltb, leb, if◌then◌else◌, inl, inr,
  Bool, true, false, List, [], ◌∷◌, refl, arith, length, Option, none, some,
}
use pltsmonitoring_firmware.Measure.{Float, Measurement, valid, measured, is_safety_usable}
use pltsmonitoring_firmware.Expander.{Expander, Bus}
use pltsmonitoring_firmware.Emergency.{
  ℤ, pos, negsuc, run, emergency, Reason, boot, no_reason, internal, Driver, Counters, Config,
  Supervisor, Inputs, Env, Lock, obtained, busy, Nvs,
}
use pltsmonitoring_firmware.Emergency.Relay.{set_energized, is_estop_open}
use pltsmonitoring_firmware.Emergency.Triggers.{read_sensors}
use pltsmonitoring_firmware.Emergency.Machine.{tick}
use pltsmonitoring_firmware.Emergency.Settings.{Patch, patched}
use pltsmonitoring_firmware.Emergency.Command.{arming, disarming, config, applied, apply_command}
use pltsmonitoring_firmware.Emergency.Arming.{
  Call, ticks, restarts, commands, IsIsolated, IsSound, after, after-IsIsolated, after-IsSound,
}
use pltsmonitoring_firmware.Emergency.Gate.{MayArm, arm_gate, arm_energizes}
use pltsmonitoring_firmware.Emergency.Watchdog.{
  ticking, starvation_isolates, starvation_becomes_trip, rearm_defeats_watchdog,
}
use pltsmonitoring_firmware.Emergency.Debounce.{AllLow, low_voltage_trips}
use pltsmonitoring_firmware.Emergency.Quiet.{AllQuiet, quiet_keeps_state, arm_ignores_estop}
use pltsmonitoring_firmware.Emergency.Policy.{
  IsValid, disarm_isolates, config-IsValid, production_lockdown, config_answer,
}

abbrev pub lift_test : (ℕ → ℕ → Bool) → Option ℕ → Option ℕ → Bool
lift_test test (some a) (some b) = test a b
lift_test test _ _ = false

abbrev pub lift_op : (ℕ → ℕ → ℕ) → Option ℕ → Option ℕ → Option ℕ
lift_op op (some a) (some b) = some (op a b)
lift_op op _ _ = none

abbrev pub is_some : Option ℕ → Bool
is_some none = false
is_some (some a) = true

-- Numbers in tenths.
abbrev pub tenths_float : Float
tenths_float = record {
  F = Option ℕ;
  nan = none;
  is_finite = is_some;
  lt = lift_test ltb;
  le = lift_test leb;
  add = lift_op (λ a b. a + b);
  sub = lift_op (λ a b. a - b);
  fabs = λ a. a;
  tenths = λ n. some n;
}

abbrev pub V : Type 0
V = Option ℕ

abbrev pub settings : Config V
settings = record {
  vbat_low_v = some 440;
  vbat_low_hyst_v = some 10;
  vbat_high_v = some 580;
  vbat_high_hyst_v = some 10;
  i_dc_over_a = some 1000;
  i_ac_load_over_a = some 300;
  i_ac_gen_over_a = some 300;
  debounce_n = 3;
  recovery_sec = 60;
  relay_pin = 25;
  estop_pin = pos 26;
  estop_enabled = 1;
  sensor_fail_policy = 1;
}

abbrev pub relay_bank : Expander
relay_bank = record {
  available = true;
  shadow_unknown = false;
  address = 0x20;
  output_state = 0xFE;
  safety_latched = false;
  port = 0xFE;
}

abbrev pub no_counts : Counters
no_counts = record { vbat_lo = 0; vbat_hi = 0; i_dc = 0; i_ac = 0; i_ac_gen = 0; loss = 0 }

abbrev pub isolated : Supervisor V
isolated = record {
  state = emergency;
  reason = boot;
  trip_at_ms = 0;
  trips = 2;
  crash_chain = 0;
  estop_open = false;
  run_ok_marked = false;
  debounce = no_counts;
  clear_at_ms = 1000;
  lock_starve_cycles = 0;
  lock_starve_escalated = false;
  lock_starve_events = 0;
  pending = none;
  led_state = false;
  last_led_toggle_ms = 0;
  config = settings;
  driver = record {
    relay_pin = 25;
    estop_pin = pos 26;
    estop_enabled = true;
    energized = false;
    pins_refused = false;
  };
  bank = relay_bank;
  nvs_trips = 2;
  nvs_run_ok = 1;
  nvs_chain = 0;
  trip_alarm = true;
}

abbrev pub running : Supervisor V
running = record isolated {
  state = run;
  reason = no_reason;
  driver = set_energized true isolated.driver;
}

abbrev pub reading : ℕ → Measurement V
reading n = record { value = some n; quality = valid; source = measured }

abbrev pub bus : Bus
bus = record { mutex = true; guard = true; reached = true; acked = true; answer = some 0xFF }

abbrev pub sound_nvs : Nvs
sound_nvs = record {
  opens = true;
  finds_trips = true;
  finds_run_ok = true;
  finds_chain = true;
  stores_trips = true;
  stores_run_ok = true;
  stores_chain = true;
}

-- A call at 100 s with the voltage given, 5 A from the battery and 2 A to the load.
abbrev pub at_voltage : ℕ → Env V
at_voltage n = record {
  lock = obtained;
  now = 100000;
  line_high = false;
  inputs = record {
    ina219_available = true;
    telemetry_lock = true;
    voltage = reading n;
    current = reading 50;
    rms_current = reading 20;
  };
  bus = bus;
  nvs = sound_nvs;
  saves = true;
}

abbrev pub normal : Env V
normal = at_voltage 500

abbrev pub starved : Env V
starved = record normal { lock = busy }

pub isolated-MayArm : MayArm tenths_float normal isolated
unfolding read_sensors is_safety_usable
isolated-MayArm =
    (refl, ground arith, (refl, refl, refl, λ h. refl, λ h. refl, λ h. cc, λ h. refl), ground arith)
