-- ===== src/Emergency.antt =====
-- firmware/Services/EmergencySupervisor.{h,cpp}: the state of the emergency layer, with the relay
-- driver of firmware/Drivers/EmergencyRelayDriver.{h,cpp}. The operations are in the child modules.
-- Texts for the operator and the log are left out; `millis()` is read once in a call.
pub mod Relay
pub mod Triggers
pub mod Machine
pub mod Settings
pub mod Command
pub mod Boot
pub mod Isolation
pub mod Gate
pub mod Arming
pub mod Debounce
pub mod Crashes
pub mod Watchdog
pub mod Policy
pub mod Quiet
mod Examples
use pltsmonitoring_firmware.Prelude.{
  ℕ, zero, suc, ◌+◌, ltb, if◌then◌else◌, Bool, true, false, Option, ◌≡◌, refl, arith,
}
use pltsmonitoring_firmware.Measure.{Float, Measurement}
use pltsmonitoring_firmware.Expander.{Expander, Bus}

-- `negsuc n` is -(n + 1).
pub data ℤ : Type 0 where
  pos : ℕ → ℤ
  negsuc : ℕ → ℤ

abbrev pub ltb_ℤ : ℤ → ℤ → Bool
ltb_ℤ (pos a) (pos b) = ltb a b
ltb_ℤ (pos a) (negsuc b) = false
ltb_ℤ (negsuc a) (pos b) = true
ltb_ℤ (negsuc a) (negsuc b) = ltb b a

pub data EmgState : Type 0 where
  run emergency : EmgState

-- `no_reason` is the empty text of an armed system.
pub data Reason : Type 0 where
  boot vbat_low vbat_high i_dc_over i_ac_load_over i_ac_gen_over sensor_loss : Reason
  estop operator crashloop internal no_reason : Reason

pub data Event : Type 0 where
  booted crash_looped tripped armed disarmed estop_opened estop_released : Event
  config_applied config_refused : Event

-- The fields of `EmergencyRelayDriver`.
pub record Driver : Type 0 where
  pub relay_pin : ℕ
  pub estop_pin : ℤ
  pub estop_enabled : Bool
  pub energized : Bool
  pub pins_refused : Bool

-- The six counters of `_debounce`.
pub record Counters : Type 0 where
  pub vbat_lo : ℕ
  pub vbat_hi : ℕ
  pub i_dc : ℕ
  pub i_ac : ℕ
  pub i_ac_gen : ℕ
  pub loss : ℕ

-- The 13 fields `Core::cfgEmg*`.
pub record Config (F : Type 0) : Type 0 where
  pub vbat_low_v : F
  pub vbat_low_hyst_v : F
  pub vbat_high_v : F
  pub vbat_high_hyst_v : F
  pub i_dc_over_a : F
  pub i_ac_load_over_a : F
  pub i_ac_gen_over_a : F
  pub debounce_n : ℕ
  pub recovery_sec : ℕ
  pub relay_pin : ℕ
  pub estop_pin : ℤ
  pub estop_enabled : ℕ
  pub sensor_fail_policy : ℕ

-- The fields of `EmergencySupervisor`, with what its methods write elsewhere: the configuration, the
-- two relay drivers, the keys of NVS namespace "plts_emg" and the alarm EMERGENCY_TRIP.
pub record Supervisor (F : Type 0) : Type 0 where
  pub state : EmgState
  pub reason : Reason
  pub trip_at_ms : ℕ
  pub trips : ℕ
  pub crash_chain : ℕ
  pub estop_open : Bool
  pub run_ok_marked : Bool
  pub debounce : Counters
  pub clear_at_ms : ℕ
  pub lock_starve_cycles : ℕ
  pub lock_starve_escalated : Bool
  pub lock_starve_events : ℕ
  pub pending : Option Event
  pub led_state : Bool
  pub last_led_toggle_ms : ℕ
  pub config : Config F
  pub driver : Driver
  pub bank : Expander
  pub nvs_trips : ℕ
  pub nvs_run_ok : ℕ
  pub nvs_chain : ℕ
  pub trip_alarm : Bool

-- `EmgSensors`.
pub record Sensors (F : Type 0) : Type 0 where
  pub vbat : F
  pub idc : F
  pub iac : F
  pub igen : F
  pub ina219_present : Bool

-- What `_readSensors` finds: the probe of the INA219, whether the telemetry mutex is obtained, and the
-- three measurements of the last status.
pub record Inputs (F : Type 0) : Type 0 where
  pub ina219_available : Bool
  pub telemetry_lock : Bool
  pub voltage : Measurement F
  pub current : Measurement F
  pub rms_current : Measurement F

-- What `xSemaphoreTake` on the supervisor's mutex finds; it is `missing` where it was not created.
pub data Lock : Type 0 where
  obtained busy missing : Lock

abbrev pub is_obtained : Lock → Bool
is_obtained obtained = true
is_obtained _ = false

pub is_obtained_eq : (l : Lock) → is_obtained l ≡ true → l ≡ obtained
is_obtained_eq obtained h = refl
is_obtained_eq busy h = absurd (ground arith)
is_obtained_eq missing h = absurd (ground arith)

-- What `Preferences` answers for the namespace "plts_emg" in one call: whether it opens, and for each
-- key whether a read finds it and whether a write is stored.
pub record Nvs : Type 0 where
  pub opens : Bool
  pub finds_trips : Bool
  pub finds_run_ok : Bool
  pub finds_chain : Bool
  pub stores_trips : Bool
  pub stores_run_ok : Bool
  pub stores_chain : Bool

-- A read gives the default that the call names where the namespace does not open or the key is not found.
abbrev pub get_or : Bool → ℕ → ℕ → ℕ
get_or found stored default = if found then stored else default

-- What a key holds after a write.
abbrev pub put_over : Bool → ℕ → ℕ → ℕ
put_over stores value stored = if stores then value else stored

-- What a call meets: the supervisor's mutex, the clock, the level of the E-stop line, the sensors, the
-- bus of the relay bank, NVS, and whether a configuration is saved.
pub record Env (F : Type 0) : Type 0 where
  pub lock : Lock
  pub now : ℕ
  pub line_high : Bool
  pub inputs : Inputs F
  pub bus : Bus
  pub nvs : Nvs
  pub saves : Bool
