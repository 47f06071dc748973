-- ===== src/Emergency/Examples/Commands.antt =====
-- The theorems on commands and histories, at concrete supervisors.
use pltsmonitoring_firmware.Prelude.{◌≡◌, ◌↔◌, true, false, List, [], ◌∷◌, refl, arith, none, some}
use pltsmonitoring_firmware.Emergency.{pos}
use pltsmonitoring_firmware.Emergency.Settings.{Patch}
use pltsmonitoring_firmware.Emergency.Command.{arming, disarming, config, apply_command}
use pltsmonitoring_firmware.Emergency.Arming.{
  Call, ticks, restarts, commands, IsIsolated, IsSound, after, after-IsIsolated, after-IsSound,
}
use pltsmonitoring_firmware.Emergency.Gate.{MayArm, arm_energizes}
use pltsmonitoring_firmware.Emergency.Policy.{IsValid, config-IsValid, production_lockdown}
use pltsmonitoring_firmware.Emergency.{crashloop, Supervisor, Env}
use pltsmonitoring_firmware.Emergency.Command.{rejected}
use pltsmonitoring_firmware.Emergency.Boot.{restart}
use pltsmonitoring_firmware.Emergency.Crashes.{crash_loop_holds}
use pltsmonitoring_firmware.Emergency.Examples.{
  tenths_float, V, settings, isolated, at_voltage, normal, starved,
}

after-IsIsolated_example : IsIsolated tenths_float (
    after tenths_float true
      ((normal, ticks) ∷ (normal, restarts) ∷ (normal, commands disarming) ∷ (starved, ticks) ∷ [])
      isolated)
after-IsIsolated_example =
    after-IsIsolated tenths_float true
      ((normal, ticks) ∷ (normal, restarts) ∷ (normal, commands disarming) ∷ (starved, ticks) ∷ [])
      isolated refl (refl, refl)

after-IsSound_example :
    IsSound tenths_float
      (after tenths_float true ((normal, commands arming) ∷ (at_voltage 400, ticks) ∷ []) isolated)
after-IsSound_example =
    after-IsSound tenths_float true ((normal, commands arming) ∷ (at_voltage 400, ticks) ∷ [])
      isolated (λ h. refl)

arm_energizes_example :
    ((apply_command tenths_float true normal arming isolated).1.driver.energized ≡ true)
    ↔ MayArm tenths_float normal isolated
arm_energizes_example = arm_energizes tenths_float true normal isolated refl refl

abbrev patch : Patch V
patch = record {
  vbat_low_v = some (some 450);
  vbat_low_hyst_v = none;
  vbat_high_v = some (some 900);
  vbat_high_hyst_v = none;
  i_dc_over_a = none;
  i_ac_load_over_a = none;
  i_ac_gen_over_a = none;
  debounce_n = some (pos 5);
  recovery_sec = none;
  relay_pin = none;
  estop_pin = none;
  estop_enabled = some (pos 0);
  sensor_fail_policy = none;
}

settings-IsValid : IsValid tenths_float settings
settings-IsValid = (
  (refl, refl, refl),
  (refl, refl, refl),
  (refl, refl, refl),
  (refl, refl, refl),
  (refl, refl, refl),
  (refl, refl, refl),
  (refl, refl, refl),
  (ground arith, ground arith),
  ground arith,
  (ground arith, ground arith),
  (refl, refl),
  ground arith,
  ground arith,
)

config-IsValid_example :
    IsValid tenths_float
      (apply_command tenths_float false normal (config (some patch)) isolated).1.config
config-IsValid_example = config-IsValid tenths_float false normal patch isolated settings-IsValid

production_lockdown_example :
    let c = (apply_command tenths_float true normal (config (some patch)) isolated).1.config in
    (c.relay_pin ≡ 25) × (c.estop_pin ≡ pos 26) × (c.estop_enabled ≡ 1) × (c.sensor_fail_policy ≡ 1)
production_lockdown_example = production_lockdown tenths_float normal patch isolated

abbrev crashed : Supervisor V
crashed = record isolated { nvs_run_ok = 0; nvs_chain = 2 }

abbrev after_crash : List (Env V × Call V)
after_crash =
    (normal, ticks)
    ∷ (normal, commands arming)
    ∷ (starved, ticks)
    ∷ (normal, commands (config (some patch)))
    ∷ []

crash_loop_holds_example :
    let t = after tenths_float true after_crash (restart tenths_float true normal crashed) in
    ((restart tenths_float true normal crashed).reason ≡ crashloop)
    × IsIsolated tenths_float t
    × (apply_command tenths_float true normal arming t ≡ (rejected, t))
crash_loop_holds_example =
    crash_loop_holds tenths_float true normal normal after_crash crashed refl refl (ground arith)
      (ground arith) refl
