-- ===== src/Emergency/Examples/Ticks.antt =====
-- The theorems on ticks, at concrete supervisors.
use pltsmonitoring_firmware.Prelude.{◌≡◌, true, false, [], ◌∷◌, refl, arith, some}
use pltsmonitoring_firmware.Measure.{is_safety_usable}
use pltsmonitoring_firmware.Emergency.{run, emergency, Supervisor, Env}
use pltsmonitoring_firmware.Emergency.Relay.{set_energized, is_estop_open}
use pltsmonitoring_firmware.Emergency.Triggers.{read_sensors}
use pltsmonitoring_firmware.Emergency.Command.{arming, apply_command}
use pltsmonitoring_firmware.Emergency.Gate.{MayArm}
use pltsmonitoring_firmware.Emergency.Watchdog.{
  ticking, starvation_isolates, rearm_defeats_watchdog,
}
use pltsmonitoring_firmware.Emergency.Debounce.{AllLow, low_voltage_trips}
use pltsmonitoring_firmware.Emergency.Quiet.{AllQuiet, arm_ignores_estop}
use pltsmonitoring_firmware.Emergency.Examples.{
  tenths_float, V, settings, isolated, running, at_voltage, normal, starved, isolated-MayArm,
}

abbrev nearly_starved : Supervisor V
nearly_starved = record running { lock_starve_cycles = 18 }

starvation_isolates_example :
    let t = ticking tenths_float (starved ∷ starved ∷ starved ∷ []) nearly_starved in
    (t.lock_starve_escalated ≡ true)
    × (t.driver.energized ≡ false)
    × (t.bank.safety_latched ≡ true)
    × (t.state ≡ run)
starvation_isolates_example =
    starvation_isolates tenths_float (starved ∷ starved ∷ starved ∷ []) nearly_starved
      (refl, (refl, (refl, tt))) refl (ground arith) (ground arith)

abbrev forced_off : Supervisor V
forced_off = record running { lock_starve_escalated = true; driver = isolated.driver }

abbrev isolated_escalated : Supervisor V
isolated_escalated = record isolated { lock_starve_escalated = true }

rearm_defeats_watchdog_example :
    (ticking tenths_float
      (starved ∷ starved ∷ [])
      (apply_command tenths_float true normal arming isolated_escalated).1).driver.energized
    ≡ true
rearm_defeats_watchdog_example =
    rearm_defeats_watchdog tenths_float true normal (starved ∷ starved ∷ []) isolated_escalated refl
      refl isolated-MayArm (refl, (refl, tt))

low : AllLow tenths_float (some 440) (at_voltage 400 ∷ at_voltage 410 ∷ at_voltage 420 ∷ [])
unfolding read_sensors is_safety_usable
low = (refl, refl, (refl, refl, (refl, refl, tt)))

low_voltage_trips_example :
    (ticking tenths_float (at_voltage 400 ∷ at_voltage 410 ∷ at_voltage 420 ∷ []) running).state
    ≡ emergency
low_voltage_trips_example =
    low_voltage_trips tenths_float (at_voltage 400 ∷ at_voltage 410 ∷ at_voltage 420 ∷ []) running
      low (ground arith) (ground arith) (ground arith)

quiet : AllQuiet tenths_float settings running.driver false (normal ∷ normal ∷ [])
unfolding read_sensors is_safety_usable is_estop_open set_energized
quiet = (
  refl,
  refl,
  (refl, refl, refl, refl, refl, refl),
  (refl, refl, (refl, refl, refl, refl, refl, refl), tt),
)

abbrev open_line : Env V
open_line = record normal { line_high = true }

abbrev isolated_open : Supervisor V
isolated_open = record isolated { estop_open = true }

isolated_open-MayArm : MayArm tenths_float open_line isolated_open
unfolding read_sensors is_safety_usable
isolated_open-MayArm =
    (refl, ground arith, (refl, refl, refl, λ h. refl, λ h. refl, λ h. cc, λ h. refl), ground arith)

quiet_open :
    AllQuiet tenths_float settings (set_energized true isolated_open.driver) true (open_line ∷ [])
unfolding read_sensors is_safety_usable is_estop_open set_energized
quiet_open = (refl, refl, (refl, refl, refl, refl, refl, refl), tt)

arm_ignores_estop_example :
    let u =
      ticking tenths_float
        (open_line ∷ [])
        (apply_command tenths_float true open_line arming isolated_open).1 in
    (u.state ≡ run) × (u.driver.energized ≡ true)
arm_ignores_estop_example =
    arm_ignores_estop tenths_float true open_line (open_line ∷ []) isolated_open refl refl refl
      isolated_open-MayArm quiet_open
