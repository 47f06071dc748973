-- ===== src/Emergency/Gate.antt =====
-- When an ARM command is obeyed: `applyCommand` and `_armBlockReason` of
-- firmware/Services/EmergencySupervisor.cpp.
use pltsmonitoring_firmware.Prelude.{
  ◌≡◌, ◌≢◌, ◌↔◌, inl, inr, Bool, true, false, Bool-cases, arith, none, Option-cases, ◌<◌, ◌≤◌, ◌+◌,
  ◌-◌, ◌*◌, ◌%◌, ◌^◌, ◌==◌, if◌then◌else◌, ◌&&◌,
}
use pltsmonitoring_firmware.Measure.{Float}
use pltsmonitoring_firmware.Emergency.{
  emergency, Supervisor, Sensors, Env, obtained, is_obtained, is_obtained_eq,
}
use pltsmonitoring_firmware.Emergency.Relay.{set_energized}
use pltsmonitoring_firmware.Emergency.Triggers.{read_sensors, live_block, arm_block_reason}
use pltsmonitoring_firmware.Emergency.Machine.{arm}
use pltsmonitoring_firmware.Emergency.Command.{arming, applied, apply_arm, apply_command}

module _ (fl : Float) where
  open fl use {F, is_finite, lt, le, add, sub, fabs}

  -- The readings of the monitored quantities inside their limits.
  abbrev pub IsClear : Sensors F → Supervisor F → Type 0
  IsClear x s =
      let c = s.config in
      (is_finite x.vbat ≡ true)
      × (le x.vbat (add c.vbat_low_v c.vbat_low_hyst_v) ≡ false)
      × (le (sub c.vbat_high_v c.vbat_high_hyst_v) x.vbat ≡ false)
      × (x.ina219_present && is_finite x.idc ≡ true → lt c.i_dc_over_a (fabs x.idc) ≡ false)
      × (is_finite x.iac ≡ true → lt c.i_ac_load_over_a x.iac ≡ false)
      × (is_finite x.igen ≡ true → lt c.i_ac_gen_over_a x.igen ≡ false)
      × (c.sensor_fail_policy ≢ 0 → x.ina219_present && is_finite x.idc && is_finite x.iac ≡ true)

  -- The recovery time has passed since the readings became clear; the clock that is not running starts
  -- at the command.
  abbrev pub IsRecovered : Env F → Supervisor F → Type 0
  IsRecovered e s =
      let since = if s.clear_at_ms == 0 then e.now else s.clear_at_ms in
      s.config.recovery_sec * 1000 % 2 ^ 32 ≤ (e.now + 2 ^ 32 - since) % 2 ^ 32

  abbrev pub MayArm : Env F → Supervisor F → Type 0
  MayArm e s =
      (e.lock ≡ obtained) × (s.crash_chain < 3) × IsClear (read_sensors fl e) s × IsRecovered e s

  live_block-IsClear : (x : Sensors F) (s : Supervisor F) → live_block fl x s ≡ none → IsClear x s
  unfolding live_block
  live_block-IsClear x s h = ground arith

  IsClear-live_block : (x : Sensors F) (s : Supervisor F) → IsClear x s → live_block fl x s ≡ none
  unfolding live_block
  IsClear-live_block x s h = ground arith

  pub arm_obeyed :
      (e : Env F) (s : Supervisor F)
      → (s.state ≡ emergency)
      → MayArm e s
      → ((apply_arm fl e s).0 ≡ applied) × ((apply_arm fl e s).1.driver.energized ≡ true)
  unfolding apply_arm arm arm_block_reason set_energized
  arm_obeyed e s isolated may =
      let clear = IsClear-live_block (read_sensors fl e) s may.2 in ground arith

  arm_justified :
      (e : Env F) (s : Supervisor F)
      → (s.state ≡ emergency)
      → e.lock ≡ obtained
      → (apply_arm fl e s).0 ≡ applied
      → MayArm e s
  unfolding apply_arm arm_block_reason
  arm_justified e s isolated lock h = elim (Option-cases (live_block fl (read_sensors fl e) s)) [
    | inl clear ↦ let readings = live_block-IsClear (read_sensors fl e) s clear in ground arith
    | inr (b, blocked) ↦ ground arith
  ]

  -- In the state EMERGENCY, an ARM command is answered APPLIED exactly when the mutex is obtained, there
  -- were fewer than three unhealthy boots in a row, every monitored reading is inside its limits, and
  -- the recovery time has passed.
  pub arm_gate :
      (production : Bool) (e : Env F) (s : Supervisor F)
      → s.state ≡ emergency
      → ((apply_command fl production e arming s).0 ≡ applied) ↔ MayArm e s
  unfolding apply_command
  arm_gate production e s isolated = (
    λ h. elim (Bool-cases (is_obtained e.lock)) [
      | inl lock ↦ arm_justified e s isolated (is_obtained_eq e.lock lock) (ground arith)
      | inr other ↦ ground arith
    ],
    λ may. let obeyed = arm_obeyed e s isolated may in ground arith,
  )

  switched_on :
      (production : Bool) (e : Env F) (s : Supervisor F)
      → s.driver.energized ≡ false
      → ((apply_command fl production e arming s).1.driver.energized ≡ true)
      → (apply_command fl production e arming s).0 ≡ applied
  unfolding apply_command apply_arm arm_block_reason
  switched_on production e s off h = ground arith

  -- In the state EMERGENCY with the relay off, an ARM command switches the emergency relay on exactly
  -- under the conditions of `MayArm`.
  pub arm_energizes :
      (production : Bool) (e : Env F) (s : Supervisor F)
      → s.state ≡ emergency
      → s.driver.energized ≡ false
      → ((apply_command fl production e arming s).1.driver.energized ≡ true) ↔ MayArm e s
  unfolding apply_command
  arm_energizes production e s isolated off = (
    λ h. (arm_gate production e s isolated).0 (switched_on production e s off h),
    λ may. let obeyed = arm_obeyed e s isolated may in ground arith,
  )
