-- ===== src/Emergency/Triggers.antt =====
-- The sensors, triggers and gates of firmware/Services/EmergencySupervisor.cpp: `_readSensors`,
-- `_trip`, `_evaluateTriggers`, `_armBlockReason` and `_trackClear`.
use pltsmonitoring_firmware.Prelude.{
  ℕ, ◌+◌, ◌-◌, ◌*◌, ◌%◌, ◌^◌, ltb, leb, ◌==◌, if◌then◌else◌, Bool, true, false, not, ◌&&◌, ◌||◌,
  Option, none, some,
}
use pltsmonitoring_firmware.Measure.{Float, Measurement, is_safety_usable}
use pltsmonitoring_firmware.Expander.{force_safety_all_off}
use pltsmonitoring_firmware.Emergency.{
  run, emergency, Reason, vbat_low, vbat_high, i_dc_over, i_ac_load_over, i_ac_gen_over,
  sensor_loss, Event, tripped, Supervisor, Sensors, Env, put_over,
}
use pltsmonitoring_firmware.Emergency.Relay.{set_energized}

-- Why an ARM is refused; `recovering` is the text that begins "masih dalam masa pemulihan".
pub data Block : Type 0 where
  voltage_invalid ina219_missing dc_invalid ac_invalid voltage_low voltage_high : Block
  dc_over ac_over gen_over recovering : Block

module _ (fl : Float) where
  open fl use {F, nan, is_finite, lt, le, add, sub, fabs}

  unfoldable pub read_sensors : Env F → Sensors F
  unfolding is_safety_usable
  read_sensors e =
      let read = λ (m : Measurement F).
        if e.inputs.telemetry_lock && is_safety_usable fl m then m.value else nan in
      record {
        vbat = read e.inputs.voltage;
        idc = read e.inputs.current;
        iac = read e.inputs.rms_current;
        igen = nan;
        ina219_present = e.inputs.ina219_available;
      }

  -- `_trip`: latched, so nothing happens while already in EMERGENCY. It isolates the emergency relay
  -- and forces the relay bank off.
  unfoldable pub trip : Env F → Reason → Event → Supervisor F → Supervisor F
  unfolding set_energized
  trip e reason event s = elim s.state [
    | emergency ↦ s
    | run ↦ record s {
      state = emergency;
      reason = reason;
      trip_at_ms = e.now;
      trips = (s.trips + 1) % 2 ^ 32;
      nvs_trips = put_over (e.nvs.opens && e.nvs.stores_trips) ((s.trips + 1) % 2 ^ 32) s.nvs_trips;
      driver = set_energized false s.driver;
      bank = force_safety_all_off e.bus s.bank;
      pending = some event;
      trip_alarm = true;
    }
  ]

  -- A counter of `_debounce`: up on a violation, to 0 on a clean value, held between the two.
  unfoldable pub count : Bool → Bool → ℕ → ℕ
  count violates clean n = if violates then (n + 1) % 256 else if clean then 0 else n

  abbrev pub fires : Supervisor F → Bool → ℕ → Bool
  fires s violates n = violates && leb s.config.debounce_n n

  -- The violations and the clean values of the six slots.
  abbrev pub low_violated : Sensors F → Supervisor F → Bool
  low_violated x s = is_finite x.vbat && lt x.vbat s.config.vbat_low_v

  abbrev pub low_clean : Sensors F → Supervisor F → Bool
  low_clean x s = is_finite x.vbat && lt (add s.config.vbat_low_v s.config.vbat_low_hyst_v) x.vbat

  abbrev pub high_violated : Sensors F → Supervisor F → Bool
  high_violated x s = is_finite x.vbat && lt s.config.vbat_high_v x.vbat

  abbrev pub high_clean : Sensors F → Supervisor F → Bool
  high_clean x s =
      is_finite x.vbat && lt x.vbat (sub s.config.vbat_high_v s.config.vbat_high_hyst_v)

  abbrev pub dc_violated : Sensors F → Supervisor F → Bool
  dc_violated x s = x.ina219_present && is_finite x.idc && lt s.config.i_dc_over_a (fabs x.idc)

  abbrev pub ac_violated : Sensors F → Supervisor F → Bool
  ac_violated x s = is_finite x.iac && lt s.config.i_ac_load_over_a x.iac

  abbrev pub gen_violated : Sensors F → Supervisor F → Bool
  gen_violated x s = is_finite x.igen && lt s.config.i_ac_gen_over_a x.igen

  abbrev pub loss_violated : Sensors F → Supervisor F → Bool
  loss_violated x s =
      not (s.config.sensor_fail_policy == 0)
      && (not (is_finite x.vbat) || not (is_finite x.idc) || not (is_finite x.iac))

  -- The slots of `_evaluateTriggers`, last to first: one that fires ends the evaluation.
  unfoldable pub eval_loss : Env F → Sensors F → Supervisor F → Supervisor F
  unfolding count
  eval_loss e x s =
      let n = count (loss_violated x s) true s.debounce.loss in
      let t = record s { debounce = record (s.debounce) { loss = n } } in
      if fires s (loss_violated x s) n then trip e sensor_loss tripped t else t

  unfoldable pub eval_gen : Env F → Sensors F → Supervisor F → Supervisor F
  unfolding count
  eval_gen e x s =
      let n = count (gen_violated x s) true s.debounce.i_ac_gen in
      let t = record s { debounce = record (s.debounce) { i_ac_gen = n } } in
      if fires s (gen_violated x s) n then trip e i_ac_gen_over tripped t else eval_loss e x t

  unfoldable pub eval_ac : Env F → Sensors F → Supervisor F → Supervisor F
  unfolding count
  eval_ac e x s =
      let n = count (ac_violated x s) true s.debounce.i_ac in
      let t = record s { debounce = record (s.debounce) { i_ac = n } } in
      if fires s (ac_violated x s) n then trip e i_ac_load_over tripped t else eval_gen e x t

  unfoldable pub eval_dc : Env F → Sensors F → Supervisor F → Supervisor F
  unfolding count
  eval_dc e x s =
      let n = count (dc_violated x s) true s.debounce.i_dc in
      let t = record s { debounce = record (s.debounce) { i_dc = n } } in
      if fires s (dc_violated x s) n then trip e i_dc_over tripped t else eval_ac e x t

  unfoldable pub eval_high : Env F → Sensors F → Supervisor F → Supervisor F
  unfolding count
  eval_high e x s =
      let n = count (high_violated x s) (high_clean x s) s.debounce.vbat_hi in
      let t = record s { debounce = record (s.debounce) { vbat_hi = n } } in
      if fires s (high_violated x s) n then trip e vbat_high tripped t else eval_dc e x t

  unfoldable pub evaluate_triggers : Env F → Sensors F → Supervisor F → Supervisor F
  unfolding count
  evaluate_triggers e x s =
      let n = count (low_violated x s) (low_clean x s) s.debounce.vbat_lo in
      let t = record s { debounce = record (s.debounce) { vbat_lo = n } } in
      if fires s (low_violated x s) n then trip e vbat_low tripped t else eval_high e x t

  -- The tests of `_armBlockReason` before the recovery window, in its order.
  unfoldable pub live_block : Sensors F → Supervisor F → Option Block
  live_block x s =
      let strict = not (s.config.sensor_fail_policy == 0) in
      if not (is_finite x.vbat)
      then some voltage_invalid
      else if strict && not x.ina219_present
      then some ina219_missing
      else if strict && not (is_finite x.idc)
      then some dc_invalid
      else if strict && not (is_finite x.iac)
      then some ac_invalid
      else if le x.vbat (add s.config.vbat_low_v s.config.vbat_low_hyst_v)
      then some voltage_low
      else if le (sub s.config.vbat_high_v s.config.vbat_high_hyst_v) x.vbat
      then some voltage_high
      else if dc_violated x s
      then some dc_over
      else if ac_violated x s
      then some ac_over
      else if gen_violated x s
      then some gen_over
      else none

  -- `_armBlockReason`. The recovery window starts the clock that it reads.
  unfoldable pub arm_block_reason : Env F → Sensors F → Supervisor F → Option Block × Supervisor F
  arm_block_reason e x s =
      let since = if s.clear_at_ms == 0 then e.now else s.clear_at_ms in
      let waiting =
        ltb ((e.now + 2 ^ 32 - since) % 2 ^ 32) (s.config.recovery_sec * 1000 % 2 ^ 32) in
      elim (live_block x s) [
        | some b ↦ (some b, s)
        | none ↦ (if waiting then some recovering else none, record s { clear_at_ms = since })
      ]

  abbrev pub is_clear : Option Block → Bool
  is_clear none = true
  is_clear (some recovering) = true
  is_clear (some _) = false

  unfoldable pub track_clear : Env F → Sensors F → Supervisor F → Supervisor F
  track_clear e x s =
      let (blocked, t) = arm_block_reason e x s in
      if not (is_clear blocked)
      then record t { clear_at_ms = 0 }
      else if t.clear_at_ms == 0
      then record t { clear_at_ms = e.now }
      else t
