-- ===== src/Emergency/Settings.antt =====
-- The CONFIG command of firmware/Services/EmergencySupervisor.cpp: `clampEmgFloat`, `clampEmgInt`, and
-- the part of `applyCommand` under "CONFIG". A field that is absent or of another type is `none`.
use pltsmonitoring_firmware.Prelude.{
  ℕ, ◌==◌, if◌then◌else◌, Bool, true, false, not, ◌||◌, Option, none, some,
}
use pltsmonitoring_firmware.Measure.{Float}
use pltsmonitoring_firmware.Emergency.{
  ℤ, pos, negsuc, ltb_ℤ, Config, Supervisor, Env, config_applied, config_refused,
}
use pltsmonitoring_firmware.Emergency.Relay.{eq_ℤ, apply_pins}

-- The fields of the JSON object.
pub record Patch (F : Type 0) : Type 0 where
  pub vbat_low_v : Option F
  pub vbat_low_hyst_v : Option F
  pub vbat_high_v : Option F
  pub vbat_high_hyst_v : Option F
  pub i_dc_over_a : Option F
  pub i_ac_load_over_a : Option F
  pub i_ac_gen_over_a : Option F
  pub debounce_n : Option ℤ
  pub recovery_sec : Option ℤ
  pub relay_pin : Option ℤ
  pub estop_pin : Option ℤ
  pub estop_enabled : Option ℤ
  pub sensor_fail_policy : Option ℤ

-- `clampEmgInt`; the default for an absent field lies outside the range.
unfoldable pub clamp_int : Option ℤ → ℤ → ℤ → ℤ → ℤ
clamp_int none lo hi fallback = fallback
clamp_int (some v) lo hi fallback = if ltb_ℤ v lo || ltb_ℤ hi v then fallback else v

-- The conversion of a result in 0 … 3600 to an unsigned field.
abbrev pub to_unsigned : ℤ → ℕ
to_unsigned (pos n) = n
to_unsigned (negsuc n) = 0

abbrev pub clamp_nat : Option ℤ → ℕ → ℕ → ℕ → ℕ
clamp_nat v lo hi fallback = to_unsigned (clamp_int v (pos lo) (pos hi) (pos fallback))

unfoldable pub clamp_pin : Option ℤ → ℤ → ℤ
clamp_pin v fallback = clamp_int v (negsuc 0) (pos 39) fallback

module _ (fl : Float) where
  open fl use {F, is_finite, lt, tenths}

  -- `clampEmgFloat`; an absent field is NaN, which is not finite.
  unfoldable pub clamp_float : Option F → F → F → F → F
  clamp_float none lo hi fallback = fallback
  clamp_float (some v) lo hi fallback =
      if not (is_finite v) || lt v lo || lt hi v then fallback else v

  unfoldable pub patched : Patch F → Config F → Config F
  unfolding clamp_float clamp_int clamp_pin
  patched p c = record {
    vbat_low_v = clamp_float p.vbat_low_v (tenths 300) (tenths 600) c.vbat_low_v;
    vbat_low_hyst_v = clamp_float p.vbat_low_hyst_v (tenths 1) (tenths 50) c.vbat_low_hyst_v;
    vbat_high_v = clamp_float p.vbat_high_v (tenths 480) (tenths 600) c.vbat_high_v;
    vbat_high_hyst_v = clamp_float p.vbat_high_hyst_v (tenths 1) (tenths 50) c.vbat_high_hyst_v;
    i_dc_over_a = clamp_float p.i_dc_over_a (tenths 100) (tenths 1200) c.i_dc_over_a;
    i_ac_load_over_a = clamp_float p.i_ac_load_over_a (tenths 50) (tenths 400) c.i_ac_load_over_a;
    i_ac_gen_over_a = clamp_float p.i_ac_gen_over_a (tenths 50) (tenths 400) c.i_ac_gen_over_a;
    debounce_n = clamp_nat p.debounce_n 1 10 c.debounce_n;
    recovery_sec = clamp_nat p.recovery_sec 0 3600 c.recovery_sec;
    relay_pin = clamp_nat p.relay_pin 12 39 c.relay_pin;
    estop_pin = clamp_pin p.estop_pin c.estop_pin;
    estop_enabled = clamp_nat p.estop_enabled 0 1 c.estop_enabled;
    sensor_fail_policy = clamp_nat p.sensor_fail_policy 0 1 c.sensor_fail_policy;
  }

  -- The lockdown of a production build: the request would change one of four safety fields.
  unfoldable pub asks_locked : Patch F → Config F → Bool
  unfolding clamp_int clamp_pin
  asks_locked p c =
      not (clamp_nat p.relay_pin 12 39 c.relay_pin == c.relay_pin)
      || not (eq_ℤ (clamp_pin p.estop_pin c.estop_pin) c.estop_pin)
      || not (clamp_nat p.estop_enabled 0 1 c.estop_enabled == c.estop_enabled)
      || not (clamp_nat p.sensor_fail_policy 0 1 c.sensor_fail_policy == c.sensor_fail_policy)

  -- `applyPins` with the pins of a configuration.
  abbrev pub repin : Bool → Config F → Supervisor F → Supervisor F
  repin production c s = record s {
    driver = apply_pins production c.relay_pin c.estop_pin (not (c.estop_enabled == 0)) s.driver;
  }

  -- A failed save puts every field back.
  unfoldable pub save_config : Bool → Env F → Patch F → Supervisor F → Bool × Supervisor F
  unfolding patched apply_pins
  save_config production e p s =
      let before = s.config in
      let changed = record s { config = patched p before } in
      if e.saves
      then (
        true,
        record (repin production changed.config changed) { pending = some config_applied },
      )
      else (
        false,
        record (repin production before (record changed { config = before })) {
          pending = some config_refused;
        },
      )
