-- ===== src/Emergency/Policy.antt =====
-- The DISARM and CONFIG commands of firmware/Services/EmergencySupervisor.cpp.
use pltsmonitoring_firmware.Prelude.{
  ◌≡◌, ◌≢◌, refl, sym, subst, ◌⊎◌, inl, inr, Bool, true, false, arith, Option, none, some, ◌&&◌, ℕ,
  ◌+◌, ◌%◌, ◌^◌, ◌≤◌,
}
use pltsmonitoring_firmware.Measure.{Float}
use pltsmonitoring_firmware.Emergency.{
  ℤ, pos, negsuc, ltb_ℤ, run, emergency, Config, Supervisor, Env, obtained,
}
use pltsmonitoring_firmware.Emergency.Relay.{eq_ℤ, set_energized}
use pltsmonitoring_firmware.Emergency.Settings.{
  Patch, clamp_int, clamp_nat, clamp_pin, clamp_float, patched, asks_locked, save_config,
}
use pltsmonitoring_firmware.Emergency.Command.{
  disarming, config, Outcome, applied, rejected, refused, apply_disarm, apply_config, apply_command,
}

eq_ℤ-eq : (a b : ℤ) → eq_ℤ a b ≡ true → a ≡ b
eq_ℤ-eq (pos a) (pos b) h = ground arith
eq_ℤ-eq (pos a) (negsuc b) h = ground arith
eq_ℤ-eq (negsuc a) (pos b) h = ground arith
eq_ℤ-eq (negsuc a) (negsuc b) h = ground arith

Outcome-cases : (o : Outcome) → (o ≡ applied) ⊎ (o ≢ applied)
Outcome-cases applied = inl refl
Outcome-cases rejected = inr (λ h. cc)
Outcome-cases refused = inr (λ h. cc)

module _ (fl : Float) where
  open fl use {F, is_finite, lt, tenths}

  -- A DISARM command has no condition: once the mutex is obtained it is answered APPLIED, the state is
  -- EMERGENCY and the relay is off, and a trip is counted exactly when the system was in RUN.
  pub disarm_isolates :
      (production : Bool) (e : Env F) (s : Supervisor F)
      → e.lock ≡ obtained
      → let (answer, t) = apply_command fl production e disarming s in
        (answer ≡ applied)
        × (t.state ≡ emergency)
        × (t.driver.energized ≡ false)
        × ((s.state ≡ run) × (t.trips ≡ (s.trips + 1) % 2 ^ 32)
            ⊎ ((s.state ≡ emergency) × (t.trips ≡ s.trips)))
  unfolding apply_command apply_disarm set_energized
  disarm_isolates production e s lock = ground arith

  -- The four answers to a CONFIG command.
  config_kept :
      (production : Bool) (e : Env F) (p : Option (Patch F)) (s : Supervisor F)
      → (apply_command fl production e (config p) s).0 ≢ applied
      → (apply_command fl production e (config p) s).1.config ≡ s.config
  unfolding apply_command apply_config save_config
  config_kept production e none s h = ground arith
  config_kept production e (some p) s h = ground arith

  config_saved :
      (production : Bool) (e : Env F) (p : Patch F) (s : Supervisor F)
      → (apply_command fl production e (config (some p)) s).0 ≡ applied
      → ((apply_command fl production e (config (some p)) s).1.config ≡ patched fl p s.config)
        × (e.saves ≡ true)
        × (production && asks_locked fl p s.config ≡ false)
  unfolding apply_command apply_config save_config
  config_saved production e p s h = ground arith

  -- A valid float: finite, and in a closed range given in tenths.
  abbrev pub InTenths : ℕ → ℕ → F → Type 0
  InTenths lo hi v = (is_finite v ≡ true) × (lt v (tenths lo) ≡ false) × (lt (tenths hi) v ≡ false)

  -- The ranges of the 13 settings.
  abbrev pub IsValid : Config F → Type 0
  IsValid c =
      InTenths 300 600 c.vbat_low_v
      × InTenths 1 50 c.vbat_low_hyst_v
      × InTenths 480 600 c.vbat_high_v
      × InTenths 1 50 c.vbat_high_hyst_v
      × InTenths 100 1200 c.i_dc_over_a
      × InTenths 50 400 c.i_ac_load_over_a
      × InTenths 50 400 c.i_ac_gen_over_a
      × ((1 ≤ c.debounce_n) × (c.debounce_n ≤ 10))
      × (c.recovery_sec ≤ 3600)
      × ((12 ≤ c.relay_pin) × (c.relay_pin ≤ 39))
      × ((ltb_ℤ c.estop_pin (negsuc 0) ≡ false) × (ltb_ℤ (pos 39) c.estop_pin ≡ false))
      × (c.estop_enabled ≤ 1)
      × (c.sensor_fail_policy ≤ 1)

  clamp_float-InTenths :
      (lo hi : ℕ) (v : Option F) (old : F)
      → InTenths lo hi old
      → InTenths lo hi (clamp_float fl v (tenths lo) (tenths hi) old)
  unfolding clamp_float
  clamp_float-InTenths lo hi none old h = h
  clamp_float-InTenths lo hi (some v) old h = ground arith

  clamp_nat_range :
      (lo hi : ℕ) (v : Option ℤ) (old : ℕ)
      → lo ≤ old
      → old ≤ hi
      → (lo ≤ clamp_nat v lo hi old) × (clamp_nat v lo hi old ≤ hi)
  unfolding clamp_int
  clamp_nat_range lo hi none old l h = (l, h)
  clamp_nat_range lo hi (some (pos v)) old l h = ground arith
  clamp_nat_range lo hi (some (negsuc v)) old l h = ground arith

  clamp_pin_range :
      (v : Option ℤ) (old : ℤ)
      → (ltb_ℤ old (negsuc 0) ≡ false) × (ltb_ℤ (pos 39) old ≡ false)
      → (ltb_ℤ (clamp_pin v old) (negsuc 0) ≡ false) × (ltb_ℤ (pos 39) (clamp_pin v old) ≡ false)
  unfolding clamp_pin clamp_int
  clamp_pin_range none old h = h
  clamp_pin_range (some v) old h = ground arith

  patched-IsValid : (p : Patch F) (c : Config F) → IsValid c → IsValid (patched fl p c)
  unfolding patched
  patched-IsValid p c h = (
    clamp_float-InTenths 300 600 p.vbat_low_v c.vbat_low_v h.0,
    clamp_float-InTenths 1 50 p.vbat_low_hyst_v c.vbat_low_hyst_v h.1,
    clamp_float-InTenths 480 600 p.vbat_high_v c.vbat_high_v h.2,
    clamp_float-InTenths 1 50 p.vbat_high_hyst_v c.vbat_high_hyst_v h.3,
    clamp_float-InTenths 100 1200 p.i_dc_over_a c.i_dc_over_a h.4,
    clamp_float-InTenths 50 400 p.i_ac_load_over_a c.i_ac_load_over_a h.5,
    clamp_float-InTenths 50 400 p.i_ac_gen_over_a c.i_ac_gen_over_a h.6,
    clamp_nat_range 1 10 p.debounce_n c.debounce_n h.7.0 h.7.1,
    (clamp_nat_range 0 3600 p.recovery_sec c.recovery_sec (ground arith) h.8).1,
    clamp_nat_range 12 39 p.relay_pin c.relay_pin h.9.0 h.9.1,
    clamp_pin_range p.estop_pin c.estop_pin h.10,
    (clamp_nat_range 0 1 p.estop_enabled c.estop_enabled (ground arith) h.11).1,
    (clamp_nat_range 0 1 p.sensor_fail_policy c.sensor_fail_policy (ground arith) h.12).1,
  )

  locked_fields :
      (p : Patch F) (c : Config F)
      → asks_locked fl p c ≡ false
      → ((patched fl p c).relay_pin ≡ c.relay_pin)
        × ((patched fl p c).estop_pin ≡ c.estop_pin)
        × ((patched fl p c).estop_enabled ≡ c.estop_enabled)
        × ((patched fl p c).sensor_fail_policy ≡ c.sensor_fail_policy)
  unfolding asks_locked patched
  locked_fields p c h =
      let pin = eq_ℤ-eq (clamp_pin p.estop_pin c.estop_pin) c.estop_pin (ground arith) in
      (ground arith, pin, ground arith, ground arith)

  -- Whatever a CONFIG command contains and however it is answered, valid settings stay valid: each of the
  -- 13 is in the range that the code gives for it.
  pub config-IsValid :
      (production : Bool) (e : Env F) (p : Patch F) (s : Supervisor F)
      → IsValid s.config
      → IsValid (apply_command fl production e (config (some p)) s).1.config
  config-IsValid production e p s h =
      let c = (apply_command fl production e (config (some p)) s).1.config in
      elim (Outcome-cases (apply_command fl production e (config (some p)) s).0) [
        | inl done ↦
            subst IsValid (sym (config_saved production e p s done).0)
              (patched-IsValid p s.config h)
        | inr other ↦ subst IsValid (sym (config_kept production e (some p) s other)) h
      ]

  -- In a production build no CONFIG command changes the relay pin, the E-stop pin, the E-stop switch or
  -- the sensor-failure policy, however it is answered.
  pub production_lockdown :
      (e : Env F) (p : Patch F) (s : Supervisor F)
      → let c = (apply_command fl true e (config (some p)) s).1.config in
        (c.relay_pin ≡ s.config.relay_pin)
        × (c.estop_pin ≡ s.config.estop_pin)
        × (c.estop_enabled ≡ s.config.estop_enabled)
        × (c.sensor_fail_policy ≡ s.config.sensor_fail_policy)
  production_lockdown e p s = elim (Outcome-cases (apply_command fl true e (config (some p)) s).0) [
    | inl done ↦
        let saved = config_saved true e p s done in
        let same = locked_fields p s.config saved.2 in ground arith
    | inr other ↦ let kept = config_kept true e (some p) s other in ground arith
  ]

  -- A CONFIG command that is not answered APPLIED changes no setting, and one that is answered so has
  -- been saved.
  pub config_answer :
      (production : Bool) (e : Env F) (p : Patch F) (s : Supervisor F)
      → let (answer, t) = apply_command fl production e (config (some p)) s in
        ((answer ≡ applied) × (e.saves ≡ true) × (t.config ≡ patched fl p s.config))
        ⊎ ((answer ≢ applied) × (t.config ≡ s.config))
  config_answer production e p s =
      elim (Outcome-cases (apply_command fl production e (config (some p)) s).0) [
        | inl done ↦ let saved = config_saved production e p s done in inl (done, saved.1, saved.0)
        | inr other ↦ inr (other, config_kept production e (some p) s other)
      ]
