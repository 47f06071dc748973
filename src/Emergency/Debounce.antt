-- ===== src/Emergency/Debounce.antt =====
-- Consecutive ticks in RUN: the triggers of firmware/Services/EmergencySupervisor.cpp and their
-- counters.
use pltsmonitoring_firmware.Prelude.{
  ◌≡◌, ap, sym, subst, ◌∙◌, inl, inr, ◌⊎◌, true, Bool-cases, arith, List, [], ◌∷◌, length, leb, ◌<◌,
  ◌≤◌, ◌+◌, ◌&&◌,
}
use pltsmonitoring_firmware.Measure.{Float}
use pltsmonitoring_firmware.Emergency.{emergency, Supervisor, Env, Sensors, obtained}
use pltsmonitoring_firmware.Emergency.Triggers.{
  read_sensors, count, trip, arm_block_reason, track_clear, eval_loss, eval_gen, eval_ac, eval_dc,
  eval_high, evaluate_triggers, low_violated, low_clean, high_violated, high_clean, dc_violated,
  ac_violated, gen_violated,
}
use pltsmonitoring_firmware.Emergency.Machine.{
  tick, reconcile, poll_estop, evaluate, mark_runtime_healthy, led_tick,
}
use pltsmonitoring_firmware.Emergency.Isolation.{tick-Safer}
use pltsmonitoring_firmware.Emergency.Watchdog.{ticking}

module _ (fl : Float) where
  open fl use {F, is_finite, lt}

  -- The later slots keep the counter of the first, and all of them keep the configuration.
  abbrev KeepsLow : Supervisor F → Supervisor F → Type 0
  KeepsLow s t = (t.debounce.vbat_lo ≡ s.debounce.vbat_lo) × (t.config ≡ s.config)

  loss-KeepsLow : (e : Env F) (x : Sensors F) (s : Supervisor F) → KeepsLow s (eval_loss fl e x s)
  unfolding eval_loss trip
  loss-KeepsLow e x s = ground arith

  gen-KeepsLow : (e : Env F) (x : Sensors F) (s : Supervisor F) → KeepsLow s (eval_gen fl e x s)
  unfolding eval_gen trip
  gen-KeepsLow e x s =
      let n = count fl (gen_violated fl x s) true s.debounce.i_ac_gen in
      let rest = loss-KeepsLow e x (record s { debounce = record (s.debounce) { i_ac_gen = n } }) in
      ground arith

  ac-KeepsLow : (e : Env F) (x : Sensors F) (s : Supervisor F) → KeepsLow s (eval_ac fl e x s)
  unfolding eval_ac trip
  ac-KeepsLow e x s =
      let n = count fl (ac_violated fl x s) true s.debounce.i_ac in
      let rest = gen-KeepsLow e x (record s { debounce = record (s.debounce) { i_ac = n } }) in
      ground arith

  dc-KeepsLow : (e : Env F) (x : Sensors F) (s : Supervisor F) → KeepsLow s (eval_dc fl e x s)
  unfolding eval_dc trip
  dc-KeepsLow e x s =
      let n = count fl (dc_violated fl x s) true s.debounce.i_dc in
      let rest = ac-KeepsLow e x (record s { debounce = record (s.debounce) { i_dc = n } }) in
      ground arith

  high-KeepsLow : (e : Env F) (x : Sensors F) (s : Supervisor F) → KeepsLow s (eval_high fl e x s)
  unfolding eval_high trip
  high-KeepsLow e x s =
      let n = count fl (high_violated fl x s) (high_clean fl x s) s.debounce.vbat_hi in
      let rest = dc-KeepsLow e x (record s { debounce = record (s.debounce) { vbat_hi = n } }) in
      ground arith

  -- The counter of the first slot advances, or the system trips.
  abbrev Advances : Supervisor F → Supervisor F → Type 0
  Advances s t =
      (t.state ≡ emergency)
      ⊎ ((t.debounce.vbat_lo ≡ s.debounce.vbat_lo + 1)
          × (s.debounce.vbat_lo + 1 < s.config.debounce_n)
          × (t.config ≡ s.config))

  low_evaluated :
      (e : Env F) (x : Sensors F) (s : Supervisor F)
      → s.debounce.vbat_lo < 255
      → low_violated fl x s ≡ true
      → Advances s (evaluate_triggers fl e x s)
  unfolding evaluate_triggers trip count
  low_evaluated e x s small low =
      let n = count fl true (low_clean fl x s) s.debounce.vbat_lo in
      let rest = high-KeepsLow e x (record s { debounce = record (s.debounce) { vbat_lo = n } }) in
      elim (Bool-cases (leb s.config.debounce_n n)) [
        | inl fires ↦ ground arith
        | inr early ↦ ground arith
      ]

  -- The other parts of a tick: they trip or keep the counter and the configuration.
  abbrev TripsOrKeeps : Supervisor F → Supervisor F → Type 0
  TripsOrKeeps s t = (t.state ≡ emergency) ⊎ ((t.state ≡ s.state) × KeepsLow s t)

  reconcile_low : (e : Env F) (s : Supervisor F) → TripsOrKeeps s (reconcile fl e s)
  unfolding reconcile trip
  reconcile_low e s = ground arith

  poll_low : (e : Env F) (s : Supervisor F) → TripsOrKeeps s (poll_estop fl e s)
  unfolding poll_estop trip
  poll_low e s = ground arith

  track_low :
      (e : Env F) (x : Sensors F) (s : Supervisor F)
      → (track_clear fl e x s).state ≡ s.state × KeepsLow s (track_clear fl e x s)
  unfolding track_clear arm_block_reason
  track_low e x s = ground arith

  end_low :
      (e : Env F) (s : Supervisor F)
      → (led_tick fl e (mark_runtime_healthy fl e s)).state ≡ s.state
        × KeepsLow s (led_tick fl e (mark_runtime_healthy fl e s))
  unfolding led_tick mark_runtime_healthy
  end_low e s = ground arith

  evaluate_low :
      (e : Env F) (s : Supervisor F)
      → s.debounce.vbat_lo < 255
      → low_violated fl (read_sensors fl e) s ≡ true
      → Advances s (evaluate fl e s)
  unfolding evaluate
  evaluate_low e s small low =
      let x = read_sensors fl e in
      let fired = low_evaluated e x s small low in
      let tracked = track_low e x (evaluate_triggers fl e x s) in
      let alone = track_low e x s in ground arith

  emergency_stays :
      (e : Env F) (s : Supervisor F) → s.state ≡ emergency → (tick fl e s).state ≡ emergency
  emergency_stays e s h = let safe = tick-Safer fl e s in ground arith

  evaluate_stays :
      (e : Env F) (s : Supervisor F) → s.state ≡ emergency → (evaluate fl e s).state ≡ emergency
  unfolding evaluate
  evaluate_stays e s h = let tracked = track_low e (read_sensors fl e) s in ground arith

  low_tick :
      (e : Env F) (s : Supervisor F)
      → e.lock ≡ obtained
      → s.debounce.vbat_lo < 255
      → low_violated fl (read_sensors fl e) s ≡ true
      → Advances s (tick fl e s)
  unfolding tick
  low_tick e s lock small low =
      let a = reconcile fl e s in
      let b = poll_estop fl e a in
      let c = evaluate fl e b in
      let last = end_low e c in
      elim (reconcile_low e s) [
        | inl tripped ↦ inl (ground (arith, poll_low e a, evaluate_stays e b))
        | inr kept ↦ elim (poll_low e a) [
          | inl stopped ↦ inl (ground (arith, evaluate_stays e b))
          | inr same ↦
              let config_kept = same.1.1 ∙ kept.1.1 in
              let moved = evaluate_low e b (ground arith) (
                ap
                  (λ c.
                    is_finite (read_sensors fl e).vbat && lt (read_sensors fl e).vbat c.vbat_low_v)
                  config_kept
                ∙ low) in
              ground arith
        ]
      ]

  -- A tick that gets the mutex and reads a voltage below the limit.
  abbrev pub AllLow : F → List (Env F) → Type 0
  AllLow limit [] = Unit {0}
  AllLow limit (e ∷ es) =
      let v = (read_sensors fl e).vbat in
      (e.lock ≡ obtained) × (is_finite v && lt v limit ≡ true) × AllLow limit es

  pub emergency_ticking :
      (es : List (Env F)) (s : Supervisor F)
      → s.state ≡ emergency
      → (ticking fl es s).state ≡ emergency
  unfolding ticking
  emergency_ticking [] s h = h
  emergency_ticking (e ∷ es) s h = emergency_ticking es (tick fl e s) (emergency_stays e s h)

  -- A low battery voltage trips the system: when consecutive ticks get the mutex and read a valid
  -- voltage below the limit, and there are as many as the counter lacks to the configured number (the
  -- counter not passing 255), the state is EMERGENCY after them, whatever else the ticks meet.
  pub low_voltage_trips :
      (es : List (Env F)) (s : Supervisor F)
      → AllLow s.config.vbat_low_v es
      → 1 ≤ length es
      → s.config.debounce_n ≤ s.debounce.vbat_lo + length es
      → s.debounce.vbat_lo + length es ≤ 255
      → (ticking fl es s).state ≡ emergency
  unfolding ticking
  low_voltage_trips [] s low some_tick enough small = ground arith
  low_voltage_trips (e ∷ es) s low some_tick enough small =
      let t = tick fl e s in
      elim (low_tick e s low.0 (ground arith) low.1) [
        | inl tripped ↦ emergency_ticking es t tripped
        | inr moved ↦
            low_voltage_trips es t (subst (λ c. AllLow c.vbat_low_v es) (sym moved.2) low.2)
              (ground arith) (ground arith) (ground arith)
      ]
