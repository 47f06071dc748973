-- ===== src/Emergency/Isolation.antt =====
-- What can energize the emergency relay: firmware/Services/EmergencySupervisor.cpp.
use pltsmonitoring_firmware.Prelude.{◌≡◌, refl, ◌⊎◌, inl, inr, true, false, Bool-cases, arith}
use pltsmonitoring_firmware.Measure.{Float}
use pltsmonitoring_firmware.Emergency.{emergency, Reason, Event, Supervisor, Sensors, Env}
use pltsmonitoring_firmware.Emergency.Relay.{set_energized}
use pltsmonitoring_firmware.Emergency.Triggers.{
  read_sensors, gen_violated, ac_violated, dc_violated, high_violated, high_clean, low_violated,
  low_clean, trip, count, eval_loss, eval_gen, eval_ac, eval_dc, eval_high, evaluate_triggers,
  arm_block_reason, track_clear,
}
use pltsmonitoring_firmware.Emergency.Machine.{
  poll_estop, mark_runtime_healthy, led_tick, starved_tick, reconcile, evaluate, tick,
}

-- Either the state is kept and the relay is not switched on, or the system is isolated.
abbrev pub Safer : {F : Type 0} → Supervisor F → Supervisor F → Type 0
Safer s t =
    ((t.state ≡ s.state) × (t.driver.energized ≡ true → s.driver.energized ≡ true))
    ⊎ ((t.state ≡ emergency) × (t.driver.energized ≡ false))

pub Safer-refl : {F : Type 0} (s : Supervisor F) → Safer s s
Safer-refl s = inl (refl, λ h. h)

pub Safer-trans : {F : Type 0} (s t u : Supervisor F) → Safer s t → Safer t u → Safer s u
Safer-trans s t u (inl a) (inl b) = inl (cc, λ h. a.1 (b.1 h))
Safer-trans s t u (inr a) (inl b) =
    inr (
      cc,
      elim (Bool-cases u.driver.energized) [ inl on ↦ let back = b.1 on in cc | inr off ↦ off ],
    )
Safer-trans s t u a (inr b) = inr b

module _ (fl : Float) where
  open fl use {F}

  pub trip-Safer :
      (e : Env F) (r : Reason) (v : Event) (s : Supervisor F) → Safer s (trip fl e r v s)
  unfolding trip set_energized
  trip-Safer e r v s = ground arith

  pub track_clear-Safer :
      (e : Env F) (x : Sensors F) (s : Supervisor F) → Safer s (track_clear fl e x s)
  unfolding track_clear arm_block_reason
  track_clear-Safer e x s = ground arith

  pub led_tick-Safer : (e : Env F) (s : Supervisor F) → Safer s (led_tick fl e s)
  unfolding led_tick
  led_tick-Safer e s = ground arith

  pub mark_runtime_healthy-Safer :
      (e : Env F) (s : Supervisor F) → Safer s (mark_runtime_healthy fl e s)
  unfolding mark_runtime_healthy
  mark_runtime_healthy-Safer e s = ground arith

  pub poll_estop-Safer : (e : Env F) (s : Supervisor F) → Safer s (poll_estop fl e s)
  unfolding poll_estop trip set_energized
  poll_estop-Safer e s = ground arith

  pub reconcile-Safer : (e : Env F) (s : Supervisor F) → Safer s (reconcile fl e s)
  unfolding reconcile trip set_energized
  reconcile-Safer e s = ground arith

  pub starved_tick-Safer : (e : Env F) (s : Supervisor F) → Safer s (starved_tick fl e s)
  unfolding starved_tick set_energized
  starved_tick-Safer e s = ground arith

  pub eval_loss-Safer :
      (e : Env F) (x : Sensors F) (s : Supervisor F) → Safer s (eval_loss fl e x s)
  unfolding eval_loss trip set_energized
  eval_loss-Safer e x s = ground arith

  eval_gen-Safer : (e : Env F) (x : Sensors F) (s : Supervisor F) → Safer s (eval_gen fl e x s)
  unfolding eval_gen trip set_energized
  eval_gen-Safer e x s =
      let n = count fl (gen_violated fl x s) true s.debounce.i_ac_gen in
      let t = record s { debounce = record (s.debounce) { i_ac_gen = n } } in
      let rest = eval_loss-Safer e x t in ground arith

  eval_ac-Safer : (e : Env F) (x : Sensors F) (s : Supervisor F) → Safer s (eval_ac fl e x s)
  unfolding eval_ac trip set_energized
  eval_ac-Safer e x s =
      let n = count fl (ac_violated fl x s) true s.debounce.i_ac in
      let t = record s { debounce = record (s.debounce) { i_ac = n } } in
      let rest = eval_gen-Safer e x t in ground arith

  eval_dc-Safer : (e : Env F) (x : Sensors F) (s : Supervisor F) → Safer s (eval_dc fl e x s)
  unfolding eval_dc trip set_energized
  eval_dc-Safer e x s =
      let n = count fl (dc_violated fl x s) true s.debounce.i_dc in
      let t = record s { debounce = record (s.debounce) { i_dc = n } } in
      let rest = eval_ac-Safer e x t in ground arith

  eval_high-Safer : (e : Env F) (x : Sensors F) (s : Supervisor F) → Safer s (eval_high fl e x s)
  unfolding eval_high trip set_energized
  eval_high-Safer e x s =
      let n = count fl (high_violated fl x s) (high_clean fl x s) s.debounce.vbat_hi in
      let t = record s { debounce = record (s.debounce) { vbat_hi = n } } in
      let rest = eval_dc-Safer e x t in ground arith

  pub evaluate_triggers-Safer :
      (e : Env F) (x : Sensors F) (s : Supervisor F) → Safer s (evaluate_triggers fl e x s)
  unfolding evaluate_triggers trip set_energized
  evaluate_triggers-Safer e x s =
      let n = count fl (low_violated fl x s) (low_clean fl x s) s.debounce.vbat_lo in
      let t = record s { debounce = record (s.debounce) { vbat_lo = n } } in
      let rest = eval_high-Safer e x t in ground arith

  evaluate-Safer : (e : Env F) (s : Supervisor F) → Safer s (evaluate fl e s)
  unfolding evaluate
  evaluate-Safer e s =
      let x = read_sensors fl e in
      let triggered = evaluate_triggers-Safer e x s in
      let tracked = track_clear-Safer e x (evaluate_triggers fl e x s) in
      let both =
        Safer-trans s (evaluate_triggers fl e x s) (track_clear fl e x (evaluate_triggers fl e x s))
          triggered tracked in
      let alone = track_clear-Safer e x s in ground arith

  -- Of one tick.
  pub tick-Safer : (e : Env F) (s : Supervisor F) → Safer s (tick fl e s)
  unfolding tick
  tick-Safer e s =
      let a = reconcile fl e s in
      let b = poll_estop fl e a in
      let c = evaluate fl e b in
      let d = mark_runtime_healthy fl e c in
      let ab = Safer-trans s a b (reconcile-Safer e s) (poll_estop-Safer e a) in
      let ac = Safer-trans s b c ab (evaluate-Safer e b) in
      let ad = Safer-trans s c d ac (mark_runtime_healthy-Safer e c) in
      let locked = Safer-trans s d (led_tick fl e d) ad (led_tick-Safer e d) in
      let starved = starved_tick-Safer e s in ground arith
