-- ===== src/Emergency/Quiet.antt =====
-- Ticks in RUN that read nothing out of range: firmware/Services/EmergencySupervisor.cpp.
use pltsmonitoring_firmware.Prelude.{
  ◌≡◌, refl, ap, sym, subst, ◌∙◌, Bool, true, false, arith, List, [], ◌∷◌, ◌&&◌, ◌||◌, not, ◌==◌,
}
use pltsmonitoring_firmware.Measure.{Float}
use pltsmonitoring_firmware.Emergency.{
  run, emergency, Config, Driver, Supervisor, Env, Sensors, obtained,
}
use pltsmonitoring_firmware.Emergency.Relay.{set_energized, is_estop_open}
use pltsmonitoring_firmware.Emergency.Triggers.{
  read_sensors, count, arm_block_reason, track_clear, eval_loss, eval_gen, eval_ac, eval_dc,
  eval_high, evaluate_triggers, low_violated, low_clean, high_violated, high_clean, dc_violated,
  ac_violated, gen_violated, loss_violated,
}
use pltsmonitoring_firmware.Emergency.Machine.{
  arm, tick, reconcile, poll_estop, evaluate, mark_runtime_healthy, led_tick,
}
use pltsmonitoring_firmware.Emergency.Command.{arming, applied, apply_arm, apply_command}
use pltsmonitoring_firmware.Emergency.Gate.{MayArm, arm_obeyed}
use pltsmonitoring_firmware.Emergency.Watchdog.{ticking}

module _ (fl : Float) where
  open fl use {F, is_finite, lt, fabs}

  -- No limit is violated.
  abbrev pub AreQuiet : Sensors F → Config F → Type 0
  AreQuiet x c =
      (is_finite x.vbat && lt x.vbat c.vbat_low_v ≡ false)
      × (is_finite x.vbat && lt c.vbat_high_v x.vbat ≡ false)
      × (x.ina219_present && is_finite x.idc && lt c.i_dc_over_a (fabs x.idc) ≡ false)
      × (is_finite x.iac && lt c.i_ac_load_over_a x.iac ≡ false)
      × (is_finite x.igen && lt c.i_ac_gen_over_a x.igen ≡ false)
      × (not (c.sensor_fail_policy == 0)
            && (not (is_finite x.vbat) || not (is_finite x.idc) || not (is_finite x.iac))
          ≡ false)

  -- Ticks that get the mutex, find the E-stop as it was, and read nothing out of range.
  abbrev pub AllQuiet : Config F → Driver → Bool → List (Env F) → Type 0
  AllQuiet c d open_before [] = Unit {0}
  AllQuiet c d open_before (e ∷ es) =
      (e.lock ≡ obtained)
      × (is_estop_open e.line_high d ≡ open_before)
      × AreQuiet (read_sensors fl e) c
      × AllQuiet c d open_before es

  abbrev SameRun : Supervisor F → Supervisor F → Type 0
  SameRun s t =
      (t.state ≡ s.state)
      × (t.config ≡ s.config)
      × (t.driver ≡ s.driver)
      × (t.estop_open ≡ s.estop_open)
      × (t.lock_starve_escalated ≡ s.lock_starve_escalated)

  loss_quiet :
      (e : Env F) (x : Sensors F) (s : Supervisor F)
      → loss_violated fl x s ≡ false
      → SameRun s (eval_loss fl e x s)
  unfolding eval_loss
  loss_quiet e x s h = ground arith

  gen_quiet :
      (e : Env F) (x : Sensors F) (s : Supervisor F)
      → gen_violated fl x s ≡ false
      → loss_violated fl x s ≡ false
      → SameRun s (eval_gen fl e x s)
  unfolding eval_gen
  gen_quiet e x s g l =
      let n = count fl (gen_violated fl x s) true s.debounce.i_ac_gen in
      let rest = loss_quiet e x (record s { debounce = record (s.debounce) { i_ac_gen = n } }) l in
      ground arith

  ac_quiet :
      (e : Env F) (x : Sensors F) (s : Supervisor F)
      → ac_violated fl x s ≡ false
      → gen_violated fl x s ≡ false
      → loss_violated fl x s ≡ false
      → SameRun s (eval_ac fl e x s)
  unfolding eval_ac
  ac_quiet e x s a g l =
      let n = count fl (ac_violated fl x s) true s.debounce.i_ac in
      let rest = gen_quiet e x (record s { debounce = record (s.debounce) { i_ac = n } }) g l in
      ground arith

  dc_quiet :
      (e : Env F) (x : Sensors F) (s : Supervisor F)
      → dc_violated fl x s ≡ false
      → ac_violated fl x s ≡ false
      → gen_violated fl x s ≡ false
      → loss_violated fl x s ≡ false
      → SameRun s (eval_dc fl e x s)
  unfolding eval_dc
  dc_quiet e x s d a g l =
      let n = count fl (dc_violated fl x s) true s.debounce.i_dc in
      let rest = ac_quiet e x (record s { debounce = record (s.debounce) { i_dc = n } }) a g l in
      ground arith

  high_quiet :
      (e : Env F) (x : Sensors F) (s : Supervisor F)
      → high_violated fl x s ≡ false
      → dc_violated fl x s ≡ false
      → ac_violated fl x s ≡ false
      → gen_violated fl x s ≡ false
      → loss_violated fl x s ≡ false
      → SameRun s (eval_high fl e x s)
  unfolding eval_high
  high_quiet e x s h d a g l =
      let n = count fl (high_violated fl x s) (high_clean fl x s) s.debounce.vbat_hi in
      let rest =
        dc_quiet e x (record s { debounce = record (s.debounce) { vbat_hi = n } }) d a g l in
      ground arith

  evaluate_quiet :
      (e : Env F) (s : Supervisor F)
      → AreQuiet (read_sensors fl e) s.config
      → SameRun s (evaluate fl e s)
  unfolding evaluate evaluate_triggers track_clear arm_block_reason
  evaluate_quiet e s q =
      let x = read_sensors fl e in
      let n = count fl (low_violated fl x s) (low_clean fl x s) s.debounce.vbat_lo in
      let rest =
        high_quiet e x (record s { debounce = record (s.debounce) { vbat_lo = n } }) q.1 q.2 q.3 q.4
          q.5 in
      ground arith

  polled_quiet :
      (e : Env F) (s : Supervisor F)
      → is_estop_open e.line_high s.driver ≡ s.estop_open
      → SameRun s (poll_estop fl e s)
  unfolding poll_estop
  polled_quiet e s h = ground arith

  ending_quiet :
      (e : Env F) (s : Supervisor F) → SameRun s (led_tick fl e (mark_runtime_healthy fl e s))
  unfolding led_tick mark_runtime_healthy
  ending_quiet e s = ground arith

  reconcile_quiet :
      (e : Env F) (s : Supervisor F)
      → s.lock_starve_escalated ≡ false
      → SameRun s (reconcile fl e s)
  unfolding reconcile
  reconcile_quiet e s h = ground arith

  tick_quiet :
      (e : Env F) (s : Supervisor F)
      → e.lock ≡ obtained
      → s.lock_starve_escalated ≡ false
      → is_estop_open e.line_high s.driver ≡ s.estop_open
      → AreQuiet (read_sensors fl e) s.config
      → SameRun s (tick fl e s)
  unfolding tick
  tick_quiet e s lock w same q =
      let a = reconcile fl e s in
      let b = poll_estop fl e a in
      let c = evaluate fl e b in
      let first = reconcile_quiet e s w in
      let second = polled_quiet e a (ap (is_estop_open e.line_high) first.2 ∙ same ∙ sym first.3) in
      let third =
        evaluate_quiet e b (subst (AreQuiet (read_sensors fl e)) (sym (second.1 ∙ first.1)) q) in
      let last = ending_quiet e c in ground arith

  -- Nothing trips without a cause: while consecutive ticks get the mutex, see the E-stop line as it was,
  -- and read no quantity outside its limit (nor lose a sensor under the fail-closed policy), the state
  -- and the relay stay as they are, when the watchdog has not acted before.
  pub quiet_keeps_state :
      (es : List (Env F)) (s : Supervisor F)
      → s.lock_starve_escalated ≡ false
      → AllQuiet s.config s.driver s.estop_open es
      → ((ticking fl es s).state ≡ s.state) × ((ticking fl es s).driver ≡ s.driver)
  unfolding ticking
  quiet_keeps_state [] s w q = (refl, refl)
  quiet_keeps_state (e ∷ es) s w q =
      let t = tick fl e s in
      let one = tick_quiet e s q.0 w q.1 q.2 in
      let rest_quiet =
        subst (λ c. AllQuiet c t.driver t.estop_open es) (sym one.1)
          (subst (λ d. AllQuiet s.config d t.estop_open es) (sym one.2)
            (subst (λ o. AllQuiet s.config s.driver o es) (sym one.3) q.3)) in
      let rest = quiet_keeps_state es t (one.4 ∙ w) rest_quiet in (rest.0 ∙ one.0, rest.1 ∙ one.2)

  arm_keeps :
      (e : Env F) (s : Supervisor F)
      → ((apply_arm fl e s).1.config ≡ s.config)
        × ((apply_arm fl e s).1.estop_open ≡ s.estop_open)
        × ((apply_arm fl e s).1.lock_starve_escalated ≡ s.lock_starve_escalated)
  unfolding apply_arm arm arm_block_reason
  arm_keeps e s = ground arith

  arm_driver :
      (e : Env F) (s : Supervisor F)
      → s.state ≡ emergency
      → (apply_arm fl e s).0 ≡ applied
      → ((apply_arm fl e s).1.state ≡ run)
        × ((apply_arm fl e s).1.driver ≡ set_energized true s.driver)
  unfolding apply_arm arm arm_block_reason set_energized
  arm_driver e s isolated h = ground arith

  -- An open E-stop does not stop an ARM command, nor trip the system after it: armed while the line is
  -- open, the system is in RUN with the relay driven on, and it stays so through any number of quiet
  -- ticks that all see the line open.
  pub arm_ignores_estop :
      (production : Bool) (e : Env F) (es : List (Env F)) (s : Supervisor F)
      → s.state ≡ emergency
      → s.estop_open ≡ true
      → s.lock_starve_escalated ≡ false
      → MayArm fl e s
      → AllQuiet s.config (set_energized true s.driver) true es
      → let u = ticking fl es (apply_command fl production e arming s).1 in
        (u.state ≡ run) × (u.driver.energized ≡ true)
  unfolding apply_command
  arm_ignores_estop production e es s isolated open_line w may q =
      let t = (apply_arm fl e s).1 in
      let obeyed = arm_obeyed fl e s isolated may in
      let kept = arm_keeps e s in
      let driven = arm_driver e s isolated obeyed.0 in
      let quiet =
        subst (λ c. AllQuiet c t.driver t.estop_open es) (sym kept.0)
          (subst (λ d. AllQuiet s.config d t.estop_open es) (sym driven.1)
            (subst (λ o. AllQuiet s.config (set_energized true s.driver) o es)
              (sym (kept.1 ∙ open_line)) q)) in
      let stays = quiet_keeps_state es t (kept.2 ∙ w) quiet in ground arith
