-- ===== src/Emergency/Watchdog.antt =====
-- Ticks that do not get the mutex: the watchdog of `tick` in firmware/Services/EmergencySupervisor.cpp.
use pltsmonitoring_firmware.Prelude.{
  ◌≡◌, refl, inl, inr, Bool, true, false, Bool-cases, arith, List, [], ◌∷◌, length, ltb, ◌<◌, ◌≤◌,
  ◌+◌, ◌%◌, ◌^◌,
}
use pltsmonitoring_firmware.Measure.{Float}
use pltsmonitoring_firmware.Expander.{force_safety_all_off, drive_all_off, write_output}
use pltsmonitoring_firmware.Emergency.{run, emergency, internal, Supervisor, Env, obtained, busy}
use pltsmonitoring_firmware.Emergency.Relay.{set_energized}
use pltsmonitoring_firmware.Emergency.Triggers.{trip, arm_block_reason, track_clear}
use pltsmonitoring_firmware.Emergency.Machine.{
  arm, tick, starved_tick, reconcile, poll_estop, evaluate, mark_runtime_healthy, led_tick,
}
use pltsmonitoring_firmware.Emergency.Command.{arming, apply_arm, apply_command}
use pltsmonitoring_firmware.Emergency.Gate.{MayArm, arm_obeyed}

module _ (fl : Float) where
  open fl use {F}

  unfoldable pub ticking : List (Env F) → Supervisor F → Supervisor F
  ticking [] s = s
  ticking (e ∷ es) s = ticking es (tick fl e s)

  abbrev pub AllStarved : List (Env F) → Type 0
  AllStarved [] = Unit {0}
  AllStarved (e ∷ es) = (e.lock ≡ busy) × AllStarved es

  escalated_tick :
      (e : Env F) (s : Supervisor F)
      → e.lock ≡ busy
      → s.lock_starve_escalated ≡ true
      → (tick fl e s).lock_starve_escalated ≡ true
        × ((tick fl e s).driver ≡ s.driver)
        × ((tick fl e s).bank ≡ s.bank)
        × ((tick fl e s).state ≡ s.state)
  unfolding tick starved_tick
  escalated_tick e s starved h = ground arith

  escalated_ticking :
      (es : List (Env F)) (s : Supervisor F)
      → AllStarved es
      → s.lock_starve_escalated ≡ true
      → (ticking es s).lock_starve_escalated ≡ true
        × ((ticking es s).driver ≡ s.driver)
        × ((ticking es s).bank ≡ s.bank)
        × ((ticking es s).state ≡ s.state)
  unfolding ticking
  escalated_ticking [] s starved h = (h, refl, refl, refl)
  escalated_ticking (e ∷ es) s starved h =
      let one = escalated_tick e s starved.0 h in
      let rest = escalated_ticking es (tick fl e s) starved.1 one.0 in (rest.0, cc, cc, cc)

  early_tick :
      (e : Env F) (s : Supervisor F)
      → e.lock ≡ busy
      → s.lock_starve_cycles + 1 < 20
      → ((tick fl e s).lock_starve_cycles ≡ s.lock_starve_cycles + 1)
        × ((tick fl e s).lock_starve_escalated ≡ s.lock_starve_escalated)
        × ((tick fl e s).state ≡ s.state)
  unfolding tick starved_tick
  early_tick e s starved h = ground arith

  late_tick :
      (e : Env F) (s : Supervisor F)
      → e.lock ≡ busy
      → s.lock_starve_escalated ≡ false
      → 20 ≤ s.lock_starve_cycles + 1
      → s.lock_starve_cycles + 1 < 256
      → ((tick fl e s).lock_starve_escalated ≡ true)
        × ((tick fl e s).driver.energized ≡ false)
        × ((tick fl e s).bank.safety_latched ≡ true)
        × ((tick fl e s).state ≡ s.state)
  unfolding tick starved_tick set_energized force_safety_all_off drive_all_off write_output
  late_tick e s starved armed late small = ground arith

  -- When the mutex is not obtained for a run of ticks that brings the count of starved ticks from at most
  -- 19 to 20 or more, and the watchdog has not acted yet, then the emergency relay is off afterwards, the
  -- safety latch of the relay bank is set, and the watchdog's mark is left for the next tick; the state
  -- is not touched.
  pub starvation_isolates :
      (es : List (Env F)) (s : Supervisor F)
      → AllStarved es
      → s.lock_starve_escalated ≡ false
      → s.lock_starve_cycles < 20
      → 20 ≤ s.lock_starve_cycles + length es
      → ((ticking es s).lock_starve_escalated ≡ true)
        × ((ticking es s).driver.energized ≡ false)
        × ((ticking es s).bank.safety_latched ≡ true)
        × ((ticking es s).state ≡ s.state)
  unfolding ticking
  starvation_isolates [] s starved waiting few enough = ground arith
  starvation_isolates (e ∷ es) s starved waiting few enough =
      let t = tick fl e s in
      elim (Bool-cases (ltb (s.lock_starve_cycles + 1) 20)) [
        | inl early ↦
            let one = early_tick e s starved.0 (ground arith) in
            let rest =
              starvation_isolates es t starved.1 (ground arith) (ground arith) (ground arith) in
            ground arith
        | inr late ↦
            let one = late_tick e s starved.0 waiting (ground arith) (ground arith) in
            let rest = escalated_ticking es t starved.1 one.0 in (rest.0, cc, cc, cc)
      ]

  -- The parts of a tick that do nothing to a system that is in EMERGENCY already.
  abbrev KeepsTrip : Supervisor F → Supervisor F → Type 0
  KeepsTrip s t =
      (t.state ≡ s.state) × (t.reason ≡ s.reason) × (t.driver ≡ s.driver) × (t.trips ≡ s.trips)

  polled : (e : Env F) (s : Supervisor F) → s.state ≡ emergency → KeepsTrip s (poll_estop fl e s)
  unfolding poll_estop
  polled e s h = ground arith

  evaluated : (e : Env F) (s : Supervisor F) → s.state ≡ emergency → KeepsTrip s (evaluate fl e s)
  unfolding evaluate track_clear arm_block_reason
  evaluated e s h = ground arith

  marked : (e : Env F) (s : Supervisor F) → KeepsTrip s (mark_runtime_healthy fl e s)
  unfolding mark_runtime_healthy
  marked e s = ground arith

  blinked : (e : Env F) (s : Supervisor F) → KeepsTrip s (led_tick fl e s)
  unfolding led_tick
  blinked e s = ground arith

  reconciled :
      (e : Env F) (s : Supervisor F)
      → s.state ≡ run
      → s.lock_starve_escalated ≡ true
      → ((reconcile fl e s).state ≡ emergency)
        × ((reconcile fl e s).reason ≡ internal)
        × ((reconcile fl e s).driver.energized ≡ false)
        × ((reconcile fl e s).trips ≡ (s.trips + 1) % 2 ^ 32)
  unfolding reconcile trip set_energized
  reconciled e s h w = ground arith

  -- The first tick that gets the mutex again after the watchdog acted in RUN turns the forced isolation
  -- into a trip: the state is EMERGENCY, the reason is the internal fault, the relay is off, and the trip
  -- is counted.
  pub starvation_becomes_trip :
      (e : Env F) (s : Supervisor F)
      → e.lock ≡ obtained
      → s.state ≡ run
      → s.lock_starve_escalated ≡ true
      → ((tick fl e s).state ≡ emergency)
        × ((tick fl e s).reason ≡ internal)
        × ((tick fl e s).driver.energized ≡ false)
        × ((tick fl e s).trips ≡ (s.trips + 1) % 2 ^ 32)
  unfolding tick
  starvation_becomes_trip e s lock h w =
      let a = reconcile fl e s in
      let b = poll_estop fl e a in
      let c = evaluate fl e b in
      let d = mark_runtime_healthy fl e c in
      let first = reconciled e s h w in
      let second = polled e a first.0 in
      let third = evaluated e b (cc) in
      let fourth = marked e c in let fifth = blinked e d in ground arith

  rearmed :
      (e : Env F) (s : Supervisor F)
      → ((apply_arm fl e s).1.lock_starve_escalated ≡ s.lock_starve_escalated)
  unfolding apply_arm arm arm_block_reason
  rearmed e s = ground arith

  -- An ARM command between the watchdog's action and the next tick that gets the mutex disables the
  -- watchdog: when it is obeyed, no number of further starved ticks switches the relay off.
  pub rearm_defeats_watchdog :
      (production : Bool) (e : Env F) (es : List (Env F)) (s : Supervisor F)
      → s.state ≡ emergency
      → s.lock_starve_escalated ≡ true
      → MayArm fl e s
      → AllStarved es
      → (ticking es (apply_command fl production e arming s).1).driver.energized ≡ true
  unfolding apply_command
  rearm_defeats_watchdog production e es s isolated w may starved =
      let t = (apply_command fl production e arming s).1 in
      let obeyed = arm_obeyed fl e s isolated may in
      let still = rearmed e s in
      let rest = escalated_ticking es t starved (ground arith) in ground arith
