-- ===== src/Emergency/Arming.antt =====
-- The operator's commands and the emergency relay, over whole histories of calls:
-- firmware/Services/EmergencySupervisor.cpp.

use pltsmonitoring_firmware.Prelude.{
  ◌≡◌, refl, inl, inr, Bool, true, false, Bool-cases, arith, Option, none, some, List, [], ◌∷◌, ℕ,
  ◌==◌, if◌then◌else◌, not, ◌&&◌,
}
use pltsmonitoring_firmware.Measure.{Float}
use pltsmonitoring_firmware.Emergency.{ℤ, emergency, Event, Driver, Supervisor, Env, is_obtained}
use pltsmonitoring_firmware.Emergency.Relay.{set_energized, apply_pins}
use pltsmonitoring_firmware.Emergency.Triggers.{arm_block_reason}
use pltsmonitoring_firmware.Emergency.Machine.{arm, tick}
use pltsmonitoring_firmware.Emergency.Settings.{Patch, patched, asks_locked, save_config}
use pltsmonitoring_firmware.Emergency.Command.{
  Command, arming, disarming, config, unknown, apply_arm, apply_disarm, apply_config, apply_command,
  queue_event, consume_pending_event,
}
use pltsmonitoring_firmware.Emergency.Boot.{begin_driver, begin, power_on, restart}
use pltsmonitoring_firmware.Emergency.Isolation.{Safer, Safer-refl, tick-Safer}

-- The calls that other tasks make.
pub data Call (F : Type 0) : Type 0 where
  ticks restarts consumes : Call F
  commands : Command F → Call F
  queues : Event → Call F

module _ (fl : Float) where
  open fl use {F, is_finite, le, add, sub}

  unfoldable pub step : Bool → Env F → Call F → Supervisor F → Supervisor F
  unfolding apply_command restart queue_event consume_pending_event
  step production e ticks s = tick fl e s
  step production e restarts s = restart fl production e s
  step production e consumes s = consume_pending_event fl e s
  step production e (commands c) s = (apply_command fl production e c s).1
  step production e (queues v) s = queue_event fl e v s

  abbrev pub is_arm : Call F → Bool
  is_arm (commands arming) = true
  is_arm _ = false

  abbrev pub IsIsolated : Supervisor F → Type 0
  IsIsolated s = (s.state ≡ emergency) × (s.driver.energized ≡ false)

  -- Isolated whenever the state is EMERGENCY.
  abbrev pub IsSound : Supervisor F → Type 0
  IsSound s = s.state ≡ emergency → s.driver.energized ≡ false

  Safer-IsSound : (s t : Supervisor F) → Safer s t → IsSound s → IsSound t
  Safer-IsSound s t (inl a) h eq = elim (Bool-cases t.driver.energized) [
    | inl on ↦ let back = a.1 on in let off = h (cc) in cc
    | inr off ↦ off
  ]
  Safer-IsSound s t (inr a) h eq = a.1

  apply_pins-energized :
      (production : Bool) (relay_pin : ℕ) (estop_pin : ℤ) (on : Bool) (d : Driver)
      → (apply_pins production relay_pin estop_pin on d).energized ≡ d.energized
  unfolding apply_pins
  apply_pins-energized production relay_pin estop_pin on d = ground arith

  save_config-Safer :
      (production : Bool) (e : Env F) (p : Patch F) (s : Supervisor F)
      → Safer s (save_config fl production e p s).1
  unfolding save_config
  save_config-Safer production e p s =
      let new = patched fl p s.config in
      let kept =
        apply_pins-energized production new.relay_pin new.estop_pin (not (new.estop_enabled == 0))
          s.driver in
      let old = s.config in
      let back =
        apply_pins-energized production old.relay_pin old.estop_pin (not (old.estop_enabled == 0))
          s.driver in
      elim (Bool-cases e.saves) [ inl y ↦ ground arith | inr n ↦ ground arith ]

  config-Safer :
      (production : Bool) (e : Env F) (p : Option (Patch F)) (s : Supervisor F)
      → Safer s (apply_config fl production e p s).1
  unfolding apply_config
  config-Safer production e none s = Safer-refl s
  config-Safer production e (some p) s =
      let saved = save_config-Safer production e p s in
      elim (Bool-cases (production && asks_locked fl p s.config)) [
        | inl y ↦ ground arith
        | inr n ↦ ground arith
      ]

  disarm-IsIsolated : (e : Env F) (s : Supervisor F) → IsIsolated (apply_disarm fl e s).1
  unfolding apply_disarm set_energized
  disarm-IsIsolated e s = ground arith

  -- Any call but an ARM.
  pub step-Safer :
      (production : Bool) (e : Env F) (call : Call F) (s : Supervisor F)
      → is_arm call ≡ false
      → Safer s (step production e call s)
  unfolding step apply_command restart power_on begin begin_driver queue_event consume_pending_event
      apply_pins set_energized
  step-Safer production e ticks s h = tick-Safer fl e s
  step-Safer production e restarts s h = ground arith
  step-Safer production e consumes s h = ground arith
  step-Safer production e (commands arming) s h = cc
  step-Safer production e (commands disarming) s h = let d = disarm-IsIsolated e s in ground arith
  step-Safer production e (commands unknown) s h = Safer-refl s
  step-Safer production e (commands (config p)) s h =
      let d = config-Safer production e p s in ground arith
  step-Safer production e (queues v) s h = ground arith

  unfoldable pub after : Bool → List (Env F × Call F) → Supervisor F → Supervisor F
  after production [] s = s
  after production ((e, call) ∷ rest) s = after production rest (step production e call s)

  abbrev pub has_arm : List (Env F × Call F) → Bool
  has_arm [] = false
  has_arm ((e, call) ∷ rest) = if is_arm call then true else has_arm rest

  -- Once the system is isolated, it stays isolated through any sequence of ticks, restarts, DISARM and
  -- CONFIG commands, unknown commands and event traffic, in which there is no ARM command, whatever the
  -- sensors, the E-stop line, the mutex, the storage and the relay bus do.
  pub after-IsIsolated :
      (production : Bool) (cs : List (Env F × Call F)) (s : Supervisor F)
      → has_arm cs ≡ false
      → IsIsolated s
      → IsIsolated (after production cs s)
  unfolding after
  after-IsIsolated production [] s none_arms h = h
  after-IsIsolated production ((e, call) ∷ rest) s none_arms h =
      let t = step production e call s in
      let other = Bool-cases (is_arm call) in
      let safe = step-Safer production e call s (ground arith) in
      after-IsIsolated production rest t (ground arith) (ground arith)

  apply_arm-IsSound : (e : Env F) (s : Supervisor F) → IsSound s → IsSound (apply_arm fl e s).1
  unfolding apply_arm arm arm_block_reason
  apply_arm-IsSound e s h = ground arith

  other-IsSound :
      (production : Bool) (e : Env F) (call : Call F) (s : Supervisor F)
      → is_arm call ≡ false
      → IsSound s
      → IsSound (step production e call s)
  other-IsSound production e call s other h =
      Safer-IsSound s (step production e call s) (step-Safer production e call s other) h

  step-IsSound :
      (production : Bool) (e : Env F) (call : Call F) (s : Supervisor F)
      → IsSound s
      → IsSound (step production e call s)
  unfolding step apply_command
  step-IsSound production e (commands arming) s h =
      let armed_state = apply_arm-IsSound e s h in
      elim (Bool-cases (is_obtained e.lock)) [ inl y ↦ ground arith | inr n ↦ ground arith ]
  step-IsSound production e ticks s h = other-IsSound production e ticks s refl h
  step-IsSound production e restarts s h = other-IsSound production e restarts s refl h
  step-IsSound production e consumes s h = other-IsSound production e consumes s refl h
  step-IsSound production e (queues v) s h = other-IsSound production e (queues v) s refl h
  step-IsSound production e (commands disarming) s h =
      other-IsSound production e (commands disarming) s refl h
  step-IsSound production e (commands unknown) s h =
      other-IsSound production e (commands unknown) s refl h
  step-IsSound production e (commands (config p)) s h =
      other-IsSound production e (commands (config p)) s refl h

  -- The state EMERGENCY always means that the relay is off: the invariant holds after any sequence of
  -- ticks, restarts, commands (ARM included) and event traffic that starts where it holds.
  pub after-IsSound :
      (production : Bool) (cs : List (Env F × Call F)) (s : Supervisor F)
      → IsSound s
      → IsSound (after production cs s)
  unfolding after
  after-IsSound production [] s h = h
  after-IsSound production ((e, call) ∷ rest) s h =
      after-IsSound production rest (step production e call s) (step-IsSound production e call s h)
