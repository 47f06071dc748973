-- ===== src/Emergency/Crashes.antt =====
-- The crash chain of firmware/Services/EmergencySupervisor.cpp: boots that were not healthy.
use pltsmonitoring_firmware.Prelude.{
  ◌≡◌, refl, ◌≤◌, ◌<◌, ◌+◌, ◌&&◌, Bool, true, false, Bool-cases, inl, inr, arith, Option, none,
  some, List, [], ◌∷◌,
}
use pltsmonitoring_firmware.Measure.{Float}
use pltsmonitoring_firmware.Emergency.{emergency, crashloop, Supervisor, Env}
use pltsmonitoring_firmware.Emergency.Relay.{set_energized, apply_pins}
use pltsmonitoring_firmware.Emergency.Triggers.{trip, track_clear, arm_block_reason}
use pltsmonitoring_firmware.Emergency.Machine.{
  poll_estop, mark_runtime_healthy, led_tick, starved_tick, reconcile, evaluate, tick,
}
use pltsmonitoring_firmware.Emergency.Settings.{Patch, save_config}
use pltsmonitoring_firmware.Emergency.Command.{
  Command, arming, disarming, config, unknown, rejected, apply_arm, apply_disarm, apply_config,
  apply_command, queue_event, consume_pending_event,
}
use pltsmonitoring_firmware.Emergency.Boot.{begin, begin_driver, power_on, restart, next_chain}
use pltsmonitoring_firmware.Emergency.Arming.{
  Call, ticks, restarts, consumes, commands, queues, step, after, is_arm, IsIsolated, step-Safer,
}

-- No call of the history is a restart.
abbrev pub has_restart : {F : Type 0} → List (Env F × Call F) → Bool
has_restart [] = false
has_restart ((e, restarts) ∷ rest) = true
has_restart ((e, _) ∷ rest) = has_restart rest

module _ (fl : Float) where
  open fl use {F}

  -- Isolated after a crash loop.
  abbrev pub IsHeld : Supervisor F → Type 0
  IsHeld s = (s.state ≡ emergency) × (s.driver.energized ≡ false) × (3 ≤ s.crash_chain)

  poll_estop-IsHeld : (e : Env F) (s : Supervisor F) → IsHeld s → IsHeld (poll_estop fl e s)
  unfolding poll_estop
  poll_estop-IsHeld e s h = ground arith

  evaluate-IsHeld : (e : Env F) (s : Supervisor F) → IsHeld s → IsHeld (evaluate fl e s)
  unfolding evaluate track_clear arm_block_reason
  evaluate-IsHeld e s h = ground arith

  reconcile-IsHeld : (e : Env F) (s : Supervisor F) → IsHeld s → IsHeld (reconcile fl e s)
  unfolding reconcile trip
  reconcile-IsHeld e s h = ground arith

  tick_end-IsHeld :
      (e : Env F) (s : Supervisor F)
      → IsHeld s
      → IsHeld (led_tick fl e (mark_runtime_healthy fl e s))
  unfolding led_tick mark_runtime_healthy
  tick_end-IsHeld e s h = ground arith

  starved_tick-IsHeld : (e : Env F) (s : Supervisor F) → IsHeld s → IsHeld (starved_tick fl e s)
  unfolding starved_tick set_energized
  starved_tick-IsHeld e s h = ground arith

  tick-IsHeld : (e : Env F) (s : Supervisor F) → IsHeld s → IsHeld (tick fl e s)
  unfolding tick
  tick-IsHeld e s h =
      let a = reconcile fl e s in
      let b = poll_estop fl e a in
      let polled = poll_estop-IsHeld e a (reconcile-IsHeld e s h) in
      let ended = tick_end-IsHeld e (evaluate fl e b) (evaluate-IsHeld e b polled) in
      let starved = starved_tick-IsHeld e s h in ground arith

  held_refuses :
      (production : Bool) (e : Env F) (s : Supervisor F)
      → IsHeld s
      → apply_command fl production e arming s ≡ (rejected, s)
  unfolding apply_command apply_arm
  held_refuses production e s h = ground arith

  config_chain :
      (production : Bool) (e : Env F) (p : Option (Patch F)) (s : Supervisor F)
      → (apply_config fl production e p s).1.crash_chain ≡ s.crash_chain
  unfolding apply_config save_config
  config_chain production e none s = refl
  config_chain production e (some p) s = ground arith

  -- Any command but ARM keeps the chain.
  command_chain :
      (production : Bool) (e : Env F) (c : Command F) (s : Supervisor F)
      → is_arm fl (commands c) ≡ false
      → (apply_command fl production e c s).1.crash_chain ≡ s.crash_chain
  unfolding apply_command apply_disarm
  command_chain production e arming s h = absurd (ground arith)
  command_chain production e disarming s h = ground arith
  command_chain production e unknown s h = refl
  command_chain production e (config p) s h = let k = config_chain production e p s in ground arith

  command-IsHeld :
      (production : Bool) (e : Env F) (c : Command F) (s : Supervisor F)
      → IsHeld s
      → IsHeld (step fl production e (commands c) s)
  unfolding step
  command-IsHeld production e c s h = elim (Bool-cases (is_arm fl (commands c))) [
    | inr other ↦
        let safe = step-Safer fl production e (commands c) s other in
        let k = command_chain production e c s other in ground arith
    | inl arms ↦ arm_held c arms
  ]
    where
      arm_held :
          (c : Command F)
          → is_arm fl (commands c) ≡ true
          → IsHeld (apply_command fl production e c s).1
      arm_held arming a = rw (held_refuses production e s h) h
      arm_held disarming a = absurd (ground arith)
      arm_held unknown a = absurd (ground arith)
      arm_held (config p) a = absurd (ground arith)

  step-IsHeld :
      (production : Bool) (e : Env F) (call : Call F) (rest : List (Env F × Call F))
      (s : Supervisor F)
      → has_restart ((e, call) ∷ rest) ≡ false
      → IsHeld s
      → IsHeld (step fl production e call s) × (has_restart rest ≡ false)
  unfolding step queue_event consume_pending_event
  step-IsHeld production e ticks rest s n h = (tick-IsHeld e s h, n)
  step-IsHeld production e restarts rest s n h = absurd (ground arith)
  step-IsHeld production e consumes rest s n h = (ground arith, n)
  step-IsHeld production e (commands c) rest s n h = (command-IsHeld production e c s h, n)
  step-IsHeld production e (queues v) rest s n h = (ground arith, n)

  after-IsHeld :
      (production : Bool) (cs : List (Env F × Call F)) (s : Supervisor F)
      → has_restart cs ≡ false
      → IsHeld s
      → IsHeld (after fl production cs s)
  unfolding after
  after-IsHeld production [] s n h = h
  after-IsHeld production ((e, call) ∷ rest) s n h =
      let (held, later) = step-IsHeld production e call rest s n h in
      after-IsHeld production rest (step fl production e call s) later held

  chain_counts :
      (e : Env F) (s : Supervisor F)
      → e.nvs.opens && (e.nvs.finds_run_ok && e.nvs.finds_chain) ≡ true
      → s.nvs_run_ok ≡ 0
      → s.nvs_chain < 255
      → next_chain fl e s ≡ s.nvs_chain + 1
  unfolding next_chain
  chain_counts e s reads unhealthy few = elim (Bool-cases e.nvs.opens) [
    | inr shut ↦ absurd (ground arith)
    | inl opens ↦ elim (Bool-cases e.nvs.finds_run_ok) [
      | inr lost ↦ absurd (ground arith)
      | inl found ↦
          let chain : e.nvs.finds_chain ≡ true = ground arith in
          rw (opens, found, chain, unhealthy) (ground arith)
    ]
  ]

  restart-IsHeld :
      (production : Bool) (e : Env F) (s : Supervisor F)
      → 3 ≤ next_chain fl e (power_on fl s)
      → IsHeld (restart fl production e s) × ((restart fl production e s).reason ≡ crashloop)
  unfolding restart begin begin_driver power_on queue_event set_energized apply_pins
  restart-IsHeld production e s looping = ground arith

  -- A crash loop is held until the next restart: after a restart that reads from NVS that the boot before
  -- did not stay healthy and that two to 254 such boots in a row came before, the reason is CRASHLOOP,
  -- and after any ticks, commands (ARM and CONFIG included) and event traffic without a further restart
  -- the state is EMERGENCY, the relay is off, and an ARM command is answered REJECTED and changes
  -- nothing, whatever the sensors read.
  pub crash_loop_holds :
      (production : Bool) (e e' : Env F) (cs : List (Env F × Call F)) (s : Supervisor F)
      → e.nvs.opens && (e.nvs.finds_run_ok && e.nvs.finds_chain) ≡ true
      → s.nvs_run_ok ≡ 0
      → 2 ≤ s.nvs_chain
      → s.nvs_chain < 255
      → has_restart cs ≡ false
      → let t = after fl production cs (restart fl production e s) in
        ((restart fl production e s).reason ≡ crashloop)
        × IsIsolated fl t
        × (apply_command fl production e' arming t ≡ (rejected, t))
  unfolding power_on
  crash_loop_holds production e e' cs s reads unhealthy many few stays =
      let n = chain_counts e (power_on fl s) reads unhealthy few in
      let counted : 3 ≤ next_chain fl e (power_on fl s) = rw n (ground arith) in
      let (booted, reason) = restart-IsHeld production e s counted in
      let held = after-IsHeld production cs (restart fl production e s) stays booted in
      let refused =
        held_refuses production e' (after fl production cs (restart fl production e s)) held in
      (reason, (held.0, held.1), refused)
