-- ===== src/Relay/Emergency.antt =====
-- An emergency and the executor of firmware/Services/RelayController.cpp: `emergencyAllOff`, then ARM, then
-- any ticks.
use pltsmonitoring_firmware.Prelude.{
  ℕ, ◌+◌, ◌%◌, ◌^◌, ◌<◌, true, false, List, [], ◌∷◌, ◌≡◌, ◌≢◌, sym, subst, inl, inr, arith,
  Bool-cases,
}
use pltsmonitoring_firmware.Expander.{clear_safety_latch}
use pltsmonitoring_firmware.Expander.Register.{is_on}
use pltsmonitoring_firmware.Journal.{Preferences}
use pltsmonitoring_firmware.Relay.{Controller, Moment, TransactionRecord}
use pltsmonitoring_firmware.Relay.Command.{RelayCommand}
use pltsmonitoring_firmware.Relay.Queue.{Executor}
use pltsmonitoring_firmware.Relay.Tick.{TickEnv, tick}
use pltsmonitoring_firmware.Relay.Boot.{emergency_all_off, clear_emergency_latch}
use pltsmonitoring_firmware.Relay.Mirror.{
  IsTruthful, IsMirror, IsQuiet, IsQuiet-refl, IsQuiet-trans,
}
use pltsmonitoring_firmware.Relay.Barrier.{emergency-IsMirror, emergency_bank, emergency_off}
use pltsmonitoring_firmware.Relay.Executor.{AllStale, IsTruthfulTick, tick_stale, tick_queue}

-- Every command of the list carries this safety generation.
abbrev pub AllQueuedAt : ℕ → List RelayCommand → Type 0
AllQueuedAt generation [] = Unit {0}
AllQueuedAt generation (cmd ∷ cmds) =
    (cmd.safety_generation ≡ generation) × AllQueuedAt generation cmds

abbrev pub AllTruthful : List TickEnv → Type 0
AllTruthful [] = Unit {0}
AllTruthful (t ∷ ts) = IsTruthfulTick t × AllTruthful ts

next_generation : (g : ℕ) → g < 2 ^ 32 → g ≢ (g + 1) % 2 ^ 32
next_generation g h e = omega arith

becomes_stale :
    (g : ℕ) (cmds : List RelayCommand)
    → g < 2 ^ 32
    → AllQueuedAt g cmds
    → AllStale ((g + 1) % 2 ^ 32) cmds
becomes_stale g [] h q = tt
becomes_stale g (cmd ∷ cmds) h (now, later) =
    ((λ e. next_generation g h (ground arith)), becomes_stale g cmds h later)

armed-IsMirror : (c : Controller) → IsMirror c → IsMirror (clear_emergency_latch c)
unfolding clear_emergency_latch clear_safety_latch
armed-IsMirror c v = record {
  present = v.present;
  coherent = record {
    port_byte = v.coherent.port_byte;
    shadow_byte = v.coherent.shadow_byte;
    shadow_true = v.coherent.shadow_true;
  };
  reported = v.reported;
}

module _ (prefs : Preferences) (ack_text : TransactionRecord → ℕ → List ℕ) where
  open prefs use {Store}

  pub ticks : List TickEnv → Executor Store → Executor Store
  ticks [] x = x
  ticks (t ∷ ts) x = ticks ts (tick prefs ack_text t x)

  ticks_stale :
      (ts : List TickEnv) (x : Executor Store)
      → AllTruthful ts
      → IsMirror x.controller
      → AllStale x.controller.safety_generation x.queue
      → IsQuiet x.controller (ticks ts x).controller
  unfolding ticks
  ticks_stale [] x h v old = IsQuiet-refl x.controller v
  ticks_stale (t ∷ ts) x (h, hs) v old =
      let next = tick prefs ack_text t x in
      let p = tick_stale prefs ack_text t x h v old in
      IsQuiet-trans x.controller next.controller _ p (
        ticks_stale ts next hs p.mirror (
          subst (AllStale next.controller.safety_generation) (sym (tick_queue prefs ack_text t x))
            tt))

  -- After an emergency whose barrier reached the chip, no relay comes on again from what was queued
  -- before it: even when the operator arms the system at once, through any number of ticks every relay
  -- stays off until a new command is queued. What is reported followed the chip when the emergency
  -- came, the queued commands carry the generation of that time, and the bus reports no success that
  -- did not reach the chip.
  pub emergency_drops_queue :
      (m : Moment) (ts : List TickEnv) (x : Executor Store) (d : ℕ)
      → IsTruthful m
      → AllTruthful ts
      → IsMirror x.controller
      → x.controller.driver_available ≡ true
      → m.barrier.guard ≡ true
      → m.barrier.reached ≡ true
      → x.controller.safety_generation < 2 ^ 32
      → AllQueuedAt x.controller.safety_generation x.queue
      → d < 8
      → let armed = clear_emergency_latch (emergency_all_off m x.controller) in
        is_on (ticks ts (record x { controller = armed })).controller.bank.port d ≡ false
  unfolding clear_emergency_latch clear_safety_latch
  emergency_drops_queue m ts x d h hs v there guard reached small queued hd =
      let after = emergency_all_off m x.controller in
      let off = emergency_off m x.controller h v there guard reached d hd in
      let w = armed-IsMirror after (emergency-IsMirror m x.controller h v) in
      let old = becomes_stale x.controller.safety_generation x.queue small queued in
      let start = record x { controller = clear_emergency_latch after } in
      let q = ticks_stale ts start hs w (rw (emergency_bank m x.controller).1 old) in
      elim (Bool-cases (is_on (ticks ts start).controller.bank.port d)) [
        | inl lit ↦ absurd (ground (arith, q.no_new d hd lit))
        | inr dark ↦ dark
      ]
