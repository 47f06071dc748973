-- ===== src/Relay/Honest.antt =====
-- What a result of firmware/Services/RelayController.cpp says of the chip: `applyCommand` and the
-- terminal result that `processCommandQueue` records.
use pltsmonitoring_firmware.Prelude.{
  ℕ, ◌<◌, Bool, true, false, ◌≡◌, ◌≢◌, ◌⊎◌, inl, inr, Option, none, some, ap, refl, arith,
}
use pltsmonitoring_firmware.Expander.Register.{is_on}
use pltsmonitoring_firmware.Expander.Latch.{set_channel_reports}
use pltsmonitoring_firmware.Relay.{Controller, Moment, RelaySource, TerminalResult, executed}
use pltsmonitoring_firmware.Relay.Channel.{apply_channel_state, annotate}
use pltsmonitoring_firmware.Relay.Command.{
  Verb, on, off, pulse, RelayCommand, CommandResult, applied, rejected, blocked, failed, source_of,
  report, apply_on, apply_off, apply_pulse, schedule_pulse, apply_to_channel, apply_command,
}
use pltsmonitoring_firmware.Relay.Queue.{judge, terminal_of, refuses}
use pltsmonitoring_firmware.Relay.Mirror.{IsTruthful, IsMirror, apply_bank, apply_fault}

-- The output that a verb asks of its channel.
abbrev pub wanted : Verb → Bool
wanted off = false
wanted _ = true

module _ (m : Moment) (ch : ℕ) (to : Bool) (source : RelaySource) (c : Controller) where
  -- A write without a fault left the channel as asked.
  write_reached :
      IsTruthful m
      → IsMirror c
      → ch < 8
      → ((apply_channel_state m ch to source c).channels ch).fault ≡ false
      → is_on (apply_channel_state m ch to source c).bank.port ch ≡ to
  write_reached t v h f = ground (
    arith,
    apply_bank m ch to source c,
    apply_fault m ch to source c,
    set_channel_reports (m.bus ch) ch ch to c.bank (t.writes ch) v.coherent h,
  )

terminal_executed : (r : CommandResult) (c : Controller) → terminal_of r c ≡ executed → r ≡ applied
unfolding terminal_of
terminal_executed applied c h = refl
terminal_executed rejected c h = cc
terminal_executed blocked c h = cc
terminal_executed failed c h = ground arith

module _ (m : Moment) (cmd : RelayCommand) (c : Controller) where
  -- A command that applied left the bank that its write left.
  applied_on :
      (apply_on m cmd c).0 ≡ applied
      → let written = apply_channel_state m cmd.channel true (source_of cmd.source) c in
        ((written.channels cmd.channel).fault ≡ false) × ((apply_on m cmd c).1.bank ≡ written.bank)
  unfolding apply_on report
  applied_on h = ground arith

  applied_off :
      (apply_off m cmd c).0 ≡ applied
      → let written = apply_channel_state m cmd.channel false (source_of cmd.source) c in
        ((written.channels cmd.channel).fault ≡ false) × ((apply_off m cmd c).1.bank ≡ written.bank)
  unfolding apply_off report
  applied_off h = ground arith

  schedule_bank : (y : Controller) → (schedule_pulse m cmd y).bank ≡ y.bank
  unfolding schedule_pulse annotate
  schedule_bank y = ground arith

  applied_pulse :
      (apply_pulse m cmd c).0 ≡ applied
      → let written = apply_channel_state m cmd.channel true (source_of cmd.source) c in
        ((written.channels cmd.channel).fault ≡ false)
        × ((apply_pulse m cmd c).1.bank ≡ written.bank)
  unfolding apply_pulse
  applied_pulse h =
      let w = schedule_bank (apply_channel_state m cmd.channel true (source_of cmd.source) c) in
      ground arith

  taken_on :
      cmd.verb ≡ on
      → (apply_command m cmd c).0 ≡ applied
      → (cmd.channel < 8) × (apply_command m cmd c ≡ apply_on m cmd c)
  unfolding apply_command apply_to_channel
  taken_on w h = ground arith

  taken_off :
      cmd.verb ≡ off
      → (apply_command m cmd c).0 ≡ applied
      → (cmd.channel < 8) × (apply_command m cmd c ≡ apply_off m cmd c)
  unfolding apply_command apply_to_channel
  taken_off w h = ground arith

  taken_pulse :
      cmd.verb ≡ pulse
      → (apply_command m cmd c).0 ≡ applied
      → (cmd.channel < 8) × (apply_command m cmd c ≡ apply_pulse m cmd c)
  unfolding apply_command apply_to_channel
  taken_pulse w h = ground arith

  applied_reached :
      IsTruthful m
      → IsMirror c
      → (cmd.verb ≡ on) ⊎ ((cmd.verb ≡ off) ⊎ (cmd.verb ≡ pulse))
      → (apply_command m cmd c).0 ≡ applied
      → is_on (apply_command m cmd c).1.bank.port cmd.channel ≡ wanted cmd.verb
  applied_reached t v (inl w) h =
      let (inside, same) = taken_on w h in
      let (known, bank) = applied_on (ground arith) in
      let reached = write_reached m cmd.channel true (source_of cmd.source) c t v inside known in
      ground arith
  applied_reached t v (inr (inl w)) h =
      let (inside, same) = taken_off w h in
      let (known, bank) = applied_off (ground arith) in
      let reached = write_reached m cmd.channel false (source_of cmd.source) c t v inside known in
      ground arith
  applied_reached t v (inr (inr w)) h =
      let (inside, same) = taken_pulse w h in
      let (known, bank) = applied_pulse (ground arith) in
      let reached = write_reached m cmd.channel true (source_of cmd.source) c t v inside known in
      ground arith

  never_refused_executed : refuses m cmd c ≢ some executed
  unfolding refuses
  never_refused_executed h = ground arith

  executed_outcome :
      (o : Option TerminalResult) (result : CommandResult) (after : Controller)
      → o ≢ some executed
      → let r : TerminalResult × Controller = elim o [
        | some early ↦ (early, c)
        | none ↦ (terminal_of result after, after)
      ] in
        r.0 ≡ executed → (result ≡ applied) × (r.1 ≡ after)
  executed_outcome none result after n h = (terminal_executed result after h, refl)
  executed_outcome (some early) result after n h = absurd (n (ap some h))

  executed_applied :
      (judge m cmd c).0 ≡ executed
      → ((apply_command m cmd c).0 ≡ applied) × ((judge m cmd c).1 ≡ (apply_command m cmd c).1)
  unfolding judge
  executed_applied h =
      executed_outcome (refuses m cmd c) (apply_command m cmd c).0 (apply_command m cmd c).1
        never_refused_executed h

  -- The terminal result EXECUTED of "on", "off" or "pulse" is never a claim without a write: the
  -- channel's output on the chip is then what the command asked. The bus reports no success that did
  -- not reach the chip, and what is reported followed the chip before.
  pub executed_reached :
      IsTruthful m
      → IsMirror c
      → (cmd.verb ≡ on) ⊎ ((cmd.verb ≡ off) ⊎ (cmd.verb ≡ pulse))
      → (judge m cmd c).0 ≡ executed
      → is_on (judge m cmd c).1.bank.port cmd.channel ≡ wanted cmd.verb
  executed_reached t v w h =
      let (done, same) = executed_applied h in
      let reached = applied_reached t v w done in ground arith
