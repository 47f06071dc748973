-- ===== src/Relay/Allowed.antt =====
-- The whole executor of firmware/Services/RelayController.cpp: only a command that was granted switches
-- a relay on.
use pltsmonitoring_firmware.Prelude.{
  ◌==◌, ltb, if◌then◌else◌, true, false, not, ◌&&◌, ◌≡◌, refl, arith,
}
use pltsmonitoring_firmware.Relay.{Controller, Moment, channel_count}
use pltsmonitoring_firmware.Relay.Channel.{
  apply_channel_state, evaluate_safety, SafetyDecision, allow, inhibit_min_on, inhibit_min_off,
  inhibit_chatter,
}
use pltsmonitoring_firmware.Relay.Lockout.{is_free, acknowledge_safety_alarm, clear_safety_lockout}
use pltsmonitoring_firmware.Relay.Command.{
  Verb, all_off, config, acknowledge, clear, on, off, pulse, other, RelayCommand, CommandResult,
  source_of, applied, rejected, blocked, failed, all_off_from, over_limit, force_limit, report,
  apply_on, apply_off, apply_pulse, apply_to_channel, answer, apply_command,
}
use pltsmonitoring_firmware.Relay.Mirror.{IsTruthful, IsMirror, apply_off-IsQuiet}
use pltsmonitoring_firmware.Relay.Quiet.{
  all_off_from-IsQuiet, acknowledge-IsQuiet, clear-IsQuiet, force_limit-IsQuiet,
}
use pltsmonitoring_firmware.Relay.Grant.{
  IsGuarded, Passed, quiet-IsGuarded, pair_either, unchanged, report_after, apply_on-IsGuarded,
  apply_pulse-IsGuarded,
}

module _ (m : Moment) (cmd : RelayCommand) (c : Controller) where
  unless_min_on :
      (s : SafetyDecision) (y z : CommandResult × Controller)
      → IsGuarded m cmd c y.1
      → IsGuarded m cmd c z.1
      → let r : CommandResult × Controller = elim s [ inhibit_min_on ↦ y | _ ↦ z ] in
        IsGuarded m cmd c r.1
  unless_min_on allow y z p q = q
  unless_min_on inhibit_min_on y z p q = p
  unless_min_on inhibit_min_off y z p q = q
  unless_min_on inhibit_chatter y z p q = q

  apply_off-IsGuarded : IsTruthful m → IsMirror c → IsGuarded m cmd c (apply_off m cmd c).1
  unfolding apply_off
  apply_off-IsGuarded t v =
      let written = apply_channel_state m cmd.channel false (source_of cmd.source) c in
      let g =
        quiet-IsGuarded m cmd c written
          (apply_off-IsQuiet m cmd.channel (source_of cmd.source) c t v) in
      unless_min_on (evaluate_safety m cmd.channel false c) (blocked, c)
        (report m cmd.channel written) (unchanged m cmd c v) (report_after m cmd c written g)

  by_switch :
      (w : Verb) (y z p r : CommandResult × Controller)
      → (w ≡ on → IsGuarded m cmd c y.1)
      → IsGuarded m cmd c z.1
      → (w ≡ pulse → IsGuarded m cmd c p.1)
      → IsGuarded m cmd c r.1
      → let s : CommandResult × Controller = elim w [ on ↦ y | off ↦ z | pulse ↦ p | _ ↦ r ] in
        IsGuarded m cmd c s.1
  by_switch all_off y z p r gy gz gp gr = gr
  by_switch config y z p r gy gz gp gr = gr
  by_switch acknowledge y z p r gy gz gp gr = gr
  by_switch clear y z p r gy gz gp gr = gr
  by_switch on y z p r gy gz gp gr = gy refl
  by_switch off y z p r gy gz gp gr = gz
  by_switch pulse y z p r gy gz gp gr = gp refl
  by_switch other y z p r gy gz gp gr = gr

  by_verb :
      (w : Verb) (y z p q r : CommandResult × Controller)
      → IsGuarded m cmd c y.1
      → IsGuarded m cmd c z.1
      → IsGuarded m cmd c p.1
      → IsGuarded m cmd c q.1
      → IsGuarded m cmd c r.1
      → let s : CommandResult × Controller = elim w [
        | all_off ↦ y
        | config ↦ z
        | acknowledge ↦ p
        | clear ↦ q
        | _ ↦ r
      ] in
        IsGuarded m cmd c s.1
  by_verb all_off y z p q r gy gz gp gq gr = gy
  by_verb config y z p q r gy gz gp gq gr = gz
  by_verb acknowledge y z p q r gy gz gp gq gr = gp
  by_verb clear y z p q r gy gz gp gq gr = gq
  by_verb on y z p q r gy gz gp gq gr = gr
  by_verb off y z p q r gy gz gp gq gr = gr
  by_verb pulse y z p q r gy gz gp gq gr = gr
  by_verb other y z p q r gy gz gp gq gr = gr

  apply_to_channel-IsGuarded :
      IsTruthful m
      → IsMirror c
      → c.driver_available ≡ true
      → IsGuarded m cmd c (apply_to_channel m cmd c).1
  unfolding apply_to_channel
  apply_to_channel-IsGuarded t v a =
      let ch = cmd.channel in
      let s = c.channels ch in
      let same = unchanged m cmd c v in
      let either = pair_either m cmd c in
      either (not (ltb ch channel_count)) (rejected, c) _ (λ h. same)
        (λ inside.
          either (not (c.configs ch).enabled) (rejected, c) _ (λ h. same)
            (λ enabled.
              either (not (is_free s.lockout)) (blocked, c) _ (λ h. same)
                (λ free.
                  either (cmd.desired_state && s.max_on_time_forced) (blocked, c) _ (λ h. same)
                    (λ unforced.
                      either (cmd.desired_state && over_limit m ch c) (blocked, force_limit m ch c)
                        _ (λ h. quiet-IsGuarded m cmd c _ (force_limit-IsQuiet m t ch c v))
                        (λ within.
                          let passed : Passed m cmd c = record {
                            there = a;
                            inside = ground arith;
                            enabled = ground arith;
                            free = ground arith;
                            unforced = λ h. ground arith;
                            within = λ h. ground arith;
                          } in
                          by_switch cmd.verb (apply_on m cmd c) (apply_off m cmd c)
                            (apply_pulse m cmd c) (rejected, c)
                            (apply_on-IsGuarded m cmd c t v passed) (apply_off-IsGuarded t v)
                            (apply_pulse-IsGuarded m cmd c t v passed) same)))))

  -- `applyCommand` keeps the invariant of what is reported, and a relay that is on after it either was
  -- on before or is the channel of this command, which met every gate. The bus reports no success that
  -- did not reach the chip.
  pub apply_command-IsGuarded :
      IsTruthful m → IsMirror c → IsGuarded m cmd c (apply_command m cmd c).1
  unfolding apply_command
  apply_command-IsGuarded t v =
      let same = unchanged m cmd c v in
      let off_everywhere = all_off_from m channel_count 0 c in
      let first : CommandResult × Controller =
        (if off_everywhere.0 == 0 then applied else failed, off_everywhere.1) in
      pair_either m cmd c (not c.driver_available) (failed, c) _ (λ h. same)
        (λ h.
          by_verb cmd.verb first (rejected, c) (answer (acknowledge_safety_alarm m cmd.channel c))
            (answer (clear_safety_lockout m cmd.channel c)) (apply_to_channel m cmd c)
            (quiet-IsGuarded m cmd c _ (all_off_from-IsQuiet m t channel_count 0 c v)) same
            (quiet-IsGuarded m cmd c _ (acknowledge-IsQuiet m cmd.channel c v))
            (quiet-IsGuarded m cmd c _ (clear-IsQuiet m cmd.channel c v))
            (apply_to_channel-IsGuarded t v (ground arith)))
