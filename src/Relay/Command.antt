-- ===== src/Relay/Command.antt =====
-- `applyCommand`, `allOffWithResult` and `setChannelConfig` of firmware/Services/RelayController.cpp.
use pltsmonitoring_firmware.Prelude.{
  ℕ, zero, suc, ◌+◌, ◌*◌, ◌/◌, ◌%◌, ◌^◌, ltb, leb, ◌==◌, if◌then◌else◌, Bool, true, false, not,
  ◌&&◌, ◌||◌, List, ◌∷◌,
}
use pltsmonitoring_firmware.Alarms.{critical, warning}
use pltsmonitoring_firmware.Relay.{
  RelaySource, manual, schedule, automation, safety, system, tripped, FailSafePolicy, hold_safe,
  ChannelConfig, relay_max_on_time, relay_interlock_violation, Controller, Moment, put,
  channel_count,
}
use pltsmonitoring_firmware.Relay.Channel.{
  since, apply_channel_state, inhibit_min_on, inhibit_min_off, inhibit_chatter, evaluate_safety,
  evaluate_interlock, annotate, cancel_pulse,
}
use pltsmonitoring_firmware.Relay.Lockout.{
  save_lockouts, is_free, acknowledge_safety_alarm, clear_safety_lockout,
}

pub data Verb : Type 0 where
  all_off config acknowledge clear on off pulse other : Verb

-- The word of the source; `word_other` is any text that is not one of the four.
pub data SourceWord : Type 0 where
  word_schedule word_automation word_safety word_system word_other : SourceWord

abbrev pub source_of : SourceWord → RelaySource
source_of word_schedule = schedule
source_of word_automation = automation
source_of word_safety = safety
source_of word_system = system
source_of word_other = manual

-- `QueuedRelayCommand`, without the two times that only diagnostics read.
pub record RelayCommand : Type 0 where
  pub transaction_id : List ℕ
  pub request_id : List ℕ
  pub command_hash : List ℕ
  pub verb : Verb
  pub channel : ℕ
  pub desired_state : Bool
  pub pulse_duration_ms : ℕ
  pub source : SourceWord
  pub expires_at : ℕ
  pub safety_generation : ℕ

pub data CommandResult : Type 0 where
  applied rejected blocked failed : CommandResult

-- An executed command is evidence that the operator is there.
abbrev pub note_command : Moment → ℕ → Controller → Controller
note_command m ch c = record c {
  channels =
      put c.channels ch
        (record (c.channels ch) { last_command_at_ms = m.now; comm_loss_forced = false });
}

-- `allOffWithResult` from channel `ch` on; the number counts the channels whose write failed.
unfoldable pub all_off_from : Moment → ℕ → ℕ → Controller → ℕ × Controller
unfolding cancel_pulse apply_channel_state
all_off_from m zero ch c = (0, c)
all_off_from m (suc n) ch c =
    let written = apply_channel_state m ch false manual (cancel_pulse m ch c) in
    let (unknown, last) = all_off_from m n (ch + 1) (note_command m ch written) in
    (if (written.channels ch).fault then unknown + 1 else unknown, last)

-- The hard limit of the ON time, judged from the raw times.
unfoldable pub over_limit : Moment → ℕ → Controller → Bool
over_limit m ch c =
    let s = c.channels ch in
    let limit = (c.configs ch).max_on_time_sec in
    ltb 0 limit
    && (s.reported_state && (ltb 0 s.on_since_ms && leb limit (since m.now s.on_since_ms / 1000)))

-- FORCE OFF: the pulse is cancelled, OFF is written, the channel is tripped.
unfoldable pub force_limit : Moment → ℕ → Controller → Controller
unfolding cancel_pulse apply_channel_state save_lockouts
force_limit m ch c =
    let written = apply_channel_state m ch false safety (cancel_pulse m ch c) in
    let saved = save_lockouts m (record written {
      channels =
          put written.channels ch
            (record (written.channels ch) { max_on_time_forced = true; lockout = tripped });
    }) in
    record saved { raised = (relay_max_on_time, critical) ∷ saved.raised }

-- What stands after the write of "on" and "off": a write that failed is never reported as applied.
unfoldable pub report : Moment → ℕ → Controller → CommandResult × Controller
report m ch c = if (c.channels ch).fault then (failed, c) else (applied, note_command m ch c)

unfoldable pub apply_on : Moment → RelayCommand → Controller → CommandResult × Controller
unfolding apply_channel_state evaluate_safety evaluate_interlock report
apply_on m cmd c =
    let ch = cmd.channel in
    let written = apply_channel_state m ch true (source_of cmd.source) c in
    if c.bank.safety_latched then (blocked, c) else elim (evaluate_safety m ch true c) [
      | inhibit_min_off ↦ (blocked, c)
      | inhibit_chatter ↦ (blocked, c)
      | _ ↦
          if evaluate_interlock m ch c
          then report m ch written
          else (blocked, record c { raised = (relay_interlock_violation, warning) ∷ c.raised })
    ]

unfoldable pub apply_off : Moment → RelayCommand → Controller → CommandResult × Controller
unfolding apply_channel_state evaluate_safety report
apply_off m cmd c =
    let ch = cmd.channel in
    elim (evaluate_safety m ch false c) [
      | inhibit_min_on ↦ (blocked, c)
      | _ ↦ report m ch (apply_channel_state m ch false (source_of cmd.source) c)
    ]

-- The pulse that is scheduled after the ON write, in place of one that is pending.
unfoldable pub schedule_pulse : Moment → RelayCommand → Controller → Controller
unfolding annotate
schedule_pulse m cmd c =
    let ch = cmd.channel in
    let noted = if (c.pulses ch).active then annotate m ch c else c in
    note_command m ch (record noted {
      pulses = put noted.pulses ch (record {
        active = true;
        off_at_ms = (m.now + cmd.pulse_duration_ms) % 2 ^ 32;
        transaction_id = cmd.transaction_id;
        generation = noted.safety_generation;
      });
    })

unfoldable pub apply_pulse : Moment → RelayCommand → Controller → CommandResult × Controller
unfolding apply_channel_state evaluate_safety evaluate_interlock schedule_pulse
apply_pulse m cmd c =
    let ch = cmd.channel in
    let shortest = (c.configs ch).min_on_time_sec in
    let written = apply_channel_state m ch true (source_of cmd.source) c in
    if cmd.pulse_duration_ms == 0 || ltb 60000 cmd.pulse_duration_ms
    then (rejected, c)
    else if c.bank.safety_latched
    then (blocked, c)
    else elim (evaluate_safety m ch true c) [
      | inhibit_min_off ↦ (blocked, c)
      | inhibit_chatter ↦ (blocked, c)
      | _ ↦
          if not (evaluate_interlock m ch c)
          then (blocked, c)
          else if ltb 0 shortest && ltb cmd.pulse_duration_ms (shortest * 1000 % 2 ^ 32)
          then (rejected, c)
          else if (written.channels ch).fault
          then (failed, written)
          else (applied, schedule_pulse m cmd written)
    ]

-- The gates that "on", "off", "pulse" and an unknown word share.
unfoldable pub apply_to_channel : Moment → RelayCommand → Controller → CommandResult × Controller
unfolding over_limit force_limit apply_on apply_off apply_pulse
apply_to_channel m cmd c =
    let ch = cmd.channel in
    let s = c.channels ch in
    if not (ltb ch channel_count)
    then (rejected, c)
    else if not (c.configs ch).enabled
    then (rejected, c)
    else if not (is_free s.lockout)
    then (blocked, c)
    else if cmd.desired_state && s.max_on_time_forced
    then (blocked, c)
    else if cmd.desired_state && over_limit m ch c
    then (blocked, force_limit m ch c)
    else elim cmd.verb [
      | on ↦ apply_on m cmd c
      | off ↦ apply_off m cmd c
      | pulse ↦ apply_pulse m cmd c
      | _ ↦ (rejected, c)
    ]

abbrev pub answer : Bool × Controller → CommandResult × Controller
answer (done, c) = (if done then applied else rejected, c)

unfoldable pub apply_command : Moment → RelayCommand → Controller → CommandResult × Controller
unfolding all_off_from acknowledge_safety_alarm clear_safety_lockout apply_to_channel
apply_command m cmd c =
    let (unknown, off_everywhere) = all_off_from m channel_count 0 c in
    if not c.driver_available then (failed, c) else elim cmd.verb [
      | all_off ↦ (if unknown == 0 then applied else failed, off_everywhere)
      | config ↦ (rejected, c)
      | acknowledge ↦ answer (acknowledge_safety_alarm m cmd.channel c)
      | clear ↦ answer (clear_safety_lockout m cmd.channel c)
      | _ ↦ apply_to_channel m cmd c
    ]

abbrev pub is_hold_safe : FailSafePolicy → Bool
is_hold_safe hold_safe = true
is_hold_safe _ = false

-- `setChannelConfig`; `guarded` is a production build without the flag that allows HOLD_SAFE.
unfoldable pub set_channel_config : Bool → ℕ → ChannelConfig → Controller → Bool × Controller
set_channel_config guarded ch g c =
    let lease = if ltb 86400 g.command_lease_sec then 86400 else g.command_lease_sec in
    if not (ltb ch channel_count)
    then (false, c)
    else if guarded && is_hold_safe g.comm_loss_policy
    then (false, c)
    else (true, record c { configs = put c.configs ch (record g { command_lease_sec = lease }) })
