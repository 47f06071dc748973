-- ===== src/Relay/Tick.antt =====
-- `tick` of firmware/Services/RelayController.cpp, from its phases.
use pltsmonitoring_firmware.Prelude.{ℕ, zero, suc, ◌+◌, ◌%◌, ◌^◌, if◌then◌else◌, false, List}
use pltsmonitoring_firmware.Expander.{recover_with_all_off}
use pltsmonitoring_firmware.Journal.{Preferences, Env}
use pltsmonitoring_firmware.Relay.{
  software_only, ChannelState, TransactionRecord, Controller, Moment, put, channel_count,
}
use pltsmonitoring_firmware.Relay.Channel.{cancel_pulse}
use pltsmonitoring_firmware.Relay.Lockout.{release_armed}
use pltsmonitoring_firmware.Relay.Enforce.{check_max_on_time, check_comm_loss, process_pulses}
use pltsmonitoring_firmware.Relay.Queue.{Executor, process_command_queue}

-- A channel that was on, after the bank was recovered.
abbrev pub recovered_channel : Moment → ChannelState → ChannelState
recovered_channel m s =
    if s.reported_state
    then record s {
      reported_state = false;
      desired_state = false;
      state_sequence = (s.state_sequence + 1) % 2 ^ 32;
      last_changed_at_ms = m.now;
      on_since_ms = 0;
      confidence = software_only;
    }
    else s

unfoldable pub settle_recovered : Moment → ℕ → ℕ → Controller → Controller
unfolding cancel_pulse
settle_recovered m zero ch c = c
settle_recovered m (suc n) ch c =
    let off = record c { channels = put c.channels ch (recovered_channel m (c.channels ch)) } in
    settle_recovered m n (ch + 1) (cancel_pulse m ch off)

-- The recovery of a shadow that is unknown.
unfoldable pub recover : Moment → Controller → Controller
unfolding settle_recovered
recover m c =
    let (done, bank) = recover_with_all_off m.barrier c.bank in
    let after = record c { bank = bank } in
    if c.bank.shadow_unknown
    then (if done then settle_recovered m channel_count 0 after else after)
    else c

-- What the phases of one tick meet.
pub record TickEnv : Type 0 where
  pub recovery : Moment
  pub limits : Moment
  pub leases : Moment
  pub commands : ℕ → Moment × Env
  pub pulses : Moment
  pub lockouts : Moment

module _ (prefs : Preferences) (ack_text : TransactionRecord → ℕ → List ℕ) where
  open prefs use {Store}

  unfoldable pub tick : TickEnv → Executor Store → Executor Store
  unfolding recover check_max_on_time check_comm_loss process_command_queue process_pulses
      release_armed
  tick t x =
      let judged =
        check_comm_loss t.leases
          (check_max_on_time t.limits channel_count 0 (recover t.recovery x.controller)) in
      let served =
        process_command_queue prefs ack_text t.commands (record x { controller = judged }) in
      let pulsed = process_pulses t.pulses channel_count 0 served.controller in
      if x.controller.driver_available
      then record served { controller = release_armed t.lockouts channel_count 0 pulsed }
      else process_command_queue prefs ack_text t.commands x
