-- ===== src/Relay/Enforce.antt =====
-- The timers of the executor: `_checkMaxOnTime`, `_checkCommLossFailSafe`, `_processPulses` and
-- `setCommandAuthority` of firmware/Services/RelayController.cpp.
use pltsmonitoring_firmware.Prelude.{
  ℕ, zero, suc, ◌+◌, ◌-◌, ◌*◌, ◌/◌, ◌%◌, ◌^◌, ltb, leb, ◌==◌, if◌then◌else◌, Bool, true, false, not,
  ◌&&◌, ◌∷◌,
}
use pltsmonitoring_firmware.Alarms.{critical, warning}
use pltsmonitoring_firmware.Relay.{
  manual, comm_loss, force_off, hold_safe, relay_fault, Controller, Moment, put, channel_count,
}
use pltsmonitoring_firmware.Relay.Channel.{since, apply_channel_state, annotate, cancel_pulse}
use pltsmonitoring_firmware.Relay.Command.{over_limit, force_limit}

unfoldable pub check_max_on_time : Moment → ℕ → ℕ → Controller → Controller
unfolding over_limit force_limit
check_max_on_time m zero ch c = c
check_max_on_time m (suc n) ch c =
    let trips = over_limit m ch c && not (c.channels ch).max_on_time_forced in
    check_max_on_time m n (ch + 1) (if trips then force_limit m ch c else c)

-- The lease of a channel runs from the loss of the authority, or from a later command.
abbrev pub lease_base : ℕ → Controller → ℕ
lease_base ch c =
    let last = (c.channels ch).last_command_at_ms in
    if ltb c.authority_lost_since_ms last then last else c.authority_lost_since_ms

unfoldable pub force_comm_loss : Moment → ℕ → Controller → Controller
unfolding cancel_pulse apply_channel_state
force_comm_loss m ch c =
    let cancelled = if (c.pulses ch).active then cancel_pulse m ch c else c in
    let written = apply_channel_state m ch false comm_loss cancelled in
    record written {
      channels = put written.channels ch (record (written.channels ch) { comm_loss_forced = true });
      raised = (relay_fault, critical) ∷ written.raised;
    }

-- The policy of one channel while the authority is lost.
unfoldable pub check_lease : Moment → ℕ → Controller → Controller
unfolding force_comm_loss
check_lease m ch c =
    let s = c.channels ch in
    let g = c.configs ch in
    if not g.enabled
    then c
    else if not s.reported_state
    then c
    else if s.comm_loss_forced
    then c
    else elim g.comm_loss_policy [
      | force_off ↦
          if leb (g.command_lease_sec * 1000 % 2 ^ 32) (since m.now (lease_base ch c))
          then force_comm_loss m ch c
          else c
      | hold_safe ↦ if c.hold_safe_warned ch then c else record c {
        hold_safe_warned = put c.hold_safe_warned ch true;
        raised = (relay_fault, warning) ∷ c.raised;
      }
    ]

unfoldable pub check_leases : Moment → ℕ → ℕ → Controller → Controller
unfolding check_lease
check_leases m zero ch c = c
check_leases m (suc n) ch c = check_leases m n (ch + 1) (check_lease m ch c)

unfoldable pub check_comm_loss : Moment → Controller → Controller
unfolding check_leases
check_comm_loss m c =
    let begun = record c { authority_lost_since_ms = m.now; hold_safe_warned = λ ch. false } in
    let latched = if c.authority_lost_since_ms == 0 then begun else c in
    if c.authority_lost
    then check_leases m channel_count 0 latched
    else if c.authority_lost_since_ms == 0
    then c
    else record c { authority_lost_since_ms = 0; hold_safe_warned = λ ch. false }

unfoldable pub set_command_authority : Bool → Controller → Controller
set_command_authority healthy c = record c { authority_lost = not healthy }

-- `Core::deadlineReached` of firmware/Core/Common.h: the difference, read as a signed number, is not
-- negative.
unfoldable pub deadline_reached : ℕ → ℕ → Bool
deadline_reached now deadline = ltb ((now + 2 ^ 32 - deadline) % 2 ^ 32) (2 ^ 31)

-- A pulse whose deadline has come: it waits for the least ON time, or ends with an OFF.
unfoldable pub end_pulse : Moment → ℕ → Controller → Controller
unfolding apply_channel_state annotate
end_pulse m ch c =
    let s = c.channels ch in
    let shortest = (c.configs ch).min_on_time_sec in
    let p = c.pulses ch in
    let noted = annotate m ch (apply_channel_state m ch false manual c) in
    if ltb 0 shortest && ltb (since m.now s.on_since_ms / 1000) shortest
    then record c {
      pulses =
          put c.pulses ch
            (record p { off_at_ms = (s.on_since_ms + shortest * 1000 % 2 ^ 32) % 2 ^ 32 });
    }
    else record noted { pulses = put noted.pulses ch (record (noted.pulses ch) { active = false }) }

unfoldable pub process_pulses : Moment → ℕ → ℕ → Controller → Controller
unfolding deadline_reached end_pulse
process_pulses m zero ch c = c
process_pulses m (suc n) ch c =
    let p = c.pulses ch in
    process_pulses m n (ch + 1)
      (if p.active && deadline_reached m.now p.off_at_ms then end_pulse m ch c else c)
