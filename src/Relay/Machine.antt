-- ===== src/Relay/Machine.antt =====
-- The lockout of a channel as a state machine: what the operations of
-- firmware/Services/RelayController.cpp do to it, against the cycle NORMAL, TRIPPED, ACKNOWLEDGED, ARMED.
use pltsmonitoring_firmware.Prelude.{
  ℕ, zero, suc, ◌+◌, ◌==◌, Bool, true, false, ◌≡◌, ◌⊎◌, inl, inr, refl, ◌∙◌, ap, sym, arith,
  Bool-cases,
}
use pltsmonitoring_firmware.Relay.{
  LockoutState, normal, tripped, acknowledged, cleared, armed, Controller, Moment, RelaySource,
  manual, channel_count,
}
use pltsmonitoring_firmware.Relay.Channel.{apply_channel_state, annotate, cancel_pulse}
use pltsmonitoring_firmware.Relay.Lockout.{
  is_free, is_tripped, is_acknowledged, save_lockouts, acknowledge_safety_alarm,
  clear_safety_lockout,
}
use pltsmonitoring_firmware.Relay.Command.{
  RelayCommand, acknowledge, clear, source_of, note_command, apply_command, all_off_from,
  over_limit, force_limit, report, apply_on, apply_off, apply_pulse, schedule_pulse,
  apply_to_channel,
}
use pltsmonitoring_firmware.Relay.Limit.{cancel_channels, force_limit_trips, force_limit_keeps}

-- What one command does to the lockout of channel `d`, from `s` to `t`: the operator's acknowledge and
-- clear are commands for that channel, and the limit trips a free channel that is over its limit (`over`)
-- and that a command asks to be on.
pub data LockoutMove (cmd : RelayCommand) (d : ℕ) (over : Bool) (s t : LockoutState) : Type 0 where
  stays : t ≡ s → LockoutMove cmd d over s t
  acknowledges :
      cmd.channel ≡ d
      → cmd.verb ≡ acknowledge
      → s ≡ tripped
      → t ≡ acknowledged
      → LockoutMove cmd d over s t
  clears :
      cmd.channel ≡ d → cmd.verb ≡ clear → s ≡ acknowledged → t ≡ armed → LockoutMove cmd d over s t
  trips :
      cmd.channel ≡ d
      → cmd.desired_state ≡ true
      → over ≡ true
      → is_free s ≡ true
      → t ≡ tripped
      → LockoutMove cmd d over s t

is_tripped_eq : (s : LockoutState) → is_tripped s ≡ true → s ≡ tripped
is_tripped_eq normal h = absurd (ground arith)
is_tripped_eq tripped h = refl
is_tripped_eq acknowledged h = absurd (ground arith)
is_tripped_eq cleared h = absurd (ground arith)
is_tripped_eq armed h = absurd (ground arith)

is_acknowledged_eq : (s : LockoutState) → is_acknowledged s ≡ true → s ≡ acknowledged
is_acknowledged_eq normal h = absurd (ground arith)
is_acknowledged_eq tripped h = absurd (ground arith)
is_acknowledged_eq acknowledged h = refl
is_acknowledged_eq cleared h = absurd (ground arith)
is_acknowledged_eq armed h = absurd (ground arith)

-- The lockouts are as they were.
abbrev Keeps : Controller → Controller → Type 0
Keeps c y = (d : ℕ) → (y.channels d).lockout ≡ (c.channels d).lockout

module _ (m : Moment) where
  apply-Keeps :
      (ch : ℕ) (to : Bool) (source : RelaySource) (c : Controller)
      → Keeps c (apply_channel_state m ch to source c)
  unfolding apply_channel_state
  apply-Keeps ch to source c d = ground arith

  cancel-Keeps : (ch : ℕ) (c : Controller) → Keeps c (cancel_pulse m ch c)
  cancel-Keeps ch c d = let (channels, _, _) = cancel_channels m ch c in ground arith

  all_off_from-Keeps : (n ch : ℕ) (c : Controller) → Keeps c (all_off_from m n ch c).1
  unfolding all_off_from
  all_off_from-Keeps zero ch c d = refl
  all_off_from-Keeps (suc n) ch c d =
      let off = cancel_pulse m ch c in
      let written = apply_channel_state m ch false manual off in
      all_off_from-Keeps n (ch + 1) (note_command m ch written) d
      ∙ ground (arith, apply-Keeps ch false manual off d, cancel-Keeps ch c d)

  report-Keeps : (ch : ℕ) (c : Controller) → Keeps c (report m ch c).1
  unfolding report
  report-Keeps ch c d = ground arith

  annotate_channels : (ch : ℕ) (c : Controller) → (annotate m ch c).channels ≡ c.channels
  unfolding annotate
  annotate_channels ch c = ground arith

  schedule-Keeps : (cmd : RelayCommand) (c : Controller) → Keeps c (schedule_pulse m cmd c)
  unfolding schedule_pulse
  schedule-Keeps cmd c d = let k = annotate_channels cmd.channel c in ground arith

module _ (m : Moment) (cmd : RelayCommand) (c : Controller) where
  apply_on-Keeps : Keeps c (apply_on m cmd c).1
  unfolding apply_on
  apply_on-Keeps d =
      let written = apply_channel_state m cmd.channel true (source_of cmd.source) c in
      ground (
        arith,
        apply-Keeps m cmd.channel true (source_of cmd.source) c d,
        report-Keeps m cmd.channel written d,
      )

  apply_off-Keeps : Keeps c (apply_off m cmd c).1
  unfolding apply_off
  apply_off-Keeps d =
      let written = apply_channel_state m cmd.channel false (source_of cmd.source) c in
      ground (
        arith,
        apply-Keeps m cmd.channel false (source_of cmd.source) c d,
        report-Keeps m cmd.channel written d,
      )

  apply_pulse-Keeps : Keeps c (apply_pulse m cmd c).1
  unfolding apply_pulse
  apply_pulse-Keeps d =
      let written = apply_channel_state m cmd.channel true (source_of cmd.source) c in
      ground (
        arith,
        apply-Keeps m cmd.channel true (source_of cmd.source) c d,
        schedule-Keeps m cmd written d,
      )

  -- What the two operator commands do to one channel.
  acknowledged_lockout :
      (d : ℕ)
      → let t = ((acknowledge_safety_alarm m cmd.channel c).1.channels d).lockout in
        (t ≡ (c.channels d).lockout)
        ⊎ ((cmd.channel ≡ d) × (is_tripped (c.channels d).lockout ≡ true) × (t ≡ acknowledged))
  unfolding acknowledge_safety_alarm save_lockouts
  acknowledged_lockout d = ground arith

  cleared_lockout :
      (d : ℕ)
      → let t = ((clear_safety_lockout m cmd.channel c).1.channels d).lockout in
        (t ≡ (c.channels d).lockout)
        ⊎ ((cmd.channel ≡ d) × (is_acknowledged (c.channels d).lockout ≡ true) × (t ≡ armed))
  unfolding clear_safety_lockout save_lockouts
  cleared_lockout d = ground arith

  -- The state that on, off, pulse or an unknown word leaves.
  to_channel_ends :
      let y = (apply_to_channel m cmd c).1 in
      (y ≡ c)
      ⊎ ((y ≡ force_limit m cmd.channel c)
          × (cmd.desired_state ≡ true)
          × (over_limit m cmd.channel c ≡ true)
          × (is_free (c.channels cmd.channel).lockout ≡ true))
      ⊎ (y ≡ (apply_on m cmd c).1)
      ⊎ (y ≡ (apply_off m cmd c).1)
      ⊎ (y ≡ (apply_pulse m cmd c).1)
  unfolding apply_to_channel
  to_channel_ends = ground arith

  -- The state that a command leaves.
  command_ends :
      let y = (apply_command m cmd c).1 in
      (y ≡ c)
      ⊎ (y ≡ (all_off_from m channel_count 0 c).1)
      ⊎ ((y ≡ (acknowledge_safety_alarm m cmd.channel c).1) × (cmd.verb ≡ acknowledge))
      ⊎ ((y ≡ (clear_safety_lockout m cmd.channel c).1) × (cmd.verb ≡ clear))
      ⊎ (y ≡ (apply_to_channel m cmd c).1)
  unfolding apply_command
  command_ends = ground arith

  forced_move :
      (d : ℕ)
      → cmd.desired_state ≡ true
      → over_limit m cmd.channel c ≡ true
      → is_free (c.channels cmd.channel).lockout ≡ true
      → LockoutMove cmd d
          (over_limit m d c)
          (c.channels d).lockout
          ((force_limit m cmd.channel c).channels d).lockout
  forced_move d wants over free = elim (Bool-cases (d == cmd.channel)) [
    | inl here ↦
        let e : d ≡ cmd.channel = ground arith in
        let (locked, _, _, _) = force_limit_trips m cmd.channel c in
        trips (sym e) wants (rw e over) (rw e free) (rw e locked)
    | inr there ↦
        stays (ap (λ s. s.lockout) (force_limit_keeps m cmd.channel c d (λ e. ground arith)))
  ]

  channel_move :
      (d : ℕ)
      → LockoutMove cmd d
          (over_limit m d c)
          (c.channels d).lockout
          ((apply_to_channel m cmd c).1.channels d).lockout
  channel_move d = elim to_channel_ends [
    | inl e ↦ stays (rw e refl)
    | inr (inl (e, wants, over, free)) ↦ rw e (forced_move d wants over free)
    | inr (inr (inl e)) ↦ stays (rw e (apply_on-Keeps d))
    | inr (inr (inr (inl e))) ↦ stays (rw e (apply_off-Keeps d))
    | inr (inr (inr (inr e))) ↦ stays (rw e (apply_pulse-Keeps d))
  ]

  -- `applyCommand` moves the lockout of each channel only along the machine: TRIPPED to ACKNOWLEDGED by
  -- an acknowledge for that channel, ACKNOWLEDGED to ARMED by a clear for it, a free channel to TRIPPED
  -- by a command that asks for it to be on, and only when it has been on for its limit or longer at that
  -- moment (`over_limit`); otherwise it stays. So no command frees a tripped channel in one step.
  pub apply_command-LockoutMove :
      (d : ℕ)
      → LockoutMove cmd d
          (over_limit m d c)
          (c.channels d).lockout
          ((apply_command m cmd c).1.channels d).lockout
  apply_command-LockoutMove d = elim command_ends [
    | inl e ↦ stays (rw e refl)
    | inr (inl e) ↦ stays (rw e (all_off_from-Keeps m channel_count 0 c d))
    | inr (inr (inl (e, w))) ↦ rw e (elim (acknowledged_lockout d) [
      | inl same ↦ stays same
      | inr (its, t, u) ↦ acknowledges its w (is_tripped_eq _ t) u
    ])
    | inr (inr (inr (inl (e, w)))) ↦ rw e (elim (cleared_lockout d) [
      | inl same ↦ stays same
      | inr (its, t, u) ↦ clears its w (is_acknowledged_eq _ t) u
    ])
    | inr (inr (inr (inr e))) ↦ rw e (channel_move d)
  ]
