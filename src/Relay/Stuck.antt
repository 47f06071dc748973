-- ===== src/Relay/Stuck.antt =====
-- A FORCE OFF of firmware/Services/RelayController.cpp whose write does not get the mutex of the driver
-- in time.
use pltsmonitoring_firmware.Prelude.{ℕ, Bool, true, false, ◌≡◌, ◌∙◌, refl, arith}
use pltsmonitoring_firmware.Expander.{Bus, Expander, set_channel}
use pltsmonitoring_firmware.Relay.{Controller, Moment, tripped}
use pltsmonitoring_firmware.Relay.Command.{
  RelayCommand, off, over_limit, force_limit, apply_to_channel, apply_command,
}
use pltsmonitoring_firmware.Relay.Enforce.{check_max_on_time}
use pltsmonitoring_firmware.Relay.Limit.{force_limit_trips}

no_mutex :
    (b : Bus) (ch : ℕ) (to : Bool) (x : Expander) → b.mutex ≡ false → (set_channel b ch to x).1 ≡ x
unfolding set_channel
no_mutex b ch to x h = ground arith

not_again :
    (m : Moment) (ch : ℕ) (y : Controller)
    → (y.channels ch).max_on_time_forced ≡ true
    → check_max_on_time m 1 ch y ≡ y
unfolding check_max_on_time
not_again m ch y forced = ground arith

off_refused :
    (m : Moment) (cmd : RelayCommand) (y : Controller)
    → cmd.verb ≡ off
    → (y.channels cmd.channel).lockout ≡ tripped
    → (apply_command m cmd y).1 ≡ y
unfolding apply_command apply_to_channel
off_refused m cmd y w locked = ground arith

-- A forced OFF that times out on the mutex of the driver is not tried again: the relay stays as it was,
-- the channel counts as tripped and forced, the next pass over it does nothing at any later moment, and
-- the operator's own "off" for the channel is refused.
pub forced_write_not_retried :
    (m later : Moment) (cmd : RelayCommand) (c : Controller)
    → (m.bus cmd.channel).mutex ≡ false
    → over_limit m cmd.channel c ≡ true
    → (c.channels cmd.channel).max_on_time_forced ≡ false
    → cmd.verb ≡ off
    → let y = check_max_on_time m 1 cmd.channel c in
      (y.bank ≡ c.bank)
      × ((y.channels cmd.channel).lockout ≡ tripped)
      × (check_max_on_time later 1 cmd.channel y ≡ y)
      × ((apply_command later cmd y).1 ≡ y)
unfolding check_max_on_time
forced_write_not_retried m later cmd c h over unforced w =
    let (locked, forced, _, bank) = force_limit_trips m cmd.channel c in
    let same = no_mutex (m.bus cmd.channel) cmd.channel false c.bank h in
    let y = force_limit m cmd.channel c in
    let taken : check_max_on_time m 1 cmd.channel c ≡ y = rw (over, unforced) refl in
    rw taken
      (bank ∙ same, locked, not_again later cmd.channel y forced, off_refused later cmd y w locked)
