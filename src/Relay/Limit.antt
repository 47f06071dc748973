-- ===== src/Relay/Limit.antt =====
-- The FORCE OFF of `_checkMaxOnTime` and of the lost authority of
-- firmware/Services/RelayController.cpp: every channel that is over its limit or its lease is off after
-- the pass, where the bus works.
use pltsmonitoring_firmware.Prelude.{
  ℕ, zero, suc, ◌+◌, ◌<◌, ◌≤◌, ◌==◌, true, false, ◌≡◌, ◌≢◌, inl, inr, refl, ◌∙◌, arith, Bool-cases,
}
use pltsmonitoring_firmware.Expander.{
  Bus, Expander, set_channel, set_channel_unlocked, write_output,
}
use pltsmonitoring_firmware.Expander.Register.{is_on, next_state-is_on}
use pltsmonitoring_firmware.Expander.Latch.{IsCoherent}
use pltsmonitoring_firmware.Relay.{Controller, Moment, tripped}
use pltsmonitoring_firmware.Relay.Channel.{apply_channel_state, annotate, cancel_pulse}
use pltsmonitoring_firmware.Relay.Lockout.{save_lockouts}
use pltsmonitoring_firmware.Relay.Command.{
  RelayCommand, applied, apply_to_channel, over_limit, force_limit,
}
use pltsmonitoring_firmware.Relay.Enforce.{check_max_on_time}
use pltsmonitoring_firmware.Relay.Mirror.{IsTruthful, IsMirror}
use pltsmonitoring_firmware.Relay.Quiet.{check_max_on_time-IsQuiet}

-- Every write of this moment gets the mutex and the bus, reaches the chip and is answered.
pub record IsWorking (m : Moment) : Type 0 where
  pub mutex : (ch : ℕ) → (m.bus ch).mutex ≡ true
  pub guard : (ch : ℕ) → (m.bus ch).guard ≡ true
  pub reached : (ch : ℕ) → (m.bus ch).reached ≡ true
  pub acked : (ch : ℕ) → (m.bus ch).acked ≡ true

-- The expander is there and its shadow is known.
pub record IsKnown (x : Expander) : Type 0 where
  pub present : x.available ≡ true
  pub known : x.shadow_unknown ≡ false

off_works :
    (b : Bus) (ch : ℕ) (x : Expander)
    → b.mutex ≡ true
    → b.guard ≡ true
    → b.reached ≡ true
    → b.acked ≡ true
    → IsCoherent x
    → IsKnown x
    → ch < 8
    → let (done, y) = set_channel b ch false x in
      (done ≡ true) × IsKnown y × (is_on y.port ch ≡ false)
unfolding set_channel set_channel_unlocked write_output
off_works b ch x mutex guard reached acked v k h =
    let n = next_state-is_on false x.output_state ch ch v.shadow_byte h h in ground arith

module _ (m : Moment) (ch : ℕ) (c : Controller) where
  pub cancel_channels :
      ((cancel_pulse m ch c).channels ≡ c.channels)
      × ((cancel_pulse m ch c).configs ≡ c.configs)
      × ((cancel_pulse m ch c).bank ≡ c.bank)
  unfolding cancel_pulse annotate
  cancel_channels = ground arith

  -- OFF is written, and the channel is tripped; other channels and the limits are as they were.
  pub force_limit_trips :
      let y = force_limit m ch c in
      ((y.channels ch).lockout ≡ tripped)
      × ((y.channels ch).max_on_time_forced ≡ true)
      × (y.configs ≡ c.configs)
      × (y.bank ≡ (set_channel (m.bus ch) ch false c.bank).1)
  unfolding force_limit save_lockouts apply_channel_state
  force_limit_trips = let k = cancel_channels in ground arith

  pub force_limit_keeps : (d : ℕ) → d ≢ ch → (force_limit m ch c).channels d ≡ c.channels d
  unfolding force_limit save_lockouts apply_channel_state
  force_limit_keeps d h = let k = cancel_channels in ground arith

  force_limit_off :
      IsWorking m
      → IsMirror c
      → IsKnown c.bank
      → ch < 8
      → IsKnown (force_limit m ch c).bank × (is_on (force_limit m ch c).bank.port ch ≡ false)
  force_limit_off w v k h =
      let (_, known, off) =
        off_works (m.bus ch) ch c.bank (w.mutex ch) (w.guard ch) (w.reached ch) (w.acked ch)
          v.coherent k h in
      let (_, _, _, bank) = force_limit_trips in rw bank (known, off)

-- The pass over one channel, and the channels it leaves alone.
limit_step : Moment → ℕ → Controller → Controller
limit_step m ch c = check_max_on_time m 1 ch c

limit_step_keeps :
    (m : Moment) (ch d : ℕ) (c : Controller)
    → d ≢ ch
    → ((limit_step m ch c).channels d ≡ c.channels d) × ((limit_step m ch c).configs ≡ c.configs)
unfolding limit_step check_max_on_time
limit_step_keeps m ch d c h =
    let k = force_limit_keeps m ch c d h in
    let (_, _, configs, _) = force_limit_trips m ch c in ground arith

limit_pass_keeps :
    (m : Moment) (n ch d : ℕ) (c : Controller)
    → d < ch
    → (check_max_on_time m n ch c).channels d ≡ c.channels d
unfolding limit_step check_max_on_time
limit_pass_keeps m zero ch d c h = refl
limit_pass_keeps m (suc n) ch d c h =
    limit_pass_keeps m n (ch + 1) d (limit_step m ch c) (omega arith)
    ∙ (limit_step_keeps m ch d c (λ e. omega arith)).0

-- A channel that the pass has dealt with.
record IsForcedOff (c : Controller) (d : ℕ) : Type 0 where
  dark : is_on c.bank.port d ≡ false
  locked : (c.channels d).lockout ≡ tripped
  forced : (c.channels d).max_on_time_forced ≡ true

module _ (m : Moment) (t : IsTruthful m) (w : IsWorking m) where
  limit_step-IsKnown :
      (ch : ℕ) (c : Controller)
      → IsMirror c
      → IsKnown c.bank
      → ch < 8
      → IsKnown (limit_step m ch c).bank
  unfolding limit_step check_max_on_time
  limit_step-IsKnown ch c v k h = let off = force_limit_off m ch c w v k h in ground arith

  limit_step_here :
      (ch : ℕ) (c : Controller)
      → IsMirror c
      → IsKnown c.bank
      → ch < 8
      → over_limit m ch c ≡ true
      → (c.channels ch).max_on_time_forced ≡ false
      → IsForcedOff (limit_step m ch c) ch
  unfolding limit_step check_max_on_time
  limit_step_here ch c v k h over unforced =
      let (_, dark) = force_limit_off m ch c w v k h in
      let (locked, forced, _, _) = force_limit_trips m ch c in
      let taken : limit_step m ch c ≡ force_limit m ch c = rw (over, unforced) refl in
      rw taken record { dark = dark; locked = locked; forced = forced }

  over_limit_same :
      (d : ℕ) (c y : Controller)
      → y.channels d ≡ c.channels d
      → y.configs ≡ c.configs
      → over_limit m d y ≡ over_limit m d c
  unfolding over_limit
  over_limit_same d c y channel configs = rw (channel, configs) refl

  limit_pass :
      (n ch d : ℕ) (c : Controller)
      → IsMirror c
      → IsKnown c.bank
      → ch + n ≤ 8
      → ch ≤ d
      → d < ch + n
      → over_limit m d c ≡ true
      → (c.channels d).max_on_time_forced ≡ false
      → IsForcedOff (check_max_on_time m n ch c) d
  unfolding check_max_on_time limit_step
  limit_pass zero ch d c v k h low high over unforced = absurd (omega arith)
  limit_pass (suc n) ch d c v k h low high over unforced =
      let next = limit_step m ch c in
      let q = check_max_on_time-IsQuiet m t 1 ch c v in
      let rest = check_max_on_time m n (ch + 1) next in
      let later = check_max_on_time-IsQuiet m t n (ch + 1) next q.mirror in
      elim (Bool-cases (d == ch)) [
        | inl here ↦
            let e : d ≡ ch = ground arith in
            let f = limit_step_here ch c v k (omega arith) (rw⁻¹ e over) (rw⁻¹ e unforced) in
            let kept = limit_pass_keeps m n (ch + 1) d next (omega arith) in
            record {
              dark = ground (arith, f.dark, later.no_new d (omega arith));
              locked = ground (arith, f.locked);
              forced = ground (arith, f.forced);
            }
        | inr there ↦
            let (channel, configs) = limit_step_keeps m ch d c (λ e. ground arith) in
            limit_pass n (ch + 1) d next q.mirror (limit_step-IsKnown ch c v k (omega arith))
              (omega arith) (ground arith) (omega arith)
              (over_limit_same d c next channel configs ∙ over) (ground arith)
      ]

  -- The limit of the ON time is enforced: where the bus works and the shadow is known, the pass over
  -- the eight channels leaves each channel that was ON for its limit or longer, and not forced yet, off
  -- on the chip, tripped, and closed to commands until it is acknowledged and cleared.
  pub limit_enforced :
      (d : ℕ) (c : Controller)
      → IsMirror c
      → IsKnown c.bank
      → d < 8
      → over_limit m d c ≡ true
      → (c.channels d).max_on_time_forced ≡ false
      → let y = check_max_on_time m 8 0 c in
        (is_on y.bank.port d ≡ false)
        × ((y.channels d).lockout ≡ tripped)
        × ((y.channels d).max_on_time_forced ≡ true)
        × ((cmd : RelayCommand)
            → cmd.channel ≡ d
            → (apply_to_channel m cmd y).0 ≢ applied × ((apply_to_channel m cmd y).1 ≡ y))
  unfolding apply_to_channel
  limit_enforced d c v k h over unforced =
      let f = limit_pass 8 0 d c v k (omega arith) (omega arith) (omega arith) over unforced in
      (f.dark, f.locked, f.forced, (λ cmd its. ((λ done. ground arith), ground arith)))
