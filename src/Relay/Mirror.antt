-- ===== src/Relay/Mirror.antt =====
-- What firmware/Services/RelayController.cpp reports of a channel and what the chip has: the invariant
-- that ties them, and the writes that switch nothing on.
use pltsmonitoring_firmware.Prelude.{
  ℕ, ◌<◌, ◌==◌, if◌then◌else◌, Bool, true, false, not, ◌≡◌, ◌⊎◌, refl, arith,
}
use pltsmonitoring_firmware.Expander.{
  Expander, Bus, write_output, set_channel, set_channel_unlocked,
}
use pltsmonitoring_firmware.Expander.Register.{is_on, next_state-is_on}
use pltsmonitoring_firmware.Expander.Latch.{
  IsHonest, IsCoherent, step, sets, step-IsCoherent, set_channel_reports,
}
use pltsmonitoring_firmware.Relay.{RelaySource, Controller, Moment}
use pltsmonitoring_firmware.Relay.Channel.{apply_channel_state, annotate, cancel_pulse}

-- No transmission of this moment is reported as a success without having reached the chip.
pub record IsTruthful (m : Moment) : Type 0 where
  pub writes : (ch : ℕ) → IsHonest (m.bus ch)
  pub bank_write : IsHonest m.barrier

-- The controller and its driver agree on whether the expander is there, and while the shadow is known,
-- what is reported of each channel is the output of the chip.
pub record IsMirror (c : Controller) : Type 0 where
  pub present : c.driver_available ≡ c.bank.available
  pub coherent : IsCoherent c.bank
  pub reported :
      c.bank.available ≡ true
      → c.bank.shadow_unknown ≡ false
      → (d : ℕ) → d < 8
      → (c.channels d).reported_state ≡ is_on c.bank.port d

-- From `c` to `y` no relay is switched on, and neither the latch nor the generation changes.
pub record IsQuiet (c y : Controller) : Type 0 where
  pub mirror : IsMirror y
  pub no_new : (d : ℕ) → d < 8 → is_on y.bank.port d ≡ true → is_on c.bank.port d ≡ true
  pub same_generation : y.safety_generation ≡ c.safety_generation
  pub same_driver : y.driver_available ≡ c.driver_available

pub IsQuiet-refl : (c : Controller) → IsMirror c → IsQuiet c c
IsQuiet-refl c v = record {
  mirror = v;
  no_new = λ d hd on. on;
  same_generation = refl;
  same_driver = refl;
}

pub IsQuiet-trans : (c y z : Controller) → IsQuiet c y → IsQuiet y z → IsQuiet c z
IsQuiet-trans c y z p q = record {
  mirror = q.mirror;
  no_new = λ d hd on. p.no_new d hd (q.no_new d hd on);
  same_generation = ground arith;
  same_driver = ground arith;
}

-- A choice between two quiet ways on.
pub IsQuiet-either :
    (b : Bool) (c y z : Controller)
    → (b ≡ true → IsQuiet c y)
    → (b ≡ false → IsQuiet c z)
    → IsQuiet c (if b then y else z)
IsQuiet-either true c y z p q = p refl
IsQuiet-either false c y z p q = q refl

-- A write of one channel switches on that channel alone, and only when it is asked and not latched.
pub set_channel_adds :
    (b : Bus) (ch d : ℕ) (on : Bool) (x : Expander)
    → IsHonest b
    → IsCoherent x
    → d < 8
    → is_on (set_channel b ch on x).1.port d ≡ true
    → (is_on x.port d ≡ true) ⊎ ((ch ≡ d) × (on ≡ true) × (x.safety_latched ≡ false))
unfolding set_channel set_channel_unlocked write_output
set_channel_adds b ch d on x h v hd lit = ground (arith, next_state-is_on on x.output_state ch d)

pub set_channel-IsCoherent :
    (b : Bus) (ch : ℕ) (on : Bool) (x : Expander)
    → IsHonest b
    → IsCoherent x
    → IsCoherent (set_channel b ch on x).1
unfolding step
set_channel-IsCoherent b ch on x h v = step-IsCoherent b (sets ch on) x h v

set_channel_present :
    (b : Bus) (ch : ℕ) (on : Bool) (x : Expander)
    → (set_channel b ch on x).1.available ≡ x.available
unfolding set_channel set_channel_unlocked write_output
set_channel_present b ch on x = ground arith

set_channel_flags :
    (b : Bus) (ch : ℕ) (on : Bool) (x : Expander)
    → (set_channel b ch on x).1.shadow_unknown ≡ false
    → (set_channel b ch on x).1.available ≡ true
    → (x.available ≡ true) × (x.shadow_unknown ≡ false)
unfolding set_channel set_channel_unlocked write_output
set_channel_flags b ch on x u a = ground arith

module _ (m : Moment) (ch : ℕ) (on : Bool) (source : RelaySource) (c : Controller) where
  pub apply_bank :
      (apply_channel_state m ch on source c).bank ≡ (set_channel (m.bus ch) ch on c.bank).1
  unfolding apply_channel_state
  apply_bank = ground arith

  pub apply_generation :
      ((apply_channel_state m ch on source c).safety_generation ≡ c.safety_generation)
      × ((apply_channel_state m ch on source c).driver_available ≡ c.driver_available)
  unfolding apply_channel_state
  apply_generation = ground arith

  pub apply_reported :
      (d : ℕ)
      → ((apply_channel_state m ch on source c).channels d).reported_state ≡ (
          if d == ch
          then (if (set_channel (m.bus ch) ch on c.bank).0
              then on
              else (c.channels ch).reported_state)
          else (c.channels d).reported_state)
  unfolding apply_channel_state
  apply_reported d = ground arith

  pub apply_fault :
      ((apply_channel_state m ch on source c).channels ch).fault
      ≡ not (set_channel (m.bus ch) ch on c.bank).0
  unfolding apply_channel_state
  apply_fault = ground arith

  apply_mirrors :
      IsTruthful m
      → IsMirror c
      → (d : ℕ) → d < 8
      → (set_channel (m.bus ch) ch on c.bank).1.available ≡ true
      → (set_channel (m.bus ch) ch on c.bank).1.shadow_unknown ≡ false
      → ((apply_channel_state m ch on source c).channels d).reported_state
        ≡ is_on (apply_channel_state m ch on source c).bank.port d
  apply_mirrors t v d hd a u =
      let kept = set_channel_flags (m.bus ch) ch on c.bank u a in
      let before = v.reported kept.0 kept.1 d hd in
      ground (
        arith,
        apply_bank,
        apply_reported d,
        set_channel_reports (m.bus ch) ch d on c.bank (t.writes ch) v.coherent hd,
      )

  -- What is reported follows the chip through a write, successful or not.
  pub apply-IsMirror : IsTruthful m → IsMirror c → IsMirror (apply_channel_state m ch on source c)
  apply-IsMirror t v = record {
    present = ground (
      arith,
      apply_bank,
      apply_generation,
      set_channel_present (m.bus ch) ch on c.bank,
      v.present,
    );
    coherent =
        rw apply_bank (set_channel-IsCoherent (m.bus ch) ch on c.bank (t.writes ch) v.coherent);
    reported = λ a u d hd.
        apply_mirrors t v d hd (ground (arith, apply_bank)) (ground (arith, apply_bank));
  }

-- A change that leaves the bank and the reported states as they were.
pub same-IsQuiet :
    (c y : Controller)
    → IsMirror c
    → y.bank ≡ c.bank
    → ((d : ℕ) → (y.channels d).reported_state ≡ (c.channels d).reported_state)
    → (y.safety_generation ≡ c.safety_generation) × (y.driver_available ≡ c.driver_available)
    → IsQuiet c y
same-IsQuiet c y v bank reported same = record {
  mirror = record {
    present = ground (arith, v.present);
    coherent = rw bank v.coherent;
    reported =
        λ a u d hd. ground (arith, reported d, v.reported (ground arith) (ground arith) d hd);
  };
  no_new = λ d hd on. ground arith;
  same_generation = same.0;
  same_driver = same.1;
}

pub apply_off-IsQuiet :
    (m : Moment) (ch : ℕ) (source : RelaySource) (c : Controller)
    → IsTruthful m
    → IsMirror c
    → IsQuiet c (apply_channel_state m ch false source c)
apply_off-IsQuiet m ch source c t v = record {
  mirror = apply-IsMirror m ch false source c t v;
  no_new = λ d hd on. ground (
    arith,
    apply_bank m ch false source c,
    set_channel_adds (m.bus ch) ch d false c.bank (t.writes ch) v.coherent hd,
  );
  same_generation = (apply_generation m ch false source c).0;
  same_driver = (apply_generation m ch false source c).1;
}

annotate_keeps :
    (m : Moment) (ch : ℕ) (c : Controller)
    → ((annotate m ch c).bank ≡ c.bank)
      × ((annotate m ch c).channels ≡ c.channels)
      × ((annotate m ch c).safety_generation ≡ c.safety_generation)
      × ((annotate m ch c).driver_available ≡ c.driver_available)
unfolding annotate
annotate_keeps m ch c = ground arith

pub annotate-IsQuiet :
    (m : Moment) (ch : ℕ) (c : Controller) → IsMirror c → IsQuiet c (annotate m ch c)
annotate-IsQuiet m ch c v =
    let (bank, channels, gen, driver) = annotate_keeps m ch c in
    same-IsQuiet c (annotate m ch c) v bank (λ d. ground arith) (gen, driver)

pub cancel_pulse-IsQuiet :
    (m : Moment) (ch : ℕ) (c : Controller) → IsMirror c → IsQuiet c (cancel_pulse m ch c)
unfolding cancel_pulse
cancel_pulse-IsQuiet m ch c v =
    let (bank, channels, gen, driver) = annotate_keeps m ch c in
    same-IsQuiet c (cancel_pulse m ch c) v (ground arith) (λ d. ground arith) (ground arith)
