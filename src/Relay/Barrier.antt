-- ===== src/Relay/Barrier.antt =====
-- `emergencyAllOff` of firmware/Services/RelayController.cpp: its accounting follows the bank.
use pltsmonitoring_firmware.Prelude.{
  ℕ, zero, suc, ◌+◌, ◌%◌, ◌^◌, ◌<◌, ◌∷◌, ◌==◌, if◌then◌else◌, Bool, true, false, not, ◌≡◌, inl, inr,
  refl, arith, Bool-cases,
}
use pltsmonitoring_firmware.Alarms.{critical}
use pltsmonitoring_firmware.Expander.{
  Expander, Bus, write_output, force_safety_all_off, drive_all_off,
}
use pltsmonitoring_firmware.Expander.Register.{is_on, none_on}
use pltsmonitoring_firmware.Expander.Latch.{IsHonest, IsCoherent}
use pltsmonitoring_firmware.Relay.{relay_fault, Controller, Moment, put}
use pltsmonitoring_firmware.Relay.Channel.{cancel_pulse}
use pltsmonitoring_firmware.Relay.Boot.{settle_channels, emergency_all_off, emergency_channel}
use pltsmonitoring_firmware.Relay.Mirror.{IsTruthful, IsMirror}
use pltsmonitoring_firmware.Relay.Recovery.{cancel_keeps, Settles, settled-IsQuiet}

settle_channels-Settles :
    (m : Moment) (n ch : ℕ) (c : Controller) → Settles n ch c (settle_channels m true n ch c)
unfolding settle_channels
settle_channels-Settles m zero ch c = record {
  bank = refl;
  gen = refl;
  driver = refl;
  off = λ d low high. absurd (omega arith);
  rest = λ d h. refl;
}
settle_channels-Settles m (suc n) ch c =
    let k = cancel_keeps m ch c in
    let next = record (cancel_pulse m ch c) {
      channels =
          put (cancel_pulse m ch c).channels ch
            (emergency_channel m true ((cancel_pulse m ch c).channels ch));
    } in
    let r = settle_channels-Settles m n (ch + 1) next in
    record {
      bank = ground arith;
      gen = ground arith;
      driver = ground arith;
      off = λ d low high. elim (Bool-cases (d == ch)) [
        | inl here ↦ let e = r.rest d (ground arith) in ground arith
        | inr later ↦ r.off d (ground arith) (omega arith)
      ];
      rest = λ d h. let e = r.rest d (omega arith) in ground arith;
    }

settle_keeps :
    (m : Moment) (known : Bool) (n ch : ℕ) (c : Controller)
    → ((settle_channels m known n ch c).bank ≡ c.bank)
      × ((settle_channels m known n ch c).safety_generation ≡ c.safety_generation)
      × ((settle_channels m known n ch c).driver_available ≡ c.driver_available)
unfolding settle_channels
settle_keeps m known zero ch c = (refl, refl, refl)
settle_keeps m known (suc n) ch c =
    let k = cancel_keeps m ch c in
    let next = record (cancel_pulse m ch c) {
      channels =
          put (cancel_pulse m ch c).channels ch
            (emergency_channel m known ((cancel_pulse m ch c).channels ch));
    } in
    let r = settle_keeps m known n (ch + 1) next in ground arith

settle-IsMirror :
    (m : Moment) (known : Bool) (y : Controller)
    → IsCoherent y.bank
    → y.driver_available ≡ y.bank.available
    → (known ≡ true → y.bank.port ≡ 0xFF)
    → (known ≡ false → y.bank.shadow_unknown ≡ true)
    → IsMirror (settle_channels m known 8 0 y)
settle-IsMirror m true y v p off lost =
    (settled-IsQuiet y y (settle_channels m true 8 0 y) (settle_channels-Settles m 8 0 y) v p
      (off refl) (refl, refl)).mirror
settle-IsMirror m false y v p off lost =
    let (bank, _, driver) = settle_keeps m false 8 0 y in
    record {
      present = ground arith;
      coherent = rw bank v;
      reported = λ a u d hd. ground (arith, lost refl);
    }

-- What the barrier leaves of the bank.
barrier_bank :
    (b : Bus) (x : Expander)
    → IsHonest b
    → IsCoherent x
    → let y = force_safety_all_off b x in
      IsCoherent y
      × (y.available ≡ x.available)
      × (y.available ≡ true → y.shadow_unknown ≡ false → y.port ≡ 0xFF)
      × (x.available ≡ true → b.guard ≡ true → b.reached ≡ true → y.port ≡ 0xFF)
unfolding force_safety_all_off drive_all_off write_output
barrier_bank b x h v = (ground arith, ground arith, ground arith, ground arith)

IsMirror-either :
    (b : Bool) (y z : Controller)
    → (b ≡ true → IsMirror y)
    → (b ≡ false → IsMirror z)
    → IsMirror (if b then y else z)
IsMirror-either true y z p q = p refl
IsMirror-either false y z p q = q refl

same_either :
    (b : Bool) (y z w : Controller)
    → (y.bank ≡ w.bank) × (y.safety_generation ≡ w.safety_generation)
    → (z.bank ≡ w.bank) × (z.safety_generation ≡ w.safety_generation)
    → ((if b then y else z).bank ≡ w.bank)
      × ((if b then y else z).safety_generation ≡ w.safety_generation)
same_either true y z w p q = p
same_either false y z w p q = q

module _ (m : Moment) (c : Controller) where
  forced : Controller
  forced = record c {
    bank = force_safety_all_off m.barrier c.bank;
    safety_generation = (c.safety_generation + 1) % 2 ^ 32;
    raised = (relay_fault, critical) ∷ c.raised;
  }

  -- The accounting of an emergency follows the bank: afterwards what is reported of each channel is the
  -- output of the chip wherever the shadow is known, as it was before, whether the write to the bank
  -- worked, failed, or the expander is not there. The bus reports no success that did not reach the
  -- chip.
  pub emergency-IsMirror : IsTruthful m → IsMirror c → IsMirror (emergency_all_off m c)
  unfolding emergency_all_off forced
  emergency-IsMirror t v =
      let (coherent, avail, off, reached) = barrier_bank m.barrier c.bank t.bank_write v.coherent in
      let p = v.present in
      IsMirror-either c.driver_available
        (settle_channels m (not forced.bank.shadow_unknown) 8 0 forced) forced
        (λ there.
          settle-IsMirror m (not forced.bank.shadow_unknown) forced coherent (ground arith)
            (λ known. ground (arith, off)) (λ lost. ground arith))
        (λ absent. record {
          present = ground arith;
          coherent = coherent;
          reported = λ a u d hd. absurd (ground arith);
        })

  -- What the emergency leaves of the bank and of the generation.
  pub emergency_bank :
      ((emergency_all_off m c).bank ≡ force_safety_all_off m.barrier c.bank)
      × ((emergency_all_off m c).safety_generation ≡ (c.safety_generation + 1) % 2 ^ 32)
  unfolding emergency_all_off forced
  emergency_bank =
      let k = settle_keeps m (not forced.bank.shadow_unknown) 8 0 forced in
      same_either c.driver_available (settle_channels m (not forced.bank.shadow_unknown) 8 0 forced)
        forced forced (k.0, k.1) (refl, refl)

  -- A barrier that reaches the chip leaves every relay off.
  pub emergency_off :
      IsTruthful m
      → IsMirror c
      → c.driver_available ≡ true
      → m.barrier.guard ≡ true
      → m.barrier.reached ≡ true
      → (d : ℕ) → d < 8
      → is_on (emergency_all_off m c).bank.port d ≡ false
  emergency_off t v there guard reached d hd =
      let b = barrier_bank m.barrier c.bank t.bank_write v.coherent in
      ground (arith, emergency_bank, v.present, none_on d hd)
