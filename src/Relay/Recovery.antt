-- ===== src/Relay/Recovery.antt =====
-- The recovery of the bank in `tick` of firmware/Services/RelayController.cpp: what is reported follows
-- the whole bank.
use pltsmonitoring_firmware.Prelude.{
  ℕ, zero, suc, ◌+◌, ◌<◌, ◌≤◌, ◌==◌, true, false, ◌≡◌, inl, inr, refl, arith, Bool-cases,
}
use pltsmonitoring_firmware.Expander.{Expander, Bus, write_output, recover_with_all_off}
use pltsmonitoring_firmware.Expander.Register.{is_on, none_on}
use pltsmonitoring_firmware.Expander.Latch.{IsHonest, IsCoherent}
use pltsmonitoring_firmware.Relay.{Controller, Moment, put}
use pltsmonitoring_firmware.Relay.Channel.{annotate, cancel_pulse}
use pltsmonitoring_firmware.Relay.Tick.{settle_recovered, recover, recovered_channel}
use pltsmonitoring_firmware.Relay.Mirror.{
  IsTruthful, IsMirror, IsQuiet, IsQuiet-either, IsQuiet-refl,
}

pub cancel_keeps :
    (m : Moment) (ch : ℕ) (c : Controller)
    → ((cancel_pulse m ch c).bank ≡ c.bank)
      × ((cancel_pulse m ch c).channels ≡ c.channels)
      × ((cancel_pulse m ch c).safety_generation ≡ c.safety_generation)
      × ((cancel_pulse m ch c).driver_available ≡ c.driver_available)
unfolding cancel_pulse annotate
cancel_keeps m ch c = ground arith

-- From channel `ch` on, `n` channels are reported off, and the bank is as it was.
pub record Settles (n ch : ℕ) (c y : Controller) : Type 0 where
  pub bank : y.bank ≡ c.bank
  pub gen : y.safety_generation ≡ c.safety_generation
  pub driver : y.driver_available ≡ c.driver_available
  pub off : (d : ℕ) → ch ≤ d → d < ch + n → (y.channels d).reported_state ≡ false
  pub rest : (d : ℕ) → d < ch → (y.channels d).reported_state ≡ (c.channels d).reported_state

settle_recovered-Settles :
    (m : Moment) (n ch : ℕ) (c : Controller) → Settles n ch c (settle_recovered m n ch c)
unfolding settle_recovered
settle_recovered-Settles m zero ch c = record {
  bank = refl;
  gen = refl;
  driver = refl;
  off = λ d low high. absurd (omega arith);
  rest = λ d h. refl;
}
settle_recovered-Settles m (suc n) ch c =
    let off = record c { channels = put c.channels ch (recovered_channel m (c.channels ch)) } in
    let k = cancel_keeps m ch off in
    let r = settle_recovered-Settles m n (ch + 1) (cancel_pulse m ch off) in
    record {
      bank = ground arith;
      gen = ground arith;
      driver = ground arith;
      off = λ d low high. elim (Bool-cases (d == ch)) [
        | inl here ↦ let e = r.rest d (ground arith) in ground arith
        | inr later ↦ r.off d (ground arith) (omega arith)
      ];
      rest = λ d h. let e = r.rest d (omega arith) in ground arith;
    }

pub settled-IsQuiet :
    (c y z : Controller)
    → Settles 8 0 y z
    → IsCoherent y.bank
    → y.driver_available ≡ y.bank.available
    → y.bank.port ≡ 0xFF
    → (y.safety_generation ≡ c.safety_generation) × (y.driver_available ≡ c.driver_available)
    → IsQuiet c z
settled-IsQuiet c y z s v p off same = record {
  mirror = record {
    present = ground (arith, s.bank, s.driver);
    coherent = rw s.bank v;
    reported =
        λ a u d hd. ground (arith, s.bank, s.off d (omega arith) (omega arith), none_on d hd);
  };
  no_new = λ d hd on. absurd (ground (arith, s.bank, none_on d hd));
  same_generation = ground (arith, s.gen);
  same_driver = ground (arith, s.driver);
}

recovered_bank :
    (b : Bus) (x : Expander)
    → IsHonest b
    → IsCoherent x
    → x.shadow_unknown ≡ true
    → let (done, y) = recover_with_all_off b x in
      IsCoherent y
      × (y.available ≡ x.available)
      × ((d : ℕ) → d < 8 → is_on y.port d ≡ true → is_on x.port d ≡ true)
      × (done ≡ true → y.port ≡ 0xFF)
      × (done ≡ false → y.shadow_unknown ≡ true)
unfolding recover_with_all_off write_output
recovered_bank b x h v lost = (
  ground arith,
  ground arith,
  (λ d hd on. ground (arith, none_on d hd)),
  ground arith,
  ground arith,
)

-- The recovery switches nothing on, and what is reported follows it.
pub recover-IsQuiet :
    (m : Moment) (c : Controller) → IsTruthful m → IsMirror c → IsQuiet c (recover m c)
unfolding recover
recover-IsQuiet m c t v =
    let after = record c { bank = (recover_with_all_off m.barrier c.bank).1 } in
    IsQuiet-either c.bank.shadow_unknown c _ c
      (λ lost.
        let (coherent, avail, quiet, off, still) =
          recovered_bank m.barrier c.bank t.bank_write v.coherent lost in
        IsQuiet-either (recover_with_all_off m.barrier c.bank).0 c _ after
          (λ done.
            settled-IsQuiet c after (settle_recovered m 8 0 after)
              (settle_recovered-Settles m 8 0 after) coherent (ground (arith, v.present)) (off done)
              (refl, refl))
          (λ not_done. record {
            mirror = record {
              present = ground (arith, v.present);
              coherent = coherent;
              reported = λ a u d hd. ground (arith, still not_done);
            };
            no_new = quiet;
            same_generation = refl;
            same_driver = refl;
          }))
      (λ known. IsQuiet-refl c v)
