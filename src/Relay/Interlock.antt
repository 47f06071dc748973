-- ===== src/Relay/Interlock.antt =====
-- `begin` of firmware/Services/RelayController.cpp: the state that a boot leaves, and the interlock
-- groups that it takes away again.
use pltsmonitoring_firmware.Prelude.{
  ℕ, ◌-◌, ◌<◌, Bool, true, false, Option, ◌≡◌, ◌⊎◌, inl, inr, Bool-cases, refl, arith,
}
use pltsmonitoring_firmware.Expander as Expander
use pltsmonitoring_firmware.Expander.{Bus, write_output}
use pltsmonitoring_firmware.Expander.Register.{is_on, none_on}
use pltsmonitoring_firmware.Expander.Latch.{IsHonest, IsCoherent}
use pltsmonitoring_firmware.Relay.{Controller, Moment, RelaySource}
use pltsmonitoring_firmware.Relay.Channel.{regroup, apply_channel_state, evaluate_interlock}
use pltsmonitoring_firmware.Relay.Lockout.{load_lockouts, is_free}
use pltsmonitoring_firmware.Relay.Boot.{StoredConfig, load_config, begin, is_locked}
use pltsmonitoring_firmware.Relay.Mirror.{IsTruthful, IsMirror}

booted_bank :
    (b : Bus) (address : ℕ) (x : Expander.Expander)
    → IsHonest b
    → IsCoherent x
    → let (present, y) = Expander.begin b address x in
      IsCoherent y × (present ≡ y.available) × (present ≡ true → y.port ≡ 0xFF)
unfolding Expander.begin write_output
booted_bank b address x h v = (ground arith, ground arith, ground arith)

module _ (m : Moment) (opens : Bool) (stored : Option StoredConfig) (c : Controller) where
  load_config_bank : (load_config stored c).bank ≡ c.bank
  unfolding load_config
  load_config_bank = ground arith

  loaded_bank : (load_lockouts opens (load_config stored c)).bank ≡ c.bank
  unfolding load_lockouts
  loaded_bank = ground (arith, load_config_bank)

  -- A boot leaves what is reported in accord with the chip, every channel reported off, and every channel
  -- off on the chip where the expander answers, whatever the configuration, the lockouts and the chip
  -- held before. The bus reports no success that did not reach the chip.
  pub begin-IsMirror :
      (d : ℕ)
      → IsTruthful m
      → IsCoherent c.bank
      → d < 8
      → let y = begin m opens stored c in
        IsMirror y
        × ((y.channels d).reported_state ≡ false)
        × ((y.bank.available ≡ false) ⊎ (is_on y.bank.port d ≡ false))
  unfolding begin load_lockouts
  begin-IsMirror d t v hd =
      let loaded = load_lockouts opens (load_config stored c) in
      let (coherent, present, off) =
        booted_bank m.barrier loaded.i2c_address loaded.bank t.bank_write (rw loaded_bank v) in
      (
        record {
          present = present;
          coherent = coherent;
          reported = λ a u ch hch. ground (arith, none_on ch hch);
        },
        ground arith,
        elim (Bool-cases (Expander.begin m.barrier loaded.i2c_address loaded.bank).0) [
          | inl answers ↦ inr (ground (arith, none_on d hd))
          | inr silent ↦ inl (ground arith)
        ],
      )

  -- A boot never releases a lockout: a channel whose lockout in NVS is TRIPPED or ACKNOWLEDGED has it
  -- after the boot, with the flag of the forced OFF set, so that no ON is accepted for it.
  pub begin_keeps_lockout :
      (ch : ℕ)
      → opens ≡ true
      → is_locked ((load_config stored c).nvs_lockout ch) ≡ true
      → let s = (begin m opens stored c).channels ch in
        (s.lockout ≡ (load_config stored c).nvs_lockout ch)
        × (s.max_on_time_forced ≡ true)
        × (is_free s.lockout ≡ false)
        × (s.reported_state ≡ false)
  unfolding begin load_lockouts
  begin_keeps_lockout ch o locked = ground arith

-- No interlock group is active.
pub IsInert : Controller → Type 0
IsInert c = (g : ℕ) → (c.groups g).active ≡ false

inert_allows : (m : Moment) (ch : ℕ) (c : Controller) → IsInert c → evaluate_interlock m ch c ≡ true
unfolding evaluate_interlock IsInert
inert_allows m ch c i = ground (arith, i ((c.configs ch).interlock_group - 1))

apply-IsInert :
    (m : Moment) (ch : ℕ) (to : Bool) (source : RelaySource) (c : Controller)
    → IsInert c
    → IsInert (apply_channel_state m ch to source c)
unfolding apply_channel_state regroup IsInert
apply-IsInert m ch to source c i g = ground (arith, i ((c.configs ch).interlock_group - 1), i g)

-- The interlock groups that `_loadConfig` has read are inactive after `begin`, whatever NVS holds: the
-- interlock then allows every channel, at any moment, also after any one write.
pub begin_drops_interlocks :
    (m : Moment) (opens : Bool) (stored : Option StoredConfig) (c : Controller) (later : Moment)
    (ch other : ℕ) (to : Bool) (source : RelaySource)
    → let y = begin m opens stored c in
      (evaluate_interlock later ch y ≡ true)
      × (evaluate_interlock later ch (apply_channel_state later other to source y) ≡ true)
unfolding begin IsInert
begin_drops_interlocks m opens stored c later ch other to source =
    let y = begin m opens stored c in
    (
      inert_allows later ch y (λ g. refl),
      inert_allows later ch (apply_channel_state later other to source y)
          (apply-IsInert later other to source y (λ g. refl)),
    )
