-- ===== src/Energy/Keep.antt =====
-- The record of the counters in NVS (firmware/Services/EnergyCounters.cpp), written and read.
use pltsmonitoring_firmware.Prelude.{
  ℕ, Bool, true, false, Option, none, some, List, ◌≡◌, ◌⊎◌, inl, inr, refl, ◌∙◌, arith,
  Option-cases,
}
use pltsmonitoring_firmware.Crc.{crc32}
use pltsmonitoring_firmware.Soc.{Arithmetic}
use pltsmonitoring_firmware.Energy.{
  Six, zero_counters, derived, Block, Energy, SaveEnv, all_sane, any_refused, save_to_nvs,
  block_accepted, load_legacy, load_from_nvs, begin,
}

abbrev pub all_stored : Six Bool
all_stored = record {
  charge_ah = true;
  discharge_ah = true;
  charge_wh = true;
  discharge_wh = true;
  peak_charge_a = true;
  peak_discharge_a = true;
}

abbrev pub taken :
    (ar : Arithmetic) → (Six ar.fl.F → List ℕ) → ar.fl.F → Option (Block ar.fl.F) → Bool
taken ar layout cap none = false
taken ar layout cap (some b) = block_accepted ar layout cap b

module _ (ar : Arithmetic) (layout : Six ar.fl.F → List ℕ) (cap : ar.fl.F) where
  open ar use {fl}
  open fl use {F}

  saved_keys :
      (e : SaveEnv F) (s : Energy F)
      → e.keys ≡ all_stored
      → (save_to_nvs ar layout cap e s).0 ≡ true
      → (save_to_nvs ar layout cap e s).1.legacy ≡ s.counters.six
  unfolding save_to_nvs
  saved_keys e s stored saved = ground (arith, stored)

  save_keeps :
      (e : SaveEnv F) (s : Energy F) → (save_to_nvs ar layout cap e s).1.counters ≡ s.counters
  unfolding save_to_nvs
  save_keeps e s = ground arith

  -- The fields after `begin` has cleared them.
  booted : Energy F → Energy F
  booted s = record s {
    counters = zero_counters ar;
    last_ms = 0;
    last_dt_ms = 0;
    last_integration_ms = 0;
    last_voltage = fl.tenths 0;
    last_current = fl.tenths 0;
    integrating = false;
  }

  legacy_restores :
      (e : SaveEnv F) (z : Energy F)
      → all_sane ar z.legacy ≡ true
      → (load_legacy ar layout cap e z).counters.six ≡ z.legacy
  unfolding load_legacy
  legacy_restores e z good =
      let loaded = record z { counters = derived ar cap z.legacy } in
      let k = save_keeps e (record loaded { legacy_used = true }) in ground arith

  load_restores :
      (e : SaveEnv F) (z : Energy F)
      → all_sane ar z.legacy ≡ true
      → taken ar layout cap z.block ≡ false
      → (load_from_nvs ar layout cap true e z).counters.six ≡ z.legacy
  unfolding load_from_nvs
  load_restores e z good refused = elim (Option-cases z.block) [
    | inl absent ↦ let k = legacy_restores e z good in ground arith
    | inr (b, there) ↦ let k = legacy_restores e z good in ground arith
  ]

  load_whole :
      (e : SaveEnv F) (z : Energy F) (b : Block F)
      → z.block ≡ some b
      → block_accepted ar layout cap b ≡ true
      → (load_from_nvs ar layout cap true e z).counters.six ≡ b.vals
  unfolding load_from_nvs
  load_whole e z b there good = rw (there, good) refl

  saved_block :
      (e : SaveEnv F) (s : Energy F)
      → (save_to_nvs ar layout cap e s).0 ≡ true
      → any_refused ar s.counters.six ≡ false
      → (b : Block F) × ((save_to_nvs ar layout cap e s).1.block ≡ some b)
        × (block_accepted ar layout cap b ≡ true)
        × (b.vals ≡ s.counters.six)
  unfolding save_to_nvs
  saved_block e s saved fine =
      let x = s.counters.six in
      let b : Block F = record { marked = true; vals = x; crc = crc32 (layout x) 0xFFFFFFFF } in
      (b, ground arith, ground arith, refl)

  -- What `saveToNVS` has written with success, a boot restores where the block is as it was written,
  -- whatever has become of the six older keys; and where the block is lost or refused since (a wrong
  -- mark, a CRC that does not match) the older keys give the same six values, provided that each of
  -- them was stored, which the success does not say. The values are finite and not negative.
  pub begin-save_to_nvs :
      (e e' : SaveEnv F) (s : Energy F) (found : Option (Block F))
      → (save_to_nvs ar layout cap e s).0 ≡ true
      → all_sane ar s.counters.six ≡ true
      → (found ≡ (save_to_nvs ar layout cap e s).1.block)
        ⊎ ((taken ar layout cap found ≡ false) × (e.keys ≡ all_stored))
      → any_refused ar s.counters.six ≡ false
      → (begin ar layout cap true e'
          (record ((save_to_nvs ar layout cap e s).1) { block = found })).counters.six
        ≡ s.counters.six
  unfolding begin booted
  begin-save_to_nvs e e' s found saved good state fine =
      let z = booted (record ((save_to_nvs ar layout cap e s).1) { block = found }) in
      elim state [
        | inr (lost, stored) ↦
            let keys = saved_keys e s stored saved in load_restores e' z (rw keys good) lost ∙ keys
        | inl kept ↦
            let (b, there, accepted, vals) = saved_block e s saved fine in
            load_whole e' z b (kept ∙ there) accepted ∙ vals
      ]
