-- ===== src/Energy.antt =====
-- firmware/Services/EnergyCounters.{h,cpp}: the counters of charge and energy and their record in NVS,
-- which is one block under a CRC beside six keys of an older format. `float` and the memory layout of
-- the six values are parameters. The logger is left out.
pub mod Count
pub mod Keep
mod Examples
use pltsmonitoring_firmware.Prelude.{
  ℕ, ◌+◌, ◌%◌, ◌^◌, ltb, ◌==◌, if◌then◌else◌, Bool, true, false, not, ◌&&◌, ◌||◌, Option, none,
  some, List,
}
use pltsmonitoring_firmware.Crc.{crc32}
use pltsmonitoring_firmware.Measure.{Quality, is_valid}
use pltsmonitoring_firmware.Soc.{Arithmetic, elapsed}
use pltsmonitoring_firmware.Soc.Tick.{energy_max_dt_ms}

-- The six values that are stored.
pub record Six (F : Type 0) : Type 0 where
  pub charge_ah : F
  pub discharge_ah : F
  pub charge_wh : F
  pub discharge_wh : F
  pub peak_charge_a : F
  pub peak_discharge_a : F

-- `EnergyCounters`.
pub record EnergyCounters (F : Type 0) : Type 0 where
  pub six : Six F
  pub net_ah : F
  pub net_wh : F
  pub efc : F

-- The block: whether its magic and version are right, the values, and the CRC stored with them.
pub record Block (F : Type 0) : Type 0 where
  pub marked : Bool
  pub vals : Six F
  pub crc : ℕ

-- The fields of `EnergyCounterService`, with the block in NVS (`none`: absent or of another size), the
-- values under the older keys, and whether any of the four keys asked for is there.
pub record Energy (F : Type 0) : Type 0 where
  pub counters : EnergyCounters F
  pub last_ms : ℕ
  pub last_dt_ms : ℕ
  pub last_integration_ms : ℕ
  pub last_voltage : F
  pub last_current : F
  pub integrating : Bool
  pub persist_failures : ℕ
  pub legacy_used : Bool
  pub block : Option (Block F)
  pub legacy : Six F
  pub legacy_there : Bool

-- The six keys after the writes: a key that is not stored holds what it held.
abbrev pub put_six : {F : Type 0} → Six Bool → Six F → Six F → Six F
put_six k x old = record {
  charge_ah = if k.charge_ah then x.charge_ah else old.charge_ah;
  discharge_ah = if k.discharge_ah then x.discharge_ah else old.discharge_ah;
  charge_wh = if k.charge_wh then x.charge_wh else old.charge_wh;
  discharge_wh = if k.discharge_wh then x.discharge_wh else old.discharge_wh;
  peak_charge_a = if k.peak_charge_a then x.peak_charge_a else old.peak_charge_a;
  peak_discharge_a = if k.peak_discharge_a then x.peak_discharge_a else old.peak_discharge_a;
}

-- One of the four keys whose presence the load asks for is stored.
abbrev pub any_of_four : Six Bool → Bool
any_of_four k = k.charge_ah || (k.discharge_ah || (k.charge_wh || k.discharge_wh))

-- What a save meets: whether the namespace opens, which of the six older keys are stored (their results
-- are ignored), whether the block is written whole, whether it reads
-- back as written, and what NVS holds of the block where it is not.
pub record SaveEnv (F : Type 0) : Type 0 where
  pub opens : Bool
  pub keys : Six Bool
  pub whole : Bool
  pub same : Bool
  pub left : Option (Block F)

module _ (ar : Arithmetic) where
  open ar use {fl, mul, div, neg, of_u32}
  open fl use {F, lt, le, add, sub, tenths}

  abbrev pub zero_six : Six F
  zero_six = record {
    charge_ah = tenths 0;
    discharge_ah = tenths 0;
    charge_wh = tenths 0;
    discharge_wh = tenths 0;
    peak_charge_a = tenths 0;
    peak_discharge_a = tenths 0;
  }

  abbrev pub zero_counters : EnergyCounters F
  zero_counters = record { six = zero_six; net_ah = tenths 0; net_wh = tenths 0; efc = tenths 0 }

  -- `cap` is the capacity that the cycles are counted by.
  abbrev pub capacity_or : F → F → F
  capacity_or capacity default = if lt (tenths 0) capacity then capacity else default

  -- The counters that follow from the six values after a load.
  abbrev pub derived : F → Six F → EnergyCounters F
  derived cap x = record {
    six = x;
    net_ah = sub x.charge_ah x.discharge_ah;
    net_wh = sub x.charge_wh x.discharge_wh;
    efc = if lt (tenths 0) cap then div x.discharge_ah cap else tenths 0;
  }

  -- The six values after `dt` milliseconds; a peak moves with the last current.
  unfoldable pub counted : F → F → F → F → ℕ → Six F → Six F
  counted v i last_v last_i dt x =
      let hours = div (of_u32 dt) (tenths 36000000) in
      let average_i = mul (add i last_i) (tenths 5) in
      let average_v = mul (add v last_v) (tenths 5) in
      let d_ah = mul average_i hours in
      let d_wh = mul (mul average_v average_i) hours in
      let moved =
        if le (tenths 0) d_ah
        then record x { charge_ah = add x.charge_ah d_ah; charge_wh = add x.charge_wh d_wh }
        else record x {
          discharge_ah = add x.discharge_ah (neg d_ah);
          discharge_wh = add x.discharge_wh (neg d_wh);
        } in
      record moved {
        peak_charge_a = if lt x.peak_charge_a i then i else x.peak_charge_a;
        peak_discharge_a = if lt x.peak_discharge_a (neg i) then neg i else x.peak_discharge_a;
      }

  unfoldable pub tick : F → F → F → Quality → Quality → ℕ → Energy F → Bool × Energy F
  unfolding counted
  tick cap v i vq iq now s =
      let stopped = record s { integrating = false } in
      let marked = record stopped { last_ms = now; last_voltage = v; last_current = i } in
      let dt = elapsed now s.last_ms in
      let x = counted v i s.last_voltage s.last_current dt s.counters.six in
      if not (is_valid vq) || not (is_valid iq)
      then (false, marked)
      else if not (fl.is_finite v) || not (fl.is_finite i)
      then (
        false,
        record stopped { last_ms = now; last_voltage = tenths 0; last_current = tenths 0 },
      )
      else if s.last_ms == 0
      then (false, marked)
      else if dt == 0 || ltb energy_max_dt_ms dt
      then (false, record marked { last_dt_ms = dt })
      else (
        true,
        record marked {
          counters = record {
            six = x;
            net_ah = sub x.charge_ah x.discharge_ah;
            net_wh = sub x.charge_wh x.discharge_wh;
            efc = div x.discharge_ah cap;
          };
          last_dt_ms = dt;
          last_integration_ms = now;
          integrating = true;
        },
      )

  abbrev pub sane : F → Bool
  sane v = fl.is_finite v && le (tenths 0) v

  -- A value of the block that is refused is not finite or negative.
  abbrev pub refused : F → Bool
  refused v = not (fl.is_finite v) || lt v (tenths 0)

  abbrev pub all_sane : Six F → Bool
  all_sane x =
      sane x.charge_ah
      && (sane x.discharge_ah
          && (sane x.charge_wh
              && (sane x.discharge_wh && (sane x.peak_charge_a && sane x.peak_discharge_a))))

  abbrev pub any_refused : Six F → Bool
  any_refused x =
      refused x.charge_ah
      || (refused x.discharge_ah
          || (refused x.charge_wh
              || (refused x.discharge_wh
                  || (refused x.peak_charge_a || refused x.peak_discharge_a))))

  module _ (layout : Six F → List ℕ) (cap : F) where
    -- The older keys are written first, each whether or not another is stored, and whatever becomes of
    -- the block.
    unfoldable pub save_to_nvs : SaveEnv F → Energy F → Bool × Energy F
    save_to_nvs e s =
        let x = s.counters.six in
        let failures = (s.persist_failures + 1) % 2 ^ 32 in
        let keyed = record s {
          legacy = put_six e.keys x s.legacy;
          legacy_there = s.legacy_there || any_of_four e.keys;
        } in
        let written : Block F = record {
          marked = true;
          vals = x;
          crc = crc32 (layout x) 0xFFFFFFFF;
        } in
        if not e.opens
        then (false, record s { persist_failures = failures })
        else if not e.whole || not e.same
        then (false, record keyed { block = e.left; persist_failures = failures })
        else (true, record keyed { block = some written })

    -- Whether the block is taken.
    abbrev pub block_accepted : Block F → Bool
    block_accepted b =
        b.marked && (crc32 (layout b.vals) 0xFFFFFFFF == b.crc && not (any_refused b.vals))

    -- The older keys, which are rewritten as a block at once where there are any.
    unfoldable pub load_legacy : SaveEnv F → Energy F → Energy F
    unfolding save_to_nvs
    load_legacy e s =
        let x = if all_sane s.legacy then s.legacy else zero_six in
        let loaded = record s { counters = derived cap x } in
        if s.legacy_there then (save_to_nvs e (record loaded { legacy_used = true })).1 else loaded

    abbrev pub load_block : SaveEnv F → Option (Block F) → Energy F → Energy F
    load_block e none s = load_legacy e s
    load_block e (some b) s =
        if block_accepted b then record s { counters = derived cap b.vals } else load_legacy e s

    unfoldable pub load_from_nvs : Bool → SaveEnv F → Energy F → Energy F
    unfolding load_legacy
    load_from_nvs opens e s =
        if opens then load_block e s.block s else record s { counters = zero_counters }

    unfoldable pub begin : Bool → SaveEnv F → Energy F → Energy F
    unfolding load_from_nvs
    begin opens e s = load_from_nvs opens e (record s {
      counters = zero_counters;
      last_ms = 0;
      last_dt_ms = 0;
      last_integration_ms = 0;
      last_voltage = tenths 0;
      last_current = tenths 0;
      integrating = false;
    })

    unfoldable pub reset : SaveEnv F → Energy F → Energy F
    unfolding save_to_nvs
    reset e s = (save_to_nvs e (record s { counters = zero_counters })).1
