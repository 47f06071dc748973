-- ===== src/Soc/Store.antt =====
-- `saveToNVS`, `loadFromNVS`, `begin` and the explicit synchronizations of
-- firmware/Services/SocStateMachine.cpp.
use pltsmonitoring_firmware.Prelude.{
  ℕ, ◌+◌, ◌%◌, ◌^◌, ltb, ◌==◌, if◌then◌else◌, Bool, true, false, not, ◌&&◌, ◌||◌, Option, none,
  some, List,
}
use pltsmonitoring_firmware.Crc.{crc32}
use pltsmonitoring_firmware.Measure.{Quality, not_available, estimated, is_valid}
use pltsmonitoring_firmware.Soc.{
  Arithmetic, normal, synchronized, Persisted, Soc, SocConfig, SocEnv,
}

abbrev pub soc_nvs_magic : ℕ
soc_nvs_magic = 0x534F4331

abbrev pub soc_state_version : ℕ
soc_state_version = 2

module _ (ar : Arithmetic) where
  open ar use {fl, mul, div}
  open fl use {F, lt, le, add, sub, fabs, tenths}

  -- `clampSoc`.
  unfoldable pub clamp_soc : F → F
  clamp_soc s =
      if not (fl.is_finite s)
      then tenths 0
      else if lt s (tenths 0)
      then tenths 0
      else if lt (tenths 1000) s
      then tenths 1000
      else s

  -- One piece of the map: `base + (v - from) * slope`.
  abbrev pub piece : ℕ → F → ℕ → ℕ → F
  piece base v from slope = add (tenths base) (mul (sub v (tenths from)) (tenths slope))

  unfoldable pub voltage_to_soc_rough : F → F
  voltage_to_soc_rough v =
      if le (tenths 540) v
      then tenths 1000
      else if le (tenths 530) v
      then piece 950 v 530 50
      else if le (tenths 520) v
      then piece 800 v 520 150
      else if le (tenths 500) v
      then piece 500 v 500 150
      else if le (tenths 480) v
      then piece 200 v 480 150
      else if le (tenths 450) v
      then mul (sub v (tenths 450)) (tenths 100)
      else tenths 0

  -- `getSoc` and `getSocQuality`.
  abbrev pub get_soc : Soc F → F
  get_soc s = if s.soc_valid then s.soc else fl.nan

  unfoldable pub get_soc_quality : Soc F → Quality
  get_soc_quality s =
      if not s.soc_valid
      then not_available
      else if s.frozen && not (is_valid s.last_quality)
      then s.last_quality
      else estimated

  module _ (layout : Persisted F → List ℕ) (c : SocConfig F) where
    abbrev pub sealed : Persisted F → Persisted F
    sealed p = record p { crc = crc32 (layout p) 0xFFFFFFFF }

    unfoldable pub save_to_nvs : SocEnv → Soc F → Bool × Soc F
    save_to_nvs e s =
        let p = sealed record {
          magic = soc_nvs_magic;
          version = soc_state_version;
          soc = if s.soc_valid then s.soc else tenths 0;
          baseline = s.baseline;
          last_sync_unix = s.last_sync;
          capacity_basis = c.capacity;
          crc = 0;
        } in
        let failed = record s { persist_failures = (s.persist_failures + 1) % 2 ^ 32 } in
        if not e.opens
        then (false, failed)
        else if not e.writes
        then (false, failed)
        else (true, record s { nvs = some p })

    -- The time of a synchronization before 2020 is of another time domain.
    abbrev pub sync_time : ℕ → ℕ
    sync_time t = if not (t == 0) && ltb t 1577836800 then 0 else t

    abbrev pub load_record : Persisted F → Soc F → Soc F
    load_record p s =
        if not (p.magic == soc_nvs_magic) || not (p.version == soc_state_version)
        then s
        else if not (crc32 (layout (record p { crc = 0 })) 0xFFFFFFFF == p.crc)
        then s
        else if lt (tenths 5) (fabs (sub p.capacity_basis c.capacity))
        then s
        else if not (fl.is_finite p.soc) || (lt p.soc (tenths 0) || lt (tenths 1000) p.soc)
        then s
        else record s {
          soc = p.soc;
          baseline = p.baseline;
          last_sync = sync_time p.last_sync_unix;
          soc_valid = true;
        }

    abbrev pub load_stored : Option (Persisted F) → Soc F → Soc F
    load_stored none s = s
    load_stored (some p) s = load_record p s

    unfoldable pub load_from_nvs : Bool → Soc F → Soc F
    load_from_nvs opens s = if opens then load_stored s.nvs s else s

    unfoldable pub begin : Bool → Soc F → Soc F
    unfolding load_from_nvs
    begin opens s = load_from_nvs opens (record s {
      soc = tenths 0;
      soc_valid = false;
      baseline = tenths 0;
      state = normal;
      last_sync = 0;
      full_start_ms = 0;
      usable = c.capacity;
      correction = record {
        timestamp = 0;
        old_soc = tenths 0;
        new_soc = tenths 0;
        voltage = tenths 0;
        current = tenths 0;
        duration_sec = 0;
      };
      last_ms = 0;
      last_current = tenths 0;
      frozen = false;
      last_quality = not_available;
      rest_start_ms = 0;
      rest_satisfied = false;
    })

    -- `_recordBaselineCorrection`.
    abbrev pub record_correction : SocEnv → F → F → F → F → ℕ → Soc F → Soc F
    record_correction e before after v i duration s = record s {
      correction = record {
        timestamp = e.unix_time;
        old_soc = before;
        new_soc = after;
        voltage = v;
        current = i;
        duration_sec = duration;
      };
    }

    -- The charge that stands for a state of charge.
    abbrev pub baseline_of : F → F → F
    baseline_of cap s = div (mul (sub s (tenths 500)) cap) (tenths 1000)

    unfoldable pub synchronize_from_voltage : SocEnv → F → Soc F → Soc F
    unfolding voltage_to_soc_rough clamp_soc save_to_nvs
    synchronize_from_voltage e v s =
        let new = voltage_to_soc_rough v in
        let synced = record s {
          soc = clamp_soc new;
          baseline = baseline_of c.capacity new;
          last_sync = e.unix_time;
          state = synchronized;
          soc_valid = true;
          from_ocv = false;
        } in
        (save_to_nvs e (record_correction e s.soc new v (tenths 0) 0 synced)).1

    unfoldable pub set_soc : SocEnv → F → Soc F → Soc F
    unfolding clamp_soc save_to_nvs
    set_soc e asked s =
        let new = clamp_soc asked in
        let synced = record s {
          soc = new;
          baseline = baseline_of c.capacity new;
          last_sync = e.unix_time;
          soc_valid = true;
          from_ocv = false;
        } in
        (save_to_nvs e (record_correction e s.soc new (tenths 0) (tenths 0) 0 synced)).1

    unfoldable pub set_coulomb_baseline : SocEnv → F → Soc F → Soc F
    unfolding clamp_soc
    set_coulomb_baseline e baseline s =
        let new = clamp_soc (add (tenths 500) (mul (div baseline c.capacity) (tenths 1000))) in
        record_correction e s.soc new (tenths 0) (tenths 0) 0
          (record s { baseline = baseline; soc = new; last_sync = e.unix_time })

    unfoldable pub reset_to_full : SocEnv → Soc F → Soc F
    unfolding set_soc
    reset_to_full e s = set_soc e (tenths 1000) s
