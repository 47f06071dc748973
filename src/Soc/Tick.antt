-- ===== src/Soc/Tick.antt =====
-- `tick` of firmware/Services/SocStateMachine.cpp, from the gates on, and its parts.
use pltsmonitoring_firmware.Prelude.{
  ℕ, ◌*◌, ◌/◌, ◌%◌, ◌^◌, ltb, leb, ◌==◌, if◌then◌else◌, Bool, true, false, not, ◌&&◌, ◌||◌, List,
}
use pltsmonitoring_firmware.Measure.{Quality, valid, sensor_error, is_valid}
use pltsmonitoring_firmware.Soc.{
  Arithmetic, normal, charging, full_candidate, full_confirmed, synchronized, Evidence, Persisted,
  cleared, raised_warning, raised_critical, LowAlarm, Soc, SocConfig, SocEnv, elapsed,
}
use pltsmonitoring_firmware.Soc.Store.{
  clamp_soc, voltage_to_soc_rough, save_to_nvs, record_correction,
}

abbrev pub energy_max_dt_ms : ℕ
energy_max_dt_ms = 300000

abbrev pub rest_window_sec : ℕ
rest_window_sec = 1800

module _ (ar : Arithmetic) where
  open ar use {fl, mul, div, of_u32, hundredths}
  open fl use {F, lt, le, add, sub, fabs, tenths}

  -- The capacity that the counting goes by.
  abbrev pub capacity_of : SocConfig F → F
  capacity_of c = if lt (tenths 0) c.capacity then c.capacity else c.default_capacity

  -- The Coulomb counting over `dt` milliseconds.
  unfoldable pub integrate : SocConfig F → F → ℕ → ℕ → Soc F → Soc F
  unfolding clamp_soc
  integrate c i dt now s =
      let hours = div (of_u32 dt) (tenths 36000000) in
      let average = mul (add i s.last_current) (tenths 5) in
      let baseline = add s.baseline (mul average hours) in
      let new = add (tenths 500) (mul (div baseline (capacity_of c)) (tenths 1000)) in
      record s {
        baseline = baseline;
        soc = if s.soc_valid then clamp_soc ar new else s.soc;
        last_ms = now;
        last_current = i;
      }

  -- The temperature is known and outside the window in which a voltage is trusted.
  abbrev pub temp_blocks : Evidence F → Bool
  temp_blocks e = e.temp_valid && (lt e.temperature_c (tenths 0) || lt (tenths 450) e.temperature_c)

  abbrev pub at_rest : SocConfig F → F → F → Bool
  at_rest c v i =
      lt (fabs i) c.idle_current && (fl.is_finite v && (le c.low_voltage v && le v c.full_voltage))

  module _ (layout : Persisted F → List ℕ) (c : SocConfig F) where
    -- While the state of charge is unknown, a rest of half an hour resolves it from the voltage.
    unfoldable pub resolve_at_rest : SocEnv → F → F → ℕ → Soc F → Soc F
    unfolding voltage_to_soc_rough clamp_soc
    resolve_at_rest e v i now s =
        let start = if s.rest_start_ms == 0 then now else s.rest_start_ms in
        let rested = record s { rest_start_ms = start } in
        let rough = voltage_to_soc_rough ar v in
        let resolved = record rested {
          rest_satisfied = true;
          soc = clamp_soc ar rough;
          baseline = div (mul (sub rough (tenths 500)) (capacity_of c)) (tenths 1000);
          soc_valid = true;
          last_sync = e.unix_time;
          state = synchronized;
          from_ocv = true;
        } in
        if s.soc_valid
        then s
        else if at_rest c v i && (s.evidence.cells_bad || temp_blocks s.evidence)
        then record s { rest_start_ms = 0; rest_satisfied = false }
        else if at_rest c v i
        then (if leb (rest_window_sec * 1000) (elapsed now start) && not s.rest_satisfied
            then record_correction ar layout c e fl.nan rough v i rest_window_sec resolved
            else rested)
        else record s { rest_start_ms = 0 }

    abbrev pub is_full : F → Bool
    is_full v = le c.full_voltage v

    abbrev pub trickles : F → Bool
    trickles i = le (tenths 0) i && lt i c.full_charge_current

    -- The evidence that defers a full charge.
    abbrev pub defers : Evidence F → Bool
    defers e =
        (e.bms_healthy && (not e.bms_agrees_full || e.cells_bad))
        || (e.mismatch_active || temp_blocks e)

    -- The full charge is confirmed.
    unfoldable pub confirm_full : SocEnv → F → F → ℕ → Soc F → Soc F
    unfolding save_to_nvs
    confirm_full e v i now s =
        let full = record s {
          soc = tenths 1000;
          baseline = mul c.capacity (tenths 5);
          soc_valid = true;
          from_ocv = false;
          state = full_confirmed;
          last_sync = e.unix_time;
        } in
        let saved = (save_to_nvs ar layout c e full).1 in
        let noted =
          record_correction ar layout c e s.soc (tenths 1000) v i
            (elapsed now s.full_start_ms / 1000) saved in
        if lt noted.usable (mul c.capacity (hundredths 95))
          || lt (mul c.capacity (hundredths 105)) noted.usable
        then record noted { usable = c.capacity }
        else noted

    unfoldable pub full_machine : SocEnv → F → F → ℕ → Soc F → Soc F
    unfolding confirm_full
    full_machine e v i now s =
        let candidate = record s { state = full_candidate; full_start_ms = now } in
        let confirmed = confirm_full e v i now s in
        elim s.state [
          | normal ↦
              if is_full v && trickles i
              then candidate
              else if lt c.idle_current i
              then record s { state = charging }
              else s
          | charging ↦
              if is_full v && trickles i
              then candidate
              else if lt (fabs i) c.idle_current
              then record s { state = normal }
              else s
          | full_candidate ↦
              if not (is_full v) || not (trickles i)
              then record s { state = normal; full_start_ms = 0 }
              else if not (leb (c.persistence_sec * 1000 % 2 ^ 32) (elapsed now s.full_start_ms))
              then s
              else if defers s.evidence
              then s
              else confirmed
          | full_confirmed ↦ if lt i (ar.neg c.idle_current) then record s { state = normal } else s
          | synchronized ↦ record s { state = normal }
        ]

    unfoldable pub low_soc_alarm : Soc F → LowAlarm
    low_soc_alarm s =
        if not s.soc_valid
        then cleared
        else if lt s.soc c.crit_soc
        then raised_critical
        else if lt s.soc c.low_soc
        then raised_warning
        else cleared

    unfoldable pub tick : SocEnv → F → F → Quality → Quality → ℕ → Soc F → Soc F
    unfolding integrate resolve_at_rest full_machine low_soc_alarm
    tick e v i vq iq now s =
        let thawed = record s { frozen = false; last_quality = valid } in
        let skipped = record thawed { last_ms = now; last_current = i } in
        let dt = elapsed now s.last_ms in
        let moved =
          full_machine e v i now (resolve_at_rest e v i now (integrate c i dt now thawed)) in
        if not (is_valid vq) || not (is_valid iq)
        then record s {
          frozen = true;
          last_quality = if is_valid vq then iq else vq;
          last_ms = now;
          last_current = i;
        }
        else if not (fl.is_finite v) || not (fl.is_finite i)
        then record s { frozen = true; last_quality = sensor_error; last_ms = now }
        else if s.last_ms == 0
        then skipped
        else if dt == 0 || ltb energy_max_dt_ms dt
        then skipped
        else record moved { low_alarm = low_soc_alarm moved }
