-- ===== src/Alarms/Examples.antt =====
-- The theorems on a registry with one live alarm.
use pltsmonitoring_firmware.Prelude.{
  bytes_eq, ◌≡◌, ◌≤◌, true, false, [], ◌∷◌, refl, arith, length, none, some,
}
use pltsmonitoring_firmware.Alarms.{
  Alarm, critical, warning, active, Registry, Env, rank, accepted_persisted, lock, find_idx,
  find_from,
}
use pltsmonitoring_firmware.Alarms.Save.{save_unlocked}
use pltsmonitoring_firmware.Alarms.Raise.{
  raise_tracked, raise_unlocked, raise_new, append_alarm, is_accepted, oldest_cleared,
}
use pltsmonitoring_firmware.Alarms.Live.{has_live}
use pltsmonitoring_firmware.Alarms.Safety.{raise_keeps_live}
use pltsmonitoring_firmware.Alarms.Visible.{raise_is_live}
use pltsmonitoring_firmware.Alarms.Bounds.{raises, acknowledges_all, run, length-run}

abbrev working : Env
working = record {
  creates = true;
  now = 5000;
  unix_time = 1700000000;
  allocates = true;
  opens = true;
  writes_all = true;
  reads_back = true;
}

abbrev low_voltage : Alarm
low_voltage = record {
  code = 76 ∷ 79 ∷ [];
  severity = warning;
  lifecycle = active;
  raised_at = 1600000000;
  acknowledged_at = 0;
  cleared_at = 0;
  last_updated_at = 1600000000;
  message = [];
}

abbrev one_alarm : Registry
one_alarm = record {
  alarms = low_voltage ∷ [];
  dirty = false;
  generation = 4;
  overflow_count = 0;
  persist_failures = 0;
  mutex = true;
  lock_failures = 0;
  last_lock_fail_log_ms = 0;
  nvs = [];
}

raised_result :
    (raise_tracked working (some (72 ∷ 73 ∷ [])) critical none one_alarm).0 ≡ accepted_persisted
unfolding raise_tracked raise_unlocked raise_new append_alarm lock find_idx find_from save_unlocked
    oldest_cleared bytes_eq
raised_result = refl

raised_accepted :
    is_accepted (raise_tracked working (some (72 ∷ 73 ∷ [])) critical none one_alarm).0 ≡ true
unfolding raise_tracked raise_unlocked raise_new append_alarm lock find_idx find_from save_unlocked
    oldest_cleared bytes_eq
raised_accepted = refl

live_before : has_live (76 ∷ 79 ∷ []) 1 one_alarm.alarms ≡ true
unfolding bytes_eq
live_before = refl

raise_keeps_live_example :
    has_live
      (76 ∷ 79 ∷ [])
      1
      (raise_tracked working (some (72 ∷ 73 ∷ [])) critical none one_alarm).1.alarms
    ≡ true
raise_keeps_live_example =
    raise_keeps_live working (some (72 ∷ 73 ∷ [])) critical none one_alarm (76 ∷ 79 ∷ []) 1
      live_before

raise_is_live_example :
    has_live
      (72 ∷ 73 ∷ [])
      (rank critical)
      (raise_tracked working (some (72 ∷ 73 ∷ [])) critical none one_alarm).1.alarms
    ≡ true
raise_is_live_example =
    raise_is_live working (72 ∷ 73 ∷ []) critical none one_alarm (ground arith) raised_accepted

length-run_example :
    length
      (run
        ((working, raises (some (72 ∷ 73 ∷ [])) critical none) ∷ (working, acknowledges_all) ∷ [])
        one_alarm).alarms
    ≤ 24
length-run_example =
    length-run
      ((working, raises (some (72 ∷ 73 ∷ [])) critical none) ∷ (working, acknowledges_all) ∷ [])
      one_alarm (ground arith)
