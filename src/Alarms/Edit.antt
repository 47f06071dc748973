-- ===== src/Alarms/Edit.antt =====
-- Clearing and acknowledging: `clear`, `clearIfActive`, `acknowledge` and `acknowledgeAll` of
-- firmware/Services/AlarmRegistry.cpp, each with its `Unlocked` half.
use pltsmonitoring_firmware.Prelude.{
  ℕ, if◌then◌else◌, Bool, true, false, none, some, List, map, get_or, set,
}
use pltsmonitoring_firmware.Alarms.{
  Alarm, active, acknowledged, cleared, is_cleared, Registry, Env, lock, find_idx,
}
use pltsmonitoring_firmware.Alarms.Save.{save_unlocked}
use pltsmonitoring_firmware.Alarms.Raise.{no_alarm}

abbrev pub cleared_now : Env → Alarm → Alarm
cleared_now e a = record a {
  lifecycle = cleared;
  cleared_at = e.unix_time;
  last_updated_at = e.unix_time;
}

-- The write of entry `i`, then the immediate save.
unfoldable pub replace : Env → ℕ → Alarm → Registry → Registry
unfolding save_unlocked
replace e i a r = (save_unlocked e (record r { alarms = set r.alarms i a; dirty = true })).1

unfoldable pub clear : Env → List ℕ → Registry → Registry
unfolding replace find_idx
clear e code r =
    let (held, t) = lock e r in
    if held
    then elim (find_idx code t) [
      | none ↦ t
      | some i ↦ replace e i (cleared_now e (get_or t.alarms i no_alarm)) t
    ]
    else t

unfoldable pub clear_if_active : Env → List ℕ → Registry → Bool × Registry
unfolding replace find_idx
clear_if_active e code r =
    let (held, t) = lock e r in
    if held
    then elim (find_idx code t) [
      | none ↦ (false, t)
      | some i ↦
          let a = get_or t.alarms i no_alarm in
          if is_cleared a then (false, t) else (true, replace e i (cleared_now e a) t)
    ]
    else (false, t)

abbrev pub acknowledged_alone : Env → Alarm → Alarm
acknowledged_alone e a = record a {
  lifecycle = acknowledged;
  acknowledged_at = e.unix_time;
  last_updated_at = e.unix_time;
}

unfoldable pub acknowledge : Env → List ℕ → Registry → Registry
unfolding replace find_idx
acknowledge e code r =
    let (held, t) = lock e r in
    if held
    then elim (find_idx code t) [
      | none ↦ t
      | some i ↦ replace e i (acknowledged_alone e (get_or t.alarms i no_alarm)) t
    ]
    else t

abbrev pub acknowledged_now : Env → Alarm → Alarm
acknowledged_now e a = elim a.lifecycle [
  | active ↦ record a { lifecycle = acknowledged; acknowledged_at = e.unix_time }
  | acknowledged ↦ a
  | cleared ↦ a
]

unfoldable pub acknowledge_all : Env → Registry → Registry
unfolding save_unlocked
acknowledge_all e r =
    let (held, t) = lock e r in
    if held
    then (save_unlocked e (record t { alarms = map (acknowledged_now e) t.alarms; dirty = true })).1
    else t
