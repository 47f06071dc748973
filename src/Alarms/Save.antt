-- ===== src/Alarms/Save.antt =====
-- `_saveToNVSUnlocked` and `saveToNVS` of firmware/Services/AlarmRegistry.cpp. The bytes of the record
-- are left out: it holds the alarms in use.
use pltsmonitoring_firmware.Prelude.{◌+◌, ◌%◌, ◌^◌, if◌then◌else◌, Bool, true, false, not}
use pltsmonitoring_firmware.Alarms.{Registry, Env, lock}

unfoldable pub save_unlocked : Env → Registry → Bool × Registry
save_unlocked e r =
    let failed =
      λ (t : Registry). record t { persist_failures = (t.persist_failures + 1) % 2 ^ 32 } in
    let written = record r { nvs = r.alarms } in
    if not e.allocates
    then (false, failed r)
    else if not e.opens
    then (false, failed r)
    else if not e.writes_all
    then (false, failed r)
    else if not e.reads_back
    then (false, failed written)
    else (true, record written { generation = (r.generation + 1) % 2 ^ 16; dirty = false })

unfoldable pub save_to_nvs : Env → Registry → Bool × Registry
unfolding save_unlocked
save_to_nvs e r = let (held, t) = lock e r in if held then save_unlocked e t else (false, t)
