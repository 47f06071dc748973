-- ===== src/Soc/Restore.antt =====
-- The record of the state of charge in NVS (firmware/Services/SocStateMachine.cpp), written and read.
use pltsmonitoring_firmware.Prelude.{ℕ, true, false, List, ◌≡◌, arith}
use pltsmonitoring_firmware.Soc.{Arithmetic, Persisted, Soc, SocConfig, SocEnv}
use pltsmonitoring_firmware.Soc.Store.{save_to_nvs, load_from_nvs, begin, sync_time, get_soc}
use pltsmonitoring_firmware.Soc.Bounded.{IsPercent}

-- What `saveToNVS` has written with success, a boot restores: the state of charge and its basis are those
-- that were saved, and the time of the last synchronization is too unless it lies before 2020. The state
-- of charge is known and from 0 to 100, and the capacity is configured as it was, its difference to
-- itself being within half an ampere-hour.
pub save_to_nvs-begin :
    (ar : Arithmetic) (layout : Persisted ar.fl.F → List ℕ) (c : SocConfig ar.fl.F) (e : SocEnv)
    (s : Soc ar.fl.F)
    → s.soc_valid ≡ true
    → IsPercent ar.fl s.soc
    → ar.fl.lt (ar.fl.tenths 5) (ar.fl.fabs (ar.fl.sub c.capacity c.capacity)) ≡ false
    → (save_to_nvs ar layout c e s).0 ≡ true
    → let y = begin ar layout c true (save_to_nvs ar layout c e s).1 in
      (get_soc ar y ≡ get_soc ar s)
      × (y.baseline ≡ s.baseline)
      × (y.last_sync ≡ sync_time ar layout c s.last_sync)
unfolding save_to_nvs begin load_from_nvs
save_to_nvs-begin ar layout c e s known p basis saved = ground arith
