-- ===== src/Soc.antt =====
-- firmware/Services/SocStateMachine.{h,cpp}: the state of charge of the battery, its synchronization, and
-- its record in NVS. `float` is a parameter, and so is the memory layout of the record that the CRC is
-- taken of. The logger and the texts of the reasons are left out.
pub mod Tick
pub mod Store
pub mod Confirm
pub mod Bounded
pub mod Restore
mod Examples
use pltsmonitoring_firmware.Prelude.{
  ℕ, ◌+◌, ◌-◌, ◌%◌, ◌^◌, ltb, leb, ◌==◌, if◌then◌else◌, Bool, true, false, not, ◌&&◌, ◌||◌, Option,
}
use pltsmonitoring_firmware.Measure.{Float, Quality}

-- The further operations on `float`; `of_u32` converts, `hundredths n` is the literal of n/100.
pub record Arithmetic : Type 1 where
  pub fl : Float
  pub mul : fl.F → fl.F → fl.F
  pub div : fl.F → fl.F → fl.F
  pub neg : fl.F → fl.F
  pub of_u32 : ℕ → fl.F
  pub hundredths : ℕ → fl.F

pub data SocState : Type 0 where
  normal charging full_candidate full_confirmed synchronized : SocState

-- `SocSyncEvidence`.
pub record Evidence (F : Type 0) : Type 0 where
  pub bms_healthy : Bool
  pub bms_agrees_full : Bool
  pub cells_bad : Bool
  pub mismatch_active : Bool
  pub temp_valid : Bool
  pub temperature_c : F

-- `SocBaselineCorrectionEvent`, without the reason.
pub record Correction (F : Type 0) : Type 0 where
  pub timestamp : ℕ
  pub old_soc : F
  pub new_soc : F
  pub voltage : F
  pub current : F
  pub duration_sec : ℕ

-- `SocPersistState`.
pub record Persisted (F : Type 0) : Type 0 where
  pub magic : ℕ
  pub version : ℕ
  pub soc : F
  pub baseline : F
  pub last_sync_unix : ℕ
  pub capacity_basis : F
  pub crc : ℕ

-- The last call for the alarm BATTERY_SOC_LOW.
pub data LowAlarm : Type 0 where
  untouched cleared raised_warning raised_critical : LowAlarm

-- The fields of `SocStateMachine`, with the record in NVS (`none`: absent or of another size).
pub record Soc (F : Type 0) : Type 0 where
  pub soc : F
  pub soc_valid : Bool
  pub baseline : F
  pub state : SocState
  pub last_sync : ℕ
  pub full_start_ms : ℕ
  pub usable : F
  pub correction : Correction F
  pub evidence : Evidence F
  pub persist_failures : ℕ
  pub last_ms : ℕ
  pub last_current : F
  pub frozen : Bool
  pub last_quality : Quality
  pub rest_start_ms : ℕ
  pub rest_satisfied : Bool
  pub from_ocv : Bool
  pub nvs : Option (Persisted F)
  pub low_alarm : LowAlarm

-- The configuration that it reads.
pub record SocConfig (F : Type 0) : Type 0 where
  pub capacity : F
  pub default_capacity : F
  pub full_voltage : F
  pub low_voltage : F
  pub idle_current : F
  pub full_charge_current : F
  pub persistence_sec : ℕ
  pub crit_soc : F
  pub low_soc : F

-- What a call meets: the RTC, whether the namespace opens, and whether the record is written whole.
pub record SocEnv : Type 0 where
  pub unix_time : ℕ
  pub opens : Bool
  pub writes : Bool

-- The difference of two times on `uint32_t`.
abbrev pub elapsed : ℕ → ℕ → ℕ
elapsed now start = (now + 2 ^ 32 - start) % 2 ^ 32
