-- ===== src/Alarms.antt =====
-- firmware/Services/AlarmRegistry.{h,cpp}: the registry of at most 24 alarms. Every operation holds the
-- registry's mutex, so each is one step here. `alarms` holds the `_count` entries of `_alarms` that are
-- in use. Texts are lists of bytes without a 0. What NVS does in a save is told by the environment.
pub mod Save
pub mod Raise
pub mod Edit
pub mod View
pub mod Live
pub mod Safety
pub mod Visible
pub mod Bounds
mod Examples
use pltsmonitoring_firmware.Prelude.{
  ℕ, zero, suc, ◌+◌, ◌-◌, ◌%◌, ◌^◌, ltb, if◌then◌else◌, bytes_eq, Bool, true, false, not, Option,
  none, some, List, [], ◌∷◌, take,
}

abbrev pub max_alarms : ℕ
max_alarms = 24

abbrev pub code_len : ℕ
code_len = 32

pub data Severity : Type 0 where
  info warning critical : Severity

abbrev pub rank : Severity → ℕ
rank info = 0
rank warning = 1
rank critical = 2

pub data Lifecycle : Type 0 where
  active acknowledged cleared : Lifecycle

pub record Alarm : Type 0 where
  pub code : List ℕ
  pub severity : Severity
  pub lifecycle : Lifecycle
  pub raised_at : ℕ
  pub acknowledged_at : ℕ
  pub cleared_at : ℕ
  pub last_updated_at : ℕ
  pub message : List ℕ

abbrev pub is_cleared : Alarm → Bool
is_cleared a = elim a.lifecycle [ cleared ↦ true | _ ↦ false ]

-- The fields of `AlarmRegistry`, and `nvs`: the alarms in the record of the last full write.
pub record Registry : Type 0 where
  pub alarms : List Alarm
  pub dirty : Bool
  pub generation : ℕ
  pub overflow_count : ℕ
  pub persist_failures : ℕ
  pub mutex : Bool
  pub lock_failures : ℕ
  pub last_lock_fail_log_ms : ℕ
  pub nvs : List Alarm

-- What a call meets: whether `xSemaphoreCreateMutex` succeeds when it is tried, `millis()`, the clock
-- of the RTC, and in a save: whether the buffer is allocated, the namespace opens, every byte is
-- written, and the record reads back equal.
pub record Env : Type 0 where
  pub creates : Bool
  pub now : ℕ
  pub unix_time : ℕ
  pub allocates : Bool
  pub opens : Bool
  pub writes_all : Bool
  pub reads_back : Bool

pub data RaiseResult : Type 0 where
  rejected accepted_ram accepted_persisted accepted_persist_failed lock_unavailable : RaiseResult

-- `_lock`, as in the transaction journal.
unfoldable pub lock : Env → Registry → Bool × Registry
lock e r = if r.mutex then (true, r) else if e.creates then (true, record r { mutex = true }) else (
  false,
  record r {
    lock_failures = (r.lock_failures + 1) % 2 ^ 32;
    last_lock_fail_log_ms =
        if ltb 60000 ((e.now + 2 ^ 32 - r.last_lock_fail_log_ms) % 2 ^ 32)
        then e.now
        else r.last_lock_fail_log_ms;
  },
)

-- `_findIdx` from index `i` on: the comparison is that of `strncmp` on 32 characters.
unfoldable pub find_from : List ℕ → List Alarm → ℕ → Option ℕ
find_from code [] i = none
find_from code (a ∷ rest) i =
    if bytes_eq (take code_len a.code) (take code_len code)
    then some i
    else find_from code rest (i + 1)

unfoldable pub find_idx : List ℕ → Registry → Option ℕ
unfolding find_from
find_idx code r = find_from code r.alarms 0
