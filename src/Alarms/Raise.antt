-- ===== src/Alarms/Raise.antt =====
-- `_raiseTrackedUnlocked`, `raiseTracked` and `raise` of firmware/Services/AlarmRegistry.cpp.
use pltsmonitoring_firmware.Prelude.{
  ℕ, zero, suc, ◌+◌, ◌-◌, ◌%◌, ◌^◌, ltb, leb, ◌==◌, if◌then◌else◌, bytes_eq, Bool, true, false,
  ◌&&◌, ◌||◌, Option, none, some, List, [], ◌∷◌, ◌++◌, take, length, get_or, set,
}
use pltsmonitoring_firmware.Alarms.{
  Alarm, Severity, info, rank, active, is_cleared, Registry, Env, RaiseResult, rejected,
  accepted_ram, accepted_persisted, accepted_persist_failed, lock_unavailable, lock, find_idx,
  max_alarms, code_len,
}
use pltsmonitoring_firmware.Alarms.Save.{save_unlocked}

-- The scan for the oldest cleared entry, from index `i` on; ties go to the oldest occurrence.
unfoldable pub oldest_cleared : List Alarm → ℕ → Option ℕ → ℕ → ℕ → Option ℕ
oldest_cleared [] i oldest cleared_at raised_at = oldest
oldest_cleared (a ∷ rest) i oldest cleared_at raised_at =
    let older =
      is_cleared a
      && (ltb a.cleared_at cleared_at
          || (a.cleared_at == cleared_at && ltb a.raised_at raised_at)) in
    let (found, c, d) =
      if older then (some i, a.cleared_at, a.raised_at) else (oldest, cleared_at, raised_at) in
    oldest_cleared rest (i + 1) found c d

-- The loop that shifts the entries after `i` down by one.
unfoldable pub shift_out : ℕ → List Alarm → List Alarm
shift_out i [] = []
shift_out zero (a ∷ rest) = rest
shift_out (suc i) (a ∷ rest) = a ∷ shift_out i rest

-- A text cut to a buffer of `n` bytes with its 0; no text gives an empty one.
abbrev pub cut : ℕ → Option (List ℕ) → List ℕ
cut n none = []
cut n (some text) = take (n - 1) text

abbrev pub fresh_alarm : Env → List ℕ → Severity → Option (List ℕ) → Alarm
fresh_alarm e code severity message = record {
  code = take (code_len - 1) code;
  severity = severity;
  lifecycle = active;
  raised_at = e.unix_time;
  acknowledged_at = 0;
  cleared_at = 0;
  last_updated_at = e.unix_time;
  message = cut 80 message;
}

abbrev pub saved_result : Bool × Registry → RaiseResult × Registry
saved_result (persisted, r) = (if persisted then accepted_persisted else accepted_persist_failed, r)

-- The branch of a new alarm that has a slot.
unfoldable pub append_alarm :
    Env → List ℕ → Severity → Option (List ℕ) → Registry → RaiseResult × Registry
unfolding save_unlocked
append_alarm e code severity message r = saved_result (
    save_unlocked e
      (record r { alarms = r.alarms ++ (fresh_alarm e code severity message ∷ []); dirty = true }))

unfoldable pub raise_new :
    Env → List ℕ → Severity → Option (List ℕ) → Registry → RaiseResult × Registry
unfolding append_alarm oldest_cleared shift_out
raise_new e code severity message r =
    if leb max_alarms (length r.alarms)
    then elim (oldest_cleared r.alarms 0 none 0xFFFFFFFF 0xFFFFFFFF) [
      | none ↦ (rejected, record r { overflow_count = (r.overflow_count + 1) % 2 ^ 32 })
      | some i ↦ append_alarm e code severity message (record r { alarms = shift_out i r.alarms })
    ]
    else append_alarm e code severity message r

-- The first half of a refresh: a recurrence, an escalation, or neither. The Boolean is `meaningful`.
unfoldable pub refresh : Env → Severity → Alarm → Bool × Alarm
refresh e severity a =
    if is_cleared a
    then (
      true,
      record a {
        lifecycle = active;
        raised_at = e.unix_time;
        acknowledged_at = 0;
        cleared_at = 0;
        last_updated_at = e.unix_time;
        severity = severity;
      },
    )
    else if ltb (rank a.severity) (rank severity)
    then (true, record a { severity = severity; last_updated_at = e.unix_time })
    else (false, record a { last_updated_at = e.unix_time })

-- The second half: another text that is not empty replaces the message.
unfoldable pub refresh_message : Option (List ℕ) → Bool × Alarm → Bool × Alarm
refresh_message none m = m
refresh_message (some []) m = m
refresh_message (some (c ∷ text)) (meaningful, a) =
    if bytes_eq (take 80 a.message) (take 80 (c ∷ text))
    then (meaningful, a)
    else (true, record a { message = cut 80 (some (c ∷ text)) })

abbrev pub no_alarm : Alarm
no_alarm = record {
  code = [];
  severity = info;
  lifecycle = active;
  raised_at = 0;
  acknowledged_at = 0;
  cleared_at = 0;
  last_updated_at = 0;
  message = [];
}

unfoldable pub raise_existing :
    Env → ℕ → Severity → Option (List ℕ) → Registry → RaiseResult × Registry
unfolding refresh refresh_message save_unlocked
raise_existing e i severity message r =
    let (meaningful, a) =
      refresh_message message (refresh e severity (get_or r.alarms i no_alarm)) in
    let t = record r { alarms = set r.alarms i a } in
    if meaningful
    then saved_result (save_unlocked e (record t { dirty = true }))
    else (accepted_ram, t)

unfoldable pub raise_unlocked :
    Env → Option (List ℕ) → Severity → Option (List ℕ) → Registry → RaiseResult × Registry
unfolding raise_new raise_existing find_idx
raise_unlocked e none severity message r = (rejected, r)
raise_unlocked e (some code) severity message r = elim (find_idx code r) [
  | none ↦ raise_new e code severity message r
  | some i ↦ raise_existing e i severity message r
]

unfoldable pub raise_tracked :
    Env → Option (List ℕ) → Severity → Option (List ℕ) → Registry → RaiseResult × Registry
unfolding raise_unlocked
raise_tracked e code severity message r =
    let (held, t) = lock e r in
    if held then raise_unlocked e code severity message t else (lock_unavailable, t)

abbrev pub is_accepted : RaiseResult → Bool
is_accepted accepted_ram = true
is_accepted accepted_persisted = true
is_accepted accepted_persist_failed = true
is_accepted _ = false

unfoldable pub raise :
    Env → Option (List ℕ) → Severity → Option (List ℕ) → Registry → Bool × Registry
unfolding raise_tracked
raise e code severity message r =
    let (result, t) = raise_tracked e code severity message r in (is_accepted result, t)
