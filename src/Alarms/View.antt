-- ===== src/Alarms/View.antt =====
-- The readers of firmware/Services/AlarmRegistry.cpp: `countActive`, `countAll`, `find`,
-- `highestSeverityIn`, `highestActiveSeverity`, `copyActiveFrom`, `copyActiveAlarms` and `isDirty`.
use pltsmonitoring_firmware.Prelude.{
  ℕ, zero, suc, ◌+◌, ltb, if◌then◌else◌, Bool, true, not, ◌&&◌, Option, none, some, List, [], ◌∷◌,
  length, get_or,
}
use pltsmonitoring_firmware.Alarms.{
  Alarm, Severity, info, rank, is_cleared, Registry, Env, lock, find_idx,
}
use pltsmonitoring_firmware.Alarms.Raise.{no_alarm}

unfoldable pub count_live : List Alarm → ℕ
count_live [] = 0
count_live (a ∷ rest) = if is_cleared a then count_live rest else count_live rest + 1

unfoldable pub count_active : Env → Registry → ℕ × Registry
count_active e r = let (held, t) = lock e r in (if held then count_live t.alarms else 0, t)

unfoldable pub count_all : Env → Registry → ℕ × Registry
count_all e r = let (held, t) = lock e r in (if held then length t.alarms else 0, t)

-- `find`: the copy of the entry, if there is one.
unfoldable pub find : Env → List ℕ → Registry → Option Alarm × Registry
unfolding find_idx
find e code r =
    let (held, t) = lock e r in
    (
      if held
          then elim (find_idx code t) [ none ↦ none | some i ↦ some (get_or t.alarms i no_alarm) ]
          else none,
      t,
    )

-- The loop of `highestSeverityIn`, with the highest so far.
unfoldable pub highest_from : Severity → List Alarm → Severity
highest_from h [] = h
highest_from h (a ∷ rest) =
    highest_from (if not (is_cleared a) && ltb (rank h) (rank a.severity) then a.severity else h)
      rest

unfoldable pub highest_active_severity : Env → Registry → Severity × Registry
unfolding highest_from
highest_active_severity e r =
    let (held, t) = lock e r in (if held then highest_from info t.alarms else info, t)

-- `copyActiveFrom` into a buffer of `max` entries.
unfoldable pub copy_active_from : List Alarm → ℕ → List Alarm
copy_active_from [] max = []
copy_active_from (a ∷ rest) zero = []
copy_active_from (a ∷ rest) (suc max) =
    if is_cleared a then copy_active_from rest (suc max) else a ∷ copy_active_from rest max

unfoldable pub copy_active_alarms : Env → ℕ → Registry → List Alarm × Registry
unfolding copy_active_from
copy_active_alarms e max r =
    let (held, t) = lock e r in (if held then copy_active_from t.alarms max else [], t)

unfoldable pub is_dirty : Env → Registry → Bool × Registry
is_dirty e r = let (held, t) = lock e r in (if held then t.dirty else true, t)
