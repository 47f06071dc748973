-- ===== src/Alarms/Bounds.antt =====
-- The size of the registry of firmware/Services/AlarmRegistry.cpp under every operation.
use pltsmonitoring_firmware.Prelude.{
  ℕ, zero, suc, ◌+◌, ◌≤◌, ◌<◌, true, Option-cases, Option, none, some, List, [], ◌∷◌, length,
  get_or, set, map, ◌≡◌, inl, inr, refl, ap, ◌∙◌, arith, length-append,
}
use pltsmonitoring_firmware.Alarms.{Alarm, Severity, Registry, Env, lock, find_idx}
use pltsmonitoring_firmware.Alarms.Save.{save_to_nvs}
use pltsmonitoring_firmware.Alarms.Raise.{
  no_alarm, oldest_cleared, shift_out, append_alarm, raise_new, refresh, refresh_message,
  raise_existing, raise_unlocked, raise_tracked, fresh_alarm,
}
use pltsmonitoring_firmware.Alarms.Edit.{
  cleared_now, acknowledged_now, acknowledged_alone, replace, clear, clear_if_active, acknowledge,
  acknowledge_all,
}
use pltsmonitoring_firmware.Alarms.Live.{save-alarms, oldest_cleared-cleared}
use pltsmonitoring_firmware.Alarms.Safety.{append-alarms, lock-alarms}

-- A call of the public interface.
pub data Call : Type 0 where
  raises : Option (List ℕ) → Severity → Option (List ℕ) → Call
  clears clears_if_active acknowledges : List ℕ → Call
  acknowledges_all saves : Call

unfoldable pub step : Env → Call → Registry → Registry
step e (raises code severity message) r = (raise_tracked e code severity message r).1
step e (clears code) r = clear e code r
step e (clears_if_active code) r = (clear_if_active e code r).1
step e (acknowledges code) r = acknowledge e code r
step e acknowledges_all r = acknowledge_all e r
step e saves r = (save_to_nvs e r).1

length-set : (xs : List Alarm) (i : ℕ) (a : Alarm) → length (set xs i a) ≡ length xs
length-set [] i a = refl
length-set (x ∷ xs) zero a = refl
length-set (x ∷ xs) (suc i) a = ap suc (length-set xs i a)

length-map : (f : Alarm → Alarm) (xs : List Alarm) → length (map f xs) ≡ length xs
length-map f [] = refl
length-map f (x ∷ xs) = ap suc (length-map f xs)

length-shift_out :
    (i : ℕ) (xs : List Alarm) → i < length xs → length (shift_out i xs) + 1 ≡ length xs
unfolding shift_out
length-shift_out i [] h = ground arith
length-shift_out zero (x ∷ xs) h = omega arith
length-shift_out (suc i) (x ∷ xs) h = let rest = length-shift_out i xs (omega arith) in omega arith

length-append_alarm :
    (e : Env) (code : List ℕ) (severity : Severity) (message : Option (List ℕ)) (r : Registry)
    → length (append_alarm e code severity message r).1.alarms ≡ length r.alarms + 1
length-append_alarm e code severity message r =
    ap length (append-alarms e code severity message r)
    ∙ length-append r.alarms (fresh_alarm e code severity message ∷ [])

length-raise_new :
    (e : Env) (code : List ℕ) (severity : Severity) (message : Option (List ℕ)) (r : Registry)
    → length r.alarms ≤ 24
    → length (raise_new e code severity message r).1.alarms ≤ 24
unfolding raise_new
length-raise_new e code severity message r h =
    let plain = length-append_alarm e code severity message r in
    elim (Option-cases (oldest_cleared r.alarms 0 none 0xFFFFFFFF 0xFFFFFFFF)) [
      | inl full ↦ ground arith
      | inr (i, found) ↦
          let t = record r { alarms = shift_out i r.alarms } in
          let old = oldest_cleared-cleared r.alarms 0 none 0xFFFFFFFF 0xFFFFFFFF i found in
          let shorter = length-shift_out i r.alarms (ground arith) in
          let evicted = length-append_alarm e code severity message t in ground arith
    ]

length-raise_existing :
    (e : Env) (i : ℕ) (severity : Severity) (message : Option (List ℕ)) (r : Registry)
    → length (raise_existing e i severity message r).1.alarms ≡ length r.alarms
unfolding raise_existing
length-raise_existing e i severity message r =
    let m = refresh_message message (refresh e severity (get_or r.alarms i no_alarm)) in
    let same = length-set r.alarms i m.1 in
    let saved = save-alarms e (record r { alarms = set r.alarms i m.1; dirty = true }) in
    ground arith

length-raise_unlocked :
    (e : Env) (code : Option (List ℕ)) (severity : Severity) (message : Option (List ℕ))
    (r : Registry)
    → length r.alarms ≤ 24
    → length (raise_unlocked e code severity message r).1.alarms ≤ 24
unfolding raise_unlocked
length-raise_unlocked e none severity message r h = h
length-raise_unlocked e (some code) severity message r h = elim (Option-cases (find_idx code r)) [
  | inl absent ↦ let made = length-raise_new e code severity message r h in ground arith
  | inr (i, found) ↦ let kept = length-raise_existing e i severity message r in ground arith
]

length-replace :
    (e : Env) (i : ℕ) (a : Alarm) (r : Registry) → length (replace e i a r).alarms ≡ length r.alarms
unfolding replace
length-replace e i a r =
    ap length (save-alarms e (record r { alarms = set r.alarms i a; dirty = true }))
    ∙ length-set r.alarms i a

unlocked_length : (e : Env) (r : Registry) → length (lock e r).1.alarms ≡ length r.alarms
unlocked_length e r = ap length (lock-alarms e r)

length-step :
    (e : Env) (call : Call) (r : Registry)
    → length r.alarms ≤ 24
    → length (step e call r).alarms ≤ 24
unfolding step raise_tracked clear clear_if_active acknowledge acknowledge_all save_to_nvs
length-step e (raises code severity message) r h =
    let same = unlocked_length e r in
    let made = length-raise_unlocked e code severity message (lock e r).1 (ground arith) in
    ground arith
length-step e (clears code) r h =
    let t = (lock e r).1 in
    let same = unlocked_length e r in
    elim (Option-cases (find_idx code t)) [
      | inl absent ↦ ground arith
      | inr (i, found) ↦
          let kept = length-replace e i (cleared_now e (get_or t.alarms i no_alarm)) t in
          ground arith
    ]
length-step e (clears_if_active code) r h =
    let t = (lock e r).1 in
    let same = unlocked_length e r in
    elim (Option-cases (find_idx code t)) [
      | inl absent ↦ ground arith
      | inr (i, found) ↦
          let kept = length-replace e i (cleared_now e (get_or t.alarms i no_alarm)) t in
          ground arith
    ]
length-step e (acknowledges code) r h =
    let t = (lock e r).1 in
    let same = unlocked_length e r in
    elim (Option-cases (find_idx code t)) [
      | inl absent ↦ ground arith
      | inr (i, found) ↦
          let kept = length-replace e i (acknowledged_alone e (get_or t.alarms i no_alarm)) t in
          ground arith
    ]
length-step e acknowledges_all r h =
    let t = (lock e r).1 in
    let same = unlocked_length e r in
    let saved =
      save-alarms e (record t { alarms = map (acknowledged_now e) t.alarms; dirty = true }) in
    let mapped = length-map (acknowledged_now e) t.alarms in ground arith
length-step e saves r h =
    let same = unlocked_length e r in let saved = save-alarms e (lock e r).1 in ground arith

pub run : List (Env × Call) → Registry → Registry
run [] r = r
run ((e, call) ∷ rest) r = run rest (step e call r)

-- The array of 24 entries is never overrun: the registry holds at most 24 alarms after any sequence of
-- calls that starts with at most 24, whatever the clock, the mutex and NVS do.
pub length-run :
    (cs : List (Env × Call)) (r : Registry) → length r.alarms ≤ 24 → length (run cs r).alarms ≤ 24
unfolding run
length-run [] r h = h
length-run ((e, call) ∷ rest) r h = length-run rest (step e call r) (length-step e call r h)
