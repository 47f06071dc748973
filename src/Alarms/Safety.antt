-- ===== src/Alarms/Safety.antt =====
-- What a raise promises: firmware/Services/AlarmRegistry.cpp.
use pltsmonitoring_firmware.Prelude.{
  ℕ, bytes_eq, Bool, true, Bool-cases, Option-cases, Option, none, some, List, [], ◌∷◌, ◌++◌, take,
  get_or, set, ◌≡◌, inl, inr, ap, ◌∙◌, arith,
}
use pltsmonitoring_firmware.Alarms.{Alarm, Severity, Registry, Env, lock, find_idx}
use pltsmonitoring_firmware.Alarms.Raise.{
  no_alarm, oldest_cleared, shift_out, append_alarm, raise_new, refresh, refresh_message,
  raise_existing, raise_unlocked, raise_tracked, fresh_alarm,
}
use pltsmonitoring_firmware.Alarms.Live.{
  is_live, has_live, save-alarms, has_live-append, has_live-shift_out, has_live-set,
  oldest_cleared-cleared,
}

refresh-is_live :
    (c : List ℕ) (k : ℕ) (e : Env) (severity : Severity) (a : Alarm)
    → is_live c k a ≡ true
    → is_live c k (refresh e severity a).1 ≡ true
unfolding refresh
refresh-is_live c k e severity a h = ground arith

pub refresh_message-is_live :
    (c : List ℕ) (k : ℕ) (message : Option (List ℕ)) (m : Bool × Alarm)
    → is_live c k m.1 ≡ true
    → is_live c k (refresh_message message m).1 ≡ true
unfolding refresh_message
refresh_message-is_live c k none m h = h
refresh_message-is_live c k (some []) m h = h
refresh_message-is_live c k (some (x ∷ text)) (meaningful, a) h =
    elim (Bool-cases (bytes_eq (take 80 a.message) (take 80 (x ∷ text)))) [
      | inl same ↦ ground arith
      | inr other ↦ ground arith
    ]

pub append-alarms :
    (e : Env) (code : List ℕ) (severity : Severity) (message : Option (List ℕ)) (r : Registry)
    → (append_alarm e code severity message r).1.alarms
      ≡ r.alarms ++ (fresh_alarm e code severity message ∷ [])
unfolding append_alarm
append-alarms e code severity message r =
    save-alarms e
      (record r { alarms = r.alarms ++ (fresh_alarm e code severity message ∷ []); dirty = true })

new-has_live :
    (e : Env) (code : List ℕ) (severity : Severity) (message : Option (List ℕ)) (r : Registry)
    (c : List ℕ) (k : ℕ)
    → has_live c k r.alarms ≡ true
    → has_live c k (raise_new e code severity message r).1.alarms ≡ true
unfolding raise_new
new-has_live e code severity message r c k h =
    elim (Option-cases (oldest_cleared r.alarms 0 none 0xFFFFFFFF 0xFFFFFFFF)) [
      | inl full ↦
          let kept = has_live-append c k r.alarms (fresh_alarm e code severity message ∷ []) h in
          let added = append-alarms e code severity message r in ground arith
      | inr (i, found) ↦
          let kept = has_live-append c k r.alarms (fresh_alarm e code severity message ∷ []) h in
          let added = append-alarms e code severity message r in
          let t = record r { alarms = shift_out i r.alarms } in
          let old = oldest_cleared-cleared r.alarms 0 none 0xFFFFFFFF 0xFFFFFFFF i found in
          let left = has_live-shift_out c k i r.alarms (ground arith) h in
          let kept_left =
            has_live-append c k t.alarms (fresh_alarm e code severity message ∷ []) left in
          let added_left = append-alarms e code severity message t in ground arith
    ]

existing-has_live :
    (e : Env) (i : ℕ) (severity : Severity) (message : Option (List ℕ)) (r : Registry) (c : List ℕ)
    (k : ℕ)
    → has_live c k r.alarms ≡ true
    → has_live c k (raise_existing e i severity message r).1.alarms ≡ true
unfolding raise_existing
existing-has_live e i severity message r c k h =
    let a = get_or r.alarms i no_alarm in
    let m = refresh_message message (refresh e severity a) in
    let kept =
      has_live-set c k i m.1 r.alarms
        (λ live.
          refresh_message-is_live c k message (refresh e severity a)
            (refresh-is_live c k e severity a live))
        h in
    let saved = save-alarms e (record r { alarms = set r.alarms i m.1; dirty = true }) in
    ground arith

unlocked-has_live :
    (e : Env) (code : Option (List ℕ)) (severity : Severity) (message : Option (List ℕ))
    (r : Registry) (c : List ℕ) (k : ℕ)
    → has_live c k r.alarms ≡ true
    → has_live c k (raise_unlocked e code severity message r).1.alarms ≡ true
unfolding raise_unlocked
unlocked-has_live e none severity message r c k h = h
unlocked-has_live e (some code) severity message r c k h = elim (Option-cases (find_idx code r)) [
  | inl absent ↦ let made = new-has_live e code severity message r c k h in ground arith
  | inr (i, found) ↦ let kept = existing-has_live e i severity message r c k h in ground arith
]

pub lock-alarms : (e : Env) (r : Registry) → (lock e r).1.alarms ≡ r.alarms
unfolding lock
lock-alarms e r = ground arith

-- A live alarm is never lost or weakened by raising any alarm: an entry for a code that is not cleared,
-- of some severity or above, is still there after the call, whatever the call raises, whether the
-- registry was full, and whatever the mutex and NVS do.
pub raise_keeps_live :
    (e : Env) (code : Option (List ℕ)) (severity : Severity) (message : Option (List ℕ))
    (r : Registry) (c : List ℕ) (k : ℕ)
    → has_live c k r.alarms ≡ true
    → has_live c k (raise_tracked e code severity message r).1.alarms ≡ true
unfolding raise_tracked
raise_keeps_live e code severity message r c k h =
    let same = lock-alarms e r in
    let held =
      unlocked-has_live e code severity message (lock e r).1 c k (ap (has_live c k) same ∙ h) in
    let still = ap (has_live c k) same ∙ h in
    elim (Bool-cases (lock e r).0) [ inl y ↦ ground arith | inr n ↦ ground arith ]
