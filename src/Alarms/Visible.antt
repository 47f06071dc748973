-- ===== src/Alarms/Visible.antt =====
-- What an accepted raise leaves in the registry and in NVS: firmware/Services/AlarmRegistry.cpp.
use pltsmonitoring_firmware.Prelude.{
  ℕ, zero, suc, ◌+◌, ◌-◌, ◌≤◌, ◌<◌, ◌%◌, ◌^◌, bytes_eq, bytes_eq_refl, true, false, Bool-cases,
  Option-cases, Option, none, some, List, [], ◌∷◌, ◌++◌, take, length, get_or, set, ◌≡◌, inl, inr,
  refl, ap, sym, ◌∙◌, arith,
}
use pltsmonitoring_firmware.Alarms.{
  Alarm, Severity, rank, Registry, Env, RaiseResult, accepted_persisted, lock, find_from, find_idx,
  code_len,
}
use pltsmonitoring_firmware.Alarms.Save.{save_unlocked}
use pltsmonitoring_firmware.Alarms.Raise.{
  no_alarm, oldest_cleared, shift_out, append_alarm, raise_new, refresh, refresh_message,
  raise_existing, raise_unlocked, raise_tracked, fresh_alarm, is_accepted, saved_result,
}
use pltsmonitoring_firmware.Alarms.Live.{is_live, has_live, save-alarms, has_live-last}
use pltsmonitoring_firmware.Alarms.Safety.{refresh_message-is_live, append-alarms}

short-take : {A : Type 0} (n : ℕ) (xs : List A) → length xs ≤ n → take n xs ≡ xs
short-take zero [] h = refl
short-take zero (x ∷ xs) h = ground arith
short-take (suc n) [] h = refl
short-take (suc n) (x ∷ xs) h = ap (λ ys. x ∷ ys) (short-take n xs (ground arith))

fresh-is_live :
    (e : Env) (code : List ℕ) (severity : Severity) (message : Option (List ℕ))
    → length code ≤ 31
    → is_live code (rank severity) (fresh_alarm e code severity message) ≡ true
fresh-is_live e code severity message short =
    let cut = short-take 31 code short in
    let match = ap (λ t. bytes_eq (take 32 t) (take 32 code)) cut ∙ bytes_eq_refl (take 32 code) in
    ground arith

new-accepted :
    (e : Env) (code : List ℕ) (severity : Severity) (message : Option (List ℕ)) (r : Registry)
    → length code ≤ 31
    → is_accepted (raise_new e code severity message r).0 ≡ true
    → has_live code (rank severity) (raise_new e code severity message r).1.alarms ≡ true
unfolding raise_new
new-accepted e code severity message r short h =
    let a = fresh_alarm e code severity message in
    let live = fresh-is_live e code severity message short in
    elim (Option-cases (oldest_cleared r.alarms 0 none 0xFFFFFFFF 0xFFFFFFFF)) [
      | inl full ↦
          let here = has_live-last code (rank severity) r.alarms a live in
          let added = append-alarms e code severity message r in ground arith
      | inr (i, found) ↦
          let here = has_live-last code (rank severity) r.alarms a live in
          let added = append-alarms e code severity message r in
          let t = record r { alarms = shift_out i r.alarms } in
          let there = has_live-last code (rank severity) t.alarms a live in
          let added_there = append-alarms e code severity message t in ground arith
    ]

find_from-match :
    (code : List ℕ) (xs : List Alarm) (i j : ℕ)
    → find_from code xs i ≡ some j
    → (i ≤ j)
      × (j < i + length xs)
      × (bytes_eq (take code_len (get_or xs (j - i) no_alarm).code) (take code_len code) ≡ true)
unfolding find_from
find_from-match code [] i j h = cc
find_from-match code (a ∷ xs) i j h =
    elim (Bool-cases (bytes_eq (take code_len a.code) (take code_len code))) [
      | inl hit ↦
          let here : i ≡ j = ground arith in
          let at : j - i ≡ 0 = omega arith in
          (
            omega arith,
            omega arith,
            ap
                  (λ (t : ℕ).
                    bytes_eq (take code_len (get_or (a ∷ xs) t no_alarm).code) (take code_len code))
                  at
                ∙ hit,
          )
      | inr miss ↦
          let (low, high, match) = find_from-match code xs (i + 1) j (ground arith) in
          let at : j - i ≡ suc (j - (i + 1)) = omega arith in
          (
            omega arith,
            omega arith,
            ap
                  (λ (t : ℕ).
                    bytes_eq (take code_len (get_or (a ∷ xs) t no_alarm).code) (take code_len code))
                  at
                ∙ match,
          )
    ]

has_live-set_here :
    (c : List ℕ) (k i : ℕ) (a : Alarm) (xs : List Alarm)
    → i < length xs
    → is_live c k a ≡ true
    → has_live c k (set xs i a) ≡ true
has_live-set_here c k i a [] h live = ground arith
has_live-set_here c k zero a (x ∷ xs) h live = ground arith
has_live-set_here c k (suc i) a (x ∷ xs) h live =
    let rest = has_live-set_here c k i a xs (ground arith) live in ground arith

refresh-raised :
    (code : List ℕ) (e : Env) (severity : Severity) (a : Alarm)
    → bytes_eq (take code_len a.code) (take code_len code) ≡ true
    → is_live code (rank severity) (refresh e severity a).1 ≡ true
unfolding refresh
refresh-raised code e severity a h = ground arith

existing-accepted :
    (e : Env) (code : List ℕ) (i : ℕ) (severity : Severity) (message : Option (List ℕ))
    (r : Registry)
    → find_idx code r ≡ some i
    → has_live code (rank severity) (raise_existing e i severity message r).1.alarms ≡ true
unfolding raise_existing find_idx
existing-accepted e code i severity message r found =
    let a = get_or r.alarms i no_alarm in
    let m = refresh_message message (refresh e severity a) in
    let (low, high, match) = find_from-match code r.alarms 0 i found in
    let at : i - 0 ≡ i = omega arith in
    let live = refresh_message-is_live code (rank severity) message (refresh e severity a) (
      refresh-raised code e severity a (
        ap
          (λ (t : ℕ).
            bytes_eq (take code_len (get_or r.alarms t no_alarm).code) (take code_len code))
          (sym at)
        ∙ match)) in
    let kept = has_live-set_here code (rank severity) i m.1 r.alarms (omega arith) live in
    let saved = save-alarms e (record r { alarms = set r.alarms i m.1; dirty = true }) in
    ground arith

-- An accepted raise is visible: when a raise of a code of at most 31 bytes is answered with any of the
-- three ACCEPTED results, the registry holds an entry for the code that is not cleared, of at least the
-- severity raised, whether the alarm was new, cleared before or still live.
pub raise_is_live :
    (e : Env) (code : List ℕ) (severity : Severity) (message : Option (List ℕ)) (r : Registry)
    → length code ≤ 31
    → is_accepted (raise_tracked e (some code) severity message r).0 ≡ true
    → has_live code (rank severity) (raise_tracked e (some code) severity message r).1.alarms ≡ true
unfolding raise_tracked raise_unlocked
raise_is_live e code severity message r short h =
    let t = (lock e r).1 in
    elim (Bool-cases (lock e r).0) [
      | inl held ↦ elim (Option-cases (find_idx code t)) [
        | inl absent ↦
            let made = new-accepted e code severity message t short (ground arith) in ground arith
        | inr (i, found) ↦
            let kept = existing-accepted e code i severity message t found in ground arith
      ]
      | inr refused ↦ ground arith
    ]

abbrev Persists : ℕ → RaiseResult × Registry → Type 0
Persists g (result, t) =
    result ≡ accepted_persisted
    → (t.nvs ≡ t.alarms) × (t.dirty ≡ false) × (t.generation ≡ (g + 1) % 2 ^ 16)

save-Persists : (e : Env) (r : Registry) → Persists r.generation (saved_result (save_unlocked e r))
unfolding save_unlocked
save-Persists e r h = ground arith

append-Persists :
    (e : Env) (code : List ℕ) (severity : Severity) (message : Option (List ℕ)) (r : Registry)
    → Persists r.generation (append_alarm e code severity message r)
unfolding append_alarm
append-Persists e code severity message r =
    save-Persists e
      (record r { alarms = r.alarms ++ (fresh_alarm e code severity message ∷ []); dirty = true })

new-Persists :
    (e : Env) (code : List ℕ) (severity : Severity) (message : Option (List ℕ)) (r : Registry)
    → Persists r.generation (raise_new e code severity message r)
unfolding raise_new
new-Persists e code severity message r h =
    let fits = append-Persists e code severity message r in
    elim (Option-cases (oldest_cleared r.alarms 0 none 0xFFFFFFFF 0xFFFFFFFF)) [
      | inl full ↦ ground arith
      | inr (i, found) ↦
          let evicted =
            append-Persists e code severity message (record r { alarms = shift_out i r.alarms }) in
          ground arith
    ]

existing-Persists :
    (e : Env) (i : ℕ) (severity : Severity) (message : Option (List ℕ)) (r : Registry)
    → Persists r.generation (raise_existing e i severity message r)
unfolding raise_existing
existing-Persists e i severity message r h =
    let m = refresh_message message (refresh e severity (get_or r.alarms i no_alarm)) in
    let saved = save-Persists e (record r { alarms = set r.alarms i m.1; dirty = true }) in
    ground arith

unlocked-Persists :
    (e : Env) (code : Option (List ℕ)) (severity : Severity) (message : Option (List ℕ))
    (r : Registry)
    → Persists r.generation (raise_unlocked e code severity message r)
unfolding raise_unlocked
unlocked-Persists e none severity message r h = ground arith
unlocked-Persists e (some code) severity message r h = elim (Option-cases (find_idx code r)) [
  | inl absent ↦ let made = new-Persists e code severity message r in ground arith
  | inr (i, found) ↦ let kept = existing-Persists e i severity message r in ground arith
]

lock-generation : (e : Env) (r : Registry) → (lock e r).1.generation ≡ r.generation
unfolding lock
lock-generation e r = ground arith

-- What the result ACCEPTED_PERSISTED promises: the record in NVS holds exactly the alarms of the registry,
-- nothing is left to write, and the generation is one more than before, modulo 2^16.
pub raise_persists :
    (e : Env) (code : Option (List ℕ)) (severity : Severity) (message : Option (List ℕ))
    (r : Registry)
    → (raise_tracked e code severity message r).0 ≡ accepted_persisted
    → let t = (raise_tracked e code severity message r).1 in
      (t.nvs ≡ t.alarms) × (t.dirty ≡ false) × (t.generation ≡ (r.generation + 1) % 2 ^ 16)
unfolding raise_tracked
raise_persists e code severity message r h =
    let same = lock-generation e r in
    let made = unlocked-Persists e code severity message (lock e r).1 in
    elim (Bool-cases (lock e r).0) [ inl held ↦ ground arith | inr refused ↦ ground arith ]
