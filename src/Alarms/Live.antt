-- ===== src/Alarms/Live.antt =====
-- Alarms that are still live, in firmware/Services/AlarmRegistry.cpp, and what a raise does to them.
use pltsmonitoring_firmware.Prelude.{
  ℕ, zero, suc, ◌+◌, ◌-◌, ◌≤◌, ◌<◌, ltb, leb, ◌==◌, bytes_eq, Bool, true, false, not, ◌&&◌, ◌||◌,
  Bool-cases, Option, some, List, [], ◌∷◌, ◌++◌, take, length, get_or, set, ◌≡◌, ◌⊎◌, inl, inr, ap,
  ◌∙◌, arith,
}
use pltsmonitoring_firmware.Alarms.{Alarm, rank, is_cleared, Registry, Env, code_len}
use pltsmonitoring_firmware.Alarms.Save.{save_unlocked}
use pltsmonitoring_firmware.Alarms.Raise.{no_alarm, oldest_cleared, shift_out}

-- An entry for the code that is not cleared, of at least the severity `k`.
abbrev pub is_live : List ℕ → ℕ → Alarm → Bool
is_live c k a =
    not (is_cleared a)
    && (bytes_eq (take code_len a.code) (take code_len c) && leb k (rank a.severity))

abbrev pub has_live : List ℕ → ℕ → List Alarm → Bool
has_live c k [] = false
has_live c k (a ∷ rest) = is_live c k a || has_live c k rest

pub save-alarms : (e : Env) (r : Registry) → (save_unlocked e r).1.alarms ≡ r.alarms
unfolding save_unlocked
save-alarms e r = ground arith

pub has_live-append :
    (c : List ℕ) (k : ℕ) (xs ys : List Alarm)
    → has_live c k xs ≡ true
    → has_live c k (xs ++ ys) ≡ true
has_live-append c k [] ys h = cc
has_live-append c k (a ∷ xs) ys h = elim (Bool-cases (is_live c k a)) [
  | inl here ↦ ground arith
  | inr later ↦ let rest = has_live-append c k xs ys (ground arith) in ground arith
]

pub has_live-last :
    (c : List ℕ) (k : ℕ) (xs : List Alarm) (a : Alarm)
    → is_live c k a ≡ true
    → has_live c k (xs ++ (a ∷ [])) ≡ true
has_live-last c k [] a h = ground arith
has_live-last c k (x ∷ xs) a h = let rest = has_live-last c k xs a h in ground arith

pub has_live-shift_out :
    (c : List ℕ) (k i : ℕ) (xs : List Alarm)
    → is_cleared (get_or xs i no_alarm) ≡ true
    → has_live c k xs ≡ true
    → has_live c k (shift_out i xs) ≡ true
unfolding shift_out
has_live-shift_out c k i [] old h = cc
has_live-shift_out c k zero (a ∷ xs) old h = ground arith
has_live-shift_out c k (suc i) (a ∷ xs) old h = elim (Bool-cases (is_live c k a)) [
  | inl here ↦ ground arith
  | inr later ↦ let rest = has_live-shift_out c k i xs old (ground arith) in ground arith
]

pub has_live-set :
    (c : List ℕ) (k i : ℕ) (a : Alarm) (xs : List Alarm)
    → (is_live c k (get_or xs i no_alarm) ≡ true → is_live c k a ≡ true)
    → has_live c k xs ≡ true
    → has_live c k (set xs i a) ≡ true
has_live-set c k i a [] keeps h = cc
has_live-set c k zero a (x ∷ xs) keeps h = elim (Bool-cases (is_live c k x)) [
  | inl here ↦ let now = keeps here in ground arith
  | inr later ↦ ground arith
]
has_live-set c k (suc i) a (x ∷ xs) keeps h = elim (Bool-cases (is_live c k x)) [
  | inl here ↦ ground arith
  | inr later ↦ let rest = has_live-set c k i a xs keeps (ground arith) in ground arith
]

-- The scan finds a cleared entry, or what it started with.
pub oldest_cleared-cleared :
    (xs : List Alarm) (i : ℕ) (o : Option ℕ) (p q j : ℕ)
    → oldest_cleared xs i o p q ≡ some j
    → (o ≡ some j)
      ⊎ ((i ≤ j) × (j < i + length xs) × (is_cleared (get_or xs (j - i) no_alarm) ≡ true))
unfolding oldest_cleared
oldest_cleared-cleared [] i o p q j h = inl h
oldest_cleared-cleared (a ∷ xs) i o p q j h =
    elim (Bool-cases
      (is_cleared a && (ltb a.cleared_at p || (a.cleared_at == p && ltb a.raised_at q)))) [
        | inl older ↦
            elim (oldest_cleared-cleared xs (i + 1) (some i) a.cleared_at a.raised_at j
              (ground arith)) [
                | inl same ↦
                    let here : i ≡ j = ground arith in
                    let at : j - i ≡ 0 = omega arith in
                    inr (
                      omega arith,
                      omega arith,
                      ap (λ (t : ℕ). is_cleared (get_or (a ∷ xs) t no_alarm)) at ∙ ground arith,
                    )
                | inr (low, high, old) ↦
                    let at : j - i ≡ suc (j - (i + 1)) = omega arith in
                    inr (
                      omega arith,
                      omega arith,
                      ap (λ (t : ℕ). is_cleared (get_or (a ∷ xs) t no_alarm)) at ∙ old,
                    )
              ]
        | inr younger ↦ elim (oldest_cleared-cleared xs (i + 1) o p q j (ground arith)) [
          | inl same ↦ inl same
          | inr (low, high, old) ↦
              let at : j - i ≡ suc (j - (i + 1)) = omega arith in
              inr (
                omega arith,
                omega arith,
                ap (λ (t : ℕ). is_cleared (get_or (a ∷ xs) t no_alarm)) at ∙ old,
              )
        ]
      ]
