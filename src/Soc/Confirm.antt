-- ===== src/Soc/Confirm.antt =====
-- When `SocStateMachine::tick` (firmware/Services/SocStateMachine.cpp) declares the battery full.
use pltsmonitoring_firmware.Prelude.{
  ℕ, ◌*◌, ◌%◌, ◌^◌, ◌≤◌, true, false, List, ◌≡◌, ◌≢◌, ◌⊎◌, inl, inr, refl,
}
use pltsmonitoring_firmware.Soc.{
  Arithmetic, SocState, normal, charging, full_candidate, full_confirmed, synchronized, Persisted,
  Soc, SocConfig, SocEnv, elapsed,
}
use pltsmonitoring_firmware.Soc.Tick.{is_full, trickles, defers}

module _ (ar : Arithmetic) (layout : Persisted ar.fl.F → List ℕ) (c : SocConfig ar.fl.F)
    (e : SocEnv) where
  open ar use {fl}
  open fl use {F}

  -- All that a confirmation asks of the state before the tick and of the sample.
  pub record IsConfirmable (v i : F) (now : ℕ) (s : Soc F) : Type 0 where
    pub candidate : s.state ≡ full_candidate
    pub full : is_full ar layout c v ≡ true
    pub trickle : trickles ar layout c i ≡ true
    pub persisted : c.persistence_sec * 1000 % 2 ^ 32 ≤ elapsed now s.full_start_ms
    pub undisputed : defers ar layout c s.evidence ≡ false

  state_cases : (st : SocState) → (st ≡ full_confirmed) ⊎ (st ≢ full_confirmed)
  state_cases normal = inr λ h. cc
  state_cases charging = inr λ h. cc
  state_cases full_candidate = inr λ h. cc
  state_cases full_confirmed = inl refl
  state_cases synchronized = inr λ h. cc
