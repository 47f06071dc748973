-- ===== src/Soc/Bounded.antt =====
-- The range of the state of charge (firmware/Services/SocStateMachine.cpp).
use pltsmonitoring_firmware.Prelude.{
  ℕ, if◌then◌else◌, Bool, true, false, List, ◌≡◌, ◌⊎◌, inl, inr, arith,
}
use pltsmonitoring_firmware.Measure.{Float, Quality, valid}
use pltsmonitoring_firmware.Soc.{
  Arithmetic, full_confirmed, Persisted, Soc, SocConfig, SocEnv, elapsed,
}
use pltsmonitoring_firmware.Soc.Store.{
  clamp_soc, voltage_to_soc_rough, save_to_nvs, synchronize_from_voltage, set_soc,
  set_coulomb_baseline,
}
use pltsmonitoring_firmware.Soc.Tick.{integrate, resolve_at_rest, confirm_full, full_machine, tick}

-- The literals 0 and 100 are finite and in order.
pub record IsOrdered (fl : Float) : Type 0 where
  pub finite_0 : fl.is_finite (fl.tenths 0) ≡ true
  pub finite_100 : fl.is_finite (fl.tenths 1000) ≡ true
  pub not_0_0 : fl.lt (fl.tenths 0) (fl.tenths 0) ≡ false
  pub not_100_0 : fl.lt (fl.tenths 1000) (fl.tenths 0) ≡ false
  pub not_100_100 : fl.lt (fl.tenths 1000) (fl.tenths 1000) ≡ false

-- A number from 0 to 100.
pub record IsPercent (fl : Float) (x : fl.F) : Type 0 where
  pub finite : fl.is_finite x ≡ true
  pub low : fl.lt x (fl.tenths 0) ≡ false
  pub high : fl.lt (fl.tenths 1000) x ≡ false

module _ (ar : Arithmetic) (o : IsOrdered ar.fl) where
  open ar use {fl}
  open fl use {F}

  clamp-IsPercent : (x : F) → IsPercent fl (clamp_soc ar x)
  unfolding clamp_soc
  clamp-IsPercent x = ground arith

  either :
      (b : Bool) (x y : F) → IsPercent fl x → IsPercent fl y → IsPercent fl (if b then x else y)
  either true x y p q = p
  either false x y p q = q

  full-IsPercent : IsPercent fl (fl.tenths 1000)
  full-IsPercent = record { finite = o.finite_100; low = o.not_100_0; high = o.not_100_100 }

  module _ (layout : Persisted F → List ℕ) (c : SocConfig F) (e : SocEnv) where
    save_keeps : (s : Soc F) → (save_to_nvs ar layout c e s).1.soc ≡ s.soc
    unfolding save_to_nvs
    save_keeps s = ground arith

    integrate-IsPercent :
        (i : F) (dt now : ℕ) (s : Soc F)
        → IsPercent fl s.soc
        → IsPercent fl (integrate ar c i dt now s).soc
    unfolding integrate
    integrate-IsPercent i dt now s v = either s.soc_valid _ _ (clamp-IsPercent _) v

    resolve_soc :
        (v i : F) (now : ℕ) (s : Soc F)
        → ((resolve_at_rest ar layout c e v i now s).soc ≡ s.soc)
          ⊎ ((resolve_at_rest ar layout c e v i now s).soc
              ≡ clamp_soc ar (voltage_to_soc_rough ar v))
    unfolding resolve_at_rest
    resolve_soc v i now s = ground arith

    confirm_soc :
        (v i : F) (now : ℕ) (s : Soc F)
        → (confirm_full ar layout c e v i now s).soc ≡ fl.tenths 1000
    unfolding confirm_full
    confirm_soc v i now s =
        let full = record s {
          soc = fl.tenths 1000;
          baseline = ar.mul c.capacity (fl.tenths 5);
          soc_valid = true;
          from_ocv = false;
          state = full_confirmed;
          last_sync = e.unix_time;
        } in
        ground (arith, save_keeps full)

    machine_soc :
        (v i : F) (now : ℕ) (s : Soc F)
        → ((full_machine ar layout c e v i now s).soc ≡ s.soc)
          ⊎ ((full_machine ar layout c e v i now s).soc ≡ fl.tenths 1000)
    unfolding full_machine
    machine_soc v i now s = let k = confirm_soc v i now s in ground arith

    resolve-IsPercent :
        (v i : F) (now : ℕ) (s : Soc F)
        → IsPercent fl s.soc
        → IsPercent fl (resolve_at_rest ar layout c e v i now s).soc
    resolve-IsPercent v i now s p = elim (resolve_soc v i now s) [
      | inl same ↦ rw same p
      | inr new ↦ rw new (clamp-IsPercent (voltage_to_soc_rough ar v))
    ]

    machine-IsPercent :
        (v i : F) (now : ℕ) (s : Soc F)
        → IsPercent fl s.soc
        → IsPercent fl (full_machine ar layout c e v i now s).soc
    machine-IsPercent v i now s p = elim (machine_soc v i now s) [
      | inl same ↦ rw same p
      | inr full ↦ rw full full-IsPercent
    ]

    -- The state of charge stays a finite number from 0 to 100 through every tick, whatever is measured,
    -- NaN and infinities included, and through the explicit synchronizations. The literals 0 and 100 are
    -- finite and compare as they should.
    pub tick-IsPercent :
        (v i : F) (vq iq : Quality) (now : ℕ) (s : Soc F)
        → IsPercent fl s.soc
        → IsPercent fl (tick ar layout c e v i vq iq now s).soc
          × IsPercent fl (synchronize_from_voltage ar layout c e v s).soc
          × IsPercent fl (set_soc ar layout c e v s).soc
          × IsPercent fl (set_coulomb_baseline ar layout c e v s).soc
    unfolding tick synchronize_from_voltage set_soc set_coulomb_baseline
    tick-IsPercent v i vq iq now s p =
        let thawed = record s { frozen = false; last_quality = valid } in
        let counted = integrate ar c i (elapsed now s.last_ms) now thawed in
        let moved = machine-IsPercent v i now (resolve_at_rest ar layout c e v i now counted) (
          resolve-IsPercent v i now counted
            (integrate-IsPercent i (elapsed now s.last_ms) now thawed p)) in
        (
          ground arith,
          rw save_keeps (clamp-IsPercent _),
          rw save_keeps (clamp-IsPercent v),
          clamp-IsPercent _,
        )
