-- ===== src/Soc/Examples.antt =====
-- The state of charge at work on tenths as numbers.
use pltsmonitoring_firmware.Prelude.{
  ℕ, ◌+◌, ◌-◌, ◌*◌, ◌/◌, ltb, leb, true, false, none, List, [], ◌∷◌, ◌≡◌, refl, arith,
}
use pltsmonitoring_firmware.Measure.{Float, valid}
use pltsmonitoring_firmware.Soc.{
  Arithmetic, full_candidate, Persisted, untouched, Soc, SocConfig, SocEnv,
}
use pltsmonitoring_firmware.Soc.Store.{
  get_soc, save_to_nvs, begin, synchronize_from_voltage, set_soc, set_coulomb_baseline,
}
use pltsmonitoring_firmware.Soc.Tick.{tick}
use pltsmonitoring_firmware.Soc.Bounded.{IsOrdered, IsPercent, tick-IsPercent}
use pltsmonitoring_firmware.Soc.Restore.{save_to_nvs-begin}

abbrev scaled : Float
scaled = record {
  F = ℕ;
  nan = 0;
  is_finite = λ x. true;
  lt = ltb;
  le = leb;
  add = λ x y. x + y;
  sub = λ x y. x - y;
  fabs = λ x. x;
  tenths = λ n. n;
}

abbrev toy : Arithmetic
toy = record {
  fl = scaled;
  mul = λ x y. x * y / 10;
  div = λ x y. x * 10 / y;
  neg = λ x. 0;
  of_u32 = λ n. n * 10;
  hundredths = λ n. n / 10;
}

abbrev layout : Persisted ℕ → List ℕ
layout p = p.soc ∷ p.baseline ∷ []

abbrev usual : SocConfig ℕ
usual = record {
  capacity = 2000;
  default_capacity = 2000;
  full_voltage = 540;
  low_voltage = 450;
  idle_current = 5;
  full_charge_current = 20;
  persistence_sec = 60;
  crit_soc = 100;
  low_soc = 200;
}

abbrev works : SocEnv
works = record { unix_time = 1700000000; opens = true; writes = true }

abbrev waiting : Soc ℕ
waiting = record {
  soc = 950;
  soc_valid = true;
  baseline = 900;
  state = full_candidate;
  last_sync = 1690000000;
  full_start_ms = 1000;
  usable = 2000;
  correction = record {
    timestamp = 0;
    old_soc = 0;
    new_soc = 0;
    voltage = 0;
    current = 0;
    duration_sec = 0;
  };
  evidence = record {
    bms_healthy = false;
    bms_agrees_full = false;
    cells_bad = false;
    mismatch_active = false;
    temp_valid = false;
    temperature_c = 0;
  };
  persist_failures = 0;
  last_ms = 61000;
  last_current = 10;
  frozen = false;
  last_quality = valid;
  rest_start_ms = 0;
  rest_satisfied = false;
  from_ocv = false;
  nvs = none;
  low_alarm = untouched;
}

scaled-IsOrdered : IsOrdered scaled
scaled-IsOrdered = record {
  finite_0 = refl;
  finite_100 = refl;
  not_0_0 = ground arith;
  not_100_0 = ground arith;
  not_100_100 = ground arith;
}

waiting-IsPercent : IsPercent scaled 950
waiting-IsPercent = record { finite = refl; low = ground arith; high = ground arith }

tick-IsPercent_example :
    IsPercent scaled (tick toy layout usual works 545 10 valid valid 62000 waiting).soc
    × IsPercent scaled (synchronize_from_voltage toy layout usual works 545 waiting).soc
    × IsPercent scaled (set_soc toy layout usual works 545 waiting).soc
    × IsPercent scaled (set_coulomb_baseline toy layout usual works 545 waiting).soc
tick-IsPercent_example =
    tick-IsPercent toy scaled-IsOrdered layout usual works 545 10 valid valid 62000 waiting
      waiting-IsPercent

was_saved : (save_to_nvs toy layout usual works waiting).0 ≡ true
unfolding save_to_nvs
was_saved = refl

save_to_nvs-begin_example :
    let y = begin toy layout usual true (save_to_nvs toy layout usual works waiting).1 in
    (get_soc toy y ≡ 950) × (y.baseline ≡ 900) × (y.last_sync ≡ 1690000000)
save_to_nvs-begin_example =
    save_to_nvs-begin toy layout usual works waiting refl waiting-IsPercent refl was_saved
