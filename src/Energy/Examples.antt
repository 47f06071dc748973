-- ===== src/Energy/Examples.antt =====
-- The counters at work on tenths as numbers.
use pltsmonitoring_firmware.Prelude.{
  ℕ, ◌+◌, ◌-◌, ◌*◌, ◌/◌, ltb, leb, ◌&&◌, true, false, none, List, [], ◌∷◌, ◌≡◌, ◌⊎◌, inl, inr, Bool,
  Option, some, arith, refl,
}
use pltsmonitoring_firmware.Measure.{Float, valid, sensor_error}
use pltsmonitoring_firmware.Soc.{Arithmetic}
use pltsmonitoring_firmware.Energy.{Six, zero_six, derived, Energy, SaveEnv, save_to_nvs, begin}
use pltsmonitoring_firmware.Energy.Count.{
  Sample, IsOrdered, SpreadsNan, Accumulates, all_charging, ticks, ticks-Accumulates,
  nan_sample_poisons,
}
use pltsmonitoring_firmware.Energy.Keep.{all_stored, begin-save_to_nvs}

abbrev scaled : Float
scaled = record {
  F = ℕ;
  nan = 0;
  is_finite = λ x. true;
  lt = ltb;
  le = leb;
  add = λ x y. x + y;
  sub = λ x y. x - y;
  fabs = λ x. x;
  tenths = λ n. n;
}

abbrev toy : Arithmetic
toy = record {
  fl = scaled;
  mul = λ x y. x * y / 10;
  div = λ x y. x * 10 / y;
  neg = λ x. 0;
  of_u32 = λ n. n * 10;
  hundredths = λ n. n / 10;
}

abbrev layout : Six ℕ → List ℕ
layout x = x.charge_ah ∷ x.discharge_ah ∷ []

abbrev some_charge : Six ℕ
some_charge = record (zero_six toy) { charge_ah = 120; discharge_ah = 70 }

abbrev counting : Energy ℕ
counting = record {
  counters = derived toy 2000 some_charge;
  last_ms = 1000;
  last_dt_ms = 1000;
  last_integration_ms = 1000;
  last_voltage = 520;
  last_current = 100;
  integrating = true;
  persist_failures = 0;
  legacy_used = false;
  block = none;
  legacy = zero_six toy;
  legacy_there = false;
}

abbrev works : SaveEnv ℕ
works = record { opens = true; keys = all_stored; whole = true; same = true; left = none }

-- Tenths with a NaN, `none`.
abbrev both : (ℕ → ℕ → ℕ) → Option ℕ → Option ℕ → Option ℕ
both op (some a) (some b) = some (op a b)
both op (some a) none = none
both op none _ = none

abbrev holds : (ℕ → ℕ → Bool) → Option ℕ → Option ℕ → Bool
holds test (some a) (some b) = test a b
holds test (some a) none = false
holds test none _ = false

abbrev is_number : Option ℕ → Bool
is_number (some a) = true
is_number none = false

abbrev negative : Option ℕ → Option ℕ
negative (some a) = some 0
negative none = none

abbrev with_nan : Arithmetic
with_nan = record {
  fl = record {
    F = Option ℕ;
    nan = none;
    is_finite = is_number;
    lt = holds ltb;
    le = holds leb;
    add = both (λ x y. x + y);
    sub = both (λ x y. x - y);
    fabs = λ x. x;
    tenths = λ n. some n;
  };
  mul = both (λ x y. x * y / 10);
  div = both (λ x y. x * 10 / y);
  neg = negative;
  of_u32 = λ n. some (n * 10);
  hundredths = λ n. some (n / 10);
}

with_nan-lt_le : (a b : Option ℕ) → holds ltb a b ≡ true → holds leb a b ≡ true
with_nan-lt_le (some a) (some b) h = ground arith
with_nan-lt_le (some a) none h = absurd (ground arith)
with_nan-lt_le none b h = absurd (ground arith)

with_nan-le_trans :
    (a b c : Option ℕ) → holds leb a b ≡ true → holds leb b c ≡ true → holds leb a c ≡ true
with_nan-le_trans (some a) (some b) (some c) h k = ground arith
with_nan-le_trans (some a) (some b) none h k = absurd (ground arith)
with_nan-le_trans (some a) none c h k = absurd (ground arith)
with_nan-le_trans none b c h k = absurd (ground arith)

with_nan-add_up :
    (a d : Option ℕ)
    → holds leb (some 0) d ≡ true
    → (holds leb a (both (λ x y. x + y) a d) ≡ true) ⊎ (is_number (both (λ x y. x + y) a d) ≡ false)
with_nan-add_up (some a) (some d) h = inl (ground arith)
with_nan-add_up (some a) none h = inr refl
with_nan-add_up none d h = inr refl

with_nan-add_neg :
    (a d : Option ℕ)
    → holds leb (some 0) d ≡ false
    → (holds leb a (both (λ x y. x + y) a (negative d)) ≡ true)
      ⊎ (is_number (both (λ x y. x + y) a (negative d)) ≡ false)
with_nan-add_neg (some a) (some d) h = inl (ground arith)
with_nan-add_neg (some a) none h = inr refl
with_nan-add_neg none d h = inr refl

with_nan-add_lost :
    (a d : Option ℕ) → is_number a ≡ false → is_number (both (λ x y. x + y) a d) ≡ false
with_nan-add_lost (some a) d h = absurd (ground arith)
with_nan-add_lost none d h = refl

with_nan-add_sign :
    (a b : Option ℕ)
    → holds leb (some 0) a ≡ true
    → holds leb (some 0) b ≡ true
    → holds leb (some 0) (both (λ x y. x + y) a b) ≡ true
with_nan-add_sign (some a) (some b) h k = ground arith
with_nan-add_sign (some a) none h k = absurd (ground arith)
with_nan-add_sign none b h k = absurd (ground arith)

with_nan-mul_sign :
    (a : Option ℕ) (n : ℕ)
    → holds leb (some 0) a ≡ true
    → holds leb (some 0) (both (λ x y. x * y / 10) a (some n)) ≡ true
with_nan-mul_sign (some a) n h = ground arith
with_nan-mul_sign none n h = absurd (ground arith)

with_nan-IsOrdered : IsOrdered with_nan
with_nan-IsOrdered = record {
  lt_le = with_nan-lt_le;
  le_trans = with_nan-le_trans;
  add_up = with_nan-add_up;
  add_neg = with_nan-add_neg;
  add_lost = with_nan-add_lost;
  le_zero = refl;
  add_sign = with_nan-add_sign;
  half_sign = λ a h. with_nan-mul_sign a 5 h;
  hours_sign = λ a dt forward h. with_nan-mul_sign a (dt * 10 * 10 / 36000000) h;
}

with_nan-add_nan : (a : Option ℕ) → both (λ x y. x + y) a none ≡ none
with_nan-add_nan (some a) = refl
with_nan-add_nan none = refl

with_nan-le_nan : (a : Option ℕ) → holds leb a none ≡ false
with_nan-le_nan (some a) = refl
with_nan-le_nan none = refl

with_nan-SpreadsNan : SpreadsNan with_nan
with_nan-SpreadsNan = record {
  add_nan = with_nan-add_nan;
  nan_add = λ a. refl;
  nan_mul = λ a. refl;
  neg_nan = refl;
  le_nan = with_nan-le_nan;
}

abbrev ten : Six (Option ℕ)
ten = record (zero_six with_nan) { charge_ah = some 120; discharge_ah = some 70 }

abbrev measuring : Energy (Option ℕ)
measuring = record {
  counters = derived with_nan (some 2000) ten;
  last_ms = 1000;
  last_dt_ms = 1000;
  last_integration_ms = 1000;
  last_voltage = some 520;
  last_current = some 100;
  integrating = true;
  persist_failures = 0;
  legacy_used = false;
  block = none;
  legacy = zero_six with_nan;
  legacy_there = false;
}

abbrev sampled : ℕ → Sample (Option ℕ)
sampled at = record {
  voltage = some 520;
  current = some 100;
  voltage_quality = valid;
  current_quality = valid;
  at = at;
}

abbrev sensor_gap : Sample (Option ℕ)
sensor_gap = record (sampled 2000) { current = none; current_quality = sensor_error }

abbrev two_samples : List (Sample (Option ℕ))
two_samples = sampled 2000 ∷ sampled 3000 ∷ []

ticks-Accumulates_example :
    let y = ticks with_nan (some 2000) two_samples measuring in
    Accumulates with_nan (some 2000) ten y.counters.six
    × ((all_charging with_nan (some 2000) two_samples && true ≡ false)
        ⊎ (y.counters.six.discharge_ah ≡ some 70))
ticks-Accumulates_example =
    ticks-Accumulates with_nan (some 2000) with_nan-IsOrdered two_samples measuring

nan_sample_poisons_example :
    (ticks with_nan
      (some 2000)
      (sensor_gap ∷ sampled 3000 ∷ sampled 4000 ∷ [])
      measuring).counters.six.discharge_ah
    ≡ none
nan_sample_poisons_example =
    nan_sample_poisons with_nan (some 2000) with_nan-SpreadsNan sensor_gap (sampled 3000)
      (sampled 4000 ∷ []) measuring refl refl (λ e. cc) (refl, refl, refl, refl) (ground arith)
      (ground arith)

was_saved : (save_to_nvs toy layout 2000 works counting).0 ≡ true
unfolding save_to_nvs
was_saved = refl

-- The block is lost after the save.
begin-save_to_nvs_lost :
    (begin toy layout 2000 true works
      (record ((save_to_nvs toy layout 2000 works counting).1) { block = none })).counters.six
    ≡ some_charge
begin-save_to_nvs_lost =
    begin-save_to_nvs toy layout 2000 works works counting none was_saved refl (inr (refl, refl))
      refl
