-- ===== src/Energy/Count.antt =====
-- What the counters of `EnergyCounterService::tick` (firmware/Services/EnergyCounters.cpp) do over a
-- sequence of samples. What the theorems use of `float` stands in `IsOrdered` and `SpreadsNan`.
use pltsmonitoring_firmware.Prelude.{
  ℕ, ◌<◌, ◌≤◌, ◌&&◌, Bool, true, false, Bool-cases, List, [], ◌∷◌, ◌≡◌, ◌≢◌, ◌⊎◌, inl, inr, refl,
  sym, ◌∙◌, arith,
}
use pltsmonitoring_firmware.Measure.{Quality, is_valid}
use pltsmonitoring_firmware.Soc.{Arithmetic, elapsed}
use pltsmonitoring_firmware.Energy.{Six, Energy, tick, counted}

-- The arguments of one call.
pub record Sample (F : Type 0) : Type 0 where
  pub voltage : F
  pub current : F
  pub voltage_quality : Quality
  pub current_quality : Quality
  pub at : ℕ

-- The order of floating-point numbers and the signs of their sums and products; a sum that is no number
-- is not finite. Of a product only what is true of an infinite factor too is taken.
pub record IsOrdered (ar : Arithmetic) : Type 0 where
  pub lt_le : (a b : ar.fl.F) → ar.fl.lt a b ≡ true → ar.fl.le a b ≡ true
  pub le_trans : (a b c : ar.fl.F) → ar.fl.le a b ≡ true → ar.fl.le b c ≡ true → ar.fl.le a c ≡ true
  pub add_up :
      (a d : ar.fl.F)
      → ar.fl.le (ar.fl.tenths 0) d ≡ true
      → (ar.fl.le a (ar.fl.add a d) ≡ true) ⊎ (ar.fl.is_finite (ar.fl.add a d) ≡ false)
  pub add_neg :
      (a d : ar.fl.F)
      → ar.fl.le (ar.fl.tenths 0) d ≡ false
      → (ar.fl.le a (ar.fl.add a (ar.neg d)) ≡ true)
        ⊎ (ar.fl.is_finite (ar.fl.add a (ar.neg d)) ≡ false)
  pub add_lost :
      (a d : ar.fl.F) → ar.fl.is_finite a ≡ false → ar.fl.is_finite (ar.fl.add a d) ≡ false
  pub le_zero : ar.fl.le (ar.fl.tenths 0) (ar.fl.tenths 0) ≡ true
  pub add_sign :
      (a b : ar.fl.F)
      → ar.fl.le (ar.fl.tenths 0) a ≡ true
      → ar.fl.le (ar.fl.tenths 0) b ≡ true
      → ar.fl.le (ar.fl.tenths 0) (ar.fl.add a b) ≡ true
  pub half_sign :
      (a : ar.fl.F)
      → ar.fl.le (ar.fl.tenths 0) a ≡ true
      → ar.fl.le (ar.fl.tenths 0) (ar.mul a (ar.fl.tenths 5)) ≡ true
  pub hours_sign :
      (a : ar.fl.F) (dt : ℕ)
      → 0 < dt
      → ar.fl.le (ar.fl.tenths 0) a ≡ true
      → ar.fl.le (ar.fl.tenths 0) (ar.mul a (ar.div (ar.of_u32 dt) (ar.fl.tenths 36000000))) ≡ true

-- NaN as an operand gives NaN, and no comparison with it holds.
pub record SpreadsNan (ar : Arithmetic) : Type 0 where
  pub add_nan : (a : ar.fl.F) → ar.fl.add a ar.fl.nan ≡ ar.fl.nan
  pub nan_add : (a : ar.fl.F) → ar.fl.add ar.fl.nan a ≡ ar.fl.nan
  pub nan_mul : (a : ar.fl.F) → ar.mul ar.fl.nan a ≡ ar.fl.nan
  pub neg_nan : ar.neg ar.fl.nan ≡ ar.fl.nan
  pub le_nan : (a : ar.fl.F) → ar.fl.le a ar.fl.nan ≡ false

module _ (ar : Arithmetic) (cap : ar.fl.F) where
  open ar use {fl}
  open fl use {F, nan, is_finite, lt, le, add, tenths}

  abbrev pub next : Sample F → Energy F → Energy F
  next x s = (tick ar cap x.voltage x.current x.voltage_quality x.current_quality x.at s).1

  unfoldable pub ticks : List (Sample F) → Energy F → Energy F
  ticks [] s = s
  ticks (x ∷ xs) s = ticks xs (next x s)

  -- A counter that was `a` and is `b`.
  abbrev pub Counts : F → F → Type 0
  Counts a b = (b ≡ a) ⊎ (le a b ≡ true) ⊎ (is_finite b ≡ false)

  abbrev pub Peaks : F → F → Type 0
  Peaks a b = (b ≡ a) ⊎ (le a b ≡ true)

  abbrev pub Accumulates : Six F → Six F → Type 0
  Accumulates x y =
      Counts x.charge_ah y.charge_ah
      × Counts x.discharge_ah y.discharge_ah
      × Peaks x.peak_charge_a y.peak_charge_a
      × Peaks x.peak_discharge_a y.peak_discharge_a

  -- A step of a counter: nothing, or a sum that grows or is not finite.
  abbrev Moves : F → F → Type 0
  Moves b c = (c ≡ b) ⊎ ((d : F) × (c ≡ add b d) × ((le b c ≡ true) ⊎ (is_finite c ≡ false)))

  tick_moves :
      (x : Sample F) (s : Energy F)
      → let y = next x s in
        (y.counters.six ≡ s.counters.six)
        ⊎ ((0 < elapsed x.at s.last_ms)
            × (y.counters.six
                ≡ counted ar x.voltage x.current s.last_voltage s.last_current
                    (elapsed x.at s.last_ms)
                    s.counters.six))
  unfolding tick
  tick_moves x s = ground arith

  tick_base :
      (x : Sample F) (s : Energy F)
      → ((next x s).last_current ≡ x.current) ⊎ ((next x s).last_current ≡ tenths 0)
  unfolding tick
  tick_base x s = ground arith

  -- No current of the samples is negative or NaN.
  abbrev pub all_charging : List (Sample F) → Bool
  all_charging [] = true
  all_charging (x ∷ xs) = le (tenths 0) x.current && all_charging xs

  module _ (o : IsOrdered ar) where
    Counts-Moves : (a b c : F) → Counts a b → Moves b c → Counts a c
    Counts-Moves a b c h (inl same) = rw same h
    Counts-Moves a b c (inl e) (inr (d, sum, inl up)) = inr (inl (rw (sym e) up))
    Counts-Moves a b c (inr (inl g)) (inr (d, sum, inl up)) = inr (inl (o.le_trans a b c g up))
    Counts-Moves a b c (inr (inr lost)) (inr (d, sum, inl up)) =
        inr (inr (rw sum (o.add_lost b d lost)))
    Counts-Moves a b c h (inr (d, sum, inr lost)) = inr (inr lost)

    Peaks-trans : (a b c : F) → Peaks a b → Peaks b c → Peaks a c
    Peaks-trans a b c h (inl same) = rw same h
    Peaks-trans a b c (inl e) (inr up) = inr (rw (sym e) up)
    Peaks-trans a b c (inr g) (inr up) = inr (o.le_trans a b c g up)

    counted-Moves :
        (v i last_v last_i : F) (dt : ℕ) (x : Six F)
        → let y = counted ar v i last_v last_i dt x in
          Moves x.charge_ah y.charge_ah
          × Moves x.discharge_ah y.discharge_ah
          × Peaks x.peak_charge_a y.peak_charge_a
          × Peaks x.peak_discharge_a y.peak_discharge_a
    unfolding counted
    counted-Moves v i last_v last_i dt x =
        let hours = ar.div (ar.of_u32 dt) (tenths 36000000) in
        let d = ar.mul (ar.mul (add i last_i) (tenths 5)) hours in
        let peak = Bool-cases (lt x.peak_charge_a i) in
        let low_peak = Bool-cases (lt x.peak_discharge_a (ar.neg i)) in
        (
          elim (Bool-cases (le (tenths 0) d)) [
            | inl up ↦ rw up (inr (d, refl, o.add_up x.charge_ah d up))
            | inr down ↦ rw down (inl refl)
          ],
          elim (Bool-cases (le (tenths 0) d)) [
            | inl up ↦ rw up (inl refl)
            | inr down ↦ rw down (inr (ar.neg d, refl, o.add_neg x.discharge_ah d down))
          ],
          elim peak [
            | inl over ↦ rw over (inr (o.lt_le _ _ over))
            | inr under ↦ rw under (inl refl)
          ],
          elim low_peak [
            | inl over ↦ rw over (inr (o.lt_le _ _ over))
            | inr under ↦ rw under (inl refl)
          ],
        )

    next-Accumulates :
        (x : Sample F) (from : Six F) (s : Energy F)
        → Accumulates from s.counters.six
        → Accumulates from (next x s).counters.six
    next-Accumulates x from s (ch, dch, pk, pkd) =
        let six = s.counters.six in
        let y =
          counted ar x.voltage x.current s.last_voltage s.last_current (elapsed x.at s.last_ms)
            six in
        elim (tick_moves x s) [
          | inl same ↦ rw same (ch, dch, pk, pkd)
          | inr (forward, moved) ↦
              let (a, b, c, d) =
                counted-Moves x.voltage x.current s.last_voltage s.last_current
                  (elapsed x.at s.last_ms) six in
              rw moved (
                Counts-Moves from.charge_ah six.charge_ah y.charge_ah ch a,
                Counts-Moves from.discharge_ah six.discharge_ah y.discharge_ah dch b,
                Peaks-trans from.peak_charge_a six.peak_charge_a y.peak_charge_a pk c,
                Peaks-trans from.peak_discharge_a six.peak_discharge_a y.peak_discharge_a pkd d,
              )
        ]

    ticks_on :
        (xs : List (Sample F)) (from : Six F) (s : Energy F)
        → Accumulates from s.counters.six
        → Accumulates from (ticks xs s).counters.six
    unfolding ticks
    ticks_on [] from s h = h
    ticks_on (x ∷ xs) from s h = ticks_on xs from (next x s) (next-Accumulates x from s h)

    counted_charging :
        (v i last_v last_i : F) (dt : ℕ) (x : Six F)
        → 0 < dt
        → le (tenths 0) i ≡ true
        → le (tenths 0) last_i ≡ true
        → (counted ar v i last_v last_i dt x).discharge_ah ≡ x.discharge_ah
    unfolding counted
    counted_charging v i last_v last_i dt x forward now before =
        let sum = o.add_sign i last_i now before in
        let up =
          o.hours_sign (ar.mul (add i last_i) (tenths 5)) dt forward
            (o.half_sign (add i last_i) sum) in
        rw up refl

    next_charging :
        (x : Sample F) (s : Energy F)
        → le (tenths 0) x.current ≡ true
        → le (tenths 0) s.last_current ≡ true
        → ((next x s).counters.six.discharge_ah ≡ s.counters.six.discharge_ah)
          × (le (tenths 0) (next x s).last_current ≡ true)
    next_charging x s now before = (
      elim (tick_moves x s) [
        | inl same ↦ rw same refl
        | inr (forward, moved) ↦ rw moved (
            counted_charging x.voltage x.current s.last_voltage s.last_current
              (elapsed x.at s.last_ms) s.counters.six forward now before)
      ],
      elim (tick_base x s) [ inl its ↦ rw its now | inr zeroed ↦ rw zeroed o.le_zero ],
    )

    ticks_charging :
        (xs : List (Sample F)) (s : Energy F)
        → all_charging xs ≡ true
        → le (tenths 0) s.last_current ≡ true
        → (ticks xs s).counters.six.discharge_ah ≡ s.counters.six.discharge_ah
    unfolding ticks
    ticks_charging [] s all before = refl
    ticks_charging (x ∷ xs) s all before =
        let (same, base) = next_charging x s (ground arith) before in
        ticks_charging xs (next x s) (ground arith) base ∙ same

    -- Over any sequence of ticks, whatever the samples, their qualities and the clock, the charge and the
    -- discharge in Ah never fall: each is the same, or at least what it was, or no finite number any
    -- more; and the two peaks never fall. And while no current is negative or NaN, the last one before
    -- the sequence included, the discharge stays exactly as it is: charging goes to the charge alone.
    -- `float` has the order and the signs of `IsOrdered`.
    pub ticks-Accumulates :
        (xs : List (Sample F)) (s : Energy F)
        → Accumulates s.counters.six (ticks xs s).counters.six
          × ((all_charging xs && le (tenths 0) s.last_current ≡ false)
              ⊎ ((ticks xs s).counters.six.discharge_ah ≡ s.counters.six.discharge_ah))
    ticks-Accumulates xs s = (
      ticks_on xs s.counters.six s (inl refl, inl refl, inl refl, inl refl),
      elim (Bool-cases (all_charging xs && le (tenths 0) s.last_current)) [
        | inl both ↦ inr (ticks_charging xs s (ground arith) (ground arith))
        | inr other ↦ inl other
      ],
    )

  module _ (h : SpreadsNan ar) where
    counted_nan :
        (v i last_v last_i : F) (dt : ℕ) (x : Six F)
        → (last_i ≡ nan) ⊎ (x.discharge_ah ≡ nan)
        → (counted ar v i last_v last_i dt x).discharge_ah ≡ nan
    unfolding counted
    counted_nan v i last_v last_i dt x (inl lost) =
        rw (lost, h.add_nan i, h.nan_mul (tenths 5), h.nan_mul _, h.le_nan (tenths 0), h.neg_nan)
          (h.add_nan x.discharge_ah)
    counted_nan v i last_v last_i dt x (inr lost) =
        let hours = ar.div (ar.of_u32 dt) (tenths 36000000) in
        let d = ar.mul (ar.mul (add i last_i) (tenths 5)) hours in
        elim (Bool-cases (le (tenths 0) d)) [
          | inl up ↦ rw up lost
          | inr down ↦ rw (down, lost) (h.nan_add (ar.neg d))
        ]

    next_keeps_nan :
        (x : Sample F) (s : Energy F)
        → s.counters.six.discharge_ah ≡ nan
        → (next x s).counters.six.discharge_ah ≡ nan
    next_keeps_nan x s lost = elim (tick_moves x s) [
      | inl same ↦ rw same lost
      | inr (forward, moved) ↦ rw moved (
          counted_nan x.voltage x.current s.last_voltage s.last_current (elapsed x.at s.last_ms)
            s.counters.six (inr lost))
    ]

    ticks_keep_nan :
        (xs : List (Sample F)) (s : Energy F)
        → s.counters.six.discharge_ah ≡ nan
        → (ticks xs s).counters.six.discharge_ah ≡ nan
    unfolding ticks
    ticks_keep_nan [] s lost = lost
    ticks_keep_nan (x ∷ xs) s lost = ticks_keep_nan xs (next x s) (next_keeps_nan x s lost)

    -- Both qualities valid and both values finite.
    abbrev pub IsGood : Sample F → Type 0
    IsGood x =
        (is_valid x.voltage_quality ≡ true)
        × (is_valid x.current_quality ≡ true)
        × (is_finite x.voltage ≡ true)
        × (is_finite x.current ≡ true)

    counting_tick :
        (x : Sample F) (s : Energy F)
        → IsGood x
        → s.last_ms ≢ 0
        → 0 < elapsed x.at s.last_ms
        → elapsed x.at s.last_ms ≤ 300000
        → (next x s).counters.six
          ≡ counted ar x.voltage x.current s.last_voltage s.last_current
              (elapsed x.at s.last_ms)
              s.counters.six
    unfolding tick
    counting_tick x s good later forward soon = ground arith

    gap_tick :
        (x : Sample F) (s : Energy F)
        → is_valid x.current_quality ≡ false
        → x.current ≡ nan
        → ((next x s).last_ms ≡ x.at) × ((next x s).last_current ≡ nan)
    unfolding tick
    gap_tick x s bad lost = ground arith

    -- One sample, at a time other than 0, whose current is NaN with a quality that is not valid makes the
    -- discharge in Ah NaN for good, when the next sample is good and at least 1 ms and at most five
    -- minutes later: no later tick restores it. `float` spreads NaN as `SpreadsNan` says.
    pub nan_sample_poisons :
        (gap good : Sample F) (xs : List (Sample F)) (s : Energy F)
        → is_valid gap.current_quality ≡ false
        → gap.current ≡ nan
        → gap.at ≢ 0
        → IsGood good
        → 0 < elapsed good.at gap.at
        → elapsed good.at gap.at ≤ 300000
        → (ticks (gap ∷ good ∷ xs) s).counters.six.discharge_ah ≡ nan
    unfolding ticks
    nan_sample_poisons gap good xs s bad lost later finite forward soon =
        let t = next gap s in
        let (time, base) = gap_tick gap s bad lost in
        let counts = counting_tick good t finite (rw time later) (rw time forward) (rw time soon) in
        ticks_keep_nan xs (next good t) (
          rw counts (
            counted_nan good.voltage good.current t.last_voltage t.last_current
              (elapsed good.at t.last_ms) t.counters.six (inl base)))
