-- ===== src/Measure.antt =====
-- Floating-point numbers as the firmware uses them, and the measurements of firmware/Core/Types.h.
-- The C++ `float` is a parameter: a type with the operations that the code calls.
use pltsmonitoring_firmware.Prelude.{ℕ, Bool, true, false, ◌&&◌}

-- `lt` and `le` are the operators `<` and `<=`, false on NaN; `tenths n` is the literal of n/10.
pub record Float : Type 1 where
  pub F : Type 0
  pub nan : F
  pub is_finite : F → Bool
  pub lt : F → F → Bool
  pub le : F → F → Bool
  pub add : F → F → F
  pub sub : F → F → F
  pub fabs : F → F
  pub tenths : ℕ → F

pub data Quality : Type 0 where
  valid stale invalid out_of_range sensor_error not_available : Quality
  estimated derived calibrating suspect : Quality

pub data Source : Type 0 where
  measured derived_source estimated_source : Source

pub record Measurement (F : Type 0) : Type 0 where
  pub value : F
  pub quality : Quality
  pub source : Source

abbrev pub is_valid : Quality → Bool
is_valid valid = true
is_valid _ = false

abbrev pub is_measured : Source → Bool
is_measured measured = true
is_measured _ = false

-- `Measurement::isSafetyUsable`.
unfoldable pub is_safety_usable : (fl : Float) → Measurement fl.F → Bool
is_safety_usable fl m = is_valid m.quality && is_measured m.source && fl.is_finite m.value
