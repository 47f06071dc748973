-- ===== src/Emergency/Relay.antt =====
-- firmware/Drivers/EmergencyRelayDriver.cpp: the emergency relay and the E-stop line. `production`
-- says whether PRODUCTION_BUILD is defined.
use pltsmonitoring_firmware.Prelude.{ℕ, ◌==◌, if◌then◌else◌, Bool, true, false, not, ◌&&◌, ◌||◌}
use pltsmonitoring_firmware.Emergency.{ℤ, pos, ltb_ℤ, Driver}

abbrev pub eq_ℤ : ℤ → ℤ → Bool
eq_ℤ a b = not (ltb_ℤ a b) && not (ltb_ℤ b a)

abbrev pub bool_eq : Bool → Bool → Bool
bool_eq true b = b
bool_eq false b = not b

-- `setEnergized`, and the shadow state of `_relayWrite`.
unfoldable pub set_energized : Bool → Driver → Driver
set_energized on d = record d { energized = on }

unfoldable pub apply_pins : Bool → ℕ → ℤ → Bool → Driver → Driver
apply_pins production relay_pin estop_pin estop_enabled d =
    let changes =
      not (relay_pin == d.relay_pin)
      || not (eq_ℤ estop_pin d.estop_pin)
      || not (bool_eq estop_enabled d.estop_enabled) in
    if production && (changes && d.energized) then record d { pins_refused = true } else record d {
      pins_refused = false;
      relay_pin = relay_pin;
      estop_pin = estop_pin;
      estop_enabled = estop_enabled;
    }

-- `isEstopOpen`, given the level of the line.
unfoldable pub is_estop_open : Bool → Driver → Bool
is_estop_open line_high d =
    if not d.estop_enabled || ltb_ℤ d.estop_pin (pos 0) then false else line_high
