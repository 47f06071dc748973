-- ===== src/Expander/Examples.antt =====
-- The theorems on a relay bank with channel 0 on and a bus that works.
use pltsmonitoring_firmware.Prelude.{◌≡◌, true, false, [], ◌∷◌, refl, arith, some}
use pltsmonitoring_firmware.Expander.{Expander, Bus, set_channel, force_safety_all_off}
use pltsmonitoring_firmware.Expander.Register.{is_on}
use pltsmonitoring_firmware.Expander.Latch.{
  IsHonest, IsCoherent, boots, sets, step, run, force_keeps_off,
}

abbrev good_bus : Bus
good_bus = record { mutex = true; guard = true; reached = true; acked = true; answer = some 0xFF }

abbrev one_on : Expander
one_on = record {
  available = true;
  shadow_unknown = false;
  address = 0x20;
  output_state = 0xFE;
  safety_latched = false;
  port = 0xFE;
}

abbrev one_on_latched : Expander
one_on_latched = record one_on { safety_latched = true }

good_bus-IsHonest : IsHonest good_bus
good_bus-IsHonest = record { acked_reached = λ h. refl }

one_on-IsCoherent : IsCoherent one_on
one_on-IsCoherent = record {
  port_byte = ground arith;
  shadow_byte = ground arith;
  shadow_true = λ a u. refl;
}

latched-IsCoherent : IsCoherent one_on_latched
latched-IsCoherent = record {
  port_byte = ground arith;
  shadow_byte = ground arith;
  shadow_true = λ a u. refl;
}

one_on_0 : is_on one_on.port 0 ≡ true
unfolding is_on
one_on_0 = refl

kept_on : is_on (step good_bus (sets 3 true) one_on_latched).port 0 ≡ true
unfolding step set_channel is_on
kept_on = refl

force_keeps_off_example :
    is_on
      (run
        ((good_bus, sets 0 true) ∷ (good_bus, boots 0x20) ∷ [])
        (force_safety_all_off good_bus one_on)).port
      0
    ≡ false
force_keeps_off_example =
    force_keeps_off good_bus ((good_bus, sets 0 true) ∷ (good_bus, boots 0x20) ∷ []) one_on 0
      good_bus-IsHonest (good_bus-IsHonest, refl, (good_bus-IsHonest, refl, tt)) one_on-IsCoherent
      refl refl refl refl (ground arith)
