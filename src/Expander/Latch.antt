-- ===== src/Expander/Latch.antt =====
-- What the safety latch of firmware/Drivers/RelayExpanderDriver.cpp keeps off.
use pltsmonitoring_firmware.Prelude.{
  ℕ, ◌<◌, ◌==◌, if◌then◌else◌, Bool, true, false, List, [], ◌∷◌, ◌≡◌, ◌≢◌, ◌⊎◌, inl, inr,
  Bool-cases, arith,
}
use pltsmonitoring_firmware.Expander.{
  Expander, Bus, write_output, begin, set_channel_unlocked, set_channel, drive_all_off,
  force_safety_all_off, all_off, recover_with_all_off, tick_recovery, commit, force_beside_write,
  next_state,
}
use pltsmonitoring_firmware.Expander.Register.{is_on, next_state-is_on, none_on}

-- A transmission that is reported as a success reached the chip.
pub record IsHonest (b : Bus) : Type 0 where
  pub acked_reached : b.acked ≡ true → b.reached ≡ true

-- While the shadow is not marked unknown it is the content of the chip; both are bytes.
pub record IsCoherent (x : Expander) : Type 0 where
  pub port_byte : x.port < 256
  pub shadow_byte : x.output_state < 256
  pub shadow_true : x.available ≡ true → x.shadow_unknown ≡ false → x.port ≡ x.output_state

-- The calls that the firmware makes of the driver, but for the operator's ARM.
pub data Call : Type 0 where
  boots : ℕ → Call
  sets : ℕ → Bool → Call
  forces turns_off recovers : Call

unfoldable pub step : Bus → Call → Expander → Expander
step b (boots address) x = (begin b address x).1
step b (sets channel on) x = (set_channel b channel on x).1
step b forces x = force_safety_all_off b x
step b turns_off x = all_off b x
step b recovers x = tick_recovery b x

-- `setChannel` does what it reports: with true, the chip has that channel as asked and every other
-- channel as it was, and the shadow agrees; with false, either nothing changed or the shadow is
-- marked unknown.
pub set_channel_reports :
    (b : Bus) (channel d : ℕ) (on : Bool) (x : Expander)
    → IsHonest b
    → IsCoherent x
    → d < 8
    → let (done, y) = set_channel b channel on x in
      ((done ≡ true)
        × (is_on y.port d ≡ (if d == channel then on else is_on x.port d))
        × (y.port ≡ y.output_state))
      ⊎ ((done ≡ false) × ((y ≡ x) ⊎ (y.shadow_unknown ≡ true)))
unfolding set_channel set_channel_unlocked commit write_output
set_channel_reports b channel d on x h v hd =
    ground (arith, next_state-is_on on x.output_state channel d)

-- While the driver is latched no call switches a relay on: a relay that is on after the call was on
-- before it. The bus reports no success that did not reach the chip, and the shadow is coherent.
pub step_latched :
    (b : Bus) (call : Call) (x : Expander) (d : ℕ)
    → IsHonest b
    → IsCoherent x
    → x.safety_latched ≡ true
    → d < 8
    → is_on (step b call x).port d ≡ true
    → is_on x.port d ≡ true
unfolding step set_channel set_channel_unlocked commit write_output begin force_safety_all_off
    all_off tick_recovery drive_all_off recover_with_all_off
step_latched b (boots address) x d h v l hd on = ground (arith, none_on d)
step_latched b (sets channel onto) x d h v l hd on =
    ground (arith, next_state-is_on onto x.output_state channel d)
step_latched b forces x d h v l hd on = ground (arith, none_on d)
step_latched b turns_off x d h v l hd on = ground (arith, none_on d)
step_latched b recovers x d h v l hd on = ground (arith, none_on d)

pub step-IsCoherent :
    (b : Bus) (call : Call) (x : Expander) → IsHonest b → IsCoherent x → IsCoherent (step b call x)
unfolding step set_channel set_channel_unlocked commit write_output begin force_safety_all_off
    all_off tick_recovery drive_all_off recover_with_all_off
step-IsCoherent b (boots address) x h v = ground arith
step-IsCoherent b (sets channel onto) x h v =
    ground (arith, next_state-is_on onto x.output_state channel 0)
step-IsCoherent b forces x h v = ground arith
step-IsCoherent b turns_off x h v = ground arith
step-IsCoherent b recovers x h v = ground arith

step_keeps_latch :
    (b : Bus) (call : Call) (x : Expander)
    → x.safety_latched ≡ true
    → (step b call x).safety_latched ≡ true
unfolding step set_channel set_channel_unlocked commit write_output begin force_safety_all_off
    all_off tick_recovery drive_all_off recover_with_all_off
step_keeps_latch b (boots address) x l = ground arith
step_keeps_latch b (sets channel onto) x l = ground arith
step_keeps_latch b forces x l = ground arith
step_keeps_latch b turns_off x l = ground arith
step_keeps_latch b recovers x l = ground arith

pub run : List (Bus × Call) → Expander → Expander
run [] x = x
run ((b, call) ∷ rest) x = run rest (step b call x)

-- A forced or plain all-off that gets the write mutex; the other calls refuse without it.
abbrev pub is_serial : Bus → Call → Bool
is_serial b forces = b.mutex
is_serial b turns_off = b.mutex
is_serial b _ = true

-- The bus is honest in every call, and no all-off goes past the write mutex.
abbrev pub AllHonest : List (Bus × Call) → Type 0
AllHonest [] = Unit {0}
AllHonest ((b, call) ∷ rest) = IsHonest b × (is_serial b call ≡ true) × AllHonest rest

run_latched :
    (cs : List (Bus × Call)) (x : Expander) (d : ℕ)
    → AllHonest cs
    → IsCoherent x
    → x.safety_latched ≡ true
    → d < 8
    → is_on (run cs x).port d ≡ true
    → is_on x.port d ≡ true
unfolding run
run_latched [] x d h v l hd on = on
run_latched ((b, call) ∷ rest) x d h v l hd on = step_latched b call x d h.0 v l hd (
    run_latched rest (step b call x) d h.2 (step-IsCoherent b call x h.0 v)
      (step_keeps_latch b call x l) hd on)

-- The emergency barrier holds where it is serialized: once `forceSafetyAllOff` has got the write mutex
-- and its write has reached the chip, every channel is off and stays off through any later calls of the
-- driver, failed transmissions and repeated `begin` included, as long as none is the operator's ARM
-- and no later all-off goes past the mutex.
pub force_keeps_off :
    (b : Bus) (cs : List (Bus × Call)) (x : Expander) (d : ℕ)
    → IsHonest b
    → AllHonest cs
    → IsCoherent x
    → x.available ≡ true
    → b.mutex ≡ true
    → b.guard ≡ true
    → b.reached ≡ true
    → d < 8
    → is_on (run cs (force_safety_all_off b x)).port d ≡ false
unfolding step force_safety_all_off drive_all_off write_output
force_keeps_off b cs x d h hs v available serial guard reached hd =
    let y = force_safety_all_off b x in
    elim (Bool-cases (is_on (run cs y).port d)) [
      | inl on ↦
          let back = run_latched cs y d hs (step-IsCoherent b forces x h v) (ground arith) hd on in
          let off = none_on d hd in ground arith
      | inr off ↦ off
    ]

-- A bus on which a transmission goes through.
abbrev pub IsWorking : Bus → Type 0
IsWorking b = (b.guard ≡ true) × (b.reached ≡ true) × (b.acked ≡ true)

-- Without the mutex the barrier does not hold: where the forced all-off runs beside an ON write of
-- channel `c` that was under way, the all-off last on the bus, every channel is off and the driver is
-- latched, but the shadow keeps channel `c` on, not marked unknown, and a later OFF of any other channel
-- switches it on again, still latched. Both transmissions and the later one go through.
pub force_beside_write-relights :
    (b f later : Bus) (c d : ℕ) (x : Expander)
    → IsWorking b
    → IsWorking f
    → IsWorking later
    → later.mutex ≡ true
    → IsCoherent x
    → x.available ≡ true
    → c < 8
    → d < 8
    → d ≢ c
    → let y = force_beside_write true b f c true x in
      let z = (set_channel later d false y).1 in
      (is_on y.port c ≡ false)
      × (y.safety_latched ≡ true)
      × (is_on z.port c ≡ true)
      × (z.safety_latched ≡ true)
unfolding force_beside_write commit force_safety_all_off drive_all_off write_output set_channel
    set_channel_unlocked
force_beside_write-relights b f later c d x wb wf wl mutex v available hc hd other =
    let n = next_state x.output_state c true in
    let off = none_on c hc in
    let lit = next_state-is_on true x.output_state c c in
    let kept = next_state-is_on false n d c in ground arith
