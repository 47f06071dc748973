-- ===== src/Expander.antt =====
-- firmware/Drivers/RelayExpanderDriver.{h,cpp}: the PCF8574 port expander that drives the eight relay
-- channels, with its safety latch. A bit that is 0 switches its relay on. The I²C bus and the write
-- mutex are the environment: each call is told what they answer.
pub mod Register
pub mod Latch
mod Examples
use Prim.Native.Nat.{bit_or}
use pltsmonitoring_firmware.Prelude.{
  ℕ, ◌+◌, ◌-◌, ◌*◌, ◌/◌, ◌%◌, ◌^◌, ltb, leb, ◌==◌, if◌then◌else◌, bit_and, Bool, true, false, not,
  ◌&&◌, ◌||◌, Option, none, some, List, [], ◌∷◌,
}

abbrev pub channel_count : ℕ
channel_count = 8

-- All bits 1: every relay is off.
abbrev pub power_on_state : ℕ
power_on_state = 0xFF

-- The fields of `RelayExpanderDriver`, and `port`, the output register of the chip itself.
pub record Expander : Type 0 where
  pub available : Bool
  pub shadow_unknown : Bool
  pub address : ℕ
  pub output_state : ℕ
  pub safety_latched : Bool
  pub port : ℕ

-- What one call meets: whether the write mutex is obtained in time, whether the bus guard is, whether
-- the byte reaches the chip, whether the transmission is reported as a success, and what a read
-- gives (`none`: no data).
pub record Bus : Type 0 where
  pub mutex : Bool
  pub guard : Bool
  pub reached : Bool
  pub acked : Bool
  pub answer : Option ℕ

-- `_writeOutput`.
unfoldable pub write_output : Bus → ℕ → Expander → Bool × Expander
write_output b value x =
    if b.guard then (b.acked, if b.reached then record x { port = value } else x) else (false, x)

-- `_readInput`.
unfoldable pub read_input : Bus → Option ℕ
read_input b = if b.guard then b.answer else none

-- A read that gives the value wanted.
abbrev pub answers : Option ℕ → ℕ → Bool
answers none value = false
answers (some v) value = v == value

unfoldable pub begin : Bus → ℕ → Expander → Bool × Expander
unfolding write_output read_input
begin b i2c_address x =
    let addressed = record x { address = i2c_address } in
    let (written, after) =
      write_output b power_on_state (record addressed { output_state = power_on_state }) in
    if ltb i2c_address 0x20 || ltb 0x27 i2c_address
    then (false, record addressed { available = false })
    else if written && answers (read_input b) power_on_state
    then (true, record after { shadow_unknown = false; available = true })
    else (false, record after { available = false })

-- The new value of the register: `next &= ~mask` or `next |= mask`, on a `uint8_t`.
unfoldable pub next_state : ℕ → ℕ → Bool → ℕ
next_state output_state channel on =
    if on then bit_and output_state (0xFF - 2 ^ channel) else bit_or output_state (2 ^ channel)

-- The end of `_setChannelUnlocked`: the shadow follows the chip only after a write that succeeded.
unfoldable pub commit : Bool → ℕ → Expander → Bool × Expander
commit written next x =
    if written
    then (true, record x { output_state = next })
    else (false, record x { shadow_unknown = true })

-- `_setChannelUnlocked`.
unfoldable pub set_channel_unlocked : Bus → ℕ → Bool → Expander → Bool × Expander
unfolding write_output commit
set_channel_unlocked b channel on x =
    let next = next_state x.output_state channel on in
    let (written, after) = write_output b next x in commit written next after

unfoldable pub set_channel : Bus → ℕ → Bool → Expander → Bool × Expander
unfolding set_channel_unlocked
set_channel b channel on x =
    if not x.available
    then (false, x)
    else if leb channel_count channel
    then (false, x)
    else if x.shadow_unknown
    then (false, x)
    else if not b.mutex
    then (false, x)
    else if on && x.safety_latched
    then (false, x)
    else set_channel_unlocked b channel on x

-- The write of 0xFF in `forceSafetyAllOff` and `allOff`, the same with the mutex and without it.
unfoldable pub drive_all_off : Bus → Expander → Expander
unfolding write_output
drive_all_off b x =
    let (written, after) = write_output b power_on_state x in
    if written
    then record after { output_state = power_on_state; shadow_unknown = false }
    else record after { shadow_unknown = true }

-- One step: with the mutex no other write is under way, and without it (`b.mutex` false) the same write
-- is tried at a moment when none is. Beside a write that is under way it is `force_beside_write`.
unfoldable pub force_safety_all_off : Bus → Expander → Expander
unfolding drive_all_off
force_safety_all_off b x =
    let latched = record x { safety_latched = true } in
    if x.available then drive_all_off b latched else latched

-- `forceSafetyAllOff` without the mutex, beside a `_setChannelUnlocked` whose caller holds it and has
-- passed the test of the latch: the bus guard puts one transmission before the other (`first`: the
-- channel's), and the holder commits its shadow last. `b` is the bus of the channel's write, `f` that of
-- the forced one.
unfoldable pub force_beside_write : Bool → Bus → Bus → ℕ → Bool → Expander → Expander
unfolding write_output commit force_safety_all_off
force_beside_write first b f channel on x =
    let next = next_state x.output_state channel on in
    let (written, after) = write_output b next x in
    let (late, over) = write_output b next (force_safety_all_off f x) in
    if first
    then (commit written next (force_safety_all_off f after)).1
    else (commit late next over).1

unfoldable pub clear_safety_latch : Expander → Expander
clear_safety_latch x = record x { safety_latched = false }

unfoldable pub read_state : Expander → ℕ
read_state x = if not x.available then 0xFF else if x.shadow_unknown then 0xFF else x.output_state

unfoldable pub all_off : Bus → Expander → Expander
unfolding drive_all_off
all_off b x = if x.available then drive_all_off b x else x

unfoldable pub recover_with_all_off : Bus → Expander → Bool × Expander
unfolding write_output read_input
recover_with_all_off b x =
    let (written, after) = write_output b power_on_state x in
    if not x.available
    then (false, x)
    else if not b.mutex
    then (false, x)
    else if written && answers (read_input b) power_on_state
    then (true, record after { output_state = power_on_state; shadow_unknown = false })
    else (false, after)

-- `RelayController::tick` asks for a recovery only while the shadow is unknown.
unfoldable pub tick_recovery : Bus → Expander → Expander
unfolding recover_with_all_off
tick_recovery b x = if x.shadow_unknown then (recover_with_all_off b x).1 else x
