-- ===== src/Crc/Detection.antt =====
-- What the CRCs of firmware/Utils/Crc.cpp and firmware/Comm/ModbusRtuClient.cpp detect.
use pltsmonitoring_firmware.Prelude.{
  ℕ, zero, suc, ◌<◌, ◌^◌, ◌/◌, bit_xor, List, [], ◌∷◌, ◌++◌, ◌≡◌, ◌≢◌, refl, ap, ◌∙◌, arith,
}
use pltsmonitoring_firmware.Prelude.Bits.{bit_xor_comm, bit_xor_cancel, bit_xor-lt}
use pltsmonitoring_firmware.Crc.{
  crc32, crc32_loop, modbus_round, modbus_rounds, modbus_loop, modbus_crc16,
}
use pltsmonitoring_firmware.Crc.Reflected.{round, rounds, loop, IsBytes, loop_detects, loop-lt}
use pltsmonitoring_firmware.Crc.Table.{crc32_loop-loop}

pub IsBytes-append : (xs ys : List ℕ) → IsBytes xs → IsBytes ys → IsBytes (xs ++ ys)
IsBytes-append [] ys hx hy = hy
IsBytes-append (x ∷ xs) ys hx hy = (hx.0, IsBytes-append xs ys hx.1 hy)

-- `crc32` notices every change of a single byte: two buffers of bytes that differ in exactly one
-- byte have different checksums, from any 32-bit start value.
pub crc32_detects :
    (xs ys : List ℕ) (a b init : ℕ)
    → IsBytes xs
    → IsBytes ys
    → a < 256
    → b < 256
    → init < 2 ^ 32
    → a ≢ b
    → crc32 (xs ++ a ∷ ys) init ≢ crc32 (xs ++ b ∷ ys) init
unfolding crc32
crc32_detects xs ys a b init hx hy ha hb hi differ e =
    let side = λ (c : ℕ) (hc : c < 256).
      crc32_loop-loop (xs ++ c ∷ ys) init (IsBytes-append xs (c ∷ ys) hx (hc, hy)) in
    differ (
      loop_detects 31 0xEDB88320 (omega arith) (omega arith) (omega arith) xs ys a b init hx hy ha
        hb hi
        (cc (
          side a ha,
          side b hb,
          bit_xor_cancel (crc32_loop (xs ++ a ∷ ys) init) 0xFFFFFFFF,
          bit_xor_cancel (crc32_loop (xs ++ b ∷ ys) init) 0xFFFFFFFF,
        )))

-- The checksum fits the `uint32_t` that holds it.
pub crc32-lt :
    (bytes : List ℕ) (init : ℕ) → IsBytes bytes → init < 2 ^ 32 → crc32 bytes init < 2 ^ 32
unfolding crc32
crc32-lt bytes init h hi = rw (crc32_loop-loop bytes init h) (
    bit_xor-lt 32 (loop 0xEDB88320 bytes init) 0xFFFFFFFF
      (loop-lt 31 0xEDB88320 (omega arith) (omega arith) (omega arith) bytes init h hi)
      (omega arith))

modbus_rounds-rounds : (k c : ℕ) → modbus_rounds k c ≡ rounds 0xA001 k c
unfolding modbus_rounds rounds modbus_round round
modbus_rounds-rounds zero c = refl
modbus_rounds-rounds (suc k) c =
    ground (arith, bit_xor_comm 0xA001 (c / 2), modbus_rounds-rounds k (round 0xA001 c))

modbus_loop-loop : (bytes : List ℕ) (crc : ℕ) → modbus_loop bytes crc ≡ loop 0xA001 bytes crc
unfolding modbus_loop loop
modbus_loop-loop [] crc = refl
modbus_loop-loop (byte ∷ rest) crc =
    ap (modbus_loop rest) (modbus_rounds-rounds 8 (bit_xor crc byte))
    ∙ modbus_loop-loop rest (rounds 0xA001 8 (bit_xor crc byte))

-- The Modbus CRC notices every change of a single byte of a frame.
pub modbus_crc16_detects :
    (xs ys : List ℕ) (a b : ℕ)
    → IsBytes xs
    → IsBytes ys
    → a < 256
    → b < 256
    → a ≢ b
    → modbus_crc16 (xs ++ a ∷ ys) ≢ modbus_crc16 (xs ++ b ∷ ys)
unfolding modbus_crc16
modbus_crc16_detects xs ys a b hx hy ha hb differ e = differ (
    loop_detects 15 0xA001 (omega arith) (omega arith) (omega arith) xs ys a b 0xFFFF hx hy ha hb
      (omega arith)
      (cc (modbus_loop-loop (xs ++ a ∷ ys) 0xFFFF, modbus_loop-loop (xs ++ b ∷ ys) 0xFFFF)))
