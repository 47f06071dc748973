-- ===== src/Crc/Table.antt =====
-- The table of firmware/Utils/Crc.cpp against the bit-by-bit register.
use pltsmonitoring_firmware.Prelude.{
  ℕ, zero, suc, ◌+◌, ◌/◌, ◌%◌, ◌<◌, bit_xor, List, [], ◌∷◌, get_or, ◌≡◌, refl, ap, ap₂, ◌∙◌, sym,
  arith,
}
use pltsmonitoring_firmware.Prelude.Bits.{bit_xor-shr, bit_xor-zero}
use pltsmonitoring_firmware.Crc.{
  table_round, table_rounds, fill_table, crc32_table, crc32_step, crc32_loop, crc32,
}
use pltsmonitoring_firmware.Crc.Reflected.{round, rounds, rounds_byte, loop, IsBytes}

-- CRC-32 with no table: eight rounds of the register for each byte.
pub crc32_bitwise : List ℕ → ℕ → ℕ
crc32_bitwise bytes init = bit_xor (loop 0xEDB88320 bytes init) 0xFFFFFFFF

table_rounds-rounds : (k c : ℕ) → table_rounds k c ≡ rounds 0xEDB88320 k c
unfolding table_rounds rounds table_round round
table_rounds-rounds zero c = refl
table_rounds-rounds (suc k) c = table_rounds-rounds k _

get_or-fill_table : (n i j : ℕ) → j < n → get_or (fill_table n i) j 0 ≡ rounds 0xEDB88320 8 (i + j)
unfolding fill_table
get_or-fill_table zero i j h = elim h [ ]
get_or-fill_table (suc n) i zero h =
    table_rounds-rounds 8 i ∙ ap (rounds 0xEDB88320 8) (omega arith)
get_or-fill_table (suc n) i (suc j) h =
    get_or-fill_table n (i + 1) j (omega arith) ∙ ap (rounds 0xEDB88320 8) (omega arith)

crc32_table_lem : crc32_table ≡ fill_table 256 0
unfolding crc32_table
crc32_table_lem = refl

xor_byte-high : (crc byte : ℕ) → byte < 256 → bit_xor crc byte / 256 ≡ crc / 256
xor_byte-high crc byte h =
    bit_xor-shr 8 crc byte ∙ ap (bit_xor (crc / 256)) (omega arith) ∙ bit_xor-zero (crc / 256)

pub crc32_step-rounds :
    (crc byte : ℕ) → byte < 256 → crc32_step crc byte ≡ rounds 0xEDB88320 8 (bit_xor crc byte)
unfolding crc32_step
crc32_step-rounds crc byte h =
    let x : ℕ = bit_xor crc byte in
    ap₂ bit_xor
      (ap (λ t. get_or t (x % 256) 0) crc32_table_lem
        ∙ get_or-fill_table 256 0 (x % 256) (omega arith)
        ∙ ap (rounds 0xEDB88320 8) (omega arith))
      (sym (xor_byte-high crc byte h))
    ∙ sym (rounds_byte 0xEDB88320 x)

pub crc32_loop-loop :
    (bytes : List ℕ) (crc : ℕ) → IsBytes bytes → crc32_loop bytes crc ≡ loop 0xEDB88320 bytes crc
unfolding crc32_loop loop
crc32_loop-loop [] crc h = refl
crc32_loop-loop (byte ∷ rest) crc h =
    ap (crc32_loop rest) (crc32_step-rounds crc byte h.0) ∙ crc32_loop-loop rest _ h.1

-- The table-driven `crc32` computes, for every start value, the CRC that eight shifts of the
-- register per byte compute, as long as the buffer holds bytes.
pub crc32-bitwise :
    (bytes : List ℕ) (init : ℕ) → IsBytes bytes → crc32 bytes init ≡ crc32_bitwise bytes init
unfolding crc32 crc32_bitwise
crc32-bitwise bytes init h = ap (λ c. bit_xor c 0xFFFFFFFF) (crc32_loop-loop bytes init h)
