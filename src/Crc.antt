-- ===== src/Crc.antt =====
-- firmware/Utils/Crc.cpp and the CRC of firmware/Comm/ModbusRtuClient.cpp. A buffer is the list of
-- its bytes; `x & 0xFF` and `x >> 8` are the remainder and the quotient by 256.
pub mod Reflected
pub mod Table
pub mod Detection
mod Examples
use pltsmonitoring_firmware.Prelude.{
  ℕ, zero, suc, ◌+◌, ◌*◌, ◌/◌, ◌%◌, ◌==◌, if◌then◌else◌, bit_xor, List, [], ◌∷◌, get_or,
}

-- One round of the inner loop of `crc16Ccitt`, on a `uint16_t`.
unfoldable pub ccitt_round : ℕ → ℕ
ccitt_round crc =
    if (crc / 0x8000) % 2 == 1 then bit_xor (crc * 2) 0x1021 % 0x10000 else crc * 2 % 0x10000

unfoldable pub ccitt_rounds : ℕ → ℕ → ℕ
ccitt_rounds zero crc = crc
ccitt_rounds (suc b) crc = ccitt_rounds b (ccitt_round crc)

unfoldable pub crc16_ccitt : List ℕ → ℕ → ℕ
unfolding ccitt_rounds ccitt_round
crc16_ccitt [] crc = crc
crc16_ccitt (byte ∷ rest) crc =
    crc16_ccitt rest (ccitt_rounds 8 (bit_xor crc (byte * 256 % 0x10000)))

-- One round of `initCrc32Table`.
unfoldable pub table_round : ℕ → ℕ
table_round c = if c % 2 == 1 then bit_xor 0xEDB88320 (c / 2) else c / 2

unfoldable pub table_rounds : ℕ → ℕ → ℕ
table_rounds zero c = c
table_rounds (suc k) c = table_rounds k (table_round c)

-- The entries from `i` on, `n` of them.
unfoldable pub fill_table : ℕ → ℕ → List ℕ
fill_table zero i = []
fill_table (suc n) i = table_rounds 8 i ∷ fill_table n (i + 1)

-- The table that `initCrc32Table` leaves in `s_crc32Table`.
unfoldable pub crc32_table : List ℕ
unfolding fill_table table_rounds table_round
crc32_table = fill_table 256 0

-- The body of the loop of `crc32`.
unfoldable pub crc32_step : ℕ → ℕ → ℕ
crc32_step crc byte = bit_xor (get_or crc32_table (bit_xor crc byte % 256) 0) (crc / 256)

unfoldable pub crc32_loop : List ℕ → ℕ → ℕ
crc32_loop [] crc = crc
crc32_loop (byte ∷ rest) crc = crc32_loop rest (crc32_step crc byte)

unfoldable pub crc32 : List ℕ → ℕ → ℕ
unfolding crc32_loop crc32_step crc32_table
crc32 bytes init = bit_xor (crc32_loop bytes init) 0xFFFFFFFF

-- One round of the inner loop of `ModbusRtuClient::crc16`.
unfoldable pub modbus_round : ℕ → ℕ
modbus_round crc = if crc % 2 == 1 then bit_xor (crc / 2) 0xA001 else crc / 2

unfoldable pub modbus_rounds : ℕ → ℕ → ℕ
modbus_rounds zero crc = crc
modbus_rounds (suc b) crc = modbus_rounds b (modbus_round crc)

unfoldable pub modbus_loop : List ℕ → ℕ → ℕ
unfolding modbus_rounds modbus_round
modbus_loop [] crc = crc
modbus_loop (byte ∷ rest) crc = modbus_loop rest (modbus_rounds 8 (bit_xor crc byte))

unfoldable pub modbus_crc16 : List ℕ → ℕ
unfolding modbus_loop
modbus_crc16 bytes = modbus_loop bytes 0xFFFF
