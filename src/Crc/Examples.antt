-- ===== src/Crc/Examples.antt =====
-- The check values of the three CRCs, on the text 123456789, and the theorems on short buffers.
use pltsmonitoring_firmware.Prelude.{ℕ, ◌≡◌, ◌≢◌, List, [], ◌∷◌, ◌++◌, refl, arith}
use pltsmonitoring_firmware.Crc.{
  crc16_ccitt, ccitt_rounds, ccitt_round, crc32, crc32_loop, crc32_step, crc32_table, fill_table,
  table_rounds, table_round, modbus_crc16, modbus_loop, modbus_rounds, modbus_round,
}
use pltsmonitoring_firmware.Crc.Reflected.{IsBytes}
use pltsmonitoring_firmware.Crc.Table.{crc32_bitwise, crc32-bitwise}
use pltsmonitoring_firmware.Crc.Detection.{crc32_detects, modbus_crc16_detects}

abbrev digits : List ℕ
digits = 49 ∷ 50 ∷ 51 ∷ 52 ∷ 53 ∷ 54 ∷ 55 ∷ 56 ∷ 57 ∷ []

crc32-digits : crc32 digits 0xFFFFFFFF ≡ 0xCBF43926
unfolding crc32 crc32_loop crc32_step crc32_table fill_table table_rounds table_round
crc32-digits = refl

crc16_ccitt-digits : crc16_ccitt digits 0xFFFF ≡ 0x29B1
unfolding crc16_ccitt ccitt_rounds ccitt_round
crc16_ccitt-digits = refl

modbus_crc16-digits : modbus_crc16 digits ≡ 0x4B37
unfolding modbus_crc16 modbus_loop modbus_rounds modbus_round
modbus_crc16-digits = refl

digits-IsBytes : IsBytes digits
digits-IsBytes = ground arith

crc32-bitwise_example : crc32 digits 0xFFFFFFFF ≡ crc32_bitwise digits 0xFFFFFFFF
crc32-bitwise_example = crc32-bitwise digits 0xFFFFFFFF digits-IsBytes

crc32_detects_example :
    crc32 (digits ++ 65 ∷ digits) 0xFFFFFFFF ≢ crc32 (digits ++ 66 ∷ digits) 0xFFFFFFFF
crc32_detects_example =
    crc32_detects digits digits 65 66 0xFFFFFFFF digits-IsBytes digits-IsBytes (ground arith)
      (ground arith) (ground arith) (ground arith)

modbus_crc16_detects_example :
    modbus_crc16 (digits ++ 65 ∷ digits) ≢ modbus_crc16 (digits ++ 66 ∷ digits)
modbus_crc16_detects_example =
    modbus_crc16_detects digits digits 65 66 digits-IsBytes digits-IsBytes (ground arith)
      (ground arith) (ground arith)
