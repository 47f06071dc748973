-- ===== src/Journal/Blob.antt =====
-- The record of one transaction in NVS: `_saveEntryToNVSAtomic`.
use pltsmonitoring_firmware.Prelude.{
  ℕ, ◌+◌, ◌-◌, ◌/◌, ◌%◌, ◌^◌, ltb, ◌==◌, if◌then◌else◌, Bool, false, List, [], ◌∷◌, ◌++◌, length,
  take, replicate,
}
use pltsmonitoring_firmware.Crc.{crc32}
use pltsmonitoring_firmware.Journal.{Preferences, Slot, blob_size}

-- `uint8_t n = (uint8_t)text.length(); if (n > 64) n = 64;`
unfoldable pub text_len : List ℕ → ℕ
text_len text = let n = length text % 256 in if ltb 64 n then 64 else n

-- `uint16_t n = (uint16_t)ack.length(); if (n > 1024) n = 1024;`
unfoldable pub ack_len : List ℕ → ℕ
ack_len text = let n = length text % 2 ^ 16 in if ltb 1024 n then 1024 else n

-- The bytes from offset 8 up to `off`.
unfoldable pub payload : Slot → List ℕ
unfolding text_len ack_len
payload s =
    text_len s.id
    ∷ (take (text_len s.id) s.id
        ++ (text_len s.hash
            ∷ (take (text_len s.hash) s.hash
                ++ (ack_len s.ack % 256 ∷ ack_len s.ack / 256 ∷ take (ack_len s.ack) s.ack))))

unfoldable pub le32 : ℕ → List ℕ
le32 n = n % 256 ∷ n / 2 ^ 8 % 256 ∷ n / 2 ^ 16 % 256 ∷ n / 2 ^ 24 % 256 ∷ []

-- The buffer, all 1200 bytes, with the `valid` byte of the phase. The CRC covers the payload.
unfoldable pub blob : ℕ → Slot → List ℕ
unfolding payload le32
blob valid s =
    0x54
    ∷ 0x4A
    ∷ 1
    ∷ valid
    ∷ (le32 (crc32 (payload s) 0xFFFFFFFF)
        ++ (payload s ++ replicate (blob_size - (8 + length (payload s))) 0))

module _ (prefs : Preferences) where
  open prefs use {Store, open_namespace, put_bytes}

  -- One write: open the namespace, put all the bytes.
  unfoldable pub write_blob : ℕ → List ℕ → Store → Bool × Store
  write_blob idx bytes st =
      let (opened, st₁) = open_namespace false st in
      let (written, st₂) = put_bytes idx bytes st₁ in
      if opened then (written == blob_size, st₂) else (false, st₁)

  -- Both phases: the record with `valid` 0, then with 1.
  unfoldable pub save_entry : ℕ → Slot → Store → Bool × Store
  unfolding write_blob
  save_entry idx s st =
      let (staged, st₁) = write_blob idx (blob 0 s) st in
      if staged then write_blob idx (blob 1 s) st₁ else (false, st₁)
