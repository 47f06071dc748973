-- ===== src/Journal/Load.antt =====
-- The boot of firmware/Services/TransactionJournal.cpp: `begin` and `_loadFromNVS`.
use pltsmonitoring_firmware.Prelude.{
  ℕ, zero, suc, ◌+◌, ◌*◌, ◌%◌, ◌^◌, ltb, leb, ◌==◌, if◌then◌else◌, Bool, true, false, ◌&&◌, Option,
  none, some, List, [], ◌∷◌, length, get_or, take, drop, replicate,
}
use pltsmonitoring_firmware.Crc.{crc32}
use pltsmonitoring_firmware.Journal.{
  Preferences, Slot, empty_slot, Journal, journal_size, blob_size, Env,
}

-- `String((const char*)p)`: the bytes up to the first NUL.
unfoldable pub c_string : List ℕ → List ℕ
c_string [] = []
c_string (b ∷ rest) = if b == 0 then [] else b ∷ c_string rest

-- The third text of the record, at `rest`, into the slot that has the other two.
unfoldable pub parse_ack : Slot → List ℕ → Slot
unfolding c_string
parse_ack s rest =
    let n = get_or rest 0 0 + get_or rest 1 0 * 2 ^ 8 in
    if ltb 1024 n then s else record s { ack = take n (c_string (drop 2 rest)); valid = true }

unfoldable pub parse_hash : Slot → List ℕ → Slot
unfolding c_string parse_ack
parse_hash s rest =
    let n = get_or rest 0 0 in
    if ltb 64 n
    then s
    else parse_ack (record s { hash = take n (c_string (drop 1 rest)) }) (drop (1 + n) rest)

-- The part of the loop body under "Parse", on the bytes from offset 8. A `continue` leaves the
-- fields that were set before it.
unfoldable pub parse : Slot → List ℕ → Slot
unfolding c_string parse_hash
parse s rest =
    let n = get_or rest 0 0 in
    if ltb 64 n
    then s
    else parse_hash (record s { id = take n (c_string (drop 1 rest)) }) (drop (1 + n) rest)

unfoldable pub stored_crc : List ℕ → ℕ
stored_crc b = get_or b 4 0 + get_or b 5 0 * 2 ^ 8 + get_or b 6 0 * 2 ^ 16 + get_or b 7 0 * 2 ^ 24

-- The checks of the loop body before it parses. The CRC is taken over all the bytes from offset 8.
unfoldable pub accepts : List ℕ → Bool
unfolding stored_crc
accepts b =
    (length b == blob_size)
    && (get_or b 0 0 == 0x54)
    && (get_or b 1 0 == 0x4A)
    && (get_or b 2 0 == 1)
    && (get_or b 3 0 == 1)
    && (stored_crc b == crc32 (drop 8 b) 0xFFFFFFFF)

-- The loop body for one key: the slot afterwards.
unfoldable pub load_slot : List ℕ → Slot
unfolding accepts parse
load_slot b = if accepts b then parse empty_slot (drop 8 b) else empty_slot

module _ (prefs : Preferences) where
  open prefs use {Store, open_namespace, get_bytes, get_boot, put_boot}

  -- The `n` slots from index `i` on.
  unfoldable pub load_slots : ℕ → ℕ → Store → List Slot
  load_slots zero i st = []
  load_slots (suc n) i st = load_slot (get_bytes i st) ∷ load_slots n (i + 1) st

  -- `if (i >= _size) _size = i + 1;` for each slot that was loaded.
  unfoldable pub loaded_size : List Slot → ℕ → ℕ → ℕ
  loaded_size [] i size = size
  loaded_size (s ∷ rest) i size =
      loaded_size rest (i + 1) (if s.valid && leb size i then i + 1 else size)

  unfoldable pub load_from_nvs : Journal → Store → Journal × Store
  load_from_nvs j st =
      let (opened, st') = open_namespace true st in
      let slots = load_slots journal_size 0 st' in
      let size = loaded_size slots 0 0 in
      if opened
      then (record j { slots = slots; size = size; write_idx = size % journal_size }, st')
      else (j, st')

  -- The first lines of `begin`: the arrays are emptied and the boot counter goes up, if its
  -- namespace opens.
  unfoldable pub clear_and_count : Journal → Store → Journal × Store
  clear_and_count j st =
      let (opened, st₁) = open_namespace false st in
      let count = (get_boot st₁ + 1) % 2 ^ 32 in
      (
        record j {
          slots = replicate journal_size empty_slot;
          size = 0;
          write_idx = 0;
          boot_count = if opened then count else j.boot_count;
        },
        if opened then put_boot count st₁ else st₁,
      )

  -- `none`: the mutex could not be created, and the device halts for the watchdog.
  unfoldable pub begin : Env → Journal → Store → Option (Journal × Store)
  begin e j st =
      let (cleared, st') = clear_and_count j st in
      if cleared.mutex
      then some (load_from_nvs cleared st')
      else if e.creates
      then some (load_from_nvs (record cleared { mutex = true }) st')
      else none
