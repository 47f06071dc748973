-- ===== src/Journal/Store.antt =====
-- The operations of firmware/Services/TransactionJournal.cpp that change the ring:
-- `_storeNewEntryLocked`, `storeTransaction` and `updateAck`.
use pltsmonitoring_firmware.Prelude.{
  ℕ, ◌+◌, ◌%◌, leb, if◌then◌else◌, bytes_eq, Bool, true, false, none, some, List, set,
}
use pltsmonitoring_firmware.Journal.{
  Preferences, Slot, Journal, Env, journal_size, lock, find, slot_at,
}
use pltsmonitoring_firmware.Journal.Blob.{save_entry}

-- The two public entries that write the ring.
pub data Write : Type 0 where
  stores updates : Write

module _ (prefs : Preferences) where
  open prefs use {Store}

  -- The slot is staged in RAM, written, and put back where the write fails.
  unfoldable pub store_new : List ℕ → List ℕ → List ℕ → Journal → Store → Bool × Journal × Store
  store_new id hash ack j st =
      let prev = slot_at j j.write_idx in
      let entry : Slot = record { id = id; hash = hash; ack = ack; valid = true } in
      let staged = record j { slots = set j.slots j.write_idx entry } in
      let (saved, st') = save_entry prefs j.write_idx (slot_at staged j.write_idx) st in
      if saved
      then (
        true,
        record staged {
          write_idx = (j.write_idx + 1) % journal_size;
          size = if leb j.size j.write_idx then j.write_idx + 1 else j.size;
        },
        st',
      )
      else (false, record staged { slots = set staged.slots j.write_idx prev }, st')

  unfoldable pub store_transaction :
      Env → List ℕ → List ℕ → List ℕ → Journal → Store → Bool × Journal × Store
  store_transaction e id hash ack j st =
      let (held, k) = lock e j in
      if held
      then elim (find k id) [
        | some i ↦ (bytes_eq (slot_at k i).hash hash, k, st)
        | none ↦ store_new id hash ack k st
      ]
      else (false, k, st)

  -- `updateAck` of a transaction that is in the ring, at index i.
  unfoldable pub rewrite_ack : ℕ → List ℕ → List ℕ → Journal → Store → Bool × Journal × Store
  rewrite_ack i hash ack j st =
      let s = slot_at j i in
      let staged = record j { slots = set j.slots i (record s { ack = ack }) } in
      let (saved, st') = save_entry prefs i (slot_at staged i) st in
      if bytes_eq s.hash hash
      then (if saved then (true, staged, st') else (
        false,
        record staged { slots = set staged.slots i (record s { ack = s.ack }) },
        st',
      ))
      else (false, j, st)

  unfoldable pub update_ack :
      Env → List ℕ → List ℕ → List ℕ → Journal → Store → Bool × Journal × Store
  update_ack e id hash ack j st =
      let (held, k) = lock e j in
      if held
      then elim (find k id) [
        | some i ↦ rewrite_ack i hash ack k st
        | none ↦ store_new id hash ack k st
      ]
      else (false, k, st)

  unfoldable pub write :
      Write → Env → List ℕ → List ℕ → List ℕ → Journal → Store → Bool × Journal × Store
  write stores = store_transaction
  write updates = update_ack
