-- ===== src/Journal/Ring.antt =====
-- The shape of the ring of firmware/Services/TransactionJournal.cpp, and what a refused call leaves.
use pltsmonitoring_firmware.Prelude.{
  ℕ, zero, suc, ◌+◌, ◌≤◌, ◌<◌, leb, if◌then◌else◌, true, false, ◌&&◌, some, List, [], ◌∷◌, ◌≡◌, inl,
  inr, refl, ap, arith, set, length, length-set, length-replicate, set-set_back, Option-cases,
}
use pltsmonitoring_firmware.Journal.{
  Preferences, Slot, empty_slot, Journal, journal_size, Env, lock, find, slot_at,
}
use pltsmonitoring_firmware.Journal.Store.{
  Write, stores, updates, store_new, store_transaction, rewrite_ack, update_ack, write,
}
use pltsmonitoring_firmware.Journal.Load.{
  load_slots, loaded_size, load_from_nvs, clear_and_count, begin,
}

-- Sixteen slots; the write pointer follows the last entry until the ring is full.
pub record IsRing (j : Journal) : Type 0 where
  pub full_length : length j.slots ≡ journal_size
  pub within : j.size ≤ journal_size
  pub pointer : j.write_idx < journal_size
  pub filling : j.size < journal_size → j.write_idx ≡ j.size

-- The same entries, size and write pointer.
abbrev pub SameRing : Journal → Journal → Type 0
SameRing k j = (k.slots ≡ j.slots) × (k.size ≡ j.size) × (k.write_idx ≡ j.write_idx)

pub lock_same : (e : Env) (j : Journal) → SameRing (lock e j).1 j
unfolding lock
lock_same e j = ground arith

pub lock-IsRing : (e : Env) (j : Journal) → IsRing j → IsRing (lock e j).1
unfolding lock
lock-IsRing e j v = ground arith

module _ (prefs : Preferences) where
  open prefs use {Store, open_namespace}

  store_new-IsRing :
      (id hash ack : List ℕ) (j : Journal) (st : Store)
      → IsRing j
      → IsRing (store_new prefs id hash ack j st).1
  unfolding store_new
  store_new-IsRing id hash ack j st v =
      let entry : Slot = record { id = id; hash = hash; ack = ack; valid = true } in
      let prev = slot_at j j.write_idx in
      ground (
        arith,
        length-set j.slots j.write_idx entry,
        length-set (set j.slots j.write_idx entry) j.write_idx prev,
      )

  rewrite_ack-IsRing :
      (i : ℕ) (hash ack : List ℕ) (j : Journal) (st : Store)
      → IsRing j
      → IsRing (rewrite_ack prefs i hash ack j st).1
  unfolding rewrite_ack
  rewrite_ack-IsRing i hash ack j st v =
      let s = slot_at j i in
      let t : Slot = record s { ack = ack } in
      ground (arith, length-set j.slots i t, length-set (set j.slots i t) i s)

  store-IsRing :
      (e : Env) (id hash ack : List ℕ) (j : Journal) (st : Store)
      → IsRing j
      → IsRing (store_transaction prefs e id hash ack j st).1
  unfolding store_transaction
  store-IsRing e id hash ack j st v =
      let w = lock-IsRing e j v in ground (arith, store_new-IsRing id hash ack (lock e j).1 st w)

  update-IsRing :
      (e : Env) (id hash ack : List ℕ) (j : Journal) (st : Store)
      → IsRing j
      → IsRing (update_ack prefs e id hash ack j st).1
  unfolding update_ack
  update-IsRing e id hash ack j st v =
      let k = (lock e j).1 in
      let w = lock-IsRing e j v in
      elim (Option-cases (find k id)) [
        | inl absent ↦ ground (arith, store_new-IsRing id hash ack k st w)
        | inr (i, found) ↦ ground (arith, rewrite_ack-IsRing i hash ack k st w)
      ]

  -- Both operations that write the ring keep its shape, whether NVS accepts the record or not: 16
  -- slots, the size and the write pointer in range, and, until the ring is full, the pointer at the
  -- first free slot.
  pub write-IsRing :
      (w : Write) (e : Env) (id hash ack : List ℕ) (j : Journal) (st : Store)
      → IsRing j
      → IsRing (write prefs w e id hash ack j st).1
  unfolding write
  write-IsRing stores e id hash ack j st v = store-IsRing e id hash ack j st v
  write-IsRing updates e id hash ack j st v = update-IsRing e id hash ack j st v

  loaded_size-le :
      (ss : List Slot) (i size : ℕ) → size ≤ i → loaded_size prefs ss i size ≤ i + length ss
  unfolding loaded_size
  loaded_size-le [] i size h = omega arith
  loaded_size-le (s ∷ ss) i size h =
      ground (arith, loaded_size-le ss (i + 1) (if s.valid && leb size i then i + 1 else size))

  load_slots-length : (n i : ℕ) (st : Store) → length (load_slots prefs n i st) ≡ n
  unfolding load_slots
  load_slots-length zero i st = refl
  load_slots-length (suc n) i st = ap suc (load_slots-length n (i + 1) st)

  load_from_nvs-IsRing : (j : Journal) (st : Store) → IsRing j → IsRing (load_from_nvs prefs j st).0
  unfolding load_from_nvs
  load_from_nvs-IsRing j st v =
      let slots = load_slots prefs journal_size 0 (open_namespace true st).1 in
      ground (
        arith,
        load_slots-length journal_size 0 (open_namespace true st).1,
        loaded_size-le slots 0 0 (omega arith),
      )

  clear_and_count-IsRing : (j : Journal) (st : Store) → IsRing (clear_and_count prefs j st).0
  unfolding clear_and_count
  clear_and_count-IsRing j st = ground (arith, length-replicate journal_size empty_slot)

  -- A boot that does not halt leaves such a ring, whatever NVS holds.
  pub begin-IsRing :
      (e : Env) (j k : Journal) (st st' : Store) → begin prefs e j st ≡ some (k, st') → IsRing k
  unfolding begin
  begin-IsRing e j k st st' h =
      let (cleared, st₁) = clear_and_count prefs j st in
      let c = clear_and_count-IsRing j st in
      ground (
        arith,
        load_from_nvs-IsRing cleared st₁ c,
        load_from_nvs-IsRing (record cleared { mutex = true }) st₁
            (record {
              full_length = c.full_length;
              within = c.within;
              pointer = c.pointer;
              filling = c.filling;
            }),
      )

  pub store_new_refused :
      (id hash ack : List ℕ) (j : Journal) (st : Store)
      → (store_new prefs id hash ack j st).0 ≡ false
      → (store_new prefs id hash ack j st).1 ≡ j
  unfolding store_new
  store_new_refused id hash ack j st h = ground (
    arith,
    set-set_back j.slots j.write_idx (record { id = id; hash = hash; ack = ack; valid = true })
        empty_slot,
  )

  pub rewrite_ack_refused :
      (i : ℕ) (hash ack : List ℕ) (j : Journal) (st : Store)
      → (rewrite_ack prefs i hash ack j st).0 ≡ false
      → (rewrite_ack prefs i hash ack j st).1 ≡ j
  unfolding rewrite_ack
  rewrite_ack_refused i hash ack j st h =
      ground (arith, set-set_back j.slots i (record (slot_at j i) { ack = ack }) empty_slot)

  store_refused :
      (e : Env) (id hash ack : List ℕ) (j : Journal) (st : Store)
      → (store_transaction prefs e id hash ack j st).0 ≡ false
      → SameRing (store_transaction prefs e id hash ack j st).1 j
  unfolding store_transaction
  store_refused e id hash ack j st h =
      ground (arith, lock_same e j, store_new_refused id hash ack (lock e j).1 st)

  update_refused :
      (e : Env) (id hash ack : List ℕ) (j : Journal) (st : Store)
      → (update_ack prefs e id hash ack j st).0 ≡ false
      → SameRing (update_ack prefs e id hash ack j st).1 j
  unfolding update_ack
  update_refused e id hash ack j st h =
      let k = (lock e j).1 in
      elim (Option-cases (find k id)) [
        | inl absent ↦ ground (arith, lock_same e j, store_new_refused id hash ack k st)
        | inr (i, found) ↦ ground (arith, lock_same e j, rewrite_ack_refused i hash ack k st)
      ]

  -- A `storeTransaction` or `updateAck` that answers false, for a failed NVS write, a hash that does
  -- not match or a mutex that is not there, leaves the entries, the size and the write pointer of
  -- the ring as they were.
  pub write_refused :
      (w : Write) (e : Env) (id hash ack : List ℕ) (j : Journal) (st : Store)
      → (write prefs w e id hash ack j st).0 ≡ false
      → SameRing (write prefs w e id hash ack j st).1 j
  unfolding write
  write_refused stores e id hash ack j st h = store_refused e id hash ack j st h
  write_refused updates e id hash ack j st h = update_refused e id hash ack j st h
