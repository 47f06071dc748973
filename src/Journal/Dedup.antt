-- ===== src/Journal/Dedup.antt =====
-- What `decide` of firmware/Services/TransactionJournal.cpp answers after the ring was written.
use pltsmonitoring_firmware.Prelude.{
  ℕ, ◌+◌, leb, if◌then◌else◌, bytes_eq, bytes_eq_refl, true, Option, none, some, List, ◌≡◌, inl,
  inr, ◌∙◌, arith, get_or-set_self, Option-cases,
}
use pltsmonitoring_firmware.Journal.{
  Preferences, Slot, empty_slot, Journal, Env, lock, find, slot_at, get_ack_json, decide, duplicate,
}
use pltsmonitoring_firmware.Journal.Lookup.{find_in-some, find_in-set_fresh, find_in-set_same}
use pltsmonitoring_firmware.Journal.Store.{
  Write, stores, updates, store_new, store_transaction, rewrite_ack, update_ack, write,
}
use pltsmonitoring_firmware.Journal.Ring.{IsRing, lock_same, lock-IsRing}

-- The ack that the ring holds for a transaction of this identity.
abbrev pub Holds : Journal → List ℕ → List ℕ → List ℕ → Type 0
Holds j id hash ack =
    (i : ℕ) × (find j id ≡ some i)
    × (bytes_eq (slot_at j i).hash hash ≡ true)
    × ((slot_at j i).ack ≡ ack)

abbrev pub prior_ack : Journal → List ℕ → Option ℕ → List ℕ
prior_ack j ack none = ack
prior_ack j ack (some i) = (slot_at j i).ack

-- The ack that a successful write leaves: `storeTransaction` never replaces one.
abbrev pub kept_ack : Write → Journal → List ℕ → List ℕ → List ℕ
kept_ack stores j id ack = prior_ack j ack (find j id)
kept_ack updates j id ack = ack

pub lock_find : (e : Env) (j : Journal) (id : List ℕ) → find (lock e j).1 id ≡ find j id
unfolding lock find
lock_find e j id = ground arith

module _ (prefs : Preferences) where
  open prefs use {Store}

  -- A new entry that was saved.
  store_new-Holds :
      (id hash ack : List ℕ) (j : Journal) (st : Store)
      → IsRing j
      → find j id ≡ none
      → (store_new prefs id hash ack j st).0 ≡ true
      → Holds (store_new prefs id hash ack j st).1 id hash ack
  unfolding store_new find
  store_new-Holds id hash ack j st v absent saved =
      let entry : Slot = record { id = id; hash = hash; ack = ack; valid = true } in
      let w = j.write_idx in
      let at = get_or-set_self j.slots w entry empty_slot (omega arith) in
      (
        w,
        ground (
          arith,
          bytes_eq_refl id,
          find_in-set_fresh id j.slots j.size (if leb j.size w then w + 1 else j.size) 0 w entry
              absent,
        ),
        ground (arith, at, bytes_eq_refl hash),
        ground (arith, at),
      )

  rewrite_ack-Holds :
      (i : ℕ) (id hash ack : List ℕ) (j : Journal) (st : Store)
      → IsRing j
      → find j id ≡ some i
      → (rewrite_ack prefs i hash ack j st).0 ≡ true
      → Holds (rewrite_ack prefs i hash ack j st).1 id hash ack
  unfolding rewrite_ack find
  rewrite_ack-Holds i id hash ack j st v found saved =
      let t : Slot = record (slot_at j i) { ack = ack } in
      let (_, low, m) = find_in-some id j.slots j.size 0 i found in
      let at = get_or-set_self j.slots i t empty_slot (omega arith) in
      (
        i,
        ground (arith, find_in-set_same id j.slots j.size 0 i t),
        ground (arith, at),
        ground (arith, at),
      )

  module _ (e : Env) (id hash ack : List ℕ) (j : Journal) (st : Store) where
    pub store_absent :
        (lock e j).0 ≡ true
        → find j id ≡ none
        → store_transaction prefs e id hash ack j st ≡ store_new prefs id hash ack (lock e j).1 st
    unfolding store_transaction
    store_absent held absent = ground (arith, lock_find e j id)

    pub store_found :
        (i : ℕ)
        → (lock e j).0 ≡ true
        → find j id ≡ some i
        → store_transaction prefs e id hash ack j st
          ≡ (bytes_eq (slot_at j i).hash hash, (lock e j).1, st)
    unfolding store_transaction
    store_found i held found = ground (arith, lock_find e j id, lock_same e j)

    pub update_absent :
        (lock e j).0 ≡ true
        → find j id ≡ none
        → update_ack prefs e id hash ack j st ≡ store_new prefs id hash ack (lock e j).1 st
    unfolding update_ack
    update_absent held absent = ground (arith, lock_find e j id)

    pub update_found :
        (i : ℕ)
        → (lock e j).0 ≡ true
        → find j id ≡ some i
        → update_ack prefs e id hash ack j st ≡ rewrite_ack prefs i hash ack (lock e j).1 st
    unfolding update_ack
    update_found i held found = ground (arith, lock_find e j id)

    pub write_held : (w : Write) → (write prefs w e id hash ack j st).0 ≡ true → (lock e j).0 ≡ true
    unfolding write store_transaction update_ack
    write_held stores saved = ground arith
    write_held updates saved = ground arith

    store-Holds :
        IsRing j
        → (store_transaction prefs e id hash ack j st).0 ≡ true
        → Holds (store_transaction prefs e id hash ack j st).1 id hash (kept_ack stores j id ack)
    unfolding write
    store-Holds v saved =
        let held = write_held stores saved in
        let k = (lock e j).1 in
        elim (Option-cases (find j id)) [
          | inl absent ↦
              rw (store_absent held absent, absent, prior_ack)
                (store_new-Holds id hash ack k st (lock-IsRing e j v) (lock_find e j id ∙ absent)
                  (ground (arith, store_absent held absent)))
          | inr (i, found) ↦
              rw (store_found i held found, found, prior_ack)
                (
                  i,
                  lock_find e j id ∙ found,
                  ground (arith, lock_same e j, store_found i held found),
                  ground (arith, lock_same e j),
                )
        ]

    update-Holds :
        IsRing j
        → (update_ack prefs e id hash ack j st).0 ≡ true
        → Holds (update_ack prefs e id hash ack j st).1 id hash ack
    unfolding write
    update-Holds v saved =
        let held = write_held updates saved in
        let k = (lock e j).1 in
        let w = lock-IsRing e j v in
        elim (Option-cases (find j id)) [
          | inl absent ↦ rw (update_absent held absent) (
              store_new-Holds id hash ack k st w (lock_find e j id ∙ absent)
                (ground (arith, update_absent held absent)))
          | inr (i, found) ↦ rw (update_found i held found) (
              rewrite_ack-Holds i id hash ack k st w (lock_find e j id ∙ found)
                (ground (arith, update_found i held found)))
        ]

    pub write-Holds :
        (w : Write)
        → IsRing j
        → (write prefs w e id hash ack j st).0 ≡ true
        → Holds (write prefs w e id hash ack j st).1 id hash (kept_ack w j id ack)
    unfolding write
    write-Holds stores v saved = store-Holds v saved
    write-Holds updates v saved = update-Holds v saved

    pub write_held_after :
        (w : Write)
        → (write prefs w e id hash ack j st).0 ≡ true
        → (write prefs w e id hash ack j st).1.mutex ≡ true
    unfolding write store_transaction update_ack store_new rewrite_ack lock
    write_held_after stores saved = ground arith
    write_held_after updates saved = ground arith

-- What `decide` says of a transaction that the ring holds.
pub Holds-decide :
    (e : Env) (j : Journal) (id hash ack : List ℕ)
    → j.mutex ≡ true
    → Holds j id hash ack
    → decide e j id hash ≡ ((duplicate, some ack), j)
unfolding decide lock
Holds-decide e j id hash ack m (i, found, same, kept) = ground arith

Holds-get_ack :
    (e : Env) (j : Journal) (id hash ack : List ℕ)
    → j.mutex ≡ true
    → Holds j id hash ack
    → get_ack_json e j id ≡ (ack, j)
unfolding get_ack_json lock
Holds-get_ack e j id hash ack m (i, found, same, kept) = ground arith

module _ (prefs : Preferences) where
  open prefs use {Store}

  Holds-store :
      (e : Env) (j : Journal) (id hash ack queued : List ℕ) (st : Store)
      → j.mutex ≡ true
      → Holds j id hash ack
      → store_transaction prefs e id hash queued j st ≡ (true, j, st)
  unfolding store_transaction lock
  Holds-store e j id hash ack queued st m (i, found, same, kept) = ground arith

  -- Once `storeTransaction` or `updateAck` has answered true, the same transaction with the same hash
  -- is a DUPLICATE at any later time, and the ack handed out is the new one, except that
  -- `storeTransaction` keeps the ack of a transaction that the ring already had.
  pub write-decide :
      (w : Write) (e e' : Env) (id hash ack : List ℕ) (j : Journal) (st : Store)
      → IsRing j
      → (write prefs w e id hash ack j st).0 ≡ true
      → let k = (write prefs w e id hash ack j st).1 in
        decide e' k id hash ≡ ((duplicate, some (kept_ack w j id ack)), k)
  write-decide w e e' id hash ack j st v saved =
      Holds-decide e' _ id hash _ (write_held_after prefs e id hash ack j st w saved)
        (write-Holds prefs e id hash ack j st w v saved)

  -- A terminal ack survives the ingress write that comes after it: once `updateAck` has answered
  -- true, a `storeTransaction` of the same transaction and hash answers true, writes nothing, and
  -- `getAckJson` still gives the terminal ack.
  pub terminal_ack_survives :
      (e e' e'' : Env) (id hash terminal queued : List ℕ) (j : Journal) (st : Store)
      → IsRing j
      → (update_ack prefs e id hash terminal j st).0 ≡ true
      → let (_, k, st') = update_ack prefs e id hash terminal j st in
        (store_transaction prefs e' id hash queued k st' ≡ (true, k, st'))
        × (get_ack_json e'' k id ≡ (terminal, k))
  unfolding write
  terminal_ack_survives e e' e'' id hash terminal queued j st v saved =
      let m = write_held_after prefs e id hash terminal j st updates saved in
      let h = update-Holds prefs e id hash terminal j st v saved in
      (Holds-store e' _ id hash terminal queued _ m h, Holds-get_ack e'' _ id hash terminal m h)
