-- ===== src/Journal/Retention.antt =====
-- How long firmware/Services/TransactionJournal.cpp remembers a transaction, and what it answers when
-- its mutex does not exist.
use pltsmonitoring_firmware.Prelude.{
  ℕ, ◌+◌, ◌%◌, ◌^◌, ◌≤◌, true, false, none, some, List, [], ◌∷◌, ◌≡◌, inl, inr, ◌∙◌, arith, length,
  Option-cases,
}
use pltsmonitoring_firmware.Journal.{
  Preferences, Journal, Env, lock, find, is_processed, get_command_hash, get_ack_json, decide, new,
  duplicate, unavailable,
}
use pltsmonitoring_firmware.Journal.Store.{
  Write, stores, updates, store_new, store_transaction, rewrite_ack, update_ack, write,
}
use pltsmonitoring_firmware.Journal.Ring.{IsRing, SameRing, lock-IsRing, write-IsRing}
use pltsmonitoring_firmware.Journal.Dedup.{lock_find, store_absent, write_held, write_held_after}
use pltsmonitoring_firmware.Journal.Recent.{Recent, write-Recent, store_new_first}

-- A call of one of the two operations that write.
pub record Request : Type 0 where
  pub kind : Write
  pub env : Env
  pub id : List ℕ
  pub hash : List ℕ
  pub ack : List ℕ

module _ (prefs : Preferences) where
  open prefs use {Store}

  write_keeps_mutex :
      (w : Write) (e : Env) (id hash ack : List ℕ) (j : Journal) (st : Store)
      → j.mutex ≡ true
      → (write prefs w e id hash ack j st).1.mutex ≡ true
  unfolding write store_transaction update_ack store_new rewrite_ack lock
  write_keeps_mutex stores e id hash ack j st m = ground arith
  write_keeps_mutex updates e id hash ack j st m = ground arith

  -- A history of writes, oldest first.
  pub run : List Request → Journal → Store → Journal × Store
  run [] j st = (j, st)
  run (r ∷ rs) j st =
      let (_, k, st') = write prefs r.kind r.env r.id r.hash r.ack j st in run rs k st'

  run-decide :
      (id hash : List ℕ) (n : ℕ) (rs : List Request) (e : Env) (j : Journal) (st : Store)
      → IsRing j
      → j.mutex ≡ true
      → n + length rs ≤ 15
      → Recent j id hash n
      → (decide e (run rs j st).0 id hash).0.0 ≡ duplicate
  unfolding run decide lock
  run-decide id hash n [] e j st v m hn (i, found, same, range, age) = ground arith
  run-decide id hash n (r ∷ rs) e j st v m hn rec =
      run-decide id hash (n + 1) rs e _ _ (write-IsRing prefs r.kind r.env r.id r.hash r.ack j st v)
        (write_keeps_mutex r.kind r.env r.id r.hash r.ack j st m) (omega arith)
        (write-Recent prefs id hash n r.kind r.env r.id r.hash r.ack j st v (omega arith) rec)

  absent_of_new :
      (e : Env) (id hash : List ℕ) (j : Journal) → (decide e j id hash).0.0 ≡ new → find j id ≡ none
  unfolding decide
  absent_of_new e id hash j fresh = elim (Option-cases (find j id)) [
    | inl absent ↦ absent
    | inr (i, found) ↦ ground (arith, lock_find e j id)
  ]

  -- The journal remembers at least its last 16 transactions: a transaction that was new and was
  -- stored with success is still a DUPLICATE after any 15 further writes, of whatever transactions,
  -- successful or not.
  pub run_remembers :
      (e e' : Env) (id hash ack : List ℕ) (rs : List Request) (j : Journal) (st : Store)
      → IsRing j
      → (decide e j id hash).0.0 ≡ new
      → (store_transaction prefs e id hash ack j st).0 ≡ true
      → length rs ≤ 15
      → let (_, k, st') = store_transaction prefs e id hash ack j st in
        (decide e' (run rs k st').0 id hash).0.0 ≡ duplicate
  unfolding write
  run_remembers e e' id hash ack rs j st v fresh saved h =
      let absent = absent_of_new e id hash j fresh in
      let held = write_held prefs e id hash ack j st stores saved in
      let k = (lock e j).1 in
      let eq = store_absent prefs e id hash ack j st held absent in
      let first =
        store_new_first prefs id hash ack k st (lock-IsRing e j v) (lock_find e j id ∙ absent)
          (ground arith) in
      run-decide id hash 0 rs e' _ _ (write-IsRing prefs stores e id hash ack j st v)
        (write_held_after prefs e id hash ack j st stores saved) (omega arith) (rw eq first)

  -- With no mutex and none to be had, every entry is refused: nothing is held to be unprocessed, no hash
  -- or ack is given out, `decide` answers UNAVAILABLE, both writes answer false with NVS untouched, and
  -- each call counts one lock failure.
  pub lock_fail_closed :
      (w : Write) (e : Env) (id hash ack : List ℕ) (j : Journal) (st : Store)
      → j.mutex ≡ false
      → e.creates ≡ false
      → let k = (lock e j).1 in
        (is_processed e j id ≡ (true, k))
        × (get_command_hash e j id ≡ ([], k))
        × (get_ack_json e j id ≡ ([], k))
        × (decide e j id hash ≡ ((unavailable, some []), k))
        × (write prefs w e id hash ack j st ≡ (false, k, st))
        × (k.lock_failures ≡ (j.lock_failures + 1) % 2 ^ 32)
        × SameRing k j
  unfolding lock is_processed get_command_hash get_ack_json decide write store_transaction
      update_ack
  lock_fail_closed stores e id hash ack j st m c = ground arith
  lock_fail_closed updates e id hash ack j st m c = ground arith
