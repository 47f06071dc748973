-- ===== src/Journal/Recent.antt =====
-- How far a transaction of firmware/Services/TransactionJournal.cpp is from being overwritten.
use pltsmonitoring_firmware.Prelude.{
  ℕ, ◌+◌, ◌-◌, ◌%◌, ◌≤◌, ◌<◌, leb, if◌then◌else◌, bytes_eq, bytes_eq_refl, bytes_eq→eq, true, false,
  none, some, List, ◌≡◌, ◌≢◌, inl, inr, ap, ◌∙◌, arith, get_or-set_self, get_or-set_ne, Bool-cases,
  Option-cases,
}
use pltsmonitoring_firmware.Journal.{
  Preferences, Slot, empty_slot, Journal, journal_size, Env, lock, find, slot_at,
}
use pltsmonitoring_firmware.Journal.Lookup.{
  matches, matches_both, find_in-some, find_in-set_fresh, find_in-set_other, find_in-set_same,
}
use pltsmonitoring_firmware.Journal.Store.{Write, stores, updates, store_new, rewrite_ack, write}
use pltsmonitoring_firmware.Journal.Ring.{IsRing, SameRing, lock_same, lock-IsRing, write_refused}
use pltsmonitoring_firmware.Journal.Dedup.{
  lock_find, store_absent, store_found, update_absent, update_found, write_held,
}

-- The journal holds the transaction with this hash, and at most n entries were written after it.
abbrev pub Recent : Journal → List ℕ → List ℕ → ℕ → Type 0
Recent j id hash n =
    (i : ℕ) × (find j id ≡ some i)
    × (bytes_eq (slot_at j i).hash hash ≡ true)
    × (i < journal_size)
    × ((j.write_idx + 15 - i) % 16 ≤ n)

-- Another transaction is not at an index that holds this one.
differ :
    (j : Journal) (id id' : List ℕ) (i : ℕ)
    → find j id ≡ some i
    → find j id' ≢ some i
    → bytes_eq id' id ≡ false
unfolding find
differ j id id' i found apart = elim (Bool-cases (bytes_eq id' id)) [
  | inl e ↦ absurd (apart (rw (bytes_eq→eq id' id e) found))
  | inr e ↦ e
]

Recent-same :
    (j k : Journal) (id hash : List ℕ) (n : ℕ)
    → SameRing k j
    → Recent j id hash n
    → Recent k id hash n
unfolding find
Recent-same j k id hash n same (i, found, match, range, age) =
    (i, ground arith, ground arith, range, ground arith)

Recent-wider :
    (j : Journal) (id hash : List ℕ) (n : ℕ) → Recent j id hash n → Recent j id hash (n + 1)
Recent-wider j id hash n (i, found, match, range, age) = (i, found, match, range, omega arith)

-- What a successful search points to.
found_slot :
    (j : Journal) (id : List ℕ) (i : ℕ)
    → find j id ≡ some i
    → (i < j.size) × (matches id (slot_at j i) ≡ true)
unfolding find
found_slot j id i found =
    let (_, low, at) = find_in-some id j.slots j.size 0 i found in
    (omega arith, ap (λ (t : ℕ). matches id (slot_at j t)) (omega arith) ∙ at)

module _ (prefs : Preferences) where
  open prefs use {Store}

  store_new-Recent :
      (id hash : List ℕ) (n : ℕ) (id' hash' ack : List ℕ) (j : Journal) (st : Store)
      → IsRing j
      → n < 15
      → find j id' ≡ none
      → Recent j id hash n
      → (store_new prefs id' hash' ack j st).0 ≡ true
      → Recent (store_new prefs id' hash' ack j st).1 id hash (n + 1)
  unfolding store_new find
  store_new-Recent id hash n id' hash' ack j st v hn absent (i, found, same, range, age) saved =
      let entry : Slot = record { id = id'; hash = hash'; ack = ack; valid = true } in
      let w = j.write_idx in
      let apart : w ≢ i = λ p. absurd (omega arith) in
      let other = differ j id id' i found (λ p. cc) in
      let kept = get_or-set_ne j.slots w i entry empty_slot apart in
      let size' = if leb j.size w then w + 1 else j.size in
      let grows : j.size ≤ size' = ground arith in
      (
        i,
        ground (
          arith,
          find_in-set_other id j.slots j.size size' 0 w i entry found (λ p. absurd (omega arith))
              grows other,
        ),
        ground (arith, kept),
        range,
        ground arith,
      )

  rewrite_ack-Recent :
      (id hash : List ℕ) (n : ℕ) (id' hash' ack : List ℕ) (i' : ℕ) (j : Journal) (st : Store)
      → IsRing j
      → find j id' ≡ some i'
      → Recent j id hash n
      → (rewrite_ack prefs i' hash' ack j st).0 ≡ true
      → Recent (rewrite_ack prefs i' hash' ack j st).1 id hash (n + 1)
  unfolding rewrite_ack find
  rewrite_ack-Recent id hash n id' hash' ack i' j st v found' (i, found, same, range, age) saved =
      let t : Slot = record (slot_at j i') { ack = ack } in
      let (low', at') = found_slot j id' i' found' in
      let (low, at) = found_slot j id i found in
      elim (Bool-cases (matches id t)) [
        | inl hit ↦
            let one : id ≡ id' = matches_both id id' (slot_at j i') hit at' in
            let here : i ≡ i' = ground arith in
            let self = get_or-set_self j.slots i' t empty_slot (omega arith) in
            (
              i,
              ground (arith, find_in-set_same id j.slots j.size 0 i' t),
              ground (arith, self),
              range,
              ground arith,
            )
        | inr miss ↦
            let apart : i' ≢ i = λ p. cc (ap (λ (k : ℕ). matches id (slot_at j k)) p) in
            let kept = get_or-set_ne j.slots i' i t empty_slot apart in
            (
              i,
              ground (
                arith,
                find_in-set_other id j.slots j.size j.size 0 i' i t found (λ p. apart (omega arith))
                    (omega arith) miss,
              ),
              ground (arith, kept),
              range,
              ground arith,
            )
      ]

  store-Recent :
      (id hash : List ℕ) (n : ℕ) (e : Env) (id' hash' ack : List ℕ) (j : Journal) (st : Store)
      → IsRing j
      → n < 15
      → Recent j id hash n
      → (write prefs stores e id' hash' ack j st).0 ≡ true
      → Recent (write prefs stores e id' hash' ack j st).1 id hash (n + 1)
  unfolding write
  store-Recent id hash n e id' hash' ack j st v hn r done =
      let held = write_held prefs e id' hash' ack j st stores done in
      let k = (lock e j).1 in
      let r' = Recent-same j k id hash n (lock_same e j) r in
      elim (Option-cases (find j id')) [
        | inl absent ↦
            let eq = store_absent prefs e id' hash' ack j st held absent in
            rw eq (
              store_new-Recent id hash n id' hash' ack k st (lock-IsRing e j v) hn
                (lock_find e j id' ∙ absent) r' (ground arith))
        | inr (i, found) ↦
            rw (store_found prefs e id' hash' ack j st i held found) (Recent-wider k id hash n r')
      ]

  update-Recent :
      (id hash : List ℕ) (n : ℕ) (e : Env) (id' hash' ack : List ℕ) (j : Journal) (st : Store)
      → IsRing j
      → n < 15
      → Recent j id hash n
      → (write prefs updates e id' hash' ack j st).0 ≡ true
      → Recent (write prefs updates e id' hash' ack j st).1 id hash (n + 1)
  unfolding write
  update-Recent id hash n e id' hash' ack j st v hn r done =
      let held = write_held prefs e id' hash' ack j st updates done in
      let k = (lock e j).1 in
      let w = lock-IsRing e j v in
      let r' = Recent-same j k id hash n (lock_same e j) r in
      elim (Option-cases (find j id')) [
        | inl absent ↦
            let eq = update_absent prefs e id' hash' ack j st held absent in
            rw eq (
              store_new-Recent id hash n id' hash' ack k st w hn (lock_find e j id' ∙ absent) r'
                (ground arith))
        | inr (i, found) ↦
            let eq = update_found prefs e id' hash' ack j st i held found in
            rw eq (
              rewrite_ack-Recent id hash n id' hash' ack i k st w (lock_find e j id' ∙ found) r'
                (ground arith))
      ]

  -- One more write, whatever it is of and whether it succeeds, ages an entry by one at most.
  pub write-Recent :
      (id hash : List ℕ) (n : ℕ) (w : Write) (e : Env) (id' hash' ack : List ℕ) (j : Journal)
      (st : Store)
      → IsRing j
      → n < 15
      → Recent j id hash n
      → Recent (write prefs w e id' hash' ack j st).1 id hash (n + 1)
  write-Recent id hash n w e id' hash' ack j st v hn r =
      elim (Bool-cases (write prefs w e id' hash' ack j st).0) [
        | inl done ↦ aged w done
        | inr refused ↦
            Recent-wider _ id hash n
              (Recent-same j _ id hash n (write_refused prefs w e id' hash' ack j st refused) r)
      ]
    where
      aged :
          (u : Write)
          → (write prefs u e id' hash' ack j st).0 ≡ true
          → Recent (write prefs u e id' hash' ack j st).1 id hash (n + 1)
      aged stores done = store-Recent id hash n e id' hash' ack j st v hn r done
      aged updates done = update-Recent id hash n e id' hash' ack j st v hn r done

  pub store_new_first :
      (id hash ack : List ℕ) (j : Journal) (st : Store)
      → IsRing j
      → find j id ≡ none
      → (store_new prefs id hash ack j st).0 ≡ true
      → Recent (store_new prefs id hash ack j st).1 id hash 0
  unfolding store_new find
  store_new_first id hash ack j st v absent saved =
      let entry : Slot = record { id = id; hash = hash; ack = ack; valid = true } in
      let w = j.write_idx in
      let at = get_or-set_self j.slots w entry empty_slot (omega arith) in
      (
        w,
        ground (
          arith,
          bytes_eq_refl id,
          find_in-set_fresh id j.slots j.size (if leb j.size w then w + 1 else j.size) 0 w entry
              absent,
        ),
        ground (arith, at, bytes_eq_refl hash),
        v.pointer,
        ground arith,
      )
