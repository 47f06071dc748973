-- ===== src/Relay/Results.antt =====
-- `_recordTransactionResult` and `getTransactionResult` of firmware/Services/RelayController.cpp, with
-- the journal of firmware/Services/TransactionJournal.cpp: a result is found again.
use pltsmonitoring_firmware.Prelude.{
  ℕ, zero, suc, ◌+◌, ◌<◌, ◌≤◌, ◌==◌, bytes_eq, bytes_eq_refl, true, none, some, List, ◌∷◌, ◌≡◌, inl,
  inr, refl, arith, Bool-cases,
}
use pltsmonitoring_firmware.Journal.{Preferences, Env, decide, duplicate}
use pltsmonitoring_firmware.Journal.Store.{updates, update_ack, write}
use pltsmonitoring_firmware.Journal.Dedup.{write-decide}
use pltsmonitoring_firmware.Journal.Ring.{IsRing}
use pltsmonitoring_firmware.Relay.{Controller, Moment, TransactionRecord, TerminalResult, put}
use pltsmonitoring_firmware.Relay.Channel.{find_record}
use pltsmonitoring_firmware.Relay.Command.{RelayCommand}
use pltsmonitoring_firmware.Relay.Queue.{
  Executor, new_record, record_result, get_transaction_result,
}

find_record-put :
    (id : List ℕ) (ring : ℕ → TransactionRecord) (k : ℕ) (r : TransactionRecord) (n i : ℕ)
    → find_record id ring n i ≡ none
    → i ≤ k
    → k < i + n
    → r.valid ≡ true
    → bytes_eq r.transaction_id id ≡ true
    → find_record id (put ring k r) n i ≡ some k
unfolding find_record
find_record-put id ring k r zero i absent low high valid same = absurd (omega arith)
find_record-put id ring k r (suc n) i absent low high valid same = elim (Bool-cases (i == k)) [
  | inl here ↦ ground arith
  | inr there ↦
      let rest =
        find_record-put id ring k r n (i + 1) (ground arith) (ground arith) (omega arith) valid
          same in
      ground arith
]

get_result :
    (b : ℕ) (id : List ℕ) (c : Controller) (ring : ℕ → TransactionRecord) (k : ℕ)
    (r : TransactionRecord)
    → c.ring ≡ put ring k r
    → find_record (b ∷ id) (put ring k r) 8 0 ≡ some k
    → get_transaction_result (b ∷ id) c ≡ some r
unfolding get_transaction_result
get_result b id c ring k r same found =
    let at : find_record (b ∷ id) c.ring 8 0 ≡ some k = rw same found in
    let it : c.ring k ≡ r = rw same (ground arith) in ground arith

module _ (prefs : Preferences) (ack_text : TransactionRecord → ℕ → List ℕ) where
  open prefs use {Store}

  module _ (m : Moment) (e : Env) (cmd : RelayCommand) (result : TerminalResult)
      (x : Executor Store) where
    recorded_ring :
        (record_result prefs ack_text m e cmd result x).controller.ring
        ≡ put x.controller.ring x.controller.ring_next (new_record m cmd result x.controller)
    unfolding record_result
    recorded_ring = ground arith

    recorded_journal :
        (b : ℕ) (id : List ℕ)
        → cmd.transaction_id ≡ b ∷ id
        → (record_result prefs ack_text m e cmd result x).journal
          ≡ (update_ack prefs e cmd.transaction_id cmd.command_hash
              (ack_text (new_record m cmd result x.controller) x.journal.boot_count)
              x.journal
              x.store).1
    unfolding record_result
    recorded_journal b id named = rw named refl

    -- A terminal result that was recorded is found again, in both places: the ring answers the new
    -- record, whatever it held in the slot that it overwrote, and, where the journal's write answered
    -- true, the same transaction with the same hash is from then on a DUPLICATE whose ack is the text
    -- of that record. The command has an identity that the ring did not hold, and the ring's and the
    -- journal's indices are in bounds.
    pub record_result-found :
        (e' : Env) (b : ℕ) (id : List ℕ)
        → cmd.transaction_id ≡ b ∷ id
        → x.controller.ring_next < 8
        → find_record (b ∷ id) x.controller.ring 8 0 ≡ none
        → IsRing x.journal
        → let r = new_record m cmd result x.controller in
          let ack = ack_text r x.journal.boot_count in
          (update_ack prefs e cmd.transaction_id cmd.command_hash ack x.journal x.store).0 ≡ true
          → let y = record_result prefs ack_text m e cmd result x in
            (get_transaction_result (b ∷ id) y.controller ≡ some r)
            × (decide e' y.journal cmd.transaction_id cmd.command_hash
                ≡ ((duplicate, some ack), y.journal))
    unfolding write
    record_result-found e' b id named low absent ring saved =
        let r = new_record m cmd result x.controller in
        let ack = ack_text r x.journal.boot_count in
        let k = x.controller.ring_next in
        let same : bytes_eq r.transaction_id (b ∷ id) ≡ true = rw named (bytes_eq_refl (b ∷ id)) in
        let found =
          find_record-put (b ∷ id) x.controller.ring k r 8 0 absent (omega arith) low refl same in
        let again =
          write-decide prefs updates e e' cmd.transaction_id cmd.command_hash ack x.journal x.store
            ring saved in
        (
          get_result b id _ x.controller.ring k r recorded_ring found,
          rw (recorded_journal b id named) again,
        )
