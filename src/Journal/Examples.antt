-- ===== src/Journal/Examples.antt =====
-- The transaction journal at work on a `Preferences` that keeps its records in a function.
use pltsmonitoring_firmware.Prelude.{
  ℕ, ◌≡◌, ◌==◌, if◌then◌else◌, Bool, true, false, List, [], ◌∷◌, length, some, refl, replicate,
  ◌&&◌, arith,
}
use pltsmonitoring_firmware.Journal.{
  Preferences, Slot, Journal, Env, empty_slot, decide, find, find_in, lock, new, duplicate,
}
use pltsmonitoring_firmware.Crc.{
  crc32, crc32_loop, crc32_step, crc32_table, fill_table, table_rounds, table_round,
}
use pltsmonitoring_firmware.Journal.Blob.{
  text_len, ack_len, payload, le32, blob, write_blob, save_entry,
}
use pltsmonitoring_firmware.Journal.Store.{stores, store_new, store_transaction, update_ack, write}
use pltsmonitoring_firmware.Journal.Load.{
  load_slot, load_slots, loaded_size, load_from_nvs, clear_and_count, begin, c_string, parse,
  parse_ack, parse_hash, stored_crc, accepts,
}
use pltsmonitoring_firmware.Journal.Dedup.{kept_ack, write-decide}
use pltsmonitoring_firmware.Journal.Ring.{IsRing}
use pltsmonitoring_firmware.Journal.Retention.{Request, run, run_remembers}
use pltsmonitoring_firmware.Journal.Roundtrip.{Fits, saved_crc, checked_crc, load_slot-blob}

abbrev flash : Preferences
flash = record {
  Store = (ℕ → List ℕ) × ℕ;
  open_namespace = λ read_only st. (true, st);
  put_bytes = λ i bytes st. (length bytes, ((λ k. if k == i then bytes else st.0 k), st.1));
  get_bytes = λ i st. st.0 i;
  get_boot = λ st. st.1;
  put_boot = λ n st. (st.0, n);
}

-- A `Preferences` whose writes fail.
abbrev worn : Preferences
worn = record {
  Store = Bool;
  open_namespace = λ read_only st. (true, st);
  put_bytes = λ i bytes st. (0, st);
  get_bytes = λ i st. [];
  get_boot = λ st. 0;
  put_boot = λ n st. st;
}

abbrev blank : flash.Store
blank = ((λ k. []), 0)

abbrev empty_journal : Journal
empty_journal = record {
  slots = replicate 16 empty_slot;
  size = 0;
  write_idx = 0;
  mutex = true;
  lock_failures = 0;
  last_lock_fail_log_ms = 0;
  boot_count = 1;
}

abbrev calm : Env
calm = record { creates = true; now = 1000 }

empty_journal-IsRing : IsRing empty_journal
empty_journal-IsRing = record {
  full_length = refl;
  within = ground arith;
  pointer = ground arith;
  filling = λ h. refl;
}

stored_now : (write flash stores calm (65 ∷ []) (66 ∷ []) (67 ∷ []) empty_journal blank).0 ≡ true
unfolding write store_transaction store_new lock find find_in save_entry write_blob blob payload
    text_len ack_len le32
stored_now = refl

updated_now : (update_ack flash calm (65 ∷ []) (66 ∷ []) (67 ∷ []) empty_journal blank).0 ≡ true
unfolding update_ack store_new lock find find_in save_entry write_blob blob payload text_len ack_len
    le32
updated_now = refl

new_now : (decide calm empty_journal (65 ∷ []) (66 ∷ [])).0.0 ≡ new
unfolding decide lock find find_in
new_now = refl

stored_first :
    (store_transaction flash calm (65 ∷ []) (66 ∷ []) (67 ∷ []) empty_journal blank).0 ≡ true
unfolding store_transaction store_new lock find find_in save_entry write_blob blob payload text_len
    ack_len le32
stored_first = refl

worn_now : (write worn stores calm (65 ∷ []) (66 ∷ []) (67 ∷ []) empty_journal true).0 ≡ false
unfolding write store_transaction store_new lock find find_in save_entry write_blob
worn_now = refl

begun :
    (begin flash calm empty_journal blank)
    ≡ some (record empty_journal { boot_count = 1 }, ((λ k. []), 1))
unfolding begin clear_and_count load_from_nvs load_slots load_slot loaded_size parse stored_crc
    accepts
begun = refl

write-decide_example :
    let k = (write flash stores calm (65 ∷ []) (66 ∷ []) (67 ∷ []) empty_journal blank).1 in
    decide calm k (65 ∷ []) (66 ∷ [])
    ≡ ((duplicate, some (kept_ack stores empty_journal (65 ∷ []) (67 ∷ []))), k)
write-decide_example =
    write-decide flash stores calm calm (65 ∷ []) (66 ∷ []) (67 ∷ []) empty_journal blank
      empty_journal-IsRing stored_now

abbrev next_request : Request
next_request = record { kind = stores; env = calm; id = 70 ∷ []; hash = 71 ∷ []; ack = 72 ∷ [] }

run_remembers_example :
    let (_, k, st') =
      store_transaction flash calm (65 ∷ []) (66 ∷ []) (67 ∷ []) empty_journal blank in
    (decide calm (run flash (next_request ∷ next_request ∷ []) k st').0 (65 ∷ []) (66 ∷ [])).0.0
    ≡ duplicate
run_remembers_example =
    run_remembers flash calm calm (65 ∷ []) (66 ∷ []) (67 ∷ []) (next_request ∷ next_request ∷ [])
      empty_journal blank empty_journal-IsRing new_now stored_first (ground arith)

abbrev no_mutex : Journal
no_mutex = record empty_journal { mutex = false }

abbrev no_heap : Env
no_heap = record { creates = false; now = 1000 }

abbrev entry : Slot
entry = record { id = 65 ∷ []; hash = 66 ∷ []; ack = 67 ∷ []; valid = true }

entry-Fits : Fits entry
entry-Fits = record {
  id_text = ground arith;
  hash_text = ground arith;
  ack_text = ground arith;
  id_short = ground arith;
  hash_short = ground arith;
  ack_short = ground arith;
  committed = refl;
}

load_slot-blob_example :
    load_slot (blob 1 entry)
    ≡ (if (1 == 1) && (saved_crc entry == checked_crc entry) then entry else empty_slot)
load_slot-blob_example = load_slot-blob 1 entry entry-Fits

-- A record that the firmware writes for a small transaction is not accepted when it is read back.
entry_lost : load_slot (blob 1 entry) ≡ empty_slot
unfolding load_slot blob payload text_len ack_len le32 parse parse_ack parse_hash stored_crc accepts
    c_string crc32 crc32_loop crc32_step crc32_table fill_table table_rounds table_round
entry_lost = refl
