-- ===== src/Journal.antt =====
-- firmware/Services/TransactionJournal.{h,cpp}: the ring of 16 transactions that decides whether a
-- command is new, and its records in NVS. Every operation runs under the journal's mutex, so each is
-- one step here. The `Preferences` library is a parameter; the logger and the serial port are left
-- out. Texts are lists of bytes, and `none` from `begin` means that the boot halts.
pub mod Blob
pub mod Store
pub mod Load
pub mod Lookup
pub mod Dedup
pub mod Ring
pub mod Recent
pub mod Retention
pub mod Roundtrip
mod Examples
use pltsmonitoring_firmware.Prelude.{
  ℕ, zero, suc, ◌+◌, ◌-◌, ◌%◌, ◌^◌, ltb, leb, ◌==◌, if◌then◌else◌, bytes_eq, Bool, true, false, not,
  ◌&&◌, Option, none, some, List, [], ◌∷◌, ◌≡◌, get_or, set, replicate, length,
}

-- What the journal calls of the `Preferences` library, in namespace "plts_txn". `begin` takes the
-- read-only flag; the key "t_<i>" is the number i; `put_bytes` also returns the count written.
pub record Preferences : Type 1 where
  pub Store : Type 0
  pub open_namespace : Bool → Store → Bool × Store
  pub put_bytes : ℕ → List ℕ → Store → ℕ × Store
  pub get_bytes : ℕ → Store → List ℕ
  pub get_boot : Store → ℕ
  pub put_boot : ℕ → Store → Store

abbrev pub journal_size : ℕ
journal_size = 16

abbrev pub blob_size : ℕ
blob_size = 1200

-- One index of the arrays `_ids`, `_hashes`, `_acks` and `_valid`.
pub record Slot : Type 0 where
  pub id : List ℕ
  pub hash : List ℕ
  pub ack : List ℕ
  pub valid : Bool

abbrev pub empty_slot : Slot
empty_slot = record { id = []; hash = []; ack = []; valid = false }

-- The fields of `TransactionJournal`; `mutex` says whether the handle exists.
pub record Journal : Type 0 where
  pub slots : List Slot
  pub size : ℕ
  pub write_idx : ℕ
  pub mutex : Bool
  pub lock_failures : ℕ
  pub last_lock_fail_log_ms : ℕ
  pub boot_count : ℕ

-- What a call meets: whether `xSemaphoreCreateMutex` succeeds when it is tried, and `millis()`.
pub record Env : Type 0 where
  pub creates : Bool
  pub now : ℕ

pub data Decision : Type 0 where
  new duplicate conflict unavailable : Decision

-- `_lock`. The failure counter and the time of the last log are `uint32_t`.
unfoldable pub lock : Env → Journal → Bool × Journal
lock e j = if j.mutex then (true, j) else if e.creates then (true, record j { mutex = true }) else (
  false,
  record j {
    lock_failures = (j.lock_failures + 1) % 2 ^ 32;
    last_lock_fail_log_ms =
        if ltb 60000 ((e.now + 2 ^ 32 - j.last_lock_fail_log_ms) % 2 ^ 32)
        then e.now
        else j.last_lock_fail_log_ms;
  },
)

-- The loop of `_findInJournal` over the `n` slots from index `i` on.
pub find_in : List ℕ → List Slot → ℕ → ℕ → Option ℕ
find_in id [] n i = none
find_in id (s ∷ rest) zero i = none
find_in id (s ∷ rest) (suc n) i =
    if s.valid && bytes_eq s.id id then some i else find_in id rest n (i + 1)

unfoldable pub find : Journal → List ℕ → Option ℕ
unfolding find_in
find j id = find_in id j.slots j.size 0

abbrev pub slot_at : Journal → ℕ → Slot
slot_at j i = get_or j.slots i empty_slot

unfoldable pub is_processed : Env → Journal → List ℕ → Bool × Journal
is_processed e j id =
    let (held, k) = lock e j in
    (if held then elim (find k id) [ none ↦ false | some i ↦ true ] else true, k)

unfoldable pub get_command_hash : Env → Journal → List ℕ → List ℕ × Journal
get_command_hash e j id =
    let (held, k) = lock e j in
    (if held then elim (find k id) [ none ↦ [] | some i ↦ (slot_at k i).hash ] else [], k)

unfoldable pub get_ack_json : Env → Journal → List ℕ → List ℕ × Journal
get_ack_json e j id =
    let (held, k) = lock e j in
    (if held then elim (find k id) [ none ↦ [] | some i ↦ (slot_at k i).ack ] else [], k)

-- `decide`, with the previous ack that it hands out (`none` where it leaves the argument alone).
unfoldable pub decide : Env → Journal → List ℕ → List ℕ → (Decision × Option (List ℕ)) × Journal
decide e j id hash =
    let (held, k) = lock e j in
    (
      if held
          then elim (find k id) [
            | none ↦ (new, none)
            | some i ↦
                if bytes_eq (slot_at k i).hash hash
                then (duplicate, some (slot_at k i).ack)
                else (conflict, none)
          ]
          else (unavailable, some []),
      k,
    )
