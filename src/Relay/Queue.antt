-- ===== src/Relay/Queue.antt =====
-- The command queue and the results of firmware/Services/RelayController.cpp: `queueCommand`,
-- `processCommandQueue`, `_recordTransactionResult` and `getTransactionResult`. The queue is FreeRTOS's,
-- of 8 places; the journal is the one of Journal. The JSON text of an ack is a parameter.
use pltsmonitoring_firmware.Prelude.{
  ℕ, ◌+◌, ◌%◌, ltb, ◌==◌, if◌then◌else◌, Bool, true, false, not, ◌&&◌, Option, none, some, List, [],
  ◌∷◌, ◌++◌, length,
}
use pltsmonitoring_firmware.Journal.{Preferences, Journal, Env}
use pltsmonitoring_firmware.Journal.Store.{update_ack}
use pltsmonitoring_firmware.Relay.{
  TerminalResult, executed, blocked, rejected, failed, unknown, TransactionRecord, Controller,
  Moment, put, channel_count,
}
use pltsmonitoring_firmware.Relay.Channel.{find_record}
use pltsmonitoring_firmware.Relay.Command.{RelayCommand, CommandResult, apply_command}
use pltsmonitoring_firmware.Relay.Command as Command

abbrev pub queue_size : ℕ
queue_size = 8

abbrev pub ring_size : ℕ
ring_size = 8

-- The controller with its queue and the journal that its results go to.
pub record Executor (S : Type 0) : Type 0 where
  pub controller : Controller
  pub queue : List RelayCommand
  pub journal : Journal
  pub store : S

unfoldable pub queue_command : {S : Type 0} → RelayCommand → Executor S → Bool × Executor S
queue_command cmd x =
    if ltb (length x.queue) queue_size
    then (true, record x { queue = x.queue ++ (cmd ∷ []) })
    else (false, x)

unfoldable pub get_transaction_result : List ℕ → Controller → Option TransactionRecord
unfolding find_record
get_transaction_result [] c = none
get_transaction_result (b ∷ id) c = elim (find_record (b ∷ id) c.ring ring_size 0) [
  | none ↦ none
  | some i ↦ some (c.ring i)
]

-- The record that goes into the ring.
abbrev pub new_record : Moment → RelayCommand → TerminalResult → Controller → TransactionRecord
new_record m cmd result c =
    let valid_channel = ltb cmd.channel channel_count in
    record {
      transaction_id = cmd.transaction_id;
      request_id = cmd.request_id;
      result = result;
      channel = cmd.channel;
      desired_state = cmd.desired_state;
      reported_state = valid_channel && (c.channels cmd.channel).reported_state;
      state_sequence = if valid_channel then (c.channels cmd.channel).state_sequence else 0;
      completed_at_ms = m.now;
      valid = true;
    }

-- The result of `applyCommand` as a terminal result; a failure with an unknown shadow is UNKNOWN.
unfoldable pub terminal_of : CommandResult → Controller → TerminalResult
terminal_of Command.applied c = executed
terminal_of Command.blocked c = blocked
terminal_of Command.rejected c = rejected
terminal_of Command.failed c = if c.bank.shadow_unknown then unknown else failed

-- What the checks before the execution answer: the clock, the expiry, the safety generation.
unfoldable pub refuses : Moment → RelayCommand → Controller → Option TerminalResult
refuses m cmd c =
    let now = m.unix_time in
    if cmd.desired_state && now == 0
    then some rejected
    else if ltb 0 cmd.expires_at && (not (now == 0) && ltb cmd.expires_at now)
    then some rejected
    else if not (cmd.safety_generation == c.safety_generation)
    then some blocked
    else none

-- One command taken from the queue, up to its terminal result.
unfoldable pub judge : Moment → RelayCommand → Controller → TerminalResult × Controller
unfolding refuses apply_command terminal_of
judge m cmd c =
    let (result, after) = apply_command m cmd c in
    elim (refuses m cmd c) [ some early ↦ (early, c) | none ↦ (terminal_of result after, after) ]

module _ (prefs : Preferences) (ack_text : TransactionRecord → ℕ → List ℕ) where
  open prefs use {Store}

  -- The ring first, then the journal, for a command that has an identity.
  unfoldable pub record_result :
      Moment → Env → RelayCommand → TerminalResult → Executor Store → Executor Store
  record_result m e cmd result x =
      let c = x.controller in
      let r = new_record m cmd result c in
      let noted = record c {
        ring = put c.ring c.ring_next r;
        ring_next = (c.ring_next + 1) % ring_size;
      } in
      elim cmd.transaction_id [
        | [] ↦ record x { controller = noted }
        | b ∷ id ↦
            let (kept, j, st) =
              update_ack prefs e (b ∷ id) cmd.command_hash (ack_text r x.journal.boot_count)
                x.journal x.store in
            record x { controller = noted; journal = j; store = st }
      ]

  unfoldable pub execute : Moment → Env → RelayCommand → Executor Store → Executor Store
  unfolding judge record_result
  execute m e cmd x =
      let (result, c) = judge m cmd x.controller in
      record_result m e cmd result (record x { controller = c })

  -- The commands `cmds` that are taken from the queue, each with the moment of its execution.
  unfoldable pub drain :
      (ℕ → Moment × Env) → ℕ → List RelayCommand → Executor Store → Executor Store
  unfolding execute
  drain at i [] x = x
  drain at i (cmd ∷ cmds) x = drain at (i + 1) cmds (execute (at i).0 (at i).1 cmd x)

  unfoldable pub process_command_queue : (ℕ → Moment × Env) → Executor Store → Executor Store
  unfolding drain
  process_command_queue at x = drain at 0 x.queue (record x { queue = [] })
