-- ===== src/Relay/Examples/Witnesses.antt =====
-- The theorems on the relay controller (firmware/Services/RelayController.cpp) at the inputs of Examples.
use pltsmonitoring_firmware.Prelude.{
  ℕ, ◌≡◌, ◌≢◌, ◌⊎◌, ◌<◌, ◌==◌, true, false, [], ◌∷◌, some, none, refl, inl, arith,
}
use pltsmonitoring_firmware.Expander.{set_channel}
use pltsmonitoring_firmware.Expander.Register.{is_on}
use pltsmonitoring_firmware.Journal.{decide, duplicate, find, lock}
use pltsmonitoring_firmware.Journal.Store.{update_ack, store_new}
use pltsmonitoring_firmware.Journal.Blob.{
  text_len, ack_len, payload, le32, blob, write_blob, save_entry,
}
use pltsmonitoring_firmware.Journal.Ring.{IsRing}
use pltsmonitoring_firmware.Crc.{
  crc32, crc32_loop, crc32_step, crc32_table, fill_table, table_rounds, table_round,
}
use pltsmonitoring_firmware.Relay.{manual, normal, tripped, executed, Moment}
use pltsmonitoring_firmware.Emergency.{pos}
use pltsmonitoring_firmware.Relay.Boot.{
  StoredConfig, load_config, begin, emergency_all_off, clear_emergency_latch,
}
use pltsmonitoring_firmware.Relay.Channel.{apply_channel_state, evaluate_interlock, find_record}
use pltsmonitoring_firmware.Relay.Enforce.{check_max_on_time}
use pltsmonitoring_firmware.Relay.Command.{
  RelayCommand, applied, over_limit, on, apply_command, apply_to_channel, apply_on,
}
use pltsmonitoring_firmware.Relay.Queue.{
  judge, refuses, new_record, record_result, get_transaction_result,
}
use pltsmonitoring_firmware.Relay.Tick.{tick}
use pltsmonitoring_firmware.Relay.Mirror.{IsMirror}
use pltsmonitoring_firmware.Relay.Emergency.{ticks, emergency_drops_queue}
use pltsmonitoring_firmware.Relay.Grant.{IsGranted}
use pltsmonitoring_firmware.Relay.Served.{IsServed, tick-IsServed, judge_grants}
use pltsmonitoring_firmware.Relay.Limit.{IsWorking, limit_enforced}
use pltsmonitoring_firmware.Relay.Results.{record_result-found}
use pltsmonitoring_firmware.Relay.Machine.{LockoutMove, apply_command-LockoutMove}
use pltsmonitoring_firmware.Relay.Barrier.{emergency-IsMirror}
use pltsmonitoring_firmware.Relay.Interlock.{begin-IsMirror, begin_drops_interlocks}
use pltsmonitoring_firmware.Relay.Stuck.{forced_write_not_retried}
use pltsmonitoring_firmware.Relay.Honest.{wanted, executed_reached}
use pltsmonitoring_firmware.Relay.Examples.{
  busy_bus, at_noon, bank_one, one_lit, switch_on, switch_off, at_noon-IsTruthful,
  bank_one-IsCoherent, one_lit-IsMirror, flash, calm, empty_journal, ack_text, waiting, noon_tick,
  noon_tick-IsTruthful,
}

emergency_drops_queue_example :
    let armed = clear_emergency_latch (emergency_all_off at_noon one_lit) in
    is_on
      (ticks flash ack_text
        (noon_tick ∷ noon_tick ∷ [])
        (record waiting { controller = armed })).controller.bank.port
      3
    ≡ false
emergency_drops_queue_example =
    emergency_drops_queue flash ack_text at_noon (noon_tick ∷ noon_tick ∷ []) waiting 3
      at_noon-IsTruthful (noon_tick-IsTruthful, (noon_tick-IsTruthful, tt)) one_lit-IsMirror refl
      refl refl (ground arith) (refl, (refl, tt)) (ground arith)

tick-IsServed_example :
    IsServed waiting.queue one_lit (tick flash ack_text noon_tick waiting).controller
tick-IsServed_example =
    tick-IsServed flash ack_text noon_tick waiting noon_tick-IsTruthful one_lit-IsMirror

judge_grants_example :
    IsMirror (judge at_noon (switch_on 3) one_lit).1
    × ((d : ℕ)
        → d < 8
        → is_on (judge at_noon (switch_on 3) one_lit).1.bank.port d ≡ true
        → (is_on one_lit.bank.port d ≡ true)
          ⊎ ((refuses at_noon (switch_on 3) one_lit ≡ none)
              × IsGranted at_noon (switch_on 3) one_lit d))
    × ((judge at_noon (switch_on 3) one_lit).1.safety_generation ≡ one_lit.safety_generation)
judge_grants_example =
    judge_grants at_noon (switch_on 3) one_lit at_noon-IsTruthful one_lit-IsMirror

was_executed : (judge at_noon (switch_on 3) one_lit).0 ≡ executed
unfolding judge refuses apply_command apply_to_channel apply_on apply_channel_state set_channel
was_executed = refl

executed_reached_example : is_on (judge at_noon (switch_on 3) one_lit).1.bank.port 3 ≡ wanted on
executed_reached_example =
    executed_reached at_noon (switch_on 3) one_lit at_noon-IsTruthful one_lit-IsMirror (inl refl)
      was_executed

-- Channel 0 has been on for 99 s of its 60.
now_over : over_limit at_noon 0 one_lit ≡ true
unfolding over_limit
now_over = refl

at_noon-IsWorking : IsWorking at_noon
at_noon-IsWorking = record {
  mutex = λ ch. refl;
  guard = λ ch. refl;
  reached = λ ch. refl;
  acked = λ ch. refl;
}

limit_enforced_example :
    let y = check_max_on_time at_noon 8 0 one_lit in
    (is_on y.bank.port 0 ≡ false)
    × ((y.channels 0).lockout ≡ tripped)
    × ((y.channels 0).max_on_time_forced ≡ true)
    × ((cmd : RelayCommand)
        → cmd.channel ≡ 0
        → (apply_to_channel at_noon cmd y).0 ≢ applied × ((apply_to_channel at_noon cmd y).1 ≡ y))
limit_enforced_example =
    limit_enforced at_noon at_noon-IsTruthful at_noon-IsWorking 0 one_lit one_lit-IsMirror
      record { present = refl; known = refl } (ground arith) now_over refl

empty_journal-IsRing : IsRing empty_journal
empty_journal-IsRing = record {
  full_length = refl;
  within = ground arith;
  pointer = ground arith;
  filling = λ h. refl;
}

not_in_ring : find_record (65 ∷ []) one_lit.ring 8 0 ≡ none
unfolding find_record
not_in_ring = refl

journal_saved :
    (update_ack flash calm (65 ∷ []) (66 ∷ []) (67 ∷ 0 ∷ []) empty_journal waiting.store).0 ≡ true
unfolding update_ack find lock store_new save_entry write_blob blob payload text_len ack_len crc32
    crc32_loop crc32_step crc32_table fill_table table_rounds table_round le32
journal_saved = refl

record_result-found_example :
    let y = record_result flash ack_text at_noon calm (switch_on 3) executed waiting in
    (get_transaction_result (65 ∷ []) y.controller
      ≡ some (new_record at_noon (switch_on 3) executed one_lit))
    × (decide calm y.journal (65 ∷ []) (66 ∷ []) ≡ ((duplicate, some (67 ∷ 0 ∷ [])), y.journal))
record_result-found_example =
    record_result-found flash ack_text at_noon calm (switch_on 3) executed waiting calm 65 [] refl
      (ground arith) not_in_ring empty_journal-IsRing journal_saved

apply_command-LockoutMove_example :
    LockoutMove
      (switch_on 0)
      0
      (over_limit at_noon 0 one_lit)
      normal
      ((apply_command at_noon (switch_on 0) one_lit).1.channels 0).lockout
apply_command-LockoutMove_example = apply_command-LockoutMove at_noon (switch_on 0) one_lit 0

emergency-IsMirror_example : IsMirror (emergency_all_off at_noon one_lit)
emergency-IsMirror_example = emergency-IsMirror at_noon one_lit at_noon-IsTruthful one_lit-IsMirror

begin-IsMirror_example :
    let y = begin at_noon true none one_lit in
    IsMirror y
    × ((y.channels 0).reported_state ≡ false)
    × ((y.bank.available ≡ false) ⊎ (is_on y.bank.port 0 ≡ false))
begin-IsMirror_example =
    begin-IsMirror at_noon true none one_lit 0 at_noon-IsTruthful bank_one-IsCoherent (ground arith)

-- NVS holds the active group 0 of the channels 1 and 2, with a dead time of half a second.
abbrev grouped : StoredConfig
grouped = record {
  channels = one_lit.configs;
  policy_byte = λ ch. 0;
  i2c_address = 0x20;
  groups = λ g. record { active = g == 0; dead_time_ms = 500; numbers = pos 1 ∷ pos 2 ∷ [] };
}

was_active : ((load_config (some grouped) one_lit).groups 0).active ≡ true
unfolding load_config
was_active = refl

begin_drops_interlocks_example :
    let y = begin at_noon true (some grouped) one_lit in
    (evaluate_interlock at_noon 2 y ≡ true)
    × (evaluate_interlock at_noon 2 (apply_channel_state at_noon 1 true manual y) ≡ true)
begin_drops_interlocks_example =
    begin_drops_interlocks at_noon true (some grouped) one_lit at_noon 2 1 true manual

abbrev contended : Moment
contended = record at_noon { bus = λ ch. busy_bus }

still_over : over_limit contended 0 one_lit ≡ true
unfolding over_limit
still_over = refl

forced_write_not_retried_example :
    let y = check_max_on_time contended 1 0 one_lit in
    (y.bank ≡ bank_one)
    × ((y.channels 0).lockout ≡ tripped)
    × (check_max_on_time at_noon 1 0 y ≡ y)
    × ((apply_command at_noon (switch_off 0) y).1 ≡ y)
forced_write_not_retried_example =
    forced_write_not_retried contended at_noon (switch_off 0) one_lit refl still_over refl refl
