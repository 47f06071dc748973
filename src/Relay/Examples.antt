-- ===== src/Relay/Examples.antt =====
-- The relay controller at work: a bank of eight channels that answers, channel 0 on.
mod Witnesses
use pltsmonitoring_firmware.Prelude.{
  ℕ, zero, suc, ◌≡◌, ◌≢◌, ◌⊎◌, ◌<◌, ◌==◌, if◌then◌else◌, true, false, List, [], ◌∷◌, length, some,
  none, refl, replicate, inl, arith,
}
use pltsmonitoring_firmware.Expander.{Expander, Bus, set_channel}
use pltsmonitoring_firmware.Expander.Register.{is_on}
use pltsmonitoring_firmware.Expander.Latch.{IsHonest, IsCoherent}
use pltsmonitoring_firmware.Journal.{
  Preferences, Journal, Env, empty_slot, decide, duplicate, find, lock,
}
use pltsmonitoring_firmware.Journal.Store.{update_ack, store_new}
use pltsmonitoring_firmware.Journal.Blob.{
  text_len, ack_len, payload, le32, blob, write_blob, save_entry,
}
use pltsmonitoring_firmware.Journal.Ring.{IsRing}
use pltsmonitoring_firmware.Crc.{
  crc32, crc32_loop, crc32_step, crc32_table, fill_table, table_rounds, table_round,
}
use pltsmonitoring_firmware.Relay.{
  software_only, manual, normal, tripped, executed, force_off, ChannelState, ChannelConfig,
  TransactionRecord, Controller, Moment,
}
use pltsmonitoring_firmware.Relay.Boot.{
  begin, empty_record, emergency_all_off, clear_emergency_latch,
}
use pltsmonitoring_firmware.Relay.Channel.{apply_channel_state, evaluate_interlock, find_record}
use pltsmonitoring_firmware.Relay.Enforce.{check_max_on_time}
use pltsmonitoring_firmware.Relay.Command.{
  RelayCommand, applied, over_limit, on, off, word_other, apply_command, apply_to_channel, apply_on,
}
use pltsmonitoring_firmware.Relay.Queue.{
  Executor, judge, refuses, new_record, record_result, get_transaction_result,
}
use pltsmonitoring_firmware.Relay.Tick.{TickEnv, tick}
use pltsmonitoring_firmware.Relay.Mirror.{IsTruthful, IsMirror}
use pltsmonitoring_firmware.Relay.Executor.{IsTruthfulTick}
use pltsmonitoring_firmware.Relay.Emergency.{ticks, emergency_drops_queue}
use pltsmonitoring_firmware.Relay.Grant.{IsGranted}
use pltsmonitoring_firmware.Relay.Served.{IsServed, tick-IsServed, judge_grants}
use pltsmonitoring_firmware.Relay.Limit.{IsWorking, limit_enforced}
use pltsmonitoring_firmware.Relay.Results.{record_result-found}
use pltsmonitoring_firmware.Relay.Machine.{LockoutMove, apply_command-LockoutMove}
use pltsmonitoring_firmware.Relay.Barrier.{emergency-IsMirror}
use pltsmonitoring_firmware.Relay.Interlock.{begin-IsMirror, begin_drops_interlocks}
use pltsmonitoring_firmware.Relay.Stuck.{forced_write_not_retried}
use pltsmonitoring_firmware.Relay.Honest.{wanted, executed_reached}

abbrev pub good_bus : Bus
good_bus = record { mutex = true; guard = true; reached = true; acked = true; answer = some 0xFF }

abbrev pub busy_bus : Bus
busy_bus = record good_bus { mutex = false }

abbrev pub at_noon : Moment
at_noon = record {
  now = 100000;
  unix_time = 1700000000;
  nvs_opens = true;
  bus = λ ch. good_bus;
  barrier = good_bus;
}

abbrev pub lit : ChannelState
lit = record {
  desired_state = true;
  reported_state = true;
  confidence = software_only;
  source = manual;
  lockout = normal;
  state_sequence = 1;
  last_changed_at_ms = 1000;
  on_since_ms = 1000;
  max_on_time_forced = false;
  fault = false;
  comm_loss_forced = false;
  last_command_at_ms = 1000;
}

abbrev pub dark : ChannelState
dark = record lit { desired_state = false; reported_state = false; on_since_ms = 0 }

abbrev pub plain : ChannelConfig
plain = record {
  max_on_time_sec = 60;
  min_on_time_sec = 0;
  min_off_time_sec = 0;
  min_switch_interval_sec = 0;
  enabled = true;
  interlock_group = 0;
  comm_loss_policy = force_off;
  command_lease_sec = 300;
}

abbrev pub bank_one : Expander
bank_one = record {
  available = true;
  shadow_unknown = false;
  address = 0x20;
  output_state = 0xFE;
  safety_latched = false;
  port = 0xFE;
}

abbrev pub one_lit : Controller
one_lit = record {
  channels = λ ch. if ch == 0 then lit else dark;
  configs = λ ch. plain;
  groups = λ g. record {
    active = false;
    members = [];
    dead_time_ms = 0;
    active_member = 0xFF;
    last_off_ms = 0;
  };
  driver_available = true;
  i2c_address = 0x20;
  safety_generation = 7;
  authority_lost = false;
  authority_lost_since_ms = 0;
  hold_safe_warned = λ ch. false;
  pulses = λ ch. record { active = false; off_at_ms = 0; transaction_id = []; generation = 0 };
  ring = λ i. empty_record;
  ring_next = 0;
  bank = bank_one;
  nvs_lockout = λ ch. normal;
  nvs_forced = λ ch. false;
  raised = [];
}

abbrev pub switch_on : ℕ → RelayCommand
switch_on ch = record {
  transaction_id = 65 ∷ [];
  request_id = [];
  command_hash = 66 ∷ [];
  verb = on;
  channel = ch;
  desired_state = true;
  pulse_duration_ms = 0;
  source = word_other;
  expires_at = 0;
  safety_generation = 7;
}

abbrev pub switch_off : ℕ → RelayCommand
switch_off ch = record (switch_on ch) { verb = off; desired_state = false }

pub good_bus-IsHonest : IsHonest good_bus
good_bus-IsHonest = record { acked_reached = λ h. refl }

pub at_noon-IsTruthful : IsTruthful at_noon
at_noon-IsTruthful = record { writes = λ ch. good_bus-IsHonest; bank_write = good_bus-IsHonest }

pub bank_one-IsCoherent : IsCoherent bank_one
bank_one-IsCoherent = record {
  port_byte = ground arith;
  shadow_byte = ground arith;
  shadow_true = λ a u. refl;
}

-- Channel 0 is reported on and the others off, as the chip has it.
pub one_lit_bits : (d : ℕ) → d < 8 → (one_lit.channels d).reported_state ≡ is_on 0xFE d
unfolding is_on
one_lit_bits zero h = refl
one_lit_bits (suc zero) h = refl
one_lit_bits (suc (suc zero)) h = refl
one_lit_bits (suc (suc (suc zero))) h = refl
one_lit_bits (suc (suc (suc (suc zero)))) h = refl
one_lit_bits (suc (suc (suc (suc (suc zero))))) h = refl
one_lit_bits (suc (suc (suc (suc (suc (suc zero)))))) h = refl
one_lit_bits (suc (suc (suc (suc (suc (suc (suc zero))))))) h = refl
one_lit_bits (suc (suc (suc (suc (suc (suc (suc (suc d)))))))) h = absurd (omega arith)

pub one_lit-IsMirror : IsMirror one_lit
one_lit-IsMirror = record {
  present = refl;
  coherent = bank_one-IsCoherent;
  reported = λ a u d hd. one_lit_bits d hd;
}

-- An executor with a command in its queue, on a `Preferences` that keeps its records in a function.
abbrev pub flash : Preferences
flash = record {
  Store = (ℕ → List ℕ) × ℕ;
  open_namespace = λ read_only st. (true, st);
  put_bytes = λ i bytes st. (length bytes, ((λ k. if k == i then bytes else st.0 k), st.1));
  get_bytes = λ i st. st.0 i;
  get_boot = λ st. st.1;
  put_boot = λ n st. (st.0, n);
}

abbrev pub calm : Env
calm = record { creates = true; now = 1000 }

abbrev pub empty_journal : Journal
empty_journal = record {
  slots = replicate 16 empty_slot;
  size = 0;
  write_idx = 0;
  mutex = true;
  lock_failures = 0;
  last_lock_fail_log_ms = 0;
  boot_count = 0;
}

abbrev pub ack_text : TransactionRecord → ℕ → List ℕ
ack_text r boot = 67 ∷ boot ∷ []

abbrev pub waiting : Executor flash.Store
waiting = record {
  controller = one_lit;
  queue = switch_on 3 ∷ switch_off 0 ∷ [];
  journal = empty_journal;
  store = ((λ k. []), 0);
}

abbrev pub noon_tick : TickEnv
noon_tick = record {
  recovery = at_noon;
  limits = at_noon;
  leases = at_noon;
  commands = λ i. (at_noon, calm);
  pulses = at_noon;
  lockouts = at_noon;
}

pub noon_tick-IsTruthful : IsTruthfulTick noon_tick
noon_tick-IsTruthful = record {
  recovery = at_noon-IsTruthful;
  limits = at_noon-IsTruthful;
  leases = at_noon-IsTruthful;
  commands = λ i. at_noon-IsTruthful;
  pulses = at_noon-IsTruthful;
  lockouts = at_noon-IsTruthful;
}
