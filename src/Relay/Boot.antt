-- ===== src/Relay/Boot.antt =====
-- `begin`, `_loadConfig`, `emergencyAllOff` and `clearEmergencyLatch` of
-- firmware/Services/RelayController.cpp.
use pltsmonitoring_firmware.Prelude.{
  ℕ, zero, suc, ◌+◌, ◌%◌, ◌^◌, ltb, leb, ◌==◌, if◌then◌else◌, Bool, true, false, not, ◌&&◌, ◌||◌,
  Option, none, some, List, [], ◌∷◌, ◌++◌, length,
}
use pltsmonitoring_firmware.Alarms.{critical}
use pltsmonitoring_firmware.Expander as Expander
use pltsmonitoring_firmware.Expander.{force_safety_all_off, clear_safety_latch}
use pltsmonitoring_firmware.Emergency.{ℤ, pos, negsuc}
use pltsmonitoring_firmware.Relay.{
  software_only, not_known, faulty, source_off, safety, tripped, acknowledged, LockoutState,
  force_off, hold_safe, ChannelState, ChannelConfig, InterlockGroup, TransactionRecord, unknown,
  relay_fault, Controller, Moment, put, channel_count,
}
use pltsmonitoring_firmware.Relay.Channel.{cancel_pulse}
use pltsmonitoring_firmware.Relay.Lockout.{load_lockouts}

-- What NVS holds of a group: the numbers of its members as they were read from the text.
pub record StoredGroup : Type 0 where
  pub active : Bool
  pub dead_time_ms : ℕ
  pub numbers : List ℤ

-- What NVS holds of the controller; a channel's policy is the byte read.
pub record StoredConfig : Type 0 where
  pub channels : ℕ → ChannelConfig
  pub policy_byte : ℕ → ℕ
  pub i2c_address : ℕ
  pub groups : ℕ → StoredGroup

abbrev pub contains : List ℕ → ℕ → Bool
contains [] n = false
contains (m ∷ members) n = m == n || contains members n

-- The members: numbers of channels, each once, four at most.
unfoldable pub valid_members : List ℤ → List ℕ → List ℕ
valid_members [] found = found
valid_members (v ∷ numbers) found =
    let new : List ℕ = elim v [
      | pos n ↦ if ltb n channel_count && not (contains found n) then found ++ (n ∷ []) else found
      | negsuc n ↦ found
    ] in
    let rest = valid_members numbers new in if ltb (length found) 4 then rest else found

unfoldable pub load_group : StoredGroup → InterlockGroup → InterlockGroup
unfolding valid_members
load_group s g =
    let members = if s.active then valid_members s.numbers [] else [] in
    record g {
      active = s.active && leb 2 (length members);
      members = members;
      dead_time_ms = s.dead_time_ms;
      active_member = 0xFF;
    }

-- A policy byte that is not known, and a lease of more than a day, are put right.
unfoldable pub load_channel : StoredConfig → ℕ → ChannelConfig
load_channel s ch =
    let g = s.channels ch in
    record g {
      comm_loss_policy = if s.policy_byte ch == 1 then hold_safe else force_off;
      command_lease_sec = if ltb 86400 g.command_lease_sec then 86400 else g.command_lease_sec;
    }

-- `none`: the namespace does not open.
unfoldable pub load_config : Option StoredConfig → Controller → Controller
unfolding load_group load_channel
load_config none c = c
load_config (some s) c = record c {
  configs = load_channel s;
  i2c_address = s.i2c_address;
  groups = λ g. load_group (s.groups g) (c.groups g);
}

abbrev pub is_locked : LockoutState → Bool
is_locked tripped = true
is_locked acknowledged = true
is_locked _ = false

-- A channel after the boot policy: OFF, its lockout kept.
abbrev pub booted_channel : ChannelState → ChannelState
booted_channel s = record s {
  desired_state = false;
  reported_state = false;
  confidence = not_known;
  comm_loss_forced = false;
  last_command_at_ms = 0;
  source = source_off;
  state_sequence = 0;
  last_changed_at_ms = 0;
  on_since_ms = 0;
  fault = false;
  max_on_time_forced = if is_locked s.lockout then true else s.max_on_time_forced;
}

abbrev pub empty_record : TransactionRecord
empty_record = record {
  transaction_id = [];
  request_id = [];
  result = unknown;
  channel = 0;
  desired_state = false;
  reported_state = false;
  state_sequence = 0;
  completed_at_ms = 0;
  valid = false;
}

unfoldable pub begin : Moment → Bool → Option StoredConfig → Controller → Controller
unfolding load_config load_lockouts
begin m lockouts_open stored c =
    let loaded = load_lockouts lockouts_open (load_config stored c) in
    let (present, bank) = Expander.begin m.barrier loaded.i2c_address loaded.bank in
    record loaded {
      pulses = λ ch. record (loaded.pulses ch) { active = false };
      ring = λ i. empty_record;
      ring_next = 0;
      groups = λ g. record (loaded.groups g) { active = false; active_member = 0xFF };
      driver_available = present;
      bank = bank;
      channels = λ ch. booted_channel (loaded.channels ch);
      hold_safe_warned = λ ch. false;
      authority_lost_since_ms = 0;
      raised = if present then loaded.raised else (relay_fault, critical) ∷ loaded.raised;
    }

-- The accounting of an emergency for one channel, by whether the write to the bank is known.
abbrev pub emergency_channel : Moment → Bool → ChannelState → ChannelState
emergency_channel m known s =
    if known
    then record s {
      desired_state = false;
      reported_state = false;
      on_since_ms = 0;
      fault = false;
      confidence = software_only;
      source = safety;
      state_sequence = (s.state_sequence + 1) % 2 ^ 32;
      last_changed_at_ms = m.now;
    }
    else record s { desired_state = false; fault = true; confidence = faulty }

unfoldable pub settle_channels : Moment → Bool → ℕ → ℕ → Controller → Controller
unfolding cancel_pulse
settle_channels m known zero ch c = c
settle_channels m known (suc n) ch c =
    let cancelled = cancel_pulse m ch c in
    settle_channels m known n (ch + 1) (record cancelled {
      channels = put cancelled.channels ch (emergency_channel m known (cancelled.channels ch));
    })

-- The barrier of the driver first, then the new safety generation, then the accounting.
unfoldable pub emergency_all_off : Moment → Controller → Controller
unfolding settle_channels
emergency_all_off m c =
    let forced = record c {
      bank = force_safety_all_off m.barrier c.bank;
      safety_generation = (c.safety_generation + 1) % 2 ^ 32;
      raised = (relay_fault, critical) ∷ c.raised;
    } in
    if c.driver_available
    then settle_channels m (not forced.bank.shadow_unknown) channel_count 0 forced
    else forced

unfoldable pub clear_emergency_latch : Controller → Controller
clear_emergency_latch c = record c { bank = clear_safety_latch c.bank }
