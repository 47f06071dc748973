-- ===== src/Relay.antt =====
-- firmware/Services/RelayController.{h,cpp}: the eight relay channels, their timers, lockouts and
-- interlocks, the command queue and the ring of results. The expander that it drives is the one of
-- Expander. Arrays of 8 channels and of 4 groups are functions of the index. Texts for operators and the
-- log are left out; `raised` lists the alarms that the controller raised, the newest first.
pub mod Channel
pub mod Lockout
pub mod Command
pub mod Enforce
pub mod Queue
pub mod Boot
pub mod Tick
pub mod Mirror
pub mod Quiet
pub mod Recovery
pub mod Barrier
pub mod Grant
pub mod Allowed
pub mod Executor
pub mod Emergency
pub mod Served
pub mod Honest
pub mod Limit
pub mod Interlock
pub mod Stuck
pub mod Machine
pub mod Results
mod Examples
use pltsmonitoring_firmware.Prelude.{ℕ, ◌==◌, if◌then◌else◌, Bool, List}
use pltsmonitoring_firmware.Expander.{Expander, Bus}
use pltsmonitoring_firmware.Alarms.{Severity}

abbrev pub channel_count : ℕ
channel_count = 8

pub data Confidence : Type 0 where
  software_only verified not_known faulty : Confidence

pub data RelaySource : Type 0 where
  source_off manual schedule automation safety comm_loss system : RelaySource

pub data LockoutState : Type 0 where
  normal tripped acknowledged cleared armed : LockoutState

pub data FailSafePolicy : Type 0 where
  force_off hold_safe : FailSafePolicy

-- `RelayChannelState`, without `physicalState`, which is always false.
pub record ChannelState : Type 0 where
  pub desired_state : Bool
  pub reported_state : Bool
  pub confidence : Confidence
  pub source : RelaySource
  pub lockout : LockoutState
  pub state_sequence : ℕ
  pub last_changed_at_ms : ℕ
  pub on_since_ms : ℕ
  pub max_on_time_forced : Bool
  pub fault : Bool
  pub comm_loss_forced : Bool
  pub last_command_at_ms : ℕ

-- `RelayChannelConfig`, without the name.
pub record ChannelConfig : Type 0 where
  pub max_on_time_sec : ℕ
  pub min_on_time_sec : ℕ
  pub min_off_time_sec : ℕ
  pub min_switch_interval_sec : ℕ
  pub enabled : Bool
  pub interlock_group : ℕ
  pub comm_loss_policy : FailSafePolicy
  pub command_lease_sec : ℕ

-- `RelayInterlockGroup`; `active_member` is 0xFF when no member is on.
pub record InterlockGroup : Type 0 where
  pub active : Bool
  pub members : List ℕ
  pub dead_time_ms : ℕ
  pub active_member : ℕ
  pub last_off_ms : ℕ

-- `PulseEntry`.
pub record Pulse : Type 0 where
  pub active : Bool
  pub off_at_ms : ℕ
  pub transaction_id : List ℕ
  pub generation : ℕ

pub data TerminalResult : Type 0 where
  executed blocked rejected failed unknown : TerminalResult

-- `RelayTransactionRecord`, without the message.
pub record TransactionRecord : Type 0 where
  pub transaction_id : List ℕ
  pub request_id : List ℕ
  pub result : TerminalResult
  pub channel : ℕ
  pub desired_state : Bool
  pub reported_state : Bool
  pub state_sequence : ℕ
  pub completed_at_ms : ℕ
  pub valid : Bool

pub data AlarmCode : Type 0 where
  relay_fault relay_max_on_time relay_interlock_violation : AlarmCode

-- The fields of `RelayController` but for the queue, with the expander, the lockouts in NVS and the
-- alarms raised.
pub record Controller : Type 0 where
  pub channels : ℕ → ChannelState
  pub configs : ℕ → ChannelConfig
  pub groups : ℕ → InterlockGroup
  pub driver_available : Bool
  pub i2c_address : ℕ
  pub safety_generation : ℕ
  pub authority_lost : Bool
  pub authority_lost_since_ms : ℕ
  pub hold_safe_warned : ℕ → Bool
  pub pulses : ℕ → Pulse
  pub ring : ℕ → TransactionRecord
  pub ring_next : ℕ
  pub bank : Expander
  pub nvs_lockout : ℕ → LockoutState
  pub nvs_forced : ℕ → Bool
  pub raised : List (AlarmCode × Severity)

-- What one phase of the executor meets: `millis()`, `time()`, whether the namespace opens for a write,
-- the bus in the write to each channel, and the bus in a write to the whole bank.
pub record Moment : Type 0 where
  pub now : ℕ
  pub unix_time : ℕ
  pub nvs_opens : Bool
  pub bus : ℕ → Bus
  pub barrier : Bus

-- A write to one index of an array.
abbrev pub put : {A : Type 0} → (ℕ → A) → ℕ → A → ℕ → A
put f i v j = if j == i then v else f j
