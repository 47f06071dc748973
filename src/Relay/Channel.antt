-- ===== src/Relay/Channel.antt =====
-- `_applyChannelState`, `_evaluateSafety`, `_evaluateInterlock` and `_annotatePulseOutcome` of
-- firmware/Services/RelayController.cpp.
use pltsmonitoring_firmware.Prelude.{
  ℕ, zero, suc, ◌+◌, ◌-◌, ◌/◌, ◌%◌, ◌^◌, ltb, leb, ◌==◌, if◌then◌else◌, bytes_eq, Bool, true, false,
  not, ◌&&◌, Option, none, some, List, [], ◌∷◌,
}
use pltsmonitoring_firmware.Alarms.{critical}
use pltsmonitoring_firmware.Expander.{set_channel}
use pltsmonitoring_firmware.Relay.{
  RelaySource, software_only, faulty, ChannelState, InterlockGroup, TransactionRecord, relay_fault,
  Controller, Moment, put,
}

-- `millis() - t` on `uint32_t`.
abbrev pub since : ℕ → ℕ → ℕ
since now t = (now + 2 ^ 32 - t) % 2 ^ 32

-- The interlock group after a write of a channel that succeeded.
unfoldable pub regroup : Moment → ℕ → Bool → Controller → ℕ → InterlockGroup
regroup m ch on c =
    let id = (c.configs ch).interlock_group in
    let g = c.groups (id - 1) in
    if ltb 0 id && leb id 4 && g.active
    then put c.groups (id - 1) (
        if on then record g { active_member = ch } else record g {
          active_member = if g.active_member == ch then 0xFF else g.active_member;
          last_off_ms = m.now;
        })
    else c.groups

-- The state of a channel after a write that failed, and after one that succeeded.
abbrev pub write_failed : Bool → RelaySource → ChannelState → ChannelState
write_failed on source s = record s {
  fault = true;
  confidence = faulty;
  desired_state = on;
  source = source;
}

abbrev pub write_done : Moment → Bool → RelaySource → ChannelState → ChannelState
write_done m on source s = record s {
  reported_state = on;
  desired_state = on;
  confidence = software_only;
  source = source;
  state_sequence = (s.state_sequence + 1) % 2 ^ 32;
  last_changed_at_ms = m.now;
  fault = false;
  on_since_ms =
      if on
      then (if s.reported_state then s.on_since_ms else m.now)
      else if s.reported_state
      then 0
      else s.on_since_ms;
}

-- The only function that calls `setChannel`.
unfoldable pub apply_channel_state : Moment → ℕ → Bool → RelaySource → Controller → Controller
unfolding regroup
apply_channel_state m ch on source c =
    let (written, bank) = set_channel (m.bus ch) ch on c.bank in
    let s = c.channels ch in
    if written
    then record c {
      bank = bank;
      channels = put c.channels ch (write_done m on source s);
      groups = regroup m ch on c;
    }
    else record c {
      bank = bank;
      channels = put c.channels ch (write_failed on source s);
      raised = (relay_fault, critical) ∷ c.raised;
    }

-- `SafetyDecision`, without `ForceOffMaxOn`, which is never returned.
pub data SafetyDecision : Type 0 where
  allow inhibit_min_on inhibit_min_off inhibit_chatter : SafetyDecision

unfoldable pub evaluate_safety : Moment → ℕ → Bool → Controller → SafetyDecision
evaluate_safety m ch desired c =
    let s = c.channels ch in
    let g = c.configs ch in
    let idle = since m.now s.last_changed_at_ms / 1000 in
    if desired
    then (if ltb 0 g.min_off_time_sec && not s.reported_state && ltb idle g.min_off_time_sec
        then inhibit_min_off
        else if ltb 0 g.min_switch_interval_sec && ltb idle g.min_switch_interval_sec
        then inhibit_chatter
        else allow)
    else if ltb 0 g.min_on_time_sec
        && (s.reported_state
            && (ltb 0 s.on_since_ms && ltb (since m.now s.on_since_ms / 1000) g.min_on_time_sec))
    then inhibit_min_on
    else allow

-- `_evaluateInterlock` for an ON.
unfoldable pub evaluate_interlock : Moment → ℕ → Controller → Bool
evaluate_interlock m ch c =
    let id = (c.configs ch).interlock_group in
    let g = c.groups (id - 1) in
    if id == 0
    then true
    else if ltb 4 id
    then true
    else if not g.active
    then true
    else if not (g.active_member == 0xFF) && not (g.active_member == ch)
    then false
    else not (ltb 0 g.last_off_ms && ltb (since m.now g.last_off_ms) g.dead_time_ms)

-- The first record of the ring that has this transaction, of `n` from index `i` on.
unfoldable pub find_record : List ℕ → (ℕ → TransactionRecord) → ℕ → ℕ → Option ℕ
find_record id ring zero i = none
find_record id ring (suc n) i =
    let rest = find_record id ring n (i + 1) in
    if (ring i).valid && bytes_eq (ring i).transaction_id id then some i else rest

unfoldable pub annotate : Moment → ℕ → Controller → Controller
unfolding find_record
annotate m ch c = elim ((c.pulses ch).transaction_id) [
  | [] ↦ c
  | b ∷ id ↦ elim (find_record (b ∷ id) c.ring 8 0) [
    | none ↦ c
    | some i ↦ record c { ring = put c.ring i (record (c.ring i) { completed_at_ms = m.now }) }
  ]
]

-- A pending pulse is annotated where it is active, and cancelled.
unfoldable pub cancel_pulse : Moment → ℕ → Controller → Controller
unfolding annotate
cancel_pulse m ch c =
    let noted = if (c.pulses ch).active then annotate m ch c else c in
    record noted { pulses = put noted.pulses ch (record (noted.pulses ch) { active = false }) }
