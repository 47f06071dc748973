-- ===== src/Relay/Lockout.antt =====
-- The lockout of a channel: `acknowledgeSafetyAlarm`, `clearSafetyLockout`, `_saveLockoutStates`,
-- `_loadLockoutStates` and the last step of `tick` of firmware/Services/RelayController.cpp.
use pltsmonitoring_firmware.Prelude.{
  ℕ, zero, suc, ◌+◌, ltb, if◌then◌else◌, Bool, true, false, not, ◌&&◌,
}
use pltsmonitoring_firmware.Relay.{
  LockoutState, normal, tripped, acknowledged, armed, Controller, Moment, put, channel_count,
}

unfoldable pub save_lockouts : Moment → Controller → Controller
save_lockouts m c =
    if m.nvs_opens
    then record c {
      nvs_lockout = λ ch. (c.channels ch).lockout;
      nvs_forced = λ ch. (c.channels ch).max_on_time_forced;
    }
    else c

-- `opens`: whether the namespace opens for a read.
unfoldable pub load_lockouts : Bool → Controller → Controller
load_lockouts opens c =
    if opens
    then record c {
      channels = λ ch. record (c.channels ch) {
        lockout = c.nvs_lockout ch;
        max_on_time_forced = c.nvs_forced ch;
      };
    }
    else c

abbrev pub is_tripped : LockoutState → Bool
is_tripped tripped = true
is_tripped _ = false

abbrev pub is_acknowledged : LockoutState → Bool
is_acknowledged acknowledged = true
is_acknowledged _ = false

abbrev pub is_armed : LockoutState → Bool
is_armed armed = true
is_armed _ = false

-- The channel may be commanded.
abbrev pub is_free : LockoutState → Bool
is_free normal = true
is_free armed = true
is_free _ = false

unfoldable pub acknowledge_safety_alarm : Moment → ℕ → Controller → Bool × Controller
unfolding save_lockouts
acknowledge_safety_alarm m ch c =
    let s = c.channels ch in
    if not (ltb ch channel_count)
    then (false, c)
    else if not (is_tripped s.lockout)
    then (false, c)
    else (
      true,
      save_lockouts m
          (record c { channels = put c.channels ch (record s { lockout = acknowledged }) }),
    )

unfoldable pub clear_safety_lockout : Moment → ℕ → Controller → Bool × Controller
unfolding save_lockouts
clear_safety_lockout m ch c =
    let s = c.channels ch in
    if not (ltb ch channel_count)
    then (false, c)
    else if not (is_acknowledged s.lockout)
    then (false, c)
    else if s.max_on_time_forced && s.reported_state
    then (false, c)
    else (
      true,
      save_lockouts m (record c {
        channels = put c.channels ch (record s { max_on_time_forced = false; lockout = armed });
      }),
    )

-- ARMED becomes NORMAL, for `n` channels from `ch` on.
unfoldable pub release_armed : Moment → ℕ → ℕ → Controller → Controller
unfolding save_lockouts
release_armed m zero ch c = c
release_armed m (suc n) ch c =
    let s = c.channels ch in
    let freed =
      save_lockouts m (record c { channels = put c.channels ch (record s { lockout = normal }) }) in
    release_armed m n (ch + 1) (if is_armed s.lockout then freed else c)
