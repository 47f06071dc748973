-- ===== src/Relay/Quiet.antt =====
-- The phases of the executor of firmware/Services/RelayController.cpp that only switch off: the limit of
-- the ON time, the leases, the pulses, the lockouts, and the recovery of the bank.
use pltsmonitoring_firmware.Prelude.{
  ℕ, zero, suc, ◌+◌, ◌*◌, ◌/◌, ◌%◌, ◌^◌, ltb, ◌&&◌, ◌==◌, if◌then◌else◌, true, false, ◌∷◌, refl,
  arith,
}
use pltsmonitoring_firmware.Alarms.{warning}
use pltsmonitoring_firmware.Relay.{
  manual, safety, comm_loss, relay_fault, Controller, Moment, put, channel_count,
}
use pltsmonitoring_firmware.Relay.Channel.{since, apply_channel_state, annotate, cancel_pulse}
use pltsmonitoring_firmware.Relay.Lockout.{
  save_lockouts, release_armed, acknowledge_safety_alarm, clear_safety_lockout,
}
use pltsmonitoring_firmware.Relay.Command.{note_command, all_off_from, force_limit}
use pltsmonitoring_firmware.Relay.Enforce.{
  check_max_on_time, force_comm_loss, check_lease, check_leases, check_comm_loss, end_pulse,
  process_pulses,
}
use pltsmonitoring_firmware.Relay.Mirror.{
  IsTruthful, IsMirror, IsQuiet, IsQuiet-either, IsQuiet-refl, IsQuiet-trans, same-IsQuiet,
  apply_off-IsQuiet, annotate-IsQuiet, cancel_pulse-IsQuiet,
}

module _ (m : Moment) where
  pub save_lockouts-IsQuiet : (c : Controller) → IsMirror c → IsQuiet c (save_lockouts m c)
  unfolding save_lockouts
  save_lockouts-IsQuiet c v =
      same-IsQuiet c (save_lockouts m c) v (ground arith) (λ d. ground arith) (ground arith)

  pub release_armed-IsQuiet :
      (n ch : ℕ) (c : Controller) → IsMirror c → IsQuiet c (release_armed m n ch c)
  unfolding release_armed save_lockouts
  release_armed-IsQuiet zero ch c v = IsQuiet-refl c v
  release_armed-IsQuiet (suc n) ch c v =
      let first = release_armed m 1 ch c in
      let p = same-IsQuiet c first v (ground arith) (λ d. ground arith) (ground arith) in
      IsQuiet-trans c first _ p (release_armed-IsQuiet n (ch + 1) first p.mirror)

  -- Cancelling the pulse and writing OFF.
  off_write-IsQuiet :
      IsTruthful m
      → (ch : ℕ) (c : Controller) → IsMirror c
      → IsQuiet c (apply_channel_state m ch false safety (cancel_pulse m ch c))
  off_write-IsQuiet t ch c v =
      let p = cancel_pulse-IsQuiet m ch c v in
      IsQuiet-trans c (cancel_pulse m ch c) _ p (apply_off-IsQuiet m ch safety _ t p.mirror)

  pub force_limit-IsQuiet :
      IsTruthful m → (ch : ℕ) (c : Controller) → IsMirror c → IsQuiet c (force_limit m ch c)
  unfolding force_limit save_lockouts
  force_limit-IsQuiet t ch c v =
      let p = off_write-IsQuiet t ch c v in
      IsQuiet-trans c (apply_channel_state m ch false safety (cancel_pulse m ch c)) _ p
        (same-IsQuiet _ _ p.mirror (ground arith) (λ d. ground arith) (ground arith))

  pub check_max_on_time-IsQuiet :
      IsTruthful m
      → (n ch : ℕ) (c : Controller) → IsMirror c
      → IsQuiet c (check_max_on_time m n ch c)
  unfolding check_max_on_time
  check_max_on_time-IsQuiet t zero ch c v = IsQuiet-refl c v
  check_max_on_time-IsQuiet t (suc n) ch c v =
      let first = check_max_on_time m 1 ch c in
      let p : IsQuiet c first =
        IsQuiet-either _ c _ _ (λ h. force_limit-IsQuiet t ch c v) (λ h. IsQuiet-refl c v) in
      IsQuiet-trans c first _ p (check_max_on_time-IsQuiet t n (ch + 1) first p.mirror)

  force_comm_loss-IsQuiet :
      IsTruthful m → (ch : ℕ) (c : Controller) → IsMirror c → IsQuiet c (force_comm_loss m ch c)
  unfolding force_comm_loss
  force_comm_loss-IsQuiet t ch c v =
      let cancelled = if (c.pulses ch).active then cancel_pulse m ch c else c in
      let p : IsQuiet c cancelled =
        IsQuiet-either _ c _ _ (λ h. cancel_pulse-IsQuiet m ch c v) (λ h. IsQuiet-refl c v) in
      let q =
        IsQuiet-trans c cancelled _ p (apply_off-IsQuiet m ch comm_loss cancelled t p.mirror) in
      IsQuiet-trans c (apply_channel_state m ch false comm_loss cancelled) _ q
        (same-IsQuiet _ _ q.mirror (ground arith) (λ d. ground arith) (ground arith))

  check_lease-IsQuiet :
      IsTruthful m → (ch : ℕ) (c : Controller) → IsMirror c → IsQuiet c (check_lease m ch c)
  unfolding check_lease
  check_lease-IsQuiet t ch c v =
      let forced = force_comm_loss-IsQuiet t ch c v in
      let same = IsQuiet-refl c v in
      let warned =
        same-IsQuiet c
          (record c {
            hold_safe_warned = put c.hold_safe_warned ch true;
            raised = (relay_fault, warning) ∷ c.raised;
          })
          v refl (λ d. refl) (refl, refl) in
      ground arith

  check_leases-IsQuiet :
      IsTruthful m → (n ch : ℕ) (c : Controller) → IsMirror c → IsQuiet c (check_leases m n ch c)
  unfolding check_leases
  check_leases-IsQuiet t zero ch c v = IsQuiet-refl c v
  check_leases-IsQuiet t (suc n) ch c v =
      let first = check_lease m ch c in
      let p = check_lease-IsQuiet t ch c v in
      IsQuiet-trans c first _ p (check_leases-IsQuiet t n (ch + 1) first p.mirror)

  pub check_comm_loss-IsQuiet :
      IsTruthful m → (c : Controller) → IsMirror c → IsQuiet c (check_comm_loss m c)
  unfolding check_comm_loss
  check_comm_loss-IsQuiet t c v =
      let begun = record c { authority_lost_since_ms = m.now; hold_safe_warned = λ ch. false } in
      let over = record c { authority_lost_since_ms = 0; hold_safe_warned = λ ch. false } in
      let p : IsQuiet c begun = same-IsQuiet c begun v refl (λ d. refl) (refl, refl) in
      let q : IsQuiet c over = same-IsQuiet c over v refl (λ d. refl) (refl, refl) in
      let latched = if c.authority_lost_since_ms == 0 then begun else c in
      let r : IsQuiet c latched = IsQuiet-either _ c _ _ (λ h. p) (λ h. IsQuiet-refl c v) in
      let s =
        IsQuiet-trans c latched _ r (check_leases-IsQuiet t channel_count 0 latched r.mirror) in
      IsQuiet-either c.authority_lost c _ _ (λ h. s)
        (λ h. IsQuiet-either _ c _ _ (λ k. IsQuiet-refl c v) (λ k. q))

  end_pulse-IsQuiet :
      IsTruthful m → (ch : ℕ) (c : Controller) → IsMirror c → IsQuiet c (end_pulse m ch c)
  unfolding end_pulse
  end_pulse-IsQuiet t ch c v =
      let off = apply_channel_state m ch false manual c in
      let p = apply_off-IsQuiet m ch manual c t v in
      let q = IsQuiet-trans c off _ p (annotate-IsQuiet m ch off p.mirror) in
      let noted = annotate m ch off in
      let ended =
        IsQuiet-trans c noted
          (record noted {
            pulses = put noted.pulses ch (record (noted.pulses ch) { active = false });
          })
          q (same-IsQuiet noted _ q.mirror refl (λ d. refl) (refl, refl)) in
      let later = record c {
        pulses = put c.pulses ch (record (c.pulses ch) {
          off_at_ms =
              ((c.channels ch).on_since_ms + (c.configs ch).min_on_time_sec * 1000 % 2 ^ 32)
              % 2 ^ 32;
        });
      } in
      let kept : IsQuiet c later = same-IsQuiet c later v refl (λ d. refl) (refl, refl) in
      IsQuiet-either
        (ltb 0 (c.configs ch).min_on_time_sec
          && ltb (since m.now (c.channels ch).on_since_ms / 1000) (c.configs ch).min_on_time_sec)
        c later _ (λ h. kept) (λ h. ended)

  pub process_pulses-IsQuiet :
      IsTruthful m → (n ch : ℕ) (c : Controller) → IsMirror c → IsQuiet c (process_pulses m n ch c)
  unfolding process_pulses
  process_pulses-IsQuiet t zero ch c v = IsQuiet-refl c v
  process_pulses-IsQuiet t (suc n) ch c v =
      let first = process_pulses m 1 ch c in
      let p : IsQuiet c first =
        IsQuiet-either _ c _ _ (λ h. end_pulse-IsQuiet t ch c v) (λ h. IsQuiet-refl c v) in
      IsQuiet-trans c first _ p (process_pulses-IsQuiet t n (ch + 1) first p.mirror)

  pub note_command-IsQuiet :
      (ch : ℕ) (c : Controller) → IsMirror c → IsQuiet c (note_command m ch c)
  note_command-IsQuiet ch c v =
      same-IsQuiet c (note_command m ch c) v refl (λ d. ground arith) (refl, refl)

  pub all_off_from-IsQuiet :
      IsTruthful m → (n ch : ℕ) (c : Controller) → IsMirror c → IsQuiet c (all_off_from m n ch c).1
  unfolding all_off_from
  all_off_from-IsQuiet t zero ch c v = IsQuiet-refl c v
  all_off_from-IsQuiet t (suc n) ch c v =
      let p = cancel_pulse-IsQuiet m ch c v in
      let written = apply_channel_state m ch false manual (cancel_pulse m ch c) in
      let q = IsQuiet-trans c _ written p (apply_off-IsQuiet m ch manual _ t p.mirror) in
      let r = IsQuiet-trans c written _ q (note_command-IsQuiet ch written q.mirror) in
      IsQuiet-trans c _ _ r (all_off_from-IsQuiet t n (ch + 1) (note_command m ch written) r.mirror)

  pub acknowledge-IsQuiet :
      (ch : ℕ) (c : Controller) → IsMirror c → IsQuiet c (acknowledge_safety_alarm m ch c).1
  unfolding acknowledge_safety_alarm save_lockouts
  acknowledge-IsQuiet ch c v =
      same-IsQuiet c (acknowledge_safety_alarm m ch c).1 v (ground arith) (λ d. ground arith)
        (ground arith)

  pub clear-IsQuiet :
      (ch : ℕ) (c : Controller) → IsMirror c → IsQuiet c (clear_safety_lockout m ch c).1
  unfolding clear_safety_lockout save_lockouts
  clear-IsQuiet ch c v =
      same-IsQuiet c (clear_safety_lockout m ch c).1 v (ground arith) (λ d. ground arith)
        (ground arith)
