-- ===== src/Relay/Grant.antt =====
-- What a command must meet before `applyCommand` of firmware/Services/RelayController.cpp switches a
-- relay on, and what is reported after it.
use pltsmonitoring_firmware.Prelude.{
  ℕ, ◌*◌, ◌%◌, ◌^◌, ◌||◌, ◌∷◌, ◌<◌, ◌==◌, ltb, if◌then◌else◌, Bool, true, false, not, ◌&&◌, ◌≡◌,
  ◌≢◌, ◌⊎◌, inl, inr, refl, subst, arith,
}
use pltsmonitoring_firmware.Alarms.{warning}
use pltsmonitoring_firmware.Expander.Register.{is_on}
use pltsmonitoring_firmware.Relay.{Controller, Moment, relay_interlock_violation}
use pltsmonitoring_firmware.Relay.Channel.{
  apply_channel_state, evaluate_safety, evaluate_interlock, allow, inhibit_min_on, inhibit_min_off,
  inhibit_chatter, SafetyDecision, annotate,
}
use pltsmonitoring_firmware.Relay.Lockout.{is_free}
use pltsmonitoring_firmware.Relay.Command.{
  on, pulse, RelayCommand, CommandResult, source_of, applied, rejected, blocked, failed, over_limit,
  report, apply_on, schedule_pulse, apply_pulse,
}
use pltsmonitoring_firmware.Relay.Mirror.{
  IsTruthful, IsMirror, IsQuiet, IsQuiet-refl, IsQuiet-trans, same-IsQuiet, IsQuiet-either,
  set_channel_adds, apply_bank, apply_generation, apply-IsMirror, annotate-IsQuiet,
}
use pltsmonitoring_firmware.Relay.Quiet.{note_command-IsQuiet}

-- All that allows a command to switch channel `d` on.
pub record IsGranted (m : Moment) (cmd : RelayCommand) (c : Controller) (d : ℕ) : Type 0 where
  pub its_channel : cmd.channel ≡ d
  pub wanted : (cmd.verb ≡ on) ⊎ (cmd.verb ≡ pulse)
  pub there : c.driver_available ≡ true
  pub enabled : (c.configs d).enabled ≡ true
  pub free : is_free (c.channels d).lockout ≡ true
  pub unforced : cmd.desired_state ≡ true → (c.channels d).max_on_time_forced ≡ false
  pub within : cmd.desired_state ≡ true → over_limit m d c ≡ false
  pub unlatched : c.bank.safety_latched ≡ false
  pub safe : evaluate_safety m d true c ≡ allow
  pub interlock : evaluate_interlock m d c ≡ true

-- What a step leaves: what is reported follows the chip, and a relay that is newly on was granted.
pub record IsGuarded (m : Moment) (cmd : RelayCommand) (c y : Controller) : Type 0 where
  pub mirror : IsMirror y
  pub granted :
      (d : ℕ)
      → d < 8
      → is_on y.bank.port d ≡ true
      → (is_on c.bank.port d ≡ true) ⊎ IsGranted m cmd c d
  pub gen : y.safety_generation ≡ c.safety_generation
  pub driver : y.driver_available ≡ c.driver_available

module _ (m : Moment) (cmd : RelayCommand) (c : Controller) where
  pub quiet-IsGuarded : (y : Controller) → IsQuiet c y → IsGuarded m cmd c y
  quiet-IsGuarded y q = record {
    mirror = q.mirror;
    granted = λ d hd on. inl (q.no_new d hd on);
    gen = q.same_generation;
    driver = q.same_driver;
  }

  pub then_quiet : (y z : Controller) → IsGuarded m cmd c y → IsQuiet y z → IsGuarded m cmd c z
  then_quiet y z g q = record {
    mirror = q.mirror;
    granted = λ d hd on. g.granted d hd (q.no_new d hd on);
    gen = ground (arith, q.same_generation, g.gen);
    driver = ground (arith, q.same_driver, g.driver);
  }

  IsGuarded-either :
      (b : Bool) (y z : Controller)
      → (b ≡ true → IsGuarded m cmd c y)
      → (b ≡ false → IsGuarded m cmd c z)
      → IsGuarded m cmd c (if b then y else z)
  IsGuarded-either true y z p q = p refl
  IsGuarded-either false y z p q = q refl

  -- The branches of a test, and of the safety decision of an ON.
  pub pair_either :
      (b : Bool) (y z : CommandResult × Controller)
      → (b ≡ true → IsGuarded m cmd c y.1)
      → (b ≡ false → IsGuarded m cmd c z.1)
      → IsGuarded m cmd c (if b then y else z).1
  pair_either true y z p q = p refl
  pair_either false y z p q = q refl

  pub unless_inhibited :
      (s : SafetyDecision) (y z : CommandResult × Controller)
      → IsGuarded m cmd c y.1
      → s ≢ inhibit_min_on
      → (s ≡ allow → IsGuarded m cmd c z.1)
      → let r : CommandResult × Controller = elim s [
        | inhibit_min_off ↦ y
        | inhibit_chatter ↦ y
        | _ ↦ z
      ] in
        IsGuarded m cmd c r.1
  unless_inhibited allow y z p n q = q refl
  unless_inhibited inhibit_min_on y z p n q = absurd (n refl)
  unless_inhibited inhibit_min_off y z p n q = p
  unless_inhibited inhibit_chatter y z p n q = p

  pub unchanged : IsMirror c → IsGuarded m cmd c c
  unchanged v = quiet-IsGuarded c (IsQuiet-refl c v)

  -- The ON write of a command that was granted.
  write_on :
      IsTruthful m
      → IsMirror c
      → IsGranted m cmd c cmd.channel
      → IsGuarded m cmd c (apply_channel_state m cmd.channel true (source_of cmd.source) c)
  write_on t v g = record {
    mirror = apply-IsMirror m cmd.channel true (source_of cmd.source) c t v;
    granted = λ d hd lit.
        elim (set_channel_adds (m.bus cmd.channel) cmd.channel d true c.bank (t.writes cmd.channel)
          v.coherent hd (rw⁻¹ (apply_bank m cmd.channel true (source_of cmd.source) c) lit)) [
            | inl before ↦ inl before
            | inr (its, _, _) ↦ inr (subst (IsGranted m cmd c) its g)
          ];
    gen = (apply_generation m cmd.channel true (source_of cmd.source) c).0;
    driver = (apply_generation m cmd.channel true (source_of cmd.source) c).1;
  }

  on_never_min_on : (ch : ℕ) → evaluate_safety m ch true c ≢ inhibit_min_on
  unfolding evaluate_safety
  on_never_min_on ch h = ground arith

  -- A channel that has passed the gates of `applyCommand`.
  pub record Passed : Type 0 where
    pub there : c.driver_available ≡ true
    pub inside : cmd.channel < 8
    pub enabled : (c.configs cmd.channel).enabled ≡ true
    pub free : is_free (c.channels cmd.channel).lockout ≡ true
    pub unforced : cmd.desired_state ≡ true → (c.channels cmd.channel).max_on_time_forced ≡ false
    pub within : cmd.desired_state ≡ true → over_limit m cmd.channel c ≡ false

  passed-IsGranted :
      Passed
      → (cmd.verb ≡ on) ⊎ (cmd.verb ≡ pulse)
      → c.bank.safety_latched ≡ false
      → evaluate_safety m cmd.channel true c ≡ allow
      → evaluate_interlock m cmd.channel c ≡ true
      → IsGranted m cmd c cmd.channel
  passed-IsGranted p w l s i = record {
    its_channel = refl;
    wanted = w;
    there = p.there;
    enabled = p.enabled;
    free = p.free;
    unforced = p.unforced;
    within = p.within;
    unlatched = l;
    safe = s;
    interlock = i;
  }

  pub report_after :
      (y : Controller) → IsGuarded m cmd c y → IsGuarded m cmd c (report m cmd.channel y).1
  unfolding report
  report_after y g =
      pair_either (y.channels cmd.channel).fault _ _ (λ h. g)
        (λ h. then_quiet y _ g (note_command-IsQuiet m cmd.channel y g.mirror))

  pub apply_on-IsGuarded :
      IsTruthful m → IsMirror c → Passed → cmd.verb ≡ on → IsGuarded m cmd c (apply_on m cmd c).1
  unfolding apply_on
  apply_on-IsGuarded t v p w =
      let written = apply_channel_state m cmd.channel true (source_of cmd.source) c in
      let alarmed = record c { raised = (relay_interlock_violation, warning) ∷ c.raised } in
      let q : IsQuiet c alarmed = same-IsQuiet c alarmed v refl (λ d. refl) (refl, refl) in
      pair_either c.bank.safety_latched (blocked, c) _ (λ h. unchanged v)
        (λ l.
          unless_inhibited (evaluate_safety m cmd.channel true c) (blocked, c) _ (unchanged v)
            (on_never_min_on cmd.channel)
            (λ s.
              pair_either (evaluate_interlock m cmd.channel c) (report m cmd.channel written)
                (blocked, alarmed)
                (λ i. report_after written (write_on t v (passed-IsGranted p (inl w) l s i)))
                (λ i. quiet-IsGuarded alarmed q)))

  schedule-IsQuiet : (y : Controller) → IsMirror y → IsQuiet y (schedule_pulse m cmd y)
  unfolding schedule_pulse
  schedule-IsQuiet y v =
      let noted = if (y.pulses cmd.channel).active then annotate m cmd.channel y else y in
      let p : IsQuiet y noted =
        IsQuiet-either (y.pulses cmd.channel).active y (annotate m cmd.channel y) y
          (λ h. annotate-IsQuiet m cmd.channel y v) (λ h. IsQuiet-refl y v) in
      IsQuiet-trans y noted (schedule_pulse m cmd y) p
        (same-IsQuiet noted (schedule_pulse m cmd y) p.mirror refl (λ d. ground arith) (refl, refl))

  pub apply_pulse-IsGuarded :
      IsTruthful m
      → IsMirror c
      → Passed
      → cmd.verb ≡ pulse
      → IsGuarded m cmd c (apply_pulse m cmd c).1
  unfolding apply_pulse
  apply_pulse-IsGuarded t v p w =
      let written = apply_channel_state m cmd.channel true (source_of cmd.source) c in
      let same = unchanged v in
      pair_either (cmd.pulse_duration_ms == 0 || ltb 60000 cmd.pulse_duration_ms) (rejected, c) _
        (λ h. same)
        (λ h.
          pair_either c.bank.safety_latched (blocked, c) _ (λ k. same)
            (λ l.
              unless_inhibited (evaluate_safety m cmd.channel true c) (blocked, c) _ same
                (on_never_min_on cmd.channel)
                (λ s.
                  pair_either (not (evaluate_interlock m cmd.channel c)) (blocked, c) _ (λ i. same)
                    (λ i.
                      let g = write_on t v (passed-IsGranted p (inr w) l s (ground arith)) in
                      pair_either
                        (ltb 0 (c.configs cmd.channel).min_on_time_sec
                          && ltb cmd.pulse_duration_ms
                              ((c.configs cmd.channel).min_on_time_sec * 1000 % 2 ^ 32))
                        (rejected, c) _ (λ k. same)
                        (λ k.
                          pair_either (written.channels cmd.channel).fault (failed, written)
                            (applied, schedule_pulse m cmd written) (λ f. g)
                            (λ f. then_quiet written _ g (schedule-IsQuiet written g.mirror)))))))
