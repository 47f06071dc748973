-- ===== src/Relay/Served.antt =====
-- The commands that `processCommandQueue` and `tick` of firmware/Services/RelayController.cpp carry out.
use pltsmonitoring_firmware.Prelude.{
  ℕ, ◌+◌, ◌<◌, if◌then◌else◌, Bool, true, false, none, List, [], ◌∷◌, ◌≡◌, ◌⊎◌, inl, inr, refl,
  subst, arith,
}
use mathlib.Core.List.{Memᴰ}
use mathlib.Core.List.Memᴰ.{head, tail}
use pltsmonitoring_firmware.Expander.Register.{is_on}
use pltsmonitoring_firmware.Journal.{Preferences, Env}
use pltsmonitoring_firmware.Relay.{Controller, Moment, TransactionRecord}
use pltsmonitoring_firmware.Relay.Command.{RelayCommand, apply_command, on, pulse}
use pltsmonitoring_firmware.Relay.Queue.{
  Executor, refuses, judge, execute, drain, process_command_queue,
}
use pltsmonitoring_firmware.Relay.Tick.{TickEnv, tick}
use pltsmonitoring_firmware.Relay.Mirror.{IsTruthful, IsMirror, IsQuiet, IsQuiet-refl}
use pltsmonitoring_firmware.Relay.Grant.{IsGranted}
use pltsmonitoring_firmware.Relay.Allowed.{apply_command-IsGuarded}
use pltsmonitoring_firmware.Relay.Executor.{
  IsTruthfulTick, record_result-IsQuiet, before_commands, before_commands-IsQuiet, after_commands,
  after_commands-IsQuiet,
}

judge_after :
    (m : Moment) (cmd : RelayCommand) (c : Controller)
    → ((judge m cmd c).1 ≡ c)
      ⊎ ((refuses m cmd c ≡ none) × ((judge m cmd c).1 ≡ (apply_command m cmd c).1))
unfolding judge
judge_after m cmd c = ground arith

-- The executor keeps what is reported true to the chip, and a relay that is on after one command was
-- executed either was on before, or the command met every gate: its generation is the current one,
-- it has not expired by a clock that is set, an ON has a clock that is set, and `applyCommand` granted
-- it. The bus reports no success that did not reach the chip.
pub judge_grants :
    (m : Moment) (cmd : RelayCommand) (c : Controller)
    → IsTruthful m
    → IsMirror c
    → IsMirror (judge m cmd c).1
      × ((d : ℕ)
          → d < 8
          → is_on (judge m cmd c).1.bank.port d ≡ true
          → (is_on c.bank.port d ≡ true) ⊎ ((refuses m cmd c ≡ none) × IsGranted m cmd c d))
      × ((judge m cmd c).1.safety_generation ≡ c.safety_generation)
judge_grants m cmd c t v = elim (judge_after m cmd c) [
  | inl same ↦ rw same (v, (λ d hd lit. inl lit), refl)
  | inr (passed, applied) ↦
      let g = apply_command-IsGuarded m cmd c t v in
      rw applied (
        g.mirror,
        (λ d hd lit. elim (g.granted d hd lit) [
          | inl before ↦ inl before
          | inr granted ↦ inr (passed, granted)
        ]),
        g.gen,
      )
]

refuses_stale :
    (m : Moment) (cmd : RelayCommand) (c : Controller)
    → refuses m cmd c ≡ none
    → cmd.safety_generation ≡ c.safety_generation
unfolding refuses
refuses_stale m cmd c h = ground arith

-- A command asks, under this safety generation, that channel `d` be switched on.
pub record Asks (generation d : ℕ) (cmd : RelayCommand) : Type 0 where
  pub its_channel : cmd.channel ≡ d
  pub wanted : (cmd.verb ≡ on) ⊎ (cmd.verb ≡ pulse)
  pub current : cmd.safety_generation ≡ generation

-- A step after which what is reported follows the chip, and each relay that is newly on was asked for
-- by a command of the list.
pub record IsServed (cmds : List RelayCommand) (c y : Controller) : Type 0 where
  pub mirror : IsMirror y
  pub asked :
      (d : ℕ)
      → d < 8
      → is_on y.bank.port d ≡ true
      → (is_on c.bank.port d ≡ true)
        ⊎ ((cmd : RelayCommand) × Memᴰ cmd cmds × Asks c.safety_generation d cmd)
  pub same_generation : y.safety_generation ≡ c.safety_generation

quiet-IsServed : (cmds : List RelayCommand) (c y : Controller) → IsQuiet c y → IsServed cmds c y
quiet-IsServed cmds c y q = record {
  mirror = q.mirror;
  asked = λ d hd lit. inl (q.no_new d hd lit);
  same_generation = q.same_generation;
}

quiet_then :
    (cmds : List RelayCommand) (b c y z : Controller)
    → IsQuiet b c
    → IsServed cmds c y
    → IsQuiet y z
    → IsServed cmds b z
quiet_then cmds b c y z p s q = record {
  mirror = q.mirror;
  asked = λ d hd lit. elim (s.asked d hd (q.no_new d hd lit)) [
    | inl before ↦ inl (p.no_new d hd before)
    | inr (cmd, m, a) ↦ inr (cmd, m, subst (λ g. Asks g d cmd) p.same_generation a)
  ];
  same_generation = ground (arith, q.same_generation, s.same_generation, p.same_generation);
}

serve_next :
    (cmd : RelayCommand) (cmds : List RelayCommand) (c y z : Controller)
    → IsServed (cmd ∷ []) c y
    → IsServed cmds y z
    → IsServed (cmd ∷ cmds) c z
serve_next cmd cmds c y z p q = record {
  mirror = q.mirror;
  asked = λ d hd lit. elim (q.asked d hd lit) [
    | inl middle ↦ elim (p.asked d hd middle) [
      | inl before ↦ inl before
      | inr (other, head e, a) ↦ inr (other, head e, a)
      | inr (other, tail m, a) ↦ elim m [ ]
    ]
    | inr (other, m, a) ↦ inr (other, tail m, subst (λ g. Asks g d other) p.same_generation a)
  ];
  same_generation = ground (arith, q.same_generation, p.same_generation);
}

module _ (prefs : Preferences) (ack_text : TransactionRecord → ℕ → List ℕ) where
  open prefs use {Store}

  execute-IsServed :
      (m : Moment) (e : Env) (cmd : RelayCommand) (x : Executor Store)
      → IsTruthful m
      → IsMirror x.controller
      → IsServed (cmd ∷ []) x.controller (execute prefs ack_text m e cmd x).controller
  unfolding execute
  execute-IsServed m e cmd x t v =
      let c = x.controller in
      let judged = (judge m cmd c).1 in
      let (w, granted, same) = judge_grants m cmd c t v in
      let served : IsServed (cmd ∷ []) c judged = record {
        mirror = w;
        asked = λ d hd lit. elim (granted d hd lit) [
          | inl before ↦ inl before
          | inr (passed, g) ↦ inr (
            cmd,
            head refl,
            record {
              its_channel = g.its_channel;
              wanted = g.wanted;
              current = refuses_stale m cmd c passed;
            },
          )
        ];
        same_generation = same;
      } in
      quiet_then (cmd ∷ []) c c judged _ (IsQuiet-refl c v) served (
        record_result-IsQuiet prefs ack_text m e cmd (judge m cmd c).0
          (record x { controller = judged }) w)

  drain-IsServed :
      (at : ℕ → Moment × Env) (i : ℕ) (cmds : List RelayCommand) (x : Executor Store)
      → ((j : ℕ) → IsTruthful (at j).0)
      → IsMirror x.controller
      → IsServed cmds x.controller (drain prefs ack_text at i cmds x).controller
  unfolding drain
  drain-IsServed at i [] x t v =
      quiet-IsServed [] x.controller x.controller (IsQuiet-refl x.controller v)
  drain-IsServed at i (cmd ∷ cmds) x t v =
      let next = execute prefs ack_text (at i).0 (at i).1 cmd x in
      let p = execute-IsServed (at i).0 (at i).1 cmd x (t i) v in
      serve_next cmd cmds x.controller next.controller _ p
        (drain-IsServed at (i + 1) cmds next t p.mirror)

  IsServed-either :
      (b : Bool) (x y z : Executor Store)
      → IsServed x.queue x.controller y.controller
      → IsServed x.queue x.controller z.controller
      → IsServed x.queue x.controller (if b then y else z).controller
  IsServed-either true x y z p q = p
  IsServed-either false x y z p q = q

  -- A tick keeps what is reported of every channel equal to the output of the chip while the shadow is
  -- known, and a relay that is on after it was on before, or a command in the queue, of the safety
  -- generation at the start of the tick, asked for it by "on" or "pulse": the recovery, the limits, the
  -- leases, the pulses and the lockouts switch nothing on. The bus reports no success that did not
  -- reach the chip.
  pub tick-IsServed :
      (t : TickEnv) (x : Executor Store)
      → IsTruthfulTick t
      → IsMirror x.controller
      → IsServed x.queue x.controller (tick prefs ack_text t x).controller
  unfolding tick before_commands after_commands process_command_queue
  tick-IsServed t x h v =
      let judged = before_commands t x.controller in
      let p = before_commands-IsQuiet t x.controller h v in
      let start = record x { controller = judged; queue = [] } in
      let served = drain prefs ack_text t.commands 0 x.queue start in
      let s = drain-IsServed t.commands 0 x.queue start h.commands p.mirror in
      let q = after_commands-IsQuiet t served.controller h s.mirror in
      IsServed-either x.controller.driver_available x
        (record served { controller = after_commands t served.controller })
        (drain prefs ack_text t.commands 0 x.queue (record x { queue = [] }))
        (quiet_then x.queue x.controller judged served.controller _ p s q)
        (drain-IsServed t.commands 0 x.queue (record x { queue = [] }) h.commands v)
