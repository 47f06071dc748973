-- ===== src/Relay/Executor.antt =====
-- `processCommandQueue` and `tick` of firmware/Services/RelayController.cpp over the whole queue: what a
-- tick can switch on, and what an emergency makes of the commands that were waiting.
use pltsmonitoring_firmware.Prelude.{
  ℕ, ◌+◌, if◌then◌else◌, Bool, true, false, List, [], ◌∷◌, ◌≡◌, ◌∙◌, ◌≢◌, refl, arith,
}
use pltsmonitoring_firmware.Journal.{Preferences, Env}
use pltsmonitoring_firmware.Relay.{
  Controller, Moment, TerminalResult, TransactionRecord, channel_count,
}
use pltsmonitoring_firmware.Relay.Command.{RelayCommand}
use pltsmonitoring_firmware.Relay.Enforce.{check_max_on_time, check_comm_loss, process_pulses}
use pltsmonitoring_firmware.Relay.Lockout.{release_armed}
use pltsmonitoring_firmware.Relay.Queue.{
  Executor, refuses, judge, record_result, execute, drain, process_command_queue,
}
use pltsmonitoring_firmware.Relay.Tick.{TickEnv, recover, tick}
use pltsmonitoring_firmware.Relay.Mirror.{
  IsTruthful, IsMirror, IsQuiet, IsQuiet-refl, IsQuiet-trans, same-IsQuiet,
}
use pltsmonitoring_firmware.Relay.Quiet.{
  check_max_on_time-IsQuiet, check_comm_loss-IsQuiet, process_pulses-IsQuiet, release_armed-IsQuiet,
}
use pltsmonitoring_firmware.Relay.Recovery.{recover-IsQuiet}

-- Every command of the list was queued before the safety generation that the controller has now.
abbrev pub AllStale : ℕ → List RelayCommand → Type 0
AllStale generation [] = Unit {0}
AllStale generation (cmd ∷ cmds) = (cmd.safety_generation ≢ generation) × AllStale generation cmds

-- A command of an older safety generation is refused before anything is done.
judge_stale :
    (m : Moment) (cmd : RelayCommand) (c : Controller)
    → cmd.safety_generation ≢ c.safety_generation
    → (judge m cmd c).1 ≡ c
unfolding judge refuses
judge_stale m cmd c old = ground arith

module _ (prefs : Preferences) (ack_text : TransactionRecord → ℕ → List ℕ) where
  open prefs use {Store}

  pub record_result-IsQuiet :
      (m : Moment) (e : Env) (cmd : RelayCommand) (r : TerminalResult) (x : Executor Store)
      → IsMirror x.controller
      → IsQuiet x.controller (record_result prefs ack_text m e cmd r x).controller
  unfolding record_result
  record_result-IsQuiet m e cmd r x v =
      same-IsQuiet x.controller (record_result prefs ack_text m e cmd r x).controller v
        (ground arith) (λ d. ground arith) (ground arith)

  execute_stale :
      (m : Moment) (e : Env) (cmd : RelayCommand) (x : Executor Store)
      → IsMirror x.controller
      → cmd.safety_generation ≢ x.controller.safety_generation
      → IsQuiet x.controller (execute prefs ack_text m e cmd x).controller
  unfolding execute
  execute_stale m e cmd x v old =
      let judged = (judge m cmd x.controller).1 in
      let same = judge_stale m cmd x.controller old in
      let q =
        record_result-IsQuiet m e cmd (judge m cmd x.controller).0
          (record x { controller = judged }) (rw same v) in
      IsQuiet-trans x.controller judged _ (rw same (IsQuiet-refl x.controller v)) q

  drain_stale :
      (at : ℕ → Moment × Env) (i : ℕ) (cmds : List RelayCommand) (x : Executor Store)
      → IsMirror x.controller
      → AllStale x.controller.safety_generation cmds
      → IsQuiet x.controller (drain prefs ack_text at i cmds x).controller
  unfolding drain
  drain_stale at i [] x v old = IsQuiet-refl x.controller v
  drain_stale at i (cmd ∷ cmds) x v (old, rest) =
      let next = execute prefs ack_text (at i).0 (at i).1 cmd x in
      let q = execute_stale (at i).0 (at i).1 cmd x v old in
      IsQuiet-trans x.controller next.controller _ q
        (drain_stale at (i + 1) cmds next q.mirror (rw q.same_generation rest))

-- The bus of every phase of a tick reports no success that did not reach the chip.
pub record IsTruthfulTick (t : TickEnv) : Type 0 where
  pub recovery : IsTruthful t.recovery
  pub limits : IsTruthful t.limits
  pub leases : IsTruthful t.leases
  pub commands : (i : ℕ) → IsTruthful (t.commands i).0
  pub pulses : IsTruthful t.pulses
  pub lockouts : IsTruthful t.lockouts

-- The phases before the commands.
unfoldable pub before_commands : TickEnv → Controller → Controller
before_commands t c =
    check_comm_loss t.leases (check_max_on_time t.limits channel_count 0 (recover t.recovery c))

pub before_commands-IsQuiet :
    (t : TickEnv) (c : Controller) → IsTruthfulTick t → IsMirror c → IsQuiet c (before_commands t c)
unfolding before_commands
before_commands-IsQuiet t c h v =
    let recovered = recover t.recovery c in
    let p = recover-IsQuiet t.recovery c h.recovery v in
    let limited = check_max_on_time t.limits channel_count 0 recovered in
    let q =
      IsQuiet-trans c recovered limited p
        (check_max_on_time-IsQuiet t.limits h.limits channel_count 0 recovered p.mirror) in
    IsQuiet-trans c limited _ q (check_comm_loss-IsQuiet t.leases h.leases limited q.mirror)

-- The phases after the commands.
unfoldable pub after_commands : TickEnv → Controller → Controller
after_commands t c =
    release_armed t.lockouts channel_count 0 (process_pulses t.pulses channel_count 0 c)

pub after_commands-IsQuiet :
    (t : TickEnv) (c : Controller) → IsTruthfulTick t → IsMirror c → IsQuiet c (after_commands t c)
unfolding after_commands
after_commands-IsQuiet t c h v =
    let pulsed = process_pulses t.pulses channel_count 0 c in
    let p = process_pulses-IsQuiet t.pulses h.pulses channel_count 0 c v in
    IsQuiet-trans c pulsed _ p (release_armed-IsQuiet t.lockouts channel_count 0 pulsed p.mirror)

pub controller_either :
    {S : Type 0} (b : Bool) (x y z : Executor S)
    → (b ≡ true → IsQuiet x.controller y.controller)
    → (b ≡ false → IsQuiet x.controller z.controller)
    → IsQuiet x.controller (if b then y else z).controller
controller_either true x y z p q = p refl
controller_either false x y z p q = q refl

queue_either :
    {S : Type 0} (b : Bool) (y z : Executor S)
    → y.queue ≡ []
    → z.queue ≡ []
    → (if b then y else z).queue ≡ []
queue_either true y z p q = p
queue_either false y z p q = q

module _ (prefs : Preferences) (ack_text : TransactionRecord → ℕ → List ℕ) where
  open prefs use {Store}

  -- A tick that finds only stale commands in the queue switches nothing on.
  pub tick_stale :
      (t : TickEnv) (x : Executor Store)
      → IsTruthfulTick t
      → IsMirror x.controller
      → AllStale x.controller.safety_generation x.queue
      → IsQuiet x.controller (tick prefs ack_text t x).controller
  unfolding tick before_commands after_commands process_command_queue
  tick_stale t x h v old =
      let judged = before_commands t x.controller in
      let p = before_commands-IsQuiet t x.controller h v in
      let start = record x { controller = judged; queue = [] } in
      let served = drain prefs ack_text t.commands 0 x.queue start in
      let q = IsQuiet-trans x.controller judged served.controller p (
        drain_stale prefs ack_text t.commands 0 x.queue start p.mirror
          (rw p.same_generation old)) in
      let after = record served { controller = after_commands t served.controller } in
      controller_either x.controller.driver_available x after _
        (λ there.
          IsQuiet-trans x.controller served.controller _ q
            (after_commands-IsQuiet t served.controller h q.mirror))
        (λ absent. drain_stale prefs ack_text t.commands 0 x.queue (record x { queue = [] }) v old)

  record_result_queue :
      (m : Moment) (e : Env) (cmd : RelayCommand) (r : TerminalResult) (x : Executor Store)
      → (record_result prefs ack_text m e cmd r x).queue ≡ x.queue
  unfolding record_result
  record_result_queue m e cmd r x = ground arith

  drain_queue :
      (at : ℕ → Moment × Env) (i : ℕ) (cmds : List RelayCommand) (x : Executor Store)
      → (drain prefs ack_text at i cmds x).queue ≡ x.queue
  unfolding drain execute
  drain_queue at i [] x = refl
  drain_queue at i (cmd ∷ cmds) x =
      drain_queue at (i + 1) cmds (execute prefs ack_text (at i).0 (at i).1 cmd x)
      ∙ record_result_queue (at i).0 (at i).1 cmd (judge (at i).0 cmd x.controller).0
          (record x { controller = (judge (at i).0 cmd x.controller).1 })

  -- A tick takes every command from the queue.
  pub tick_queue : (t : TickEnv) (x : Executor Store) → (tick prefs ack_text t x).queue ≡ []
  unfolding tick process_command_queue before_commands after_commands
  tick_queue t x =
      let start = record x { controller = before_commands t x.controller; queue = [] } in
      let served = drain prefs ack_text t.commands 0 x.queue start in
      queue_either x.controller.driver_available
        (record served { controller = after_commands t served.controller })
        (drain prefs ack_text t.commands 0 x.queue (record x { queue = [] }))
        (drain_queue t.commands 0 x.queue start)
        (drain_queue t.commands 0 x.queue (record x { queue = [] }))
