-- ===== src/Core/Reach.antt =====
-- The controller of src/core/rt_controller.cc over whatever order its threads act in: the network,
-- the rounds of the task manager and the calls of the northbound API.
use Prim.Native.String.{String}
use flexran_rtc.Base.{ℕ, ◌≡◌, Option, some, List}
use flexran_rtc.Base.Int.{ℤ}
use flexran_rtc.Network.Xface.{Lockfree, Codec, Xface}
use flexran_rtc.Sched.Helper.{UeStats}
use flexran_rtc.Sched.Flexible.Central.{Memory}
use flexran_rtc.Core.{System, App, run_updater, manage_rt_tasks}
use flexran_rtc.Core.Cycle.{AllPlain, Awaited}
use flexran_rtc.NorthApi.{change_scheduler, apply_policy, apply_policy_string}

module _ {Q : Type 0} (queue : Lockfree Q) (codec : Codec) (sort : List UeStats → List UeStats)
    (m : Memory) (files : String → Option String) (home : Option String) where
  -- A step: the network thread leaves the interface in any state, the task manager ends a round
  -- whose messages were expected and left agents as the scheduler requires them, or a call of the northbound API is served.
  pub data Step : System Q → System Q → Type 0 where
    network : (s : System Q) (x : Xface Q) → Step s (record s { net_xface = x })
    round :
        (clock : ℕ → ℕ) (apps : List App) (s s' : System Q)
        → Awaited queue codec clock s
        → AllPlain (run_updater queue codec clock s)
        → manage_rt_tasks queue codec sort m files home clock apps s ≡ some s'
        → Step s s'
    mode_called : (n : ℤ) (s : System Q) → Step s (change_scheduler queue codec files home n s).0
    policy_called :
        (name : String) (s : System Q) → Step s (apply_policy queue codec files home name s).0
    text_called :
        (policy : String) (s : System Q)
        → Step s (apply_policy_string queue codec files home policy s).0

  -- What the controller comes to from its start.
  pub data Reachable (start : System Q) : System Q → Type 0 where
    begins : Reachable start start
    continues : {s s' : System Q} → Reachable start s → Step s s' → Reachable start s'
