-- ===== src/Core/Cycle.antt =====
-- The cycle of src/core/task_manager.cc never faults, and the order in which the applications of
-- src/core/rt_controller.cc run does not matter to what they compute.
use Prim.Native.String.{String}
use flexran_rtc.Sched.Preprocessor.Sorting.{Permutes}
use flexran_rtc.Base.{ℕ, ◌≡◌, refl, Option, some, List, [], ◌∷◌, arith}
use flexran_rtc.Base.Faults.{◌>>=◌, Returns, for_each}
use flexran_rtc.Base.Maps.{find, find-nil}
use flexran_rtc.Messages.{FlexranMessage}
use flexran_rtc.Network.Xface.{Lockfree, Codec, Xface}
use flexran_rtc.Rib.Store.{Rib, get_agent}
use flexran_rtc.Rib.Updater.{messages_to_check}
use flexran_rtc.Rib.Updater.Fit.{AllExpected, update_rib-Fit}
use flexran_rtc.Sched.Helper.{UeStats}
use flexran_rtc.Sched.Flexible.Transmission.{Locals}
use flexran_rtc.Sched.Flexible.Central.{Memory, Controller}
use flexran_rtc.Rib.Enb.{EnbRibInfo}
use flexran_rtc.Rib.Enb.Fit.{AgentFit}
use flexran_rtc.Sched.Info.{EnbSchedulingInfo}
use flexran_rtc.Sched.Flexible.Central.Prepared.{Plain}
use flexran_rtc.Sched.Flexible.Central.Health.{InfoFit, Healthy}
use flexran_rtc.Sched.Flexible.Central.Runs.{run_periodic_task-Healthy}
use flexran_rtc.Apps.Stats
use flexran_rtc.Core.{
  System, App, stats_manager, flexible_scheduler, new_system, send_all, world, run_updater, run_app,
  manage_rt_tasks, after_stats, after_scheduler, begin_scheduler,
}

-- The scheduler with the information base.
abbrev pub scheduling : {Q : Type 0} → System Q → Controller
scheduling s = record { rib = s.rib; app = s.scheduler }

-- What the updater ensures of the agents, and the scheduler of its information.
pub record Sane {Q : Type 0} (s : System Q) : Type 0 where
  pub agents : (a : ℕ) (e : EnbRibInfo) → get_agent a s.rib ≡ some e → AgentFit e
  pub infos :
      (a : ℕ) (i : EnbSchedulingInfo) → find a (s.scheduler).scheduling_info ≡ some i → InfoFit i

-- What the scheduler relies on in the agents beside it: at most 16 UEs, and cells that fit the arrays
-- and are told apart by their numbers.
abbrev pub AllPlain : {Q : Type 0} → System Q → Type 0
AllPlain s = (a : ℕ) (e : EnbRibInfo) → get_agent a s.rib ≡ some e → Plain e

Sane-Healthy : {Q : Type 0} (s : System Q) → Sane s → AllPlain s → Healthy (scheduling s)
Sane-Healthy s h p = record { agents = λ a e q. (h.agents a e q, p a e q); infos = h.infos }

Healthy-Sane : {Q : Type 0} (s : System Q) → Healthy (scheduling s) → Sane s
Healthy-Sane s h = record { agents = λ a e q. (h.agents a e q).0; infos = h.infos }

pub new_system-Sane : {Q : Type 0} → (x : Xface Q) (l : Locals) → Sane (new_system x l)
unfolding get_agent
new_system-Sane x l = record {
  agents = λ a e q. absurd (ground (arith, rw (find-nil a) at q));
  infos = λ a s q. absurd (ground (arith, rw (find-nil a) at q));
}

module _ {Q : Type 0} (queue : Lockfree Q) (codec : Codec) where
  -- The messages that the updater handles in a round are expected in the states they come to.
  abbrev pub Awaited : (ℕ → ℕ) → System Q → Type 0
  Awaited clock s =
      AllExpected queue codec clock messages_to_check (queue.contents s.net_xface.in_queue)
        (world queue codec s)

  run_updater-Sane :
      (clock : ℕ → ℕ) (s : System Q)
      → Awaited clock s
      → Sane s
      → Sane (run_updater queue codec clock s)
  unfolding run_updater
  run_updater-Sane clock s k h = record {
    agents =
        update_rib-Fit queue codec clock messages_to_check (world queue codec s)
          (queue.contents s.net_xface.in_queue) refl k h.agents;
    infos = h.infos;
  }

  -- Two ends of the system that differ in the order of two lists of messages only.
  pub record Orders (s s1 s2 : System Q) : Type 0 where
    pub rib : s1.rib ≡ s2.rib
    pub stats : s1.stats ≡ s2.stats
    pub scheduler : s1.scheduler ≡ s2.scheduler
    pub requests : List (ℕ × FlexranMessage)
    pub grants : List (ℕ × FlexranMessage)
    pub first :
        s1.net_xface ≡ send_all queue codec grants (send_all queue codec requests s.net_xface)
    pub second :
        s2.net_xface ≡ send_all queue codec requests (send_all queue codec grants s.net_xface)

  module _ (sort : List UeStats → List UeStats) (m : Memory) (files : String → Option String)
      (home : Option String) where
    module _ (perm : Permutes sort) where
      run_app-Healthy :
          (app : App) (s : System Q)
          → Healthy (scheduling s)
          → Returns (run_app queue codec sort m files home app s) (λ s'. Healthy (scheduling s'))
      unfolding run_app
      run_app-Healthy stats_manager s h =
          let asked = Stats.run_periodic_task s.rib (record (s.stats) { sent = [] }) in
          (after_stats queue codec asked s, refl, record { agents = h.agents; infos = h.infos })
      run_app-Healthy flexible_scheduler s h =
          let (c, e, (p, _)) =
            run_periodic_task-Healthy sort m perm files home (begin_scheduler queue codec s)
              (record { agents = h.agents; infos = h.infos }) in
          (
            after_scheduler queue codec c s,
            rw e refl,
            record { agents = p.agents; infos = p.infos },
          )

      run_apps-Healthy :
          (apps : List App) (s : System Q)
          → Healthy (scheduling s)
          → Returns
              (for_each (run_app queue codec sort m files home) apps s)
              (λ s'. Healthy (scheduling s'))
      unfolding for_each
      run_apps-Healthy [] s h = (s, refl, h)
      run_apps-Healthy (app ∷ apps) s h =
          let (s1, e1, h1) = run_app-Healthy app s h in
          let (s2, e2, h2) = run_apps-Healthy apps s1 h1 in (s2, rw (e1, ◌>>=◌) e2, h2)

      -- A round of the task manager, over whatever applications in whatever order, returns without
      -- a fault and keeps what is ensured of the system, where the messages that the updater handles
      -- are expected, after them each agent has at most 16 UEs and cells that fit the arrays and are
      -- told apart by their numbers, and std::sort permutes up to 16 elements.
      pub manage_rt_tasks-Sane :
          (clock : ℕ → ℕ) (apps : List App) (s : System Q)
          → Awaited clock s
          → AllPlain (run_updater queue codec clock s)
          → Sane s
          → Returns (manage_rt_tasks queue codec sort m files home clock apps s) Sane
      unfolding manage_rt_tasks
      manage_rt_tasks-Sane clock apps s k p h =
          let updated = run_updater queue codec clock s in
          let (s', e, q) =
            run_apps-Healthy apps updated (Sane-Healthy updated (run_updater-Sane clock s k h) p) in
          (s', e, Healthy-Sane s' q)
