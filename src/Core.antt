-- ===== src/Core.antt =====
-- src/core: the cycle of task_manager.cc over the RIB updater and the applications that
-- rt_controller.cc registers, with requests_manager.cc, which hands what they send to the network.
-- Threads that run side by side act one after the other, in any order; the timer and the start of
-- the threads are not part of this.
pub mod Cycle
pub mod Reach
use Prim.Native.String.{String}
use flexran_rtc.Base.{ℕ, false, Option, none, some, List, [], ◌∷◌, ◌++◌}
use flexran_rtc.Base.Faults.{◌>>=◌, for_each}
use flexran_rtc.Messages.{FlexranMessage}
use flexran_rtc.Network.Xface.{Lockfree, Codec, Xface, send_msg}
use flexran_rtc.Rib.Store.{Rib, empty_rib}
use flexran_rtc.Rib.Updater.{World, update_rib, messages_to_check}
use flexran_rtc.Sched.Helper.{UeStats}
use flexran_rtc.Sched.Flexible.{Flexible}
use flexran_rtc.Sched.Flexible.Transmission.{Locals}
use flexran_rtc.Sched.Flexible.Central.{Memory, Controller}
use flexran_rtc.Sched.Flexible.Central
use flexran_rtc.Apps.Stats.{StatsManager}
use flexran_rtc.Apps.Stats

-- The interface, the information base and the two applications.
pub record System (Q : Type 0) : Type 0 where
  pub net_xface : Xface Q
  pub rib : Rib
  pub stats : StatsManager
  pub scheduler : Flexible

-- What the constructors leave; the variables of a run are set when it begins.
abbrev pub new_flexible : Locals → Flexible
new_flexible l = record {
  central_scheduling = false;
  code_pushed = false;
  scheduling_info = [];
  locals = l;
  sent = [];
}

abbrev pub new_system : {Q : Type 0} → Xface Q → Locals → System Q
new_system x l = record {
  net_xface = x;
  rib = empty_rib;
  stats = record { agent_list = []; sent = [] };
  scheduler = new_flexible l;
}

-- The applications that are registered.
pub data App : Type 0 where
  stats_manager : App
  flexible_scheduler : App

abbrev pub register_app : App → List App → List App
register_app app apps = apps ++ app ∷ []

-- In the order of rt_controller.cc.
abbrev pub registered : List App
registered = register_app flexible_scheduler (register_app stats_manager [])

module _ {Q : Type 0} (queue : Lockfree Q) (codec : Codec) where
  -- requests_manager::send_message
  abbrev pub send_message : ℕ → FlexranMessage → Xface Q → Xface Q
  send_message agent_id msg x = (send_msg queue codec x msg agent_id).0

  -- What an application sends, in its order.
  unfoldable pub send_all : List (ℕ × FlexranMessage) → Xface Q → Xface Q
  send_all [] x = x
  send_all ((agent_id, msg) ∷ rest) x = send_all rest (send_message agent_id msg x)

  -- The part of the system that the updater holds references to.
  abbrev pub world : System Q → World Q
  world s = record { net_xface = s.net_xface; rib = s.rib }

  -- The task of the updater.
  unfoldable pub run_updater : (ℕ → ℕ) → System Q → System Q
  run_updater clock s =
      let w = update_rib queue codec clock messages_to_check (world s) in
      record s { net_xface = w.net_xface; rib = w.rib }

  -- What is left of the scheduler, and its messages handed on.
  abbrev pub after_scheduler : Controller → System Q → System Q
  after_scheduler c s = record s {
    rib = c.rib;
    scheduler = c.app;
    net_xface = send_all (c.app).sent s.net_xface;
  }

  -- The same for the manager of the statistics.
  abbrev pub after_stats : StatsManager → System Q → System Q
  after_stats asked s = record s { stats = asked; net_xface = send_all asked.sent s.net_xface }

  -- The scheduler before its run, with no message of its own yet.
  abbrev pub begin_scheduler : System Q → Controller
  begin_scheduler s = record { rib = s.rib; app = record (s.scheduler) { sent = [] } }

  module _ (sort : List UeStats → List UeStats) (m : Memory) (files : String → Option String)
      (home : Option String) where
    -- The task of an application; `none` is a fault.
    unfoldable pub run_app : App → System Q → Option (System Q)
    run_app stats_manager s =
        some (after_stats (Stats.run_periodic_task s.rib (record (s.stats) { sent = [] })) s)
    run_app flexible_scheduler s =
        Central.run_periodic_task sort m files home (begin_scheduler s)
        >>= (λ c. some (after_scheduler c s))

    -- One round of the loop of manage_rt_tasks: the updater, and then the applications, of which
    -- each runs to its end.
    unfoldable pub manage_rt_tasks : (ℕ → ℕ) → List App → System Q → Option (System Q)
    unfolding run_updater run_app
    manage_rt_tasks clock apps s = for_each run_app apps (run_updater clock s)
