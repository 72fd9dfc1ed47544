-- ===== src/Sched/Remote/Runs.antt =====
-- run_periodic_task of src/app/remote_scheduler.cc over all agents.
use flexran_rtc.Base.{ℕ, ◌≡◌, Bool, false, some, List}
use flexran_rtc.Rib.Enb.{EnbRibInfo}
use flexran_rtc.Rib.Store.{Rib, get_agent}
use flexran_rtc.Sched.Info.{EnbSchedulingInfo}
use flexran_rtc.Sched.Helper.{UeStats}
use flexran_rtc.Sched.Flexible.Central.{Memory}
use flexran_rtc.Sched.Remote.Task.{RemoteScheduler, get_scheduling_info, is_wanted}
use flexran_rtc.Sched.Remote.Infos.{InfosFit}

-- The state with the variables that a run starts from.
abbrev pub restarted : Memory → RemoteScheduler → RemoteScheduler
restarted m w = record w {
  locals = record (w.locals) { mcs = m.mcs; ce_flags = 0; header_len = 0 };
}

module _ (sort : List UeStats → List UeStats) (m : Memory) (abstract_simulation : Bool)
    (rib : Rib) where
  -- The agent and its scheduling information are there, and its slot is not to be scheduled.
  abbrev Settled : ℕ → RemoteScheduler → Type 0
  Settled a w =
      (e : EnbRibInfo) × (s : EnbSchedulingInfo) × (get_agent a rib ≡ some e)
      × (get_scheduling_info a w ≡ some s)
      × (is_wanted sort m abstract_simulation e s ≡ false)

  -- What the body for an agent leaves.
  record Settles (a : ℕ) (w w' : RemoteScheduler) : Type 0 where
    fit : InfosFit w'
    own : Settled a w'
    others : (b : ℕ) → Settled b w → Settled b w'
