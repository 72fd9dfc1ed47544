-- ===== src/Sched/Flexible/Central.antt =====
-- run_central_scheduler and run_periodic_task of src/app/flexible_scheduler.cc. What memory
-- holds where the source sets nothing is a parameter.
pub mod Slots
pub mod Prepared
pub mod Health
pub mod Runs
use Prim.Native.String.{String}
use flexran_rtc.Base.{
  ℕ, ◌+◌, ◌%◌, ◌/◌, Bool, true, false, Option, none, some, List, [], ◌∷◌, ◌==◌, ◌&&◌, ◌||◌, ltb,
  not, if◌then◌else◌,
}
use flexran_rtc.Base.Faults.{◌>>=◌, for_each}
use flexran_rtc.Base.Maps
use flexran_rtc.Messages.{CellConfig, FlexranMessage, DlData, dl_mac_config, dl_mac_config_type}
use flexran_rtc.Rib.SfnSf.{get_sfn_sf, u16}
use flexran_rtc.Rib.Enb.{EnbRibInfo}
use flexran_rtc.Rib.Store.{Rib, get_agent, get_available_agents, update_entry}
use flexran_rtc.Rib.Updater.{request, initiating}
use flexran_rtc.Sched.Info.{EnbSchedulingInfo, new_enb_info, start_round, needs_scheduling}
use flexran_rtc.Sched.Helper.{UeStats}
use flexran_rtc.Sched.Preprocessor.Run.{run_dlsch_scheduler_preprocessor}
use flexran_rtc.Sched.Flexible.{Flexible, send_message, for_agents, push_once}
use flexran_rtc.Sched.Flexible.Round.{Round, schedule_cell}

-- The frame and the subframe of new scheduling information, and `mcs`, before they are set.
pub record Memory : Type 0 where
  pub frame : ℕ
  pub subframe : ℕ
  pub mcs : ℕ

-- The information base and the scheduler that holds a reference to it.
pub record Controller : Type 0 where
  pub rib : Rib
  pub app : Flexible

abbrev pub schedule_ahead : ℕ
schedule_ahead = 0

-- The frame and the subframe that are scheduled.
unfoldable pub target_slot : ℕ → ℕ → ℕ × ℕ
target_slot current_frame current_subframe =
    let subframe = (current_subframe + schedule_ahead) % 10 in
    let frame =
      if ltb subframe current_subframe then (current_frame + 1) % 1024 else current_frame in
    ((frame + schedule_ahead / 10) % 1024, subframe)

-- The scheduling information of the agent is made where there is none.
unfoldable pub ensure_info : Memory → ℕ → Flexible → Flexible
ensure_info m agent_id f = elim (Maps.find agent_id f.scheduling_info) [
  | none ↦ record f {
    scheduling_info = Maps.insert agent_id (new_enb_info m.frame m.subframe) f.scheduling_info;
  }
  | some _ ↦ f
]

-- A change of the object that the entry points to.
unfoldable pub store_info : ℕ → EnbSchedulingInfo → Flexible → Flexible
store_info agent_id s f = record f {
  scheduling_info = Maps.modify agent_id (λ _. s) f.scheduling_info;
}

unfoldable pub dl_mac_config_msg : ℕ → ℕ → List DlData → FlexranMessage
dl_mac_config_msg frame subframe l =
    initiating (dl_mac_config (request dl_mac_config_type (some 0) 0) (get_sfn_sf frame subframe) l)

-- The message is sent where it has an entry.
unfoldable pub send_scheduled : ℕ → ℕ → ℕ → List DlData → Flexible → Flexible
send_scheduled agent_id frame subframe [] f = f
send_scheduled agent_id frame subframe (d ∷ l) f =
    send_message agent_id (dl_mac_config_msg frame subframe (d ∷ l)) f

-- The end of the loop body for an agent whose UEs were scheduled.
unfoldable pub finish : ℕ → EnbRibInfo → ℕ → ℕ → Round → Controller → Controller
finish agent_id e frame subframe r w =
    let checked : EnbSchedulingInfo = record (r.sched) {
      last_checked_frame = e.current_frame;
      last_checked_subframe = e.current_subframe;
    } in
    let stored = record (store_info agent_id checked w.app) { locals = r.locals } in
    record {
      rib = update_entry (λ _. r.enb) agent_id w.rib;
      app = send_scheduled agent_id frame subframe r.dl_ue_data stored;
    }

module _ (sort : List UeStats → List UeStats) (m : Memory) where
  -- The first loop over the cells.
  unfoldable pub prepare_cell :
      EnbRibInfo → ℕ → CellConfig → EnbSchedulingInfo → Option EnbSchedulingInfo
  prepare_cell e subframe cell s =
      run_dlsch_scheduler_preprocessor sort cell e.ue_config e.lc_config e subframe
        (start_round subframe cell s)

  -- Both loops over the cells of an agent.
  unfoldable pub schedule_cells : EnbRibInfo → ℕ → ℕ → EnbSchedulingInfo → Flexible → Option Round
  unfolding prepare_cell
  schedule_cells e frame subframe s f = do
    s' ← for_each (prepare_cell e subframe) e.enb_config s
    for_each (schedule_cell e.ue_config frame subframe) e.enb_config
        (record { enb = e; sched = s'; locals = f.locals; dl_ue_data = [] })

  -- The UEs of an agent whose slot is to be scheduled.
  unfoldable pub schedule_slot : ℕ → EnbRibInfo → EnbSchedulingInfo → Controller → Option Controller
  unfolding schedule_cells finish
  schedule_slot agent_id e s w =
      let (frame, subframe) = target_slot e.current_frame e.current_subframe in
      schedule_cells e frame subframe s w.app >>= (λ r. some (finish agent_id e frame subframe r w))

  -- The slots that are scheduled: those that were not looked at last, but for subframes 0 and 5.
  abbrev pub is_due : EnbRibInfo → EnbSchedulingInfo → Bool
  is_due e s =
      let subframe = (target_slot e.current_frame e.current_subframe).1 in
      needs_scheduling s e.current_frame e.current_subframe && not (subframe == 0 || subframe == 5)

  -- The body of the loop over the agents.
  unfoldable pub schedule_agent : ℕ → Controller → Option Controller
  unfolding schedule_slot
  schedule_agent agent_id w = do
    e ← get_agent agent_id w.rib
    let w' : Controller = record w { app = ensure_info m agent_id w.app }
    s ← Maps.find agent_id (w'.app).scheduling_info
    if is_due e s then schedule_slot agent_id e s w' else some w'

  unfoldable pub run_central_scheduler : Controller → Option Controller
  unfolding schedule_agent
  run_central_scheduler w =
      let app = w.app in
      let begun = record (app.locals) { aggregation = 1; ce_flags = 0; mcs = m.mcs } in
      for_each schedule_agent (get_available_agents w.rib)
        (record w { app = record app { locals = begun } })

  unfoldable pub run_periodic_task :
      (String → Option String) → Option String → Controller → Option Controller
  unfolding run_central_scheduler
  run_periodic_task files home w =
      let pushed = for_agents (push_once files home) (get_available_agents w.rib) w.app in
      let w' : Controller = record w { app = pushed } in
      let scheduled = run_central_scheduler w' in
      if pushed.central_scheduling then scheduled else some w'
