-- ===== src/Sched/Remote/Task.antt =====
-- run_periodic_task of src/app/remote_scheduler.cc over the agents. The information base is only
-- read. What memory holds where the source sets nothing is a parameter.
use flexran_rtc.Base.{
  ℕ, ◌+◌, ◌%◌, ◌/◌, Bool, Option, none, some, List, [], ◌∷◌, ◌++◌, ◌==◌, ◌||◌, ◌&&◌, ltb, not,
  if◌then◌else◌,
}
use flexran_rtc.Base.Faults.{◌>>=◌, for_each}
use flexran_rtc.Base.Maps
use flexran_rtc.Messages.{FlexranMessage, DlData, dl_mac_config, dl_mac_config_type}
use flexran_rtc.Rib.SfnSf.{get_sfn_sf}
use flexran_rtc.Rib.Enb.{EnbRibInfo}
use flexran_rtc.Rib.Store.{Rib, get_agent, get_available_agents}
use flexran_rtc.Rib.Updater.{request, initiating}
use flexran_rtc.Sched.Info.{EnbSchedulingInfo, new_enb_info, needs_scheduling}
use flexran_rtc.Sched.Helper.{UeStats}
use flexran_rtc.Sched.Flexible.Central.{Memory, prepare_cell}
use flexran_rtc.Sched.Remote.{RemoteLocals}
use flexran_rtc.Sched.Remote.Round.{RemoteRound, try_cell}

-- `locals` are the variables of the run, of which `tpc_accumulated` is static. What
-- requests_manager::send_message is given is kept in order in `sent`.
pub record RemoteScheduler : Type 0 where
  pub scheduling_info : List (ℕ × EnbSchedulingInfo)
  pub locals : RemoteLocals
  pub sent : List (ℕ × FlexranMessage)

-- The frame and the subframe that are scheduled; `schedule_ahead` is 0.
abbrev schedule_ahead : ℕ
schedule_ahead = 0

unfoldable pub remote_target : ℕ → ℕ → ℕ × ℕ
remote_target current_frame current_subframe =
    let subframe = (current_subframe + schedule_ahead) % 10 in
    let frame =
      if ltb subframe current_subframe then (current_frame + 1) % 1024 else current_frame in
    ((frame + schedule_ahead / 10) % 1024, subframe)

unfoldable pub get_scheduling_info : ℕ → RemoteScheduler → Option EnbSchedulingInfo
get_scheduling_info agent_id w = Maps.find agent_id w.scheduling_info

-- The scheduling information of the agent is made where there is none.
unfoldable pub ensure_scheduling_info : Memory → ℕ → RemoteScheduler → RemoteScheduler
unfolding get_scheduling_info
ensure_scheduling_info m agent_id w = elim (get_scheduling_info agent_id w) [
  | none ↦ record w {
    scheduling_info = Maps.insert agent_id (new_enb_info m.frame m.subframe) w.scheduling_info;
  }
  | some _ ↦ w
]

-- The message is sent where it has an entry.
unfoldable pub send_remote :
    ℕ → ℕ → ℕ → List DlData → List (ℕ × FlexranMessage) → List (ℕ × FlexranMessage)
send_remote agent_id frame subframe [] sent = sent
send_remote agent_id frame subframe (d ∷ l) sent =
    let header = request dl_mac_config_type (some 0) 0 in
    let msg = initiating (dl_mac_config header (get_sfn_sf frame subframe) (d ∷ l)) in
    sent ++ (agent_id, msg) ∷ []

-- The end of the loop body for an agent whose UEs were scheduled.
unfoldable pub complete : ℕ → EnbRibInfo → ℕ → ℕ → RemoteRound → RemoteScheduler → RemoteScheduler
unfolding send_remote
complete agent_id e frame subframe r w =
    let checked : EnbSchedulingInfo = record (r.sched) {
      last_checked_frame = e.current_frame;
      last_checked_subframe = e.current_subframe;
    } in
    record {
      scheduling_info = Maps.modify agent_id (λ _. checked) w.scheduling_info;
      locals = r.locals;
      sent = send_remote agent_id frame subframe r.dl_ue_data w.sent;
    }

module _ (sort : List UeStats → List UeStats) (m : Memory) (abstract_simulation : Bool) where
  -- Both loops over the cells of an agent.
  unfoldable pub try_cells :
      EnbRibInfo → ℕ → ℕ → EnbSchedulingInfo → RemoteLocals → Option RemoteRound
  unfolding try_cell prepare_cell
  try_cells e frame subframe s l = do
    s' ← for_each (prepare_cell sort m e subframe) e.enb_config s
    for_each (λ cell r. try_cell abstract_simulation e cell frame subframe e.ue_config r)
        e.enb_config (record { sched = s'; locals = l; dl_ue_data = [] })

  -- The slots that are scheduled: those that were not looked at last, but for subframes 0 and 5.
  abbrev pub is_wanted : EnbRibInfo → EnbSchedulingInfo → Bool
  is_wanted e s =
      let subframe = (remote_target e.current_frame e.current_subframe).1 in
      needs_scheduling s e.current_frame e.current_subframe && not (subframe == 0 || subframe == 5)

  -- The UEs of an agent whose slot is to be scheduled.
  unfoldable pub try_slot :
      ℕ → EnbRibInfo → EnbSchedulingInfo → RemoteScheduler → Option RemoteScheduler
  unfolding try_cells complete remote_target
  try_slot agent_id e s w =
      let (frame, subframe) = remote_target e.current_frame e.current_subframe in
      try_cells e frame subframe s w.locals >>= (λ r. some (complete agent_id e frame subframe r w))

  -- The body of the loop over the agents.
  unfoldable pub try_agent : Rib → ℕ → RemoteScheduler → Option RemoteScheduler
  unfolding try_slot ensure_scheduling_info get_scheduling_info remote_target
  try_agent rib agent_id w = do
    e ← get_agent agent_id rib
    let w' = ensure_scheduling_info m agent_id w
    s ← get_scheduling_info agent_id w'
    if is_wanted e s then try_slot agent_id e s w' else some w'

  -- `ce_flags` and `header_len` start at zero, and `mcs` is not set.
  unfoldable pub run_remote_scheduler : Rib → RemoteScheduler → Option RemoteScheduler
  unfolding try_agent
  run_remote_scheduler rib w =
      let begun = record (w.locals) { mcs = m.mcs; ce_flags = 0; header_len = 0 } in
      for_each (try_agent rib) (get_available_agents rib) (record w { locals = begun })
