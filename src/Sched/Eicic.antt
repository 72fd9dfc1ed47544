-- ===== src/Sched/Eicic.antt =====
-- src/app/remote_scheduler_eicic.h and .cc: the scheduler that lets either a macro cell or the
-- pico cells around it send in an almost blank subframe. CMakeLists.txt leaves it out of the build.
pub mod Turns
use flexran_rtc.Base.{
  ℕ, ◌+◌, ◌%◌, ◌/◌, Bool, true, false, Option, none, some, List, [], ◌∷◌, ◌++◌, ◌==◌, ◌&&◌, ◌||◌,
  not, ltb, if◌then◌else◌, get_elem?,
}
use flexran_rtc.Base.Faults.{◌>>=◌, for_each}
use flexran_rtc.Base.Maps
use flexran_rtc.Messages.{CellConfig, UeConfig, RlcBsr, FlexranMessage}
use flexran_rtc.Rib.Enb.{EnbRibInfo, get_ue_mac_info}
use flexran_rtc.Rib.Store.{Rib, get_agent, get_available_agents}
use flexran_rtc.Sched.Info.{EnbSchedulingInfo, new_enb_info, needs_scheduling}
use flexran_rtc.Sched.Preprocessor.{in_cell}
use flexran_rtc.Sched.Flexible.Central.{Memory, dl_mac_config_msg}

pub record Eicic : Type 0 where
  pub scheduling_info : List (ℕ × EnbSchedulingInfo)
  pub sent : List (ℕ × FlexranMessage)

abbrev pub schedule_ahead : ℕ
schedule_ahead = 1

-- The subframes that are almost blank.
abbrev pub abs : List ℕ
abs = 0 ∷ 1 ∷ 0 ∷ 1 ∷ 0 ∷ 0 ∷ 0 ∷ 1 ∷ 0 ∷ 1 ∷ []

abbrev pub macro_agent_id : ℕ
macro_agent_id = 0

-- The frame is set twice: what the test of the subframe gave is lost.
unfoldable pub target_slot : ℕ → ℕ → ℕ × ℕ
target_slot current_frame current_subframe =
    ((current_frame + schedule_ahead / 10) % 1024, (current_subframe + schedule_ahead) % 10)

-- `abs_[target_subframe] != 0`, for a subframe below ten.
unfoldable pub is_almost_blank : ℕ → Bool
is_almost_blank subframe = elim (get_elem? abs subframe) [ none ↦ false | some v ↦ not (v == 0) ]

-- Whether a channel has something to transmit.
channels_wait : List RlcBsr → Bool
channels_wait [] = false
channels_wait (r ∷ rs) =
    (elim (r.tx_queue_size) [ none ↦ false | some n ↦ ltb 0 n ]) || channels_wait rs

-- The loops over the UEs of a cell and over the cells.
ues_wait : EnbRibInfo → CellConfig → List UeConfig → Bool
ues_wait e cell [] = false
ues_wait e cell (c ∷ cs) =
    let waits : Bool = elim (get_ue_mac_info e c.rnti) [
      | none ↦ false
      | some mac ↦ channels_wait mac.mac_stats_report.rlc_report
    ] in
    (in_cell cell c && waits) || ues_wait e cell cs

unfoldable pub cells_wait : EnbRibInfo → List CellConfig → Bool
unfolding channels_wait ues_wait
cells_wait e [] = false
cells_wait e (cell ∷ cells) = ues_wait e cell e.ue_config || cells_wait e cells

-- The scheduling information is made where there is none.
unfoldable pub ensure : Memory → ℕ → List (ℕ × EnbSchedulingInfo) → List (ℕ × EnbSchedulingInfo)
ensure m agent_id infos = elim (Maps.find agent_id infos) [
  | none ↦ Maps.insert agent_id (new_enb_info m.frame m.subframe) infos
  | some _ ↦ infos
]

-- The state of the first loop.
pub record Marks : Type 0 where
  pub infos : List (ℕ × EnbSchedulingInfo)
  pub schedule_macro : Bool
  pub schedule_flag : Bool

module _ (m : Memory) (r : Rib) where
  -- What the first loop does for an agent whose slot was not looked at.
  abbrev pub mark : ℕ → EnbRibInfo → EnbSchedulingInfo → Marks → Marks
  mark agent_id e s k =
      let checked : EnbSchedulingInfo = record s {
        last_checked_frame = e.current_frame;
        last_checked_subframe = e.current_subframe;
      } in
      let blank = is_almost_blank (target_slot e.current_frame e.current_subframe).1 in
      let waits = not (agent_id == macro_agent_id) && cells_wait e e.enb_config in
      record {
        infos = Maps.modify agent_id (λ _. checked) k.infos;
        schedule_macro = if waits then false else k.schedule_macro;
        schedule_flag = if blank then true else k.schedule_flag;
      }

  -- The body of the first loop; `none` is an access through a null pointer.
  unfoldable pub check_agent : ℕ → Marks → Option Marks
  check_agent agent_id k = do
    e ← get_agent agent_id r
    let k' : Marks = record k { infos = ensure m agent_id k.infos }
    s ← Maps.find agent_id k'.infos
    some
        (if needs_scheduling s e.current_frame e.current_subframe then mark agent_id e s k' else k')

  -- Whether the second loop passes over an agent.
  abbrev pub passes_over : Bool → ℕ → Bool
  passes_over schedule_macro agent_id =
      (agent_id == macro_agent_id && not schedule_macro)
      || (not (agent_id == macro_agent_id) && schedule_macro)

  -- The body of the second loop: an empty message is the permission to schedule.
  unfoldable pub permit : Bool → ℕ → Eicic → Option Eicic
  permit schedule_macro agent_id s =
      let permitted : EnbRibInfo → Option Eicic = λ e.
        let (frame, subframe) = target_slot e.current_frame e.current_subframe in
        some (record {
          scheduling_info = ensure m agent_id s.scheduling_info;
          sent = s.sent ++ (agent_id, dl_mac_config_msg frame subframe []) ∷ [];
        }) in
      if passes_over schedule_macro agent_id then some s else get_agent agent_id r >>= permitted

  unfoldable pub run_periodic_task : Eicic → Option Eicic
  unfolding check_agent permit
  run_periodic_task s = do
    let agents = get_available_agents r
    let start : Marks = record {
      infos = s.scheduling_info;
      schedule_macro = true;
      schedule_flag = false;
    }
    k ← for_each check_agent agents start
    let marked : Eicic = record s { scheduling_info = k.infos }
    if not k.schedule_flag then some marked else for_each (permit k.schedule_macro) agents marked
