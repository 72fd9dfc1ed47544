-- ===== src/Sched/Flexible/Round.antt =====
-- The body of the loop of run_central_scheduler in src/app/flexible_scheduler.cc over the UEs of
-- a cell. `none` is an access through a null pointer, or fuel that ran out.
pub mod Sound
pub mod Harq
use flexran_rtc.Base.{
  ℕ, ◌^◌, ◌%◌, Bool, true, false, Option, none, some, List, [], ◌∷◌, ◌++◌, ◌==◌, ltb, not,
  if◌then◌else◌,
}
use flexran_rtc.Base.Faults.{◌>>=◌, for_each}
use flexran_rtc.Base.Maps
use flexran_rtc.Messages.{CellConfig, UeConfig, DlData, DlDci}
use flexran_rtc.Rib.Ue.{
  UeMacRibInfo, has_available_harq, get_next_available_harq, get_harq_stats, harq_scheduled,
}
use flexran_rtc.Rib.Enb.{EnbRibInfo, get_ue_mac_info}
use flexran_rtc.Sched.Primitives.{allocate_prbs_sub}
use flexran_rtc.Sched.Info.{
  UeSchedulingInfo, EnbSchedulingInfo, assign_cce, cce_allocation_infeasible,
}
use flexran_rtc.Sched.Preprocessor.{in_cell}
use flexran_rtc.Sched.Flexible.Transmission.{
  Locals, Grant, Attempt, set_aggregation, set_scheme, retransmit, transmit,
}

-- The information base of the agent, its scheduling information, the variables, and
-- `dl_ue_data` of the message.
pub record Round : Type 0 where
  pub enb : EnbRibInfo
  pub sched : EnbSchedulingInfo
  pub locals : Locals
  pub dl_ue_data : List DlData

-- FLVRBF_LOCALIZED and FLDCIF_1 are 0.
unfoldable pub dl_dci : CellConfig → UeConfig → ℕ → ℕ → ℕ → UeSchedulingInfo → Grant → DlDci
dl_dci cell c harq_pid round aggregation u g = record {
  rnti = c.rnti;
  res_alloc = 0;
  rb_bitmap = allocate_prbs_sub g.nb_rb (u.rballoc_sub_scheduled cell.cell_id harq_pid) cell;
  rb_shift = 0;
  tbs_size = g.dci_tbs ∷ [];
  mcs = g.mcs ∷ [];
  ndi = g.ndi ∷ [];
  rv = round % 4 ∷ [];
  aggr_level = aggregation;
  format = 0;
  tpc = g.tpc;
  harq_process = harq_pid;
  vrb_format = 0;
}

-- The entry of the message for the UE.
unfoldable pub dl_data : CellConfig → UeConfig → ℕ → ℕ → Attempt → Grant → DlData
dl_data cell c harq_pid round a g =
    let l = a.locals in
    record {
      rnti = c.rnti;
      dl_dci = some (dl_dci cell c harq_pid round l.aggregation a.ue g);
      ce_bitmap = l.ce_flags ∷ l.ce_flags ∷ [];
      rlc_pdu = a.rlc_pdu;
      serv_cell_index = cell.cell_id;
    }

-- The objects of the UE after a change through their pointers.
unfoldable pub store_ue : ℕ → UeMacRibInfo → UeSchedulingInfo → Round → Round
store_ue rnti mac u r = record r {
  enb = record (r.enb) { ue_mac_info = Maps.modify rnti (λ _. mac) (r.enb).ue_mac_info };
  sched = record (r.sched) {
    scheduling_info = Maps.modify rnti (λ _. u) (r.sched).scheduling_info;
  };
}

-- The end of the body: the message gets an entry where there is a transmission.
unfoldable pub settle : CellConfig → UeConfig → ℕ → ℕ → UeMacRibInfo → Attempt → Round → Round
unfolding store_ue
settle cell c harq_pid round mac a r =
    let mac' = record mac { mac_stats_report = a.report } in
    let l = a.locals in
    elim (a.grant) [
      | none ↦ record (store_ue c.rnti mac' a.ue r) { locals = l }
      | some g ↦
          let stored = store_ue c.rnti (harq_scheduled mac' cell.cell_id harq_pid) a.ue r in
          record stored {
            sched = assign_cce cell.cell_id (2 ^ l.aggregation) stored.sched;
            locals = l;
            dl_ue_data = r.dl_ue_data ++ dl_data cell c harq_pid round a g ∷ [];
          }
    ]

-- A UE that the preprocessor gave blocks, with the process that is free.
unfoldable pub attempt :
    CellConfig → ℕ → ℕ → UeConfig → UeMacRibInfo → UeSchedulingInfo → ℕ → Round → Option Round
unfolding settle
attempt cell frame subframe c mac u harq_pid r =
    let round = get_harq_stats mac cell.cell_id harq_pid in
    let report = mac.mac_stats_report in
    let l = set_scheme cell report r.locals in
    let tried : Option Attempt =
      if ltb 0 round
      then some (retransmit cell harq_pid report l u)
      else transmit cell ((r.enb).cell_mac_info cell.cell_id) frame subframe harq_pid report l u in
    tried >>= (λ a. some (settle cell c harq_pid round mac a r))

-- The checks after the control channel was found feasible.
unfoldable pub schedule_feasible :
    CellConfig → ℕ → ℕ → UeConfig → UeMacRibInfo → Round → Option Round
unfolding attempt
schedule_feasible cell frame subframe c mac r =
    let given : UeSchedulingInfo → Option Round = λ u.
      get_next_available_harq mac cell.cell_id
      >>= (λ harq_pid. attempt cell frame subframe c mac u harq_pid r) in
    if has_available_harq mac cell.cell_id
    then Maps.find c.rnti (r.sched).scheduling_info
      >>= (λ u. if u.pre_nb_rbs_available cell.cell_id == 0 then some r else given u)
    else some r

unfoldable pub schedule_known : CellConfig → ℕ → ℕ → UeConfig → UeMacRibInfo → Round → Option Round
unfolding schedule_feasible
schedule_known cell frame subframe c mac r =
    let l = set_aggregation cell mac.mac_stats_report r.locals in
    cce_allocation_infeasible r.sched cell c.rnti l.aggregation subframe >>= (λ found.
      let r' : Round = record r { sched = found.0; locals = l } in
      if found.1 then some r' else schedule_feasible cell frame subframe c mac r')

unfoldable pub schedule_ue : CellConfig → ℕ → ℕ → UeConfig → Round → Option Round
unfolding schedule_known
schedule_ue cell frame subframe c r =
    let known : Option Round = elim (get_ue_mac_info r.enb c.rnti) [
      | none ↦ some r
      | some mac ↦ schedule_known cell frame subframe c mac r
    ] in
    if in_cell cell c then known else some r

unfoldable pub schedule_cell : List UeConfig → ℕ → ℕ → CellConfig → Round → Option Round
schedule_cell ues frame subframe cell r = for_each (schedule_ue cell frame subframe) ues r
