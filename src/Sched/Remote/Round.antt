-- ===== src/Sched/Remote/Round.antt =====
-- The body of the loop of run_periodic_task in src/app/remote_scheduler.cc over the UEs of a
-- cell. `none` is an access through a null pointer, or fuel that ran out.
use flexran_rtc.Base.{
  ℕ, ◌^◌, ◌-◌, Bool, Option, none, some, List, [], ◌∷◌, ◌++◌, ◌==◌, if◌then◌else◌,
}
use flexran_rtc.Base.Faults.{◌>>=◌, for_each}
use flexran_rtc.Base.Maps
use flexran_rtc.Messages.{CellConfig, UeConfig, DlData, DlDci}
use flexran_rtc.Rib.Ue.{UeMacRibInfo, has_available_harq, get_next_available_harq, get_harq_stats}
use flexran_rtc.Rib.Enb.{EnbRibInfo, get_ue_mac_info}
use flexran_rtc.Sched.Primitives.{allocate_prbs_sub}
use flexran_rtc.Sched.Info.{
  UeSchedulingInfo, EnbSchedulingInfo, assign_cce, cce_allocation_infeasible, get_harq_round,
  get_ue_scheduling_info,
}
use flexran_rtc.Sched.Preprocessor.{in_cell}
use flexran_rtc.Sched.Flexible.Transmission.{Grant}
use flexran_rtc.Sched.Remote.{RemoteLocals, RemoteAttempt, limit_scheme, resend}
use flexran_rtc.Sched.Remote.Sending.{send_new}

-- The scheduling information of the agent, the variables, and `dl_ue_data` of the message.
pub record RemoteRound : Type 0 where
  pub sched : EnbSchedulingInfo
  pub locals : RemoteLocals
  pub dl_ue_data : List DlData

-- `aggregation = 2`
abbrev pub aggregation : ℕ
aggregation = 2

-- FLVRBF_LOCALIZED and FLDCIF_1 are 0. A round of -1 has the 32 bits of the field.
unfoldable pub remote_dci : CellConfig → UeConfig → ℕ → Option ℕ → UeSchedulingInfo → Grant → DlDci
remote_dci cell c harq_pid round u g = record {
  rnti = c.rnti;
  res_alloc = 0;
  rb_bitmap = allocate_prbs_sub g.nb_rb (u.rballoc_sub_scheduled cell.cell_id harq_pid) cell;
  rb_shift = 0;
  tbs_size = g.dci_tbs ∷ [];
  mcs = g.mcs ∷ [];
  ndi = g.ndi ∷ [];
  rv = (elim round [ none ↦ 2 ^ 32 - 1 | some n ↦ n ]) ∷ [];
  aggr_level = aggregation;
  format = 0;
  tpc = g.tpc;
  harq_process = harq_pid;
  vrb_format = 0;
}

-- The entry of the message for the UE.
unfoldable pub remote_dl_data :
    CellConfig → UeConfig → ℕ → Option ℕ → RemoteAttempt → Grant → DlData
unfolding remote_dci
remote_dl_data cell c harq_pid round a g =
    let l = a.locals in
    record {
      rnti = c.rnti;
      dl_dci = some (remote_dci cell c harq_pid round a.ue g);
      ce_bitmap = l.ce_flags ∷ l.ce_flags ∷ [];
      rlc_pdu = a.rlc_pdu;
      serv_cell_index = cell.cell_id;
    }

-- The object of the UE after a change through its pointer.
abbrev pub store_ue_info : ℕ → UeSchedulingInfo → EnbSchedulingInfo → EnbSchedulingInfo
store_ue_info rnti u s = record s { scheduling_info = Maps.modify rnti (λ _. u) s.scheduling_info }

-- The end of the body: the message gets an entry where there is a transmission.
unfoldable pub conclude :
    CellConfig → UeConfig → ℕ → Option ℕ → RemoteAttempt → RemoteRound → RemoteRound
unfolding remote_dl_data
conclude cell c harq_pid round a r =
    let stored = store_ue_info c.rnti a.ue r.sched in
    elim (a.grant) [
      | none ↦ record r { sched = stored; locals = a.locals }
      | some g ↦ record {
        sched = assign_cce cell.cell_id (2 ^ aggregation) stored;
        locals = a.locals;
        dl_ue_data = r.dl_ue_data ++ remote_dl_data cell c harq_pid round a g ∷ [];
      }
    ]

module _ (abstract_simulation : Bool) (e : EnbRibInfo) (cell : CellConfig)
    (frame subframe : ℕ) where
  -- The two branches, for a process that is free. FLHS_NACK is 1.
  unfoldable pub try_process :
      UeConfig → UeMacRibInfo → UeSchedulingInfo → ℕ → RemoteRound → Option RemoteRound
  unfolding conclude
  try_process c mac u harq_pid r =
      let round = get_harq_round u cell.cell_id harq_pid in
      let report = mac.mac_stats_report in
      let l = limit_scheme abstract_simulation cell report r.locals in
      let fresh = send_new cell (e.cell_mac_info cell.cell_id) frame subframe harq_pid report l u in
      let tried : Option RemoteAttempt =
        if get_harq_stats mac cell.cell_id harq_pid == 1
        then some (resend cell harq_pid l u)
        else fresh in
      tried >>= (λ a. some (conclude cell c harq_pid round a r))

  -- The UE was given blocks and the control channel is feasible.
  unfoldable pub try_feasible :
      UeConfig → UeMacRibInfo → UeSchedulingInfo → RemoteRound → Option RemoteRound
  unfolding try_process
  try_feasible c mac u r =
      let given : Option RemoteRound =
        get_next_available_harq mac cell.cell_id >>= (λ harq_pid. try_process c mac u harq_pid r) in
      if has_available_harq mac cell.cell_id then given else some r

  -- The control channel is looked at only where the preprocessor gave the UE blocks.
  unfoldable pub try_known :
      UeConfig → UeMacRibInfo → UeSchedulingInfo → RemoteRound → Option RemoteRound
  unfolding try_feasible
  try_known c mac u r =
      let looked : Option RemoteRound =
        cce_allocation_infeasible r.sched cell c.rnti aggregation subframe >>= (λ found.
          let r' : RemoteRound = record r { sched = found.0 } in
          if found.1 then some r' else try_feasible c mac u r') in
      if u.pre_nb_rbs_available cell.cell_id == 0 then some r else looked

  unfoldable pub try_ue : UeConfig → RemoteRound → Option RemoteRound
  unfolding try_known
  try_ue c r =
      let known : Option RemoteRound = elim (get_ue_mac_info e c.rnti) [
        | none ↦ some r
        | some mac ↦ get_ue_scheduling_info c.rnti r.sched >>= (λ u. try_known c mac u r)
      ] in
      if in_cell cell c then known else some r

  unfoldable pub try_cell : List UeConfig → RemoteRound → Option RemoteRound
  unfolding try_ue
  try_cell ues r = for_each try_ue ues r
