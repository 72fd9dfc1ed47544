-- ===== src/Sched/Flexible/Transmission.antt =====
-- run_central_scheduler of src/app/flexible_scheduler.cc, for one UE: a retransmission, or new
-- data with the power control of its control channel.
pub mod Returning
pub mod Levels
pub mod Repeats
use Prim.Native.Nat.{bit_and, bit_or}
use flexran_rtc.Base.{
  ℕ, ◌+◌, ◌-◌, ◌*◌, ◌%◌, ◌^◌, Bool, true, false, Option, none, some, List, [], ◌∷◌, ◌==◌, ◌&&◌,
  ◌||◌, not, ltb, leb, if◌then◌else◌,
}
use flexran_rtc.Base.Faults.{◌>>=◌}
use flexran_rtc.Base.Int.{ℤ, pos, ◌+ℤ◌, ◌-ℤ◌, ltb_ℤ}
use flexran_rtc.Messages.{CellConfig, CellStatsReport, UeStatsReport, PucchDbm, DlCsi, RlcPduTb}
use flexran_rtc.Rib.SfnSf.{u16}
use flexran_rtc.Rib.Ue.{u8, write2}
use flexran_rtc.Sched.Primitives.{
  get_min_rb_unit, get_tbs_dl, get_aggregation, get_bw_index, format_1,
}
use flexran_rtc.Sched.Table.{cqi_to_mcs}
use flexran_rtc.Sched.Info.{UeSchedulingInfo, set_nb_scheduled_rbs}
use flexran_rtc.Sched.Helper.{first_rbs}
use flexran_rtc.Sched.Flexible.Fitting.{tbs, schedule_groups, raise_rbs, fit_mcs}
use flexran_rtc.Sched.Flexible.Power.{control_power}
use flexran_rtc.Sched.Flexible.Payload.{Payload, empty_payload, request_channels, total_bytes}

-- The variables of run_central_scheduler that keep their value from one UE to the next, with
-- the static `tpc_accumulated`. Before the first CSI report `mcs` is not set.
pub record Locals : Type 0 where
  pub aggregation : ℕ
  pub mcs : ℕ
  pub ce_flags : ℕ
  pub tpc_accumulated : ℤ

-- The variables that the DCI is filled from.
pub record Grant : Type 0 where
  pub nb_rb : ℕ
  pub mcs : ℕ
  pub dci_tbs : ℕ
  pub ndi : ℕ
  pub tpc : ℕ

-- What is left after the branch for a UE: `none` for `ue_has_transmission = false`.
pub record Attempt : Type 0 where
  pub ue : UeSchedulingInfo
  pub report : UeStatsReport
  pub locals : Locals
  pub rlc_pdu : List (List RlcPduTb)
  pub grant : Option Grant

-- The first CSI report about the cell.
unfoldable pub cell_csi : ℕ → List DlCsi → Option DlCsi
cell_csi cell_id [] = none
cell_csi cell_id (r ∷ rs) = if cell_id == r.serv_cell_index then some r else cell_csi cell_id rs

unfoldable pub set_aggregation : CellConfig → UeStatsReport → Locals → Locals
unfolding cell_csi
set_aggregation cell report l = elim (cell_csi cell.cell_id report.dl_cqi_report.csi_report) [
  | none ↦ l
  | some r ↦ record l {
    aggregation = u8 (get_aggregation (get_bw_index cell.dl_bandwidth) r.wb_cqi format_1);
  }
]

unfoldable pub set_scheme : CellConfig → UeStatsReport → Locals → Locals
unfolding cell_csi
set_scheme cell report l = elim (cell_csi cell.cell_id report.dl_cqi_report.csi_report) [
  | none ↦ l
  | some r ↦ record l { mcs = cqi_to_mcs r.wb_cqi }
]

-- `round > 0`: the scheme and the number of blocks are those of the first transmission.
unfoldable pub retransmit : CellConfig → ℕ → UeStatsReport → Locals → UeSchedulingInfo → Attempt
retransmit cell harq_pid report l u =
    let c = cell.cell_id in
    let mcs = u.mcs c harq_pid in
    let nb_rb = u.nb_rbs_required c in
    let available = u.pre_nb_rbs_available c in
    let l' = record l { mcs = mcs } in
    let sent : Attempt = record {
      ue = schedule_groups cell harq_pid (nb_rb == available) nb_rb u;
      report = report;
      locals = set_aggregation cell report l';
      rlc_pdu = [];
      grant = some (record {
        nb_rb = nb_rb;
        mcs = mcs;
        dci_tbs = get_tbs_dl mcs nb_rb;
        ndi = u.ndi c harq_pid;
        tpc = u.tpc c harq_pid;
      });
    } in
    let kept : Attempt = record {
      ue = u;
      report = report;
      locals = l';
      rlc_pdu = [];
      grant = none;
    } in
    if leb nb_rb available then sent else kept

-- The timing advance: the UE, `ta_len` and `ce_flags`. FLPCET_TA is 1.
unfoldable pub timing_advance : ℕ → ℕ → UeSchedulingInfo → UeSchedulingInfo × (ℕ × ℕ)
timing_advance pending ce_flags u =
    let asked = not (bit_and pending 1 == 0) in
    if u.ta_timer == 0
    then (if asked
        then (record u { ta_timer = 20 }, (2, bit_or ce_flags 1))
        else (u, (0, ce_flags)))
    else (record u { ta_timer = u.ta_timer - 1 }, (0, ce_flags))

-- The setters at the end: the scheme, the blocks, the new data indicator and the command.
unfoldable pub store_grant : ℕ → ℕ → ℕ → ℕ → ℕ → UeSchedulingInfo → UeSchedulingInfo
store_grant c harq_pid mcs nb_rb tpc u = record (set_nb_scheduled_rbs c harq_pid nb_rb u) {
  mcs = write2 u.mcs c harq_pid (u16 mcs);
  ndi = write2 u.ndi c harq_pid (u8 (1 + 2 ^ 8 - u.ndi c harq_pid));
  tpc = write2 u.tpc c harq_pid (u8 tpc);
}

-- The message has a PDU: how it is sent once the number of blocks is known.
unfoldable pub send_payload :
    CellConfig
    → CellStatsReport
    → ℕ
    → ℕ
    → ℕ
    → ℕ
    → UeStatsReport
    → Payload
    → ℕ
    → Locals
    → UeSchedulingInfo
    → Attempt
send_payload cell cell_report frame subframe harq_pid need report p nb_rb l u =
    let c = cell.cell_id in
    let mcs = fit_mcs nb_rb need l.mcs in
    let filled = schedule_groups cell harq_pid (nb_rb == u.pre_nb_rbs_available c) nb_rb u in
    let (powered, command) =
      control_power cell cell_report report frame subframe l.tpc_accumulated filled in
    let stored = store_grant c harq_pid mcs nb_rb command.0 powered in
    record {
      ue = stored;
      report = report;
      locals = record l { mcs = mcs; tpc_accumulated = command.1 };
      rlc_pdu = p.rlc_pdu;
      grant = some (record {
        nb_rb = nb_rb;
        mcs = mcs;
        dci_tbs = tbs mcs nb_rb;
        ndi = stored.ndi c harq_pid;
        tpc = command.0;
      });
    }

-- The rest of the branch where the channels were asked. Fuel for a round of the loop for each
-- block that the UE was given, and one more.
unfoldable pub offer :
    CellConfig
    → CellStatsReport
    → ℕ
    → ℕ
    → ℕ
    → ℕ
    → UeStatsReport
    → Payload
    → Locals
    → UeSchedulingInfo
    → Option Attempt
offer cell cell_report frame subframe harq_pid need report p l u =
    let available = u.pre_nb_rbs_available cell.cell_id in
    let blocks : Option ℕ =
      raise_rbs (available + 1) l.mcs (get_min_rb_unit cell) available need
        (first_rbs cell l.mcs) in
    elim (p.rlc_pdu) [
      | [] ↦ some (record { ue = u; report = report; locals = l; rlc_pdu = []; grant = none })
      | _ ∷ _ ↦ blocks >>= (λ nb_rb.
          some (send_payload cell cell_report frame subframe harq_pid need report p nb_rb l u))
    ]

-- `round == 0`: a new SDU, where a channel has one.
unfoldable pub transmit :
    CellConfig
    → CellStatsReport
    → ℕ
    → ℕ
    → ℕ
    → UeStatsReport
    → Locals
    → UeSchedulingInfo
    → Option Attempt
unfolding timing_advance
transmit cell cell_report frame subframe harq_pid report l u =
    let available = u.pre_nb_rbs_available cell.cell_id in
    let (timed, (ta_len, ce_flags)) = timing_advance report.pending_mac_ces l.ce_flags u in
    let (channels, p) =
      request_channels (tbs l.mcs available) ta_len report.rlc_report empty_payload in
    offer cell cell_report frame subframe harq_pid (total_bytes ta_len p)
      (record report { rlc_report = channels }) p (record l { ce_flags = ce_flags }) timed
