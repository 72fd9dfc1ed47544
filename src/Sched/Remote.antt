-- ===== src/Sched/Remote.antt =====
-- src/app/remote_scheduler.cc, for one UE. What it shares with src/app/flexible_scheduler.cc, line
-- for line, is taken from the modules about that file.
pub mod Sending
pub mod Round
pub mod Task
pub mod Attempts
pub mod Fits
pub mod Infos
pub mod Runs
use Prim.Native.Nat.{bit_and, bit_or}
use flexran_rtc.Base.{
  ℕ, ◌-◌, Bool, Option, none, some, List, [], ◌==◌, not, leb, if◌then◌else◌, min,
}
use flexran_rtc.Base.Int.{ℤ}
use flexran_rtc.Messages.{CellConfig, UeStatsReport, RlcPduTb}
use flexran_rtc.Sched.Primitives.{get_tbs_dl}
use flexran_rtc.Sched.Table.{cqi_to_mcs}
use flexran_rtc.Sched.Info.{UeSchedulingInfo}
use flexran_rtc.Sched.Flexible.Fitting.{schedule_groups}
use flexran_rtc.Sched.Flexible.Transmission.{cell_csi, Grant}

-- The variables of run_periodic_task that keep their value from one UE to the next, with the
-- static `tpc_accumulated`. Before the first CSI report `mcs` is not set.
pub record RemoteLocals : Type 0 where
  pub mcs : ℕ
  pub ce_flags : ℕ
  pub header_len : ℕ
  pub tpc_accumulated : ℤ

-- What is left after the branch for a UE: `none` for `ue_has_transmission = false`.
pub record RemoteAttempt : Type 0 where
  pub ue : UeSchedulingInfo
  pub locals : RemoteLocals
  pub rlc_pdu : List (List RlcPduTb)
  pub grant : Option Grant

-- remote_scheduler_primitives.h: the constant depends on a macro of the build.
unfoldable pub target_dl_mcs : Bool → ℕ
target_dl_mcs abstract_simulation = if abstract_simulation then 15 else 28

-- The scheme of the first CSI report about the cell, where there is one, and its upper limit.
unfoldable pub limit_scheme : Bool → CellConfig → UeStatsReport → RemoteLocals → RemoteLocals
unfolding cell_csi target_dl_mcs
limit_scheme abstract_simulation cell report l =
    let mcs : ℕ = elim (cell_csi cell.cell_id report.dl_cqi_report.csi_report) [
      | none ↦ l.mcs
      | some r ↦ cqi_to_mcs r.wb_cqi
    ] in
    record l { mcs = min mcs (target_dl_mcs abstract_simulation) }

-- `status == FLHS_NACK`: the scheme and the number of blocks are those of the first transmission.
unfoldable pub resend : CellConfig → ℕ → RemoteLocals → UeSchedulingInfo → RemoteAttempt
resend cell harq_pid l u =
    let c = cell.cell_id in
    let mcs = u.mcs c harq_pid in
    let nb_rb = u.nb_rbs_required c in
    let available = u.pre_nb_rbs_available c in
    let l' = record l { mcs = mcs } in
    let sent : RemoteAttempt = record {
      ue = schedule_groups cell harq_pid (nb_rb == available) nb_rb u;
      locals = l';
      rlc_pdu = [];
      grant = some (record {
        nb_rb = nb_rb;
        mcs = mcs;
        dci_tbs = get_tbs_dl mcs nb_rb;
        ndi = u.ndi c harq_pid;
        tpc = 1;
      });
    } in
    let kept : RemoteAttempt = record { ue = u; locals = l'; rlc_pdu = []; grant = none } in
    if leb nb_rb available then sent else kept

-- The timing advance: the UE, `ta_len` and `ce_flags`. The timer starts again whether an advance
-- waits or not. FLPCET_TA is 1.
unfoldable pub advance_timing : ℕ → ℕ → UeSchedulingInfo → UeSchedulingInfo × (ℕ × ℕ)
advance_timing pending ce_flags u =
    let asked = not (bit_and pending 1 == 0) in
    if u.ta_timer == 0
    then (record u { ta_timer = 20 }, (if asked then (2, bit_or ce_flags 1) else (0, ce_flags)))
    else (record u { ta_timer = u.ta_timer - 1 }, (0, ce_flags))
