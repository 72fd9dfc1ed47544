-- ===== src/Sched/Remote/Attempts.antt =====
-- The branches of src/app/remote_scheduler.cc for a UE end, and keep the numbers of blocks that the
-- preprocessor gave it.
use flexran_rtc.Base.{
  ℕ, ◌+◌, ◌^◌, ◌<◌, ◌≡◌, refl, inl, inr, none, List, [], ◌∷◌, arith, leb, ◌==◌, Bool-cases,
}
use flexran_rtc.Base.Int.{ℤ}
use flexran_rtc.Base.Faults.{Returns}
use flexran_rtc.Messages.{CellConfig, CellStatsReport, UeStatsReport, RlcPduTb}
use flexran_rtc.Sched.Info.{UeSchedulingInfo}
use flexran_rtc.Sched.Helper.Few.{SameBlocks, SameBlocks-refl, SameBlocks-trans}
use flexran_rtc.Sched.Flexible.Fitting.{schedule_groups}
use flexran_rtc.Sched.Flexible.Fitting.Kept.{schedule_groups-SameBlocks}
use flexran_rtc.Sched.Flexible.Fitting.Counts.{raise_rbs-Least}
use flexran_rtc.Sched.Remote.{RemoteLocals, RemoteAttempt, resend, advance_timing}
use flexran_rtc.Sched.Remote.Sending.{
  Request, send_new, send_request, offer_request, command_power, store_scheme, shorter_header,
}

pub resend-SameBlocks :
    (cell : CellConfig) (h : ℕ) (l : RemoteLocals) (u : UeSchedulingInfo)
    → SameBlocks u (resend cell h l u).ue
unfolding resend
resend-SameBlocks cell h l u =
    let n = u.nb_rbs_required cell.cell_id in
    let exact = n == u.pre_nb_rbs_available cell.cell_id in
    elim (Bool-cases (leb n (u.pre_nb_rbs_available cell.cell_id))) [
      | inl e ↦ rw (resend, e) (schedule_groups-SameBlocks cell h exact n u)
      | inr e ↦ rw (resend, e) (SameBlocks-refl u)
    ]

command_power-SameBlocks :
    (cell : CellConfig) (cell_report : CellStatsReport) (report : UeStatsReport)
    (frame subframe : ℕ) (accumulated : ℤ) (u : UeSchedulingInfo)
    → SameBlocks u (command_power cell cell_report report frame subframe accumulated u).0
unfolding command_power
command_power-SameBlocks cell cell_report report frame subframe accumulated u c =
    (ground arith, λ g. ground arith)

send_request-SameBlocks :
    (cell : CellConfig) (cell_report : CellStatsReport) (frame subframe h need : ℕ)
    (report : UeStatsReport) (pdus : List (List RlcPduTb)) (nb_rb : ℕ) (l : RemoteLocals)
    (u : UeSchedulingInfo)
    → SameBlocks u (send_request cell cell_report frame subframe h need report pdus nb_rb l u).ue
unfolding send_request store_scheme
send_request-SameBlocks cell cell_report frame subframe h need report pdus nb_rb l u =
    let exact = nb_rb == u.pre_nb_rbs_available cell.cell_id in
    let filled = schedule_groups cell h exact nb_rb u in
    let powered =
      (command_power cell cell_report report frame subframe l.tpc_accumulated filled).0 in
    SameBlocks-trans u filled powered (schedule_groups-SameBlocks cell h exact nb_rb u)
      (command_power-SameBlocks cell cell_report report frame subframe l.tpc_accumulated filled)

offer_request-Returns :
    (cell : CellConfig) (cell_report : CellStatsReport) (frame subframe h ta_len : ℕ)
    (report : UeStatsReport) (p : Request) (pdus : List (List RlcPduTb)) (l : RemoteLocals)
    (u : UeSchedulingInfo)
    → u.pre_nb_rbs_available cell.cell_id < 2 ^ 15
    → p.rlc_pdu ≡ pdus
    → Returns
        (offer_request cell cell_report frame subframe h ta_len report p l u)
        (λ a. SameBlocks u a.ue)
unfolding offer_request
offer_request-Returns cell cell_report frame subframe h ta_len report p [] l u b e =
    let kept : RemoteAttempt = record {
      ue = u;
      locals = record l { header_len = p.header_len };
      rlc_pdu = [];
      grant = none;
    } in
    (kept, rw e refl, SameBlocks-refl u)
offer_request-Returns cell cell_report frame subframe h ta_len report p (_ ∷ _) l u b e =
    let header = shorter_header p.header_len in
    let need = p.sdu_length_total + header + ta_len in
    let (n, same, found) =
      raise_rbs-Least cell l.mcs (u.pre_nb_rbs_available cell.cell_id) need b in
    let l' : RemoteLocals = record l { header_len = header } in
    (
      send_request cell cell_report frame subframe h need report p.rlc_pdu n l' u,
      rw (e, same) refl,
      send_request-SameBlocks cell cell_report frame subframe h need report p.rlc_pdu n l' u,
    )

advance_timing-SameBlocks :
    (pending ce_flags : ℕ) (u : UeSchedulingInfo)
    → SameBlocks u (advance_timing pending ce_flags u).0
unfolding advance_timing
advance_timing-SameBlocks pending ce_flags u c = (ground arith, λ g. ground arith)

pub send_new-Returns :
    (cell : CellConfig) (cell_report : CellStatsReport) (frame subframe h : ℕ)
    (report : UeStatsReport) (l : RemoteLocals) (u : UeSchedulingInfo)
    → u.pre_nb_rbs_available cell.cell_id < 2 ^ 15
    → Returns (send_new cell cell_report frame subframe h report l u) (λ a. SameBlocks u a.ue)
unfolding send_new
send_new-Returns cell cell_report frame subframe h report l u b =
    let timed = advance_timing report.pending_mac_ces l.ce_flags u in
    let kept = advance_timing-SameBlocks report.pending_mac_ces l.ce_flags u in
    let (a, e, k) =
      offer_request-Returns cell cell_report frame subframe h _ _ _ _
        (record l { ce_flags = timed.1.1 }) timed.0 (rw (kept cell.cell_id).0 b) refl in
    (a, e, SameBlocks-trans u timed.0 a.ue kept k)
