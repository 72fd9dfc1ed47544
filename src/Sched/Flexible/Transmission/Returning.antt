-- ===== src/Sched/Flexible/Transmission/Returning.antt =====
-- Both branches of run_central_scheduler of src/app/flexible_scheduler.cc for a UE end, and keep
-- the numbers of blocks that the preprocessor gave the UE.
use flexran_rtc.Base.{
  ℕ, ◌^◌, ◌<◌, ◌≡◌, refl, none, List, [], ◌∷◌, arith, ◌==◌, inl, inr, leb, Bool-cases,
}
use flexran_rtc.Base.Faults.{Returns}
use flexran_rtc.Base.Int.{ℤ}
use flexran_rtc.Messages.{CellConfig, CellStatsReport, UeStatsReport, RlcPduTb}
use flexran_rtc.Sched.Info.{UeSchedulingInfo}
use flexran_rtc.Sched.Flexible.Fitting.{schedule_groups}
use flexran_rtc.Sched.Helper.Few.{SameBlocks, SameBlocks-refl, SameBlocks-trans}
use flexran_rtc.Sched.Flexible.Fitting.Kept.{schedule_groups-SameBlocks}
use flexran_rtc.Sched.Flexible.Fitting.Counts.{raise_rbs-Least}
use flexran_rtc.Sched.Flexible.Payload.{Payload}
use flexran_rtc.Sched.Flexible.Power.{control_power}
use flexran_rtc.Sched.Flexible.Transmission.{
  Locals, Attempt, set_aggregation, retransmit, transmit, offer, send_payload, store_grant,
  timing_advance,
}

-- The UE has as many blocks to use as before, and the aggregation level is `level`.
abbrev pub KeepsBlocks : UeSchedulingInfo → ℕ → Attempt → Type 0
KeepsBlocks u level a = SameBlocks u a.ue × ((a.locals).aggregation ≡ level)

pub retransmit-KeepsBlocks :
    (cell : CellConfig) (h : ℕ) (report : UeStatsReport) (l : Locals) (u : UeSchedulingInfo)
    → ((l' : Locals)
        → l'.aggregation ≡ l.aggregation
        → (set_aggregation cell report l').aggregation ≡ l.aggregation)
    → KeepsBlocks u l.aggregation (retransmit cell h report l u)
unfolding retransmit
retransmit-KeepsBlocks cell h report l u again =
    let n = u.nb_rbs_required cell.cell_id in
    let exact = n == u.pre_nb_rbs_available cell.cell_id in
    elim (Bool-cases (leb n (u.pre_nb_rbs_available cell.cell_id))) [
      | inl e ↦
          rw (retransmit, e)
            (
              schedule_groups-SameBlocks cell h exact n u,
              again (record l { mcs = u.mcs cell.cell_id h }) refl,
            )
      | inr e ↦ rw (retransmit, e) (SameBlocks-refl u, refl)
    ]

control_power-SameBlocks :
    (cell : CellConfig) (cell_report : CellStatsReport) (report : UeStatsReport)
    (frame subframe : ℕ) (accumulated : ℤ) (u : UeSchedulingInfo)
    → SameBlocks u (control_power cell cell_report report frame subframe accumulated u).0
unfolding control_power
control_power-SameBlocks cell cell_report report frame subframe accumulated u c =
    (ground arith, λ g. ground arith)

send_payload-KeepsBlocks :
    (cell : CellConfig) (cell_report : CellStatsReport) (frame subframe h need : ℕ)
    (report : UeStatsReport) (p : Payload) (nb_rb : ℕ) (l : Locals) (u : UeSchedulingInfo)
    → KeepsBlocks u l.aggregation
        (send_payload cell cell_report frame subframe h need report p nb_rb l u)
unfolding send_payload store_grant
send_payload-KeepsBlocks cell cell_report frame subframe h need report p nb_rb l u =
    let exact = nb_rb == u.pre_nb_rbs_available cell.cell_id in
    let filled = schedule_groups cell h exact nb_rb u in
    let (powered, command) =
      control_power cell cell_report report frame subframe l.tpc_accumulated filled in
    (
      SameBlocks-trans u filled powered (schedule_groups-SameBlocks cell h exact nb_rb u) (
          control_power-SameBlocks cell cell_report report frame subframe l.tpc_accumulated filled),
      refl,
    )

offer-Returns :
    (cell : CellConfig) (cell_report : CellStatsReport) (frame subframe h need : ℕ)
    (report : UeStatsReport) (p : Payload) (pdus : List (List RlcPduTb)) (l : Locals)
    (u : UeSchedulingInfo)
    → u.pre_nb_rbs_available cell.cell_id < 2 ^ 15
    → p.rlc_pdu ≡ pdus
    → Returns
        (offer cell cell_report frame subframe h need report p l u)
        (KeepsBlocks u l.aggregation)
unfolding offer
offer-Returns cell cell_report frame subframe h need report p [] l u b e = (
  record { ue = u; report = report; locals = l; rlc_pdu = []; grant = none },
  rw e refl,
  (SameBlocks-refl u, refl),
)
offer-Returns cell cell_report frame subframe h need report p (_ ∷ _) l u b e =
    let (n, same, found) =
      raise_rbs-Least cell l.mcs (u.pre_nb_rbs_available cell.cell_id) need b in
    (
      send_payload cell cell_report frame subframe h need report p n l u,
      rw (e, same) refl,
      send_payload-KeepsBlocks cell cell_report frame subframe h need report p n l u,
    )

timing_advance-SameBlocks :
    (pending ce_flags : ℕ) (u : UeSchedulingInfo)
    → SameBlocks u (timing_advance pending ce_flags u).0
unfolding timing_advance
timing_advance-SameBlocks pending ce_flags u c = (ground arith, λ g. ground arith)

pub transmit-Returns :
    (cell : CellConfig) (cell_report : CellStatsReport) (frame subframe h : ℕ)
    (report : UeStatsReport) (l : Locals) (u : UeSchedulingInfo)
    → u.pre_nb_rbs_available cell.cell_id < 2 ^ 15
    → Returns (transmit cell cell_report frame subframe h report l u) (KeepsBlocks u l.aggregation)
unfolding transmit
transmit-Returns cell cell_report frame subframe h report l u b =
    let timed = timing_advance report.pending_mac_ces l.ce_flags u in
    let kept = timing_advance-SameBlocks report.pending_mac_ces l.ce_flags u in
    let (a, e, k) =
      offer-Returns cell cell_report frame subframe h _ _ _ _ (record l { ce_flags = timed.1.1 })
        timed.0 (rw (kept cell.cell_id).0 b) refl in
    (a, e, (SameBlocks-trans u timed.0 a.ue kept k.0, k.1))
