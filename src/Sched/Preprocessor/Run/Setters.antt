-- ===== src/Sched/Preprocessor/Run/Setters.antt =====
-- What run_dlsch_scheduler_preprocessor of src/app/remote_scheduler_helper.cc sets of a UE keeps
-- that the UE has few blocks.
use mathlib.Core.Option.{some-injective}
use flexran_rtc.Base.{
  ℕ, ◌≡◌, ◌∙◌, inl, inr, ◌&&◌, ◌^◌, ◌+◌, ◌==◌, Bool, true, false, Option, some, List, [], ◌∷◌,
  arith, ltb, Bool-cases, Option-cases,
}
use flexran_rtc.Base.Faults.{bind_some}
use flexran_rtc.Base.Maps.{find, insert, find-insert}
use flexran_rtc.Messages.{CellConfig, LcUeConfig, RlcBsr, UeStatsReport}
use flexran_rtc.Rib.Ue.{UeMacRibInfo}
use flexran_rtc.Sched.Primitives.{get_min_rb_unit}
use flexran_rtc.Sched.Info.{
  UeSchedulingInfo, EnbSchedulingInfo, new_ue_info, start_ue_round, create_ue_scheduling_info,
  set_nb_rbs_required,
}
use flexran_rtc.Sched.Helper.{
  assign_rbs_required, mark_priority, reported_mcs, buffer_bytes, rbs_loop, first_rbs,
}
use flexran_rtc.Sched.Helper.Few.{Few, EnbFew}
use flexran_rtc.Sched.Preprocessor.{assign_from}
use flexran_rtc.Sched.Preprocessor.Run.{set_round, first_share, renew}

pub start_ue_round-Few : (u : UeSchedulingInfo) → Few (start_ue_round u)
unfolding start_ue_round
start_ue_round-Few u c = ground arith

new_ue_info-Few : (rnti : ℕ) → Few (new_ue_info rnti)
unfolding new_ue_info
new_ue_info-Few rnti c = ground arith

pub create-EnbFew :
    (rnti : ℕ) (s : EnbSchedulingInfo) → EnbFew s → EnbFew (create_ue_scheduling_info rnti s)
unfolding create_ue_scheduling_info
create-EnbFew rnti s h r u e =
    let found : find r (insert rnti (new_ue_info rnti) s.scheduling_info) ≡ some u = e in
    let made = find-insert rnti r (new_ue_info rnti) s.scheduling_info in
    elim (Option-cases (find r s.scheduling_info)) [
      | inr (w, ew) ↦ h r u (ew ∙ rw (made, ew) at found)
      | inl ew ↦ elim (Bool-cases (rnti == r)) [
        | inl same ↦
            rw (← some-injective (new_ue_info rnti) u (rw (made, ew, same) at found))
              (new_ue_info-Few rnti)
        | inr other ↦ absurd (ground (arith, made, ew, other, found))
      ]
    ]

mark_priority-Few :
    (rs : List RlcBsr) (lc : LcUeConfig) (u : UeSchedulingInfo)
    → Few u
    → Few (mark_priority rs lc u)
mark_priority-Few [] lc u h = h
mark_priority-Few (r ∷ rs) lc u h = h

assign_rbs_required-Few :
    (u : UeSchedulingInfo) (report : UeStatsReport) (cell : CellConfig) (lc : LcUeConfig)
    (u' : UeSchedulingInfo)
    → assign_rbs_required u report cell lc ≡ some u'
    → Few u
    → Few u'
unfolding assign_rbs_required
assign_rbs_required-Few u report cell lc u' e h =
    let mcs = reported_mcs cell.cell_id report.dl_cqi_report.csi_report in
    let bytes = buffer_bytes report.rlc_report in
    let marked = mark_priority report.rlc_report lc u in
    let k = mark_priority-Few report.rlc_report lc u h in
    elim (Bool-cases (ltb 0 bytes && ltb bytes (2 ^ 31))) [
      | inr idle ↦ rw (← some-injective marked u' (rw (assign_rbs_required, idle) at e)) k
      | inl busy ↦
          elim (Option-cases (
            rbs_loop (cell.dl_bandwidth + 1) mcs (get_min_rb_unit cell) cell.dl_bandwidth bytes
              (first_rbs cell mcs))) [
                | inl stuck ↦ absurd (ground (arith, rw (assign_rbs_required, busy, stuck) at e))
                | inr (n, found) ↦
                    rw
                      (← some-injective (set_nb_rbs_required cell.cell_id n marked) u'
                        (rw (assign_rbs_required, busy, found) at e))
                      k
              ]
    ]

pub assign_from-Few :
    (cell : CellConfig) (lc : LcUeConfig) (mac : Option UeMacRibInfo) (u u' : UeSchedulingInfo)
    → assign_from cell lc mac u ≡ some u'
    → Few u
    → Few u'
unfolding assign_from
assign_from-Few cell lc mac u u' e h =
    let (m, _, e2) = bind_some mac _ u' e in
    assign_rbs_required-Few u m.mac_stats_report cell lc u' e2 h

pub first_share-Few :
    (cell : CellConfig) (average : ℕ) (u : UeSchedulingInfo)
    → Few u
    → Few (first_share cell average u)
unfolding first_share
first_share-Few cell average u h = h

pub renew-Few :
    (cell : CellConfig) (first : Bool) (u : UeSchedulingInfo) → Few u → Few (renew cell first u)
unfolding renew
renew-Few cell true u h = h
renew-Few cell false u h = h

pub set_round-Few :
    (cell : CellConfig) (h round : ℕ) (u : UeSchedulingInfo)
    → Few u
    → Few (set_round cell h round u)
unfolding set_round
set_round-Few cell h round u k = elim (Bool-cases (ltb 0 round)) [
  | inl e ↦ rw (set_round, e) k
  | inr e ↦ rw (set_round, e) k
]
