-- ===== src/Sched/Flexible/Transmission/Repeats.antt =====
-- A retransmission of src/app/flexible_scheduler.cc after the transmission of the same process.
use flexran_rtc.Base.{ℕ, ◌^◌, ◌≤◌, ◌<◌, ◌≡◌, refl, true, some, arith, leb, ◌==◌, le→leb}
use flexran_rtc.Base.Int.{ℤ}
use flexran_rtc.Messages.{CellConfig, CellStatsReport, UeStatsReport}
use flexran_rtc.Rib.SfnSf.{u16}
use flexran_rtc.Sched.Primitives.{get_tbs_dl}
use flexran_rtc.Sched.Info.{UeSchedulingInfo, start_ue_round}
use flexran_rtc.Sched.Preprocessor.Run.{set_round}
use flexran_rtc.Sched.Flexible.Fitting.{tbs, fit_mcs, schedule_groups}
use flexran_rtc.Sched.Flexible.Fitting.Kept.{OwnGroups, schedule_groups-OwnGroups}
use flexran_rtc.Sched.Flexible.Fitting.Schemes.{fit_mcs-Fits}
use flexran_rtc.Sched.Flexible.Payload.{Payload}
use flexran_rtc.Sched.Flexible.Power.{control_power}
use flexran_rtc.Sched.Flexible.Transmission.{Locals, Grant, retransmit, send_payload, store_grant}

-- A later round for a process that failed: the preprocessor starts it, sets its HARQ round, and
-- gives the UE blocks.
abbrev pub next_round :
    CellConfig → ℕ → ℕ → (ℕ → ℕ) → (ℕ → ℕ → ℕ) → UeSchedulingInfo → UeSchedulingInfo
next_round cell h round available groups u = record (set_round cell h round (start_ue_round u)) {
  pre_nb_rbs_available = available;
  rballoc_sub = groups;
}

-- The second repeats the first: the blocks, the scheme, the bytes, the new data indicator and
-- the power command.
pub record SameGrant (g g' : Grant) : Type 0 where
  pub nb_rb : g'.nb_rb ≡ g.nb_rb
  pub mcs : g'.mcs ≡ g.mcs
  pub dci_tbs : u16 g'.dci_tbs ≡ g.dci_tbs
  pub ndi : g'.ndi ≡ g.ndi
  pub tpc : g'.tpc ≡ g.tpc

control_power-bound :
    (cell : CellConfig) (cell_report : CellStatsReport) (report : UeStatsReport)
    (frame subframe : ℕ) (accumulated : ℤ) (u : UeSchedulingInfo)
    → (control_power cell cell_report report frame subframe accumulated u).1.0 ≤ 2
unfolding control_power
control_power-bound cell cell_report report frame subframe accumulated u = ground arith

-- What is stored for the process is what a later round reads.
store_grant-next_round :
    (cell : CellConfig) (h round mcs nb_rb tpc : ℕ) (available : ℕ → ℕ) (groups : ℕ → ℕ → ℕ)
    (u : UeSchedulingInfo)
    → 0 < round
    → mcs ≤ 28
    → nb_rb < 2 ^ 16
    → tpc ≤ 2
    → let c = cell.cell_id in
      let stored = store_grant c h mcs nb_rb tpc u in
      let v = next_round cell h round available groups stored in
      (v.mcs c h ≡ mcs)
      × (v.nb_rbs_required c ≡ nb_rb)
      × (v.tpc c h ≡ tpc)
      × (v.ndi c h ≡ stored.ndi c h)
unfolding store_grant set_round start_ue_round
store_grant-next_round cell h round mcs nb_rb tpc available groups u pos m n t =
    (ground arith, ground arith, ground arith, ground arith)

-- A round begins with nothing scheduled.
next_round-empty :
    (cell : CellConfig) (h round : ℕ) (available : ℕ → ℕ) (groups : ℕ → ℕ → ℕ)
    (u : UeSchedulingInfo) (g : ℕ)
    → (next_round cell h round available groups u).rballoc_sub_scheduled cell.cell_id h g ≡ 0
unfolding set_round start_ue_round
next_round-empty cell h round available groups u g = ground arith

-- The number of blocks may be given by an equal one.
OwnGroups-count :
    (cell : CellConfig) (h available n n' : ℕ) (u u' : UeSchedulingInfo)
    → n ≡ n'
    → OwnGroups cell h (n == available) n u u'
    → OwnGroups cell h (n' == available) n' u u'
OwnGroups-count cell h available n n' u u' e k = rw (← e) k

-- Where a process was sent with a scheme of the table, and in a later round its HARQ round is
-- above zero and the UE is given at least as many blocks, the UE is scheduled, and the grant
-- repeats that of the first transmission, whatever else the allocation and the reports changed. The
-- groups are of those that the UE is given in the later round: all of them where it is given just
-- the blocks it needs, and else the first one at least, where the grant has a block.
pub retransmit-send_payload :
    (cell : CellConfig) (cell_report : CellStatsReport) (frame subframe h need : ℕ)
    (report : UeStatsReport) (p : Payload) (nb_rb : ℕ) (l : Locals) (u : UeSchedulingInfo)
    → l.mcs ≤ 28
    → nb_rb < 2 ^ 16
    → (round : ℕ) (available : ℕ → ℕ) (groups : ℕ → ℕ → ℕ) (later : UeStatsReport) (l' : Locals)
    → 0 < round
    → nb_rb ≤ available cell.cell_id
    → let a = send_payload cell cell_report frame subframe h need report p nb_rb l u in
      let b = retransmit cell h later l' (next_round cell h round available groups a.ue) in
      (g : Grant) × (g' : Grant) × (a.grant ≡ some g)
      × (b.grant ≡ some g')
      × SameGrant g g'
      × OwnGroups cell h
          (nb_rb == available cell.cell_id)
          nb_rb
          (next_round cell h round available groups a.ue)
          b.ue
unfolding send_payload retransmit tbs
retransmit-send_payload cell cell_report frame subframe h need report p nb_rb l u m n round
      available groups later l' pos enough =
    let c = cell.cell_id in
    let mcs = fit_mcs nb_rb need l.mcs in
    let filled = schedule_groups cell h (nb_rb == u.pre_nb_rbs_available c) nb_rb u in
    let out = control_power cell cell_report report frame subframe l.tpc_accumulated filled in
    let stored = store_grant c h mcs nb_rb out.1.0 out.0 in
    let v = next_round cell h round available groups stored in
    let (e1, e2, e3, e4) =
      store_grant-next_round cell h round mcs nb_rb out.1.0 available groups out.0 pos
        (fit_mcs-Fits nb_rb need l.mcs m).bounded n
        (control_power-bound cell cell_report report frame subframe l.tpc_accumulated filled) in
    let fits : leb (v.nb_rbs_required c) (v.pre_nb_rbs_available c) ≡ true =
      le→leb (v.nb_rbs_required c) (available c) (omega (arith, e2, enough)) in
    let g : Grant = record {
      nb_rb = nb_rb;
      mcs = mcs;
      dci_tbs = u16 (get_tbs_dl mcs nb_rb);
      ndi = stored.ndi c h;
      tpc = out.1.0;
    } in
    let g' : Grant = record {
      nb_rb = v.nb_rbs_required c;
      mcs = v.mcs c h;
      dci_tbs = get_tbs_dl (v.mcs c h) (v.nb_rbs_required c);
      ndi = v.ndi c h;
      tpc = v.tpc c h;
    } in
    (
      g,
      g',
      refl,
      rw fits refl,
      record { nb_rb = e2; mcs = e1; dci_tbs = rw (e1, e2) refl; ndi = e4; tpc = e3 },
      rw fits (
          OwnGroups-count cell h (available c) (v.nb_rbs_required c) nb_rb v _ e2 (
            schedule_groups-OwnGroups cell h (v.nb_rbs_required c == available c)
              (v.nb_rbs_required c) v (next_round-empty cell h round available groups stored))),
    )
