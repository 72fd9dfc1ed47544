-- ===== src/Sched/Remote/Fits.antt =====
-- The loops of src/app/remote_scheduler.cc over the cells and the UEs of an agent return, and keep
-- what they rely on in the scheduling information.
use flexran_rtc.Sched.Preprocessor.Sorting.{Permutes}
use flexran_rtc.Base.{
  ◌^◌, ◌||◌, false, ℕ, ◌≡◌, refl, ◌∙◌, inl, inr, Bool, true, some, List, [], arith, ◌==◌,
  Bool-cases, Option-cases, ==_iff, All,
}
use flexran_rtc.Base.Faults.{Returns, Returns-bind, Returns-if, for_each-Returns}
use flexran_rtc.Base.Maps.{find}
use flexran_rtc.Messages.{CellConfig, UeConfig}
use flexran_rtc.Rib.Ue.{UeMacRibInfo, has_available_harq, get_harq_stats}
use flexran_rtc.Rib.Enb.{EnbRibInfo, get_ue_mac_info}
use flexran_rtc.Sched.Info.{
  too_few, UeSchedulingInfo, EnbSchedulingInfo, assign_cce, get_harq_round, get_ue_scheduling_info,
}
use flexran_rtc.Sched.Info.Round.{cce_allocation_infeasible_lem}
use flexran_rtc.Sched.Helper.{UeStats}
use flexran_rtc.Sched.Helper.Few.{Few-bound, SameBlocks, SameBlocks-Few, modify-EnbFew}
use flexran_rtc.Sched.Preprocessor.{in_cell}
use flexran_rtc.Sched.Preprocessor.Run.Entries.{has_entry, entry_of, present-modify}
use flexran_rtc.Sched.Flexible.Round.Harq.{Own, free_harq}
use flexran_rtc.Sched.Flexible.Central.{Memory}
use flexran_rtc.Sched.Flexible.Central.Prepared.{prepare_cells-Prepared, prepare_cells-Channels}
use flexran_rtc.Sched.Flexible.Central.Health.{InfoFit, Schedulable}
use flexran_rtc.Sched.Flexible.Central.Slots.{Own-all}
use flexran_rtc.Sched.Info.Channels.{Channels, Channels-assign, Channels-search}
use flexran_rtc.Sched.Remote.{RemoteLocals, RemoteAttempt, limit_scheme, resend}
use flexran_rtc.Sched.Remote.Round.{
  RemoteRound, store_ue_info, conclude, try_process, try_feasible, try_known, try_ue, try_cell,
  aggregation,
}
use flexran_rtc.Sched.Remote.Task.{try_cells}
use flexran_rtc.Sched.Remote.Attempts.{resend-SameBlocks, send_new-Returns}

-- What the loop over the UEs relies on and keeps: at most three symbols for each cell, elements that
-- are counted right, few blocks for each UE, and scheduling information for the UEs that `entered`
-- tells of.
pub record RoundFit (entered : ℕ → Bool) (start : EnbRibInfo) (cell_of : ℕ → CellConfig)
    (subframe : ℕ) (r : RemoteRound) : Type 0 where
  pub info : InfoFit r.sched
  pub channels : Channels cell_of start.enb_config subframe r.sched
  pub entries : (rnti : ℕ) → entered rnti ≡ true → has_entry rnti r.sched ≡ true

module _ (entered : ℕ → Bool) (abstract_simulation : Bool) (e : EnbRibInfo)
    (cell_of : ℕ → CellConfig) (subframe : ℕ) (cell : CellConfig) (own : Own e cell_of cell) where
  abbrev Holds : RemoteRound → Type 0
  Holds r = RoundFit entered e cell_of subframe r

  -- There are elements enough for a UE.
  abbrev Room : RemoteRound → Type 0
  Room r = too_few ((r.sched).ncce_rem cell.cell_id) (2 ^ aggregation) ≡ false

  conclude-Fit :
      (c : UeConfig) (h : ℕ) (u : UeSchedulingInfo) (a : RemoteAttempt) (r : RemoteRound)
      → find c.rnti (r.sched).scheduling_info ≡ some u
      → SameBlocks u a.ue
      → Room r
      → Holds r
      → Holds (conclude cell c h (get_harq_round u cell.cell_id h) a r)
  unfolding conclude assign_cce
  conclude-Fit c h u a r eu k room s =
      let few =
        modify-EnbFew c.rnti u a.ue (r.sched).scheduling_info eu (SameBlocks-Few u a.ue k)
          s.info.1 in
      let stored = store_ue_info c.rnti a.ue r.sched in
      let entries : (b : ℕ) → entered b ≡ true → has_entry b stored ≡ true =
        λ b q. present-modify c.rnti b (λ _. a.ue) (r.sched).scheduling_info ∙ s.entries b q in
      elim (Option-cases (a.grant)) [
        | inl e' ↦
            rw e' (record { info = (s.info.0, few); channels = s.channels; entries = entries })
        | inr (g, e') ↦ rw e' (record {
          info = (s.info.0, few);
          channels =
              Channels-assign cell_of e.enb_config subframe cell (2 ^ aggregation) stored own.0
                own.1 room s.channels;
          entries = entries;
        })
      ]

  try_process-Fit :
      (frame : ℕ) (c : UeConfig) (mac : UeMacRibInfo) (u : UeSchedulingInfo) (h : ℕ)
      (r : RemoteRound)
      → find c.rnti (r.sched).scheduling_info ≡ some u
      → Room r
      → Holds r
      → Returns (try_process abstract_simulation e cell frame subframe c mac u h r) Holds
  unfolding try_process
  try_process-Fit frame c mac u h r eu room s =
      let l = limit_scheme abstract_simulation cell mac.mac_stats_report r.locals in
      let b = Few-bound u cell.cell_id (s.info.1 c.rnti u eu) in
      Returns-bind (RoundFit entered e cell_of subframe) _ _
        (Returns-if (get_harq_stats mac cell.cell_id h == 1) _ _
          (resend cell h l u, refl, resend-SameBlocks cell h l u)
          (send_new-Returns cell (e.cell_mac_info cell.cell_id) frame subframe h
            mac.mac_stats_report l u b))
        (λ a k. (_, refl, conclude-Fit c h u a r eu k room s))

  try_feasible-Fit :
      (frame : ℕ) (c : UeConfig) (mac : UeMacRibInfo) (u : UeSchedulingInfo) (r : RemoteRound)
      → find c.rnti (r.sched).scheduling_info ≡ some u
      → Room r
      → Holds r
      → Returns (try_feasible abstract_simulation e cell frame subframe c mac u r) Holds
  unfolding try_feasible
  try_feasible-Fit frame c mac u r eu room s =
      elim (Bool-cases (has_available_harq mac cell.cell_id)) [
        | inr taken ↦ (r, rw taken refl, s)
        | inl free ↦
            let (h, eh) = free_harq mac cell.cell_id free in
            let (r', er, s') = try_process-Fit frame c mac u h r eu room s in
            (r', rw (free, eh) er, s')
      ]

  try_known-Fit :
      (frame : ℕ) (c : UeConfig) (mac : UeMacRibInfo) (u : UeSchedulingInfo) (r : RemoteRound)
      → find c.rnti (r.sched).scheduling_info ≡ some u
      → Holds r
      → Returns (try_known abstract_simulation e cell frame subframe c mac u r) Holds
  unfolding try_known
  try_known-Fit frame c mac u r eu s =
      let (s', infeasible, es, found) =
        cce_allocation_infeasible_lem cell c.rnti aggregation subframe r.sched (omega arith)
          (s.info.0 cell.cell_id) (s.channels cell own.0 own.1) in
      let r' : RemoteRound = record r { sched = s' } in
      let t : Holds r' = record {
        info = (
          λ a. ground (arith, ==_iff cell.cell_id a, found.others a, found.bounded, s.info.0 a),
          λ a v q. s.info.1 a v (rw found.ues at q),
        );
        channels =
            Channels-search cell_of e.enb_config subframe cell aggregation r.sched s' infeasible
              own.0 found s.channels;
        entries = λ a q. rw found.ues (s.entries a q);
      } in
      Returns-if (u.pre_nb_rbs_available cell.cell_id == 0) _ _ (r, refl, s)
        (elim found.exhausted [
          | inr (full, _, _) ↦ (r', rw (es, full) refl, t)
          | inl (free, room) ↦
              let (r'', er, t') = try_feasible-Fit frame c mac u r' (rw found.ues eu) room t in
              (r'', rw (es, free) er, t')
        ])

  -- A UE of the cell that has entered, or one of another cell.
  try_ue-Fit :
      (frame : ℕ) (c : UeConfig) (r : RemoteRound)
      → (in_cell cell c ≡ true → entered c.rnti ≡ true)
      → Holds r
      → Returns (try_ue abstract_simulation e cell frame subframe c r) Holds
  unfolding try_ue get_ue_scheduling_info
  try_ue-Fit frame c r p s = elim (Bool-cases (in_cell cell c)) [
    | inr out ↦ (r, rw out refl, s)
    | inl inside ↦ elim (Option-cases (get_ue_mac_info e c.rnti)) [
      | inl unknown ↦ (r, rw (inside, unknown) refl, s)
      | inr (mac, em) ↦
          let (u, eu) = entry_of c.rnti r.sched (s.entries c.rnti (p inside)) in
          let (r', er, s') = try_known-Fit frame c mac u r eu s in (r', rw (inside, em, eu) er, s')
    ]
  ]

  -- The loop over the UEs of a cell.
  try_cell-Fit :
      (frame : ℕ) (r : RemoteRound)
      → All (λ c. in_cell cell c ≡ true → entered c.rnti ≡ true) e.ue_config
      → Holds r
      → Returns (try_cell abstract_simulation e cell frame subframe e.ue_config r) Holds
  unfolding try_cell
  try_cell-Fit frame r p s =
      for_each-Returns (RoundFit entered e cell_of subframe)
        (λ c. in_cell cell c ≡ true → entered c.rnti ≡ true)
        (try_ue abstract_simulation e cell frame subframe) (λ c r' q s'. try_ue-Fit frame c r' q s')
        e.ue_config r p s

-- Both loops over the cells of an agent.
pub try_cells-Fit :
    (sort : List UeStats → List UeStats) (m : Memory) (abstract_simulation : Bool)
    → Permutes sort
    → (e : EnbRibInfo) (frame subframe : ℕ) (s : EnbSchedulingInfo) (l : RemoteLocals)
    → (subframe == 0 || subframe == 5) ≡ false
    → Schedulable e
    → InfoFit s
    → Returns (try_cells sort m abstract_simulation e frame subframe s l) (λ r. InfoFit r.sched)
unfolding try_cells
try_cells-Fit sort m abstract_simulation perm e frame subframe s l plain (fit, ready) info =
    let (s', prepared, (p, _)) =
      prepare_cells-Prepared sort perm m e subframe e.enb_config s plain fit.0 ready.short
        ready.within info.0 info.1 in
    let (channels, _) =
      prepare_cells-Channels sort m e subframe ready.cell_of e.enb_config s s' plain ready.apart
        prepared in
    let start : RemoteRound = record { sched = s'; locals = l; dl_ue_data = [] } in
    let entered : ℕ → Bool = λ r. has_entry r s' in
    let (r, er, q) =
      for_each-Returns (RoundFit entered e ready.cell_of subframe)
        (λ cell.
          Own e ready.cell_of cell
          × All (λ c. in_cell cell c ≡ true → entered c.rnti ≡ true) e.ue_config)
        (λ cell r. try_cell abstract_simulation e cell frame subframe e.ue_config r)
        (λ cell r' z t.
          try_cell-Fit entered abstract_simulation e ready.cell_of subframe cell z.0 frame r' z.1 t)
        e.enb_config start
        (Own-all e ready.cell_of
          (λ cell. All (λ c. in_cell cell c ≡ true → entered c.rnti ≡ true) e.ue_config)
          e.enb_config (λ c h. h) ready.apart ready.within p.entered)
        (record { info = (p.symbols, p.few); channels = channels; entries = λ r h. h }) in
    (r, rw prepared er, q.info)
