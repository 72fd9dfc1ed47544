-- ===== src/Sched/Flexible/Round/Harq.antt =====
-- A UE in the loop of run_central_scheduler of src/app/flexible_scheduler.cc.
use flexran_rtc.Base.{
  ℕ, ◌^◌, ◌<◌, ◌≡◌, refl, sym, ◌∙◌, inl, inr, Bool, true, false, some, List, arith, ltb, ◌==◌,
  Bool-cases, Option-cases, ==_iff, All,
}
use flexran_rtc.Base.Faults.{Returns, for_each-Returns}
use flexran_rtc.Base.Maps.{find}
use flexran_rtc.Messages.{CellConfig, UeConfig}
use flexran_rtc.Rib.Ue.{
  UeMacRibInfo, has_available_harq, get_next_available_harq, get_harq_stats, harq_scheduled,
}
use flexran_rtc.Rib.Ue.Harq.{get_next_available_harq_lem}
use flexran_rtc.Rib.Enb.{EnbRibInfo, get_ue_mac_info}
use flexran_rtc.Sched.Info.{UeSchedulingInfo, assign_cce, too_few}
use flexran_rtc.Sched.Info.Channels.{Within, has_cell, Channels-search, Channels-assign}
use flexran_rtc.Sched.Flexible.Transmission.Levels.{
  set_aggregation-bound, set_aggregation-again, set_scheme-aggregation,
}
use flexran_rtc.Sched.Info.Round.{cce_allocation_infeasible_lem}
use flexran_rtc.Sched.Preprocessor.{in_cell}
use flexran_rtc.Sched.Helper.Few.{Few-bound}
use flexran_rtc.Sched.Preprocessor.Run.Entries.{entry_of}
use flexran_rtc.Sched.Flexible.Transmission.Returning.{
  KeepsBlocks, retransmit-KeepsBlocks, transmit-Returns,
}
use flexran_rtc.Sched.Flexible.Transmission.{
  Locals, Attempt, set_aggregation, set_scheme, retransmit,
}
use flexran_rtc.Sched.Flexible.Round.{
  Round, store_ue, dl_data, dl_dci, settle, attempt, schedule_feasible, schedule_known, schedule_ue,
  schedule_cell,
}
use flexran_rtc.Sched.Flexible.Round.Sound.{
  Sound, Scheduled, all_snoc, Sound-store, harq_scheduled-NoneFreed, harq_scheduled-taken,
  store_ue-found,
}

pub free_harq :
    (mac : UeMacRibInfo) (c : ℕ)
    → has_available_harq mac c ≡ true
    → (h : ℕ) × (get_next_available_harq mac c ≡ some h)
free_harq mac c e = elim (Option-cases (get_next_available_harq mac c)) [
  | inl q ↦ absurd (ground (arith, q, e, (get_next_available_harq_lem mac c).1))
  | inr p ↦ p
]

-- The cell is one of the eNodeB and fits the arrays, and its number tells its configuration.
abbrev pub Own : EnbRibInfo → (ℕ → CellConfig) → CellConfig → Type 0
Own start cell_of cell =
    (cell_of cell.cell_id ≡ cell) × (has_cell start.enb_config cell.cell_id ≡ true) × Within cell

module _ (entered : ℕ → Bool) (start : EnbRibInfo) (cell_of : ℕ → CellConfig) (subframe : ℕ)
    (cell : CellConfig) (own : Own start cell_of cell) where
  abbrev Holds : Round → Type 0
  Holds r = Sound entered start cell_of subframe r

  -- There are elements enough for a UE at the level.
  abbrev Room : ℕ → Round → Type 0
  Room level r = too_few ((r.sched).ncce_rem cell.cell_id) (2 ^ level) ≡ false

  -- The end of the body of the loop.
  settle-Sound :
      (c : UeConfig) (h round : ℕ) (mac : UeMacRibInfo) (u : UeSchedulingInfo) (a : Attempt)
      (r : Round)
      → get_ue_mac_info r.enb c.rnti ≡ some mac
      → find c.rnti (r.sched).scheduling_info ≡ some u
      → KeepsBlocks u (r.locals).aggregation a
      → Room (r.locals).aggregation r
      → Holds r
      → Holds (settle cell c h round mac a r)
  unfolding settle dl_data dl_dci assign_cce store_ue
  settle-Sound c h round mac u a r em eu (k, same) room s = elim (Option-cases (a.grant)) [
    | inl e ↦
        let mac' : UeMacRibInfo = record mac { mac_stats_report = a.report } in
        let t =
          Sound-store entered start cell_of subframe c.rnti mac mac' u a.ue r em (λ c h b. b) eu k
            s in
        rw e (record {
          ues = t.ues;
          slot = t.slot;
          cells = t.cells;
          configs = t.configs;
          symbols = t.symbols;
          channels = t.channels;
          level = rw same s.level;
          entries = t.entries;
          few = t.few;
          busy = t.busy;
        })
    | inr (g, e) ↦
        let mac' : UeMacRibInfo =
          harq_scheduled (record mac { mac_stats_report = a.report }) cell.cell_id h in
        let t =
          Sound-store entered start cell_of subframe c.rnti mac mac' u a.ue r em
            (harq_scheduled-NoneFreed _ _ _) eu k s in
        let stored = (store_ue c.rnti mac' a.ue r).sched in
        rw e (record {
          ues = t.ues;
          slot = t.slot;
          cells = t.cells;
          configs = t.configs;
          symbols = t.symbols;
          channels =
              Channels-assign cell_of start.enb_config subframe cell (2 ^ (a.locals).aggregation)
                stored own.0 own.1 (rw same room) t.channels;
          level = rw same s.level;
          entries = t.entries;
          few = t.few;
          busy =
              all_snoc (Scheduled (store_ue c.rnti mac' a.ue r).enb) r.dl_ue_data
                (dl_data cell c h round a g) t.busy
                (
                  dl_dci cell c h round (a.locals).aggregation a.ue g,
                  refl,
                  (mac', store_ue-found c.rnti mac mac' a.ue r em, harq_scheduled-taken _ _ _),
                );
        })
  ]

  attempt-Sound :
      (frame : ℕ) (c : UeConfig) (mac : UeMacRibInfo) (u : UeSchedulingInfo) (h : ℕ) (r : Round)
      → get_ue_mac_info r.enb c.rnti ≡ some mac
      → find c.rnti (r.sched).scheduling_info ≡ some u
      → u.pre_nb_rbs_available cell.cell_id < 2 ^ 15
      → ((l' : Locals)
          → l'.aggregation ≡ (r.locals).aggregation
          → (set_aggregation cell mac.mac_stats_report l').aggregation ≡ (r.locals).aggregation)
      → Room (r.locals).aggregation r
      → Holds r
      → Returns (attempt cell frame subframe c mac u h r) Holds
  unfolding attempt
  attempt-Sound frame c mac u h r em eu b again room s =
      let round = get_harq_stats mac cell.cell_id h in
      let report = mac.mac_stats_report in
      let l = set_scheme cell report r.locals in
      let same = set_scheme-aggregation cell report r.locals in
      elim (Bool-cases (ltb 0 round)) [
        | inl e ↦
            let a = retransmit cell h report l u in
            let k =
              retransmit-KeepsBlocks cell h report l u (λ l' q. again l' (q ∙ same) ∙ sym same) in
            (
              settle cell c h round mac a r,
              rw e refl,
              settle-Sound c h round mac u a r em eu (k.0, k.1 ∙ same) room s,
            )
        | inr e ↦
            let (a, ea, k) =
              transmit-Returns cell ((r.enb).cell_mac_info cell.cell_id) frame subframe h report l u
                b in
            (
              settle cell c h round mac a r,
              rw (e, ea) refl,
              settle-Sound c h round mac u a r em eu (k.0, k.1 ∙ same) room s,
            )
      ]

  schedule_feasible-Sound :
      (frame : ℕ) (c : UeConfig) (mac : UeMacRibInfo) (r : Round)
      → get_ue_mac_info r.enb c.rnti ≡ some mac
      → entered c.rnti ≡ true
      → ((l' : Locals)
          → l'.aggregation ≡ (r.locals).aggregation
          → (set_aggregation cell mac.mac_stats_report l').aggregation ≡ (r.locals).aggregation)
      → Room (r.locals).aggregation r
      → Holds r
      → Returns (schedule_feasible cell frame subframe c mac r) Holds
  unfolding schedule_feasible
  schedule_feasible-Sound frame c mac r em p again room s =
      elim (Bool-cases (has_available_harq mac cell.cell_id)) [
        | inr none_free ↦ (r, rw none_free refl, s)
        | inl free ↦
            let (u, eu) = entry_of c.rnti r.sched (s.entries c.rnti p) in
            let b = Few-bound u cell.cell_id (s.few c.rnti u eu) in
            let (h, eh) = free_harq mac cell.cell_id free in
            elim (Bool-cases (u.pre_nb_rbs_available cell.cell_id == 0)) [
              | inl nothing ↦ (r, rw (free, eu, nothing) refl, s)
              | inr given ↦
                  let (r', er, s') = attempt-Sound frame c mac u h r em eu b again room s in
                  (r', rw (free, eu, given, eh) er, s')
            ]
      ]

  schedule_known-Sound :
      (frame : ℕ) (c : UeConfig) (mac : UeMacRibInfo) (r : Round)
      → get_ue_mac_info r.enb c.rnti ≡ some mac
      → entered c.rnti ≡ true
      → Holds r
      → Returns (schedule_known cell frame subframe c mac r) Holds
  unfolding schedule_known
  schedule_known-Sound frame c mac r em p s =
      let l = set_aggregation cell mac.mac_stats_report r.locals in
      let low = set_aggregation-bound cell mac.mac_stats_report r.locals s.level in
      let (s', infeasible, e, found) =
        cce_allocation_infeasible_lem cell c.rnti l.aggregation subframe r.sched low
          (s.symbols cell.cell_id) (s.channels cell own.0 own.1) in
      let r' : Round = record r { sched = s'; locals = l } in
      let t : Holds r' = record {
        ues = s.ues;
        slot = s.slot;
        cells = s.cells;
        configs = s.configs;
        symbols =
            λ a. ground (arith, ==_iff cell.cell_id a, found.others a, found.bounded, s.symbols a);
        channels =
            Channels-search cell_of start.enb_config subframe cell l.aggregation r.sched s'
              infeasible own.0 found s.channels;
        level = low;
        entries = λ a q. rw found.ues (s.entries a q);
        few = λ a v q. s.few a v (rw found.ues at q);
        busy = s.busy;
      } in
      elim found.exhausted [
        | inr (full, _, _) ↦ (r', rw (e, full) refl, t)
        | inl (free, room) ↦
            let (r'', e', t') =
              schedule_feasible-Sound frame c mac r' em p
                (λ l' q. set_aggregation-again cell mac.mac_stats_report r.locals l' q ∙ q) room
                t in
            (r'', rw (e, free) e', t')
      ]

  -- A UE of the cell that has entered, or one of another cell.
  schedule_ue-Sound :
      (frame : ℕ) (c : UeConfig) (r : Round)
      → ((in_cell cell c ≡ true) → entered c.rnti ≡ true)
      → Holds r
      → Returns (schedule_ue cell frame subframe c r) Holds
  unfolding schedule_ue
  schedule_ue-Sound frame c r p s = elim (Bool-cases (in_cell cell c)) [
    | inr out ↦ (r, rw out refl, s)
    | inl inside ↦ elim (Option-cases (get_ue_mac_info r.enb c.rnti)) [
      | inl e ↦ (r, rw (inside, e) refl, s)
      | inr (mac, e) ↦
          let (r', e', s') = schedule_known-Sound frame c mac r e (p inside) s in
          (r', rw (inside, e) e', s')
    ]
  ]

  pub schedule_cell-Sound :
      (frame : ℕ) (ues : List UeConfig) (r : Round)
      → All (λ c. in_cell cell c ≡ true → entered c.rnti ≡ true) ues
      → Holds r
      → Returns (schedule_cell ues frame subframe cell r) Holds
  unfolding schedule_cell
  schedule_cell-Sound frame ues r p s =
      for_each-Returns (Sound entered start cell_of subframe)
        (λ c. in_cell cell c ≡ true → entered c.rnti ≡ true) (schedule_ue cell frame subframe)
        (λ c r' q s'. schedule_ue-Sound frame c r' q s') ues r p s
