-- ===== src/Sched/Preprocessor/Run/Prepare.antt =====
-- The first loop of run_dlsch_scheduler_preprocessor in src/app/remote_scheduler_helper.cc:
-- after it each UE of the cell has scheduling information with no group of blocks.
use flexran_rtc.Base.{
  ℕ, ◌<◌, ◌^◌, ◌≡◌, refl, ◌∙◌, inl, inr, ◌⊎◌, true, false, Option, none, some, List, [], ◌∷◌, arith,
  Bool-cases, Option-cases, All,
}
use flexran_rtc.Base.Faults.{◌>>=◌, for_each, Returns}
use flexran_rtc.Base.Maps.{find}
use flexran_rtc.Messages.{CellConfig, UeConfig, LcUeConfig}
use flexran_rtc.Rib.Ue.{UeMacRibInfo}
use flexran_rtc.Rib.Enb.{EnbRibInfo, get_ue_mac_info}
use flexran_rtc.Sched.Info.{
  UeSchedulingInfo, EnbSchedulingInfo, start_ue_round, get_ue_scheduling_info,
  create_ue_scheduling_info,
}
use flexran_rtc.Sched.Helper.Required.{assign_rbs_required-Returns}
use flexran_rtc.Sched.Helper.Exclusive.{group_of}
use flexran_rtc.Sched.Preprocessor.{with_ue, in_cell, find_lc, assign_from, started, prepare_ue}
use flexran_rtc.Sched.Preprocessor.Sorting.{KnownMac, mac_of}
use flexran_rtc.Sched.Preprocessor.Run.Entries.{
  has_entry, Shrinks, Kept, with_ue-Kept, create_lem, with_ue-some, replace, group_of-replace,
  replace-Kept,
}

module _ (cell : CellConfig) where
  -- The UE has an entry, and no group of the cell.
  abbrev pub Clean : EnbSchedulingInfo → ℕ → Type 0
  Clean s rnti = (has_entry rnti s ≡ true) × ((g : ℕ) → group_of s rnti cell.cell_id g ≡ 0)

  abbrev pub Ready : EnbSchedulingInfo → UeConfig → Type 0
  Ready s c = (in_cell cell c ≡ false) ⊎ Clean s c.rnti

  -- No entry is lost, and no UE gains a group.
  pub record Grown (s s' : EnbSchedulingInfo) : Type 0 where
    pub kept : (r : ℕ) → has_entry r s ≡ true → has_entry r s' ≡ true
    pub shrinks :
        (a g : ℕ)
        → (group_of s' a cell.cell_id g ≡ group_of s a cell.cell_id g)
          ⊎ (group_of s' a cell.cell_id g ≡ 0)

  Grown-trans : (s t u : EnbSchedulingInfo) → Grown s t → Grown t u → Grown s u
  Grown-trans s t u p q = record {
    kept = λ r h. q.kept r (p.kept r h);
    shrinks = λ a g. ground (arith, p.shrinks a g, q.shrinks a g);
  }

  Kept-Grown : (s s' : EnbSchedulingInfo) → Kept cell.cell_id s s' → Grown s s'
  Kept-Grown s s' k = record { kept = λ r h. k.entries r ∙ h; shrinks = k.shrinks }

  Grown-Clean : (s s' : EnbSchedulingInfo) (r : ℕ) → Grown s s' → Clean s r → Clean s' r
  Grown-Clean s s' r p c = (p.kept r c.0, λ g. ground (arith, p.shrinks r g, c.1 g))

  Grown-Ready : (s s' : EnbSchedulingInfo) (c : UeConfig) → Grown s s' → Ready s c → Ready s' c
  Grown-Ready s s' c p (inl out) = inl out
  Grown-Ready s s' c p (inr h) = inr (Grown-Clean s s' c.rnti p h)

  started-Returns :
      (c : UeConfig) (s : EnbSchedulingInfo)
      → Returns (started c s) (λ s'. Grown s s' × Clean s' c.rnti)
  unfolding started get_ue_scheduling_info start_ue_round
  started-Returns c s = elim (Option-cases (find c.rnti s.scheduling_info)) [
    | inl e ↦
        let (entries, groups) = create_lem cell.cell_id c.rnti s in
        (
          create_ue_scheduling_info c.rnti s,
          rw (started, get_ue_scheduling_info, e) refl,
          (
            record { kept = λ r h. ground (arith, entries r); shrinks = λ a g. inl (groups a g) },
            (ground (arith, entries c.rnti), λ g. groups c.rnti g ∙ (rw (group_of, e) refl)),
          ),
        )
    | inr (u, e) ↦
        let k = replace-Kept cell.cell_id c.rnti s u (start_ue_round u) e (λ g. inr refl) in
        (
          replace c.rnti (start_ue_round u) s,
          rw (started, get_ue_scheduling_info, e)
              (with_ue-some (λ v. some (start_ue_round v)) c.rnti s u (start_ue_round u) e refl),
          (
            Kept-Grown s (replace c.rnti (start_ue_round u) s) k,
            (
              ground (arith, k.entries c.rnti, e),
              λ g.
                  ground
                    (arith, group_of-replace cell.cell_id c.rnti s u (start_ue_round u) c.rnti g e),
            ),
          ),
        )
  ]

  assign_from-Returns :
      (lc : LcUeConfig) (mac : UeMacRibInfo)
      → cell.dl_bandwidth < 2 ^ 15
      → (u : UeSchedulingInfo) → Returns (assign_from cell lc (some mac) u) (Shrinks cell.cell_id u)
  unfolding assign_from
  assign_from-Returns lc mac b u =
      let (u', eu, kept) = assign_rbs_required-Returns u mac.mac_stats_report cell lc b in
      (u', eu, λ g. inl (kept cell.cell_id g))

  assigned :
      (lc : Option LcUeConfig) (e : EnbRibInfo) (c : UeConfig) (s : EnbSchedulingInfo)
      (mac : UeMacRibInfo)
      → cell.dl_bandwidth < 2 ^ 15
      → get_ue_mac_info e c.rnti ≡ some mac
      → has_entry c.rnti s ≡ true
      → Returns
          (elim lc [
            | none ↦ some s
            | some l ↦ with_ue (assign_from cell l (get_ue_mac_info e c.rnti)) c.rnti s
          ])
          (Kept cell.cell_id s)
  assigned none e c s mac b em h =
      (s, refl, record { entries = λ r. refl; shrinks = λ a g. inl refl; blocks = λ g. refl })
  assigned (some l) e c s mac b em h = rw em (
      with_ue-Kept cell.cell_id (assign_from cell l (some mac)) c.rnti s
        (assign_from-Returns l mac b) h)

  prepare_ue-Returns :
      (lcs : List LcUeConfig) (e : EnbRibInfo) (c : UeConfig) (s : EnbSchedulingInfo)
      → cell.dl_bandwidth < 2 ^ 15
      → KnownMac cell e c
      → Returns (prepare_ue cell lcs e c s) (λ s'. Grown s s' × Ready s' c)
  unfolding prepare_ue
  prepare_ue-Returns lcs e c s b k = elim (Bool-cases (in_cell cell c)) [
    | inr out ↦ (s, rw out refl, (record { kept = λ r h. h; shrinks = λ a g. inl refl }, inl out))
    | inl inside ↦
        let (mac, em) = mac_of cell e c inside k in
        let (s1, e1, p1) = started-Returns c s in
        let (s2, e2, m) = assigned (find_lc c.rnti lcs) e c s1 mac b em p1.1.0 in
        let p2 = Kept-Grown s1 s2 m in
        (
          s2,
          rw (inside, e1, ◌>>=◌) e2,
          (Grown-trans s s1 s2 p1.0 p2, inr (Grown-Clean s1 s2 c.rnti p2 p1.1)),
        )
  ]

  -- The loop over all UEs.
  pub prepare_all :
      (lcs : List LcUeConfig) (e : EnbRibInfo) (cs : List UeConfig) (s : EnbSchedulingInfo)
      → cell.dl_bandwidth < 2 ^ 15
      → All (KnownMac cell e) cs
      → Returns (for_each (prepare_ue cell lcs e) cs s) (λ s'. Grown s s' × All (Ready s') cs)
  unfolding for_each
  prepare_all lcs e [] s b k =
      (s, refl, (record { kept = λ r h. h; shrinks = λ a g. inl refl }, tt))
  prepare_all lcs e (c ∷ cs) s b k =
      let (s1, e1, p1) = prepare_ue-Returns lcs e c s b k.0 in
      let (s2, e2, p2) = prepare_all lcs e cs s1 b k.1 in
      (
        s2,
        rw (e1, ◌>>=◌) e2,
        (Grown-trans s s1 s2 p1.0 p2.0, (Grown-Ready s1 s2 c p2.0 p1.1, p2.1)),
      )
