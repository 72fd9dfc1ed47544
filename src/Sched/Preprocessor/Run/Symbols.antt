-- ===== src/Sched/Preprocessor/Run/Symbols.antt =====
-- run_dlsch_scheduler_preprocessor of src/app/remote_scheduler_helper.cc changes nothing of the
-- control channel, loses no entry and gives each UE few blocks.
use mathlib.Core.Option.{some-injective}
use flexran_rtc.Base.{
  ℕ, zero, ◌≡◌, refl, ◌∙◌, inl, inr, Bool, true, false, Option, some, List, arith, ltb,
  if◌then◌else◌, Option-cases, Bool-cases,
}
use flexran_rtc.Base.Faults.{◌>>=◌, for_each, bind_some}
use flexran_rtc.Base.Maps.{find}
use flexran_rtc.Messages.{CellConfig, UeConfig, LcUeConfig}
use flexran_rtc.Rib.Ue.{has_available_harq, get_next_available_harq, get_harq_stats}
use flexran_rtc.Rib.Enb.{EnbRibInfo, get_ue_mac_info}
use flexran_rtc.Sched.Info.{
  UeSchedulingInfo, EnbSchedulingInfo, get_ue_scheduling_info, create_ue_scheduling_info,
  start_ue_round,
}
use flexran_rtc.Sched.Helper.{UeStats, perform_pre_processor_allocation}
use flexran_rtc.Sched.Helper.Few.{Few, modify-EnbFew, perform-EnbFew}
use flexran_rtc.Sched.Preprocessor.{
  with_ue, find_lc, assign_from, in_cell, started, prepare_ue, sort_ues, pick,
}
use flexran_rtc.Sched.Preprocessor.Run.Entries.{
  replace, create_lem, present-modify, perform-entries,
}
use flexran_rtc.Sched.Preprocessor.Run.Setters.{
  start_ue_round-Few, create-EnbFew, assign_from-Few, first_share-Few, renew-Few, set_round-Few,
}
use flexran_rtc.Sched.Preprocessor.Run.{
  set_round, begin_round, count_ue, average_rbs, needing, first_share, renew, chosen, allocate_for,
  share_round, run_dlsch_scheduler_preprocessor,
}
use flexran_rtc.Sched.Preprocessor.Run.Control.{
  Advances, Advances-refl, Advances-trans, Keeps, Keeps-some, Keeps-if, Keeps-from, Keeps-bind,
  Keeps-elim, for_each-Keeps, CountKeeps, CountKeeps-some, CountKeeps-if, CountKeeps-elim,
  CountKeeps-from, for_each-CountKeeps,
}

-- A change of the entry of a UE that keeps that it has few blocks.
with_ue-Keeps :
    (f : UeSchedulingInfo → Option UeSchedulingInfo) (rnti : ℕ) (s : EnbSchedulingInfo)
    → ((u u' : UeSchedulingInfo) → f u ≡ some u' → Few u → Few u')
    → Keeps s (with_ue f rnti s)
unfolding with_ue
with_ue-Keeps f rnti s k s' e =
    let (u, e1, e2) = bind_some (find rnti s.scheduling_info) _ s' e in
    let (u', e3, e4) = bind_some (f u) _ s' e2 in
    rw (← some-injective (replace rnti u' s) s' e4) (record {
      channel = refl;
      entries = λ r h. present-modify rnti r (λ _. u') s.scheduling_info ∙ h;
      few = λ h. modify-EnbFew rnti u u' s.scheduling_info e1 (k u u' e3) h;
    })

-- A change that always returns.
with_some-Keeps :
    (f : UeSchedulingInfo → UeSchedulingInfo) (rnti : ℕ) (s : EnbSchedulingInfo)
    → ((u : UeSchedulingInfo) → Few u → Few (f u))
    → Keeps s (with_ue (λ u. some (f u)) rnti s)
with_some-Keeps f rnti s k =
    with_ue-Keeps (λ u. some (f u)) rnti s (λ u u' e h. rw (← some-injective (f u) u' e) (k u h))

create-Advances : (rnti : ℕ) (s : EnbSchedulingInfo) → Advances s (create_ue_scheduling_info rnti s)
unfolding create_ue_scheduling_info
create-Advances rnti s = record {
  channel = refl;
  entries = λ r h. ground (arith, (create_lem 0 rnti s).0 r, h);
  few = create-EnbFew rnti s;
}

started-Keeps : (c : UeConfig) (s : EnbSchedulingInfo) → Keeps s (started c s)
unfolding started create_ue_scheduling_info
started-Keeps c s =
    Keeps-elim s (get_ue_scheduling_info c.rnti s) _ _
      (Keeps-some s (create_ue_scheduling_info c.rnti s) (create-Advances c.rnti s))
      (λ u. with_some-Keeps start_ue_round c.rnti s (λ v h. start_ue_round-Few v))

prepare_ue-Keeps :
    (cell : CellConfig) (lcs : List LcUeConfig) (e : EnbRibInfo) (c : UeConfig)
    (s : EnbSchedulingInfo)
    → Keeps s (prepare_ue cell lcs e c s)
unfolding prepare_ue
prepare_ue-Keeps cell lcs e c s =
    Keeps-if (in_cell cell c) s _ _
      (Keeps-bind s (started c s) _ (started-Keeps c s) (λ t.
        Keeps-elim t (find_lc c.rnti lcs) _ _ (Keeps-some t t (Advances-refl t)) (λ lc.
          with_ue-Keeps (assign_from cell lc (get_ue_mac_info e c.rnti)) c.rnti t
            (assign_from-Few cell lc (get_ue_mac_info e c.rnti)))))
      (Keeps-some s s (Advances-refl s))

needing-Keeps :
    (cell : CellConfig) (f : UeSchedulingInfo → UeSchedulingInfo) (c : UeConfig)
    (s : EnbSchedulingInfo)
    → ((u : UeSchedulingInfo) → Few u → Few (f u))
    → Keeps s (needing cell f c s)
unfolding needing
needing-Keeps cell f c s k =
    Keeps-if (in_cell cell c) s _ _ (with_some-Keeps _ c.rnti s either)
      (Keeps-some s s (Advances-refl s))
  where
    either :
        (u : UeSchedulingInfo)
        → Few u
        → Few (if ltb 0 (u.nb_rbs_required cell.cell_id) then f u else u)
    either u h = elim (Bool-cases (ltb 0 (u.nb_rbs_required cell.cell_id))) [
      | inl e ↦ rw e (k u h)
      | inr e ↦ rw e h
    ]

perform-Advances :
    (cell : CellConfig) (rnti : ℕ) (s : EnbSchedulingInfo)
    → Advances s (perform_pre_processor_allocation cell rnti s)
unfolding perform_pre_processor_allocation
perform-Advances cell rnti s = record {
  channel = elim (Option-cases (find rnti s.scheduling_info)) [
    | inl e ↦ rw (perform_pre_processor_allocation, e) refl
    | inr (u, e) ↦ rw (perform_pre_processor_allocation, e) refl
  ];
  entries = λ r h. perform-entries cell rnti s r ∙ h;
  few = perform-EnbFew cell rnti s;
}

allocate_for-Keeps :
    (cell : CellConfig) (high : Bool) (c : UeConfig) (s : EnbSchedulingInfo)
    → Keeps s (allocate_for cell high c s)
unfolding allocate_for
allocate_for-Keeps cell high c s =
    Keeps-if (in_cell cell c) s _ _
      (Keeps-from s (find c.rnti s.scheduling_info) _ (λ u. Keeps-some s _ (kept u)))
      (Keeps-some s s (Advances-refl s))
  where
    kept :
        (u : UeSchedulingInfo)
        → Advances s (
            if chosen high u
            then (if ltb 0 (u.nb_rbs_required cell.cell_id)
                then perform_pre_processor_allocation cell c.rnti s
                else s)
            else s)
    kept u = elim (Bool-cases (chosen high u)) [
      | inr e ↦ rw e (Advances-refl s)
      | inl e ↦ elim (Bool-cases (ltb 0 (u.nb_rbs_required cell.cell_id))) [
        | inr idle ↦ rw (e, idle) (Advances-refl s)
        | inl needs ↦ rw (e, needs) (perform-Advances cell c.rnti s)
      ]
    ]

share_round-Keeps :
    (cell : CellConfig) (count : ℕ) (sorted : List UeConfig) (first : Bool) (s : EnbSchedulingInfo)
    → Keeps s (share_round cell count sorted first s)
unfolding share_round
share_round-Keeps cell count sorted first s =
    Keeps-bind s _ _
      (for_each-Keeps (needing cell (renew cell first))
        (λ c s'. needing-Keeps cell (renew cell first) c s' (renew-Few cell first)) sorted s)
      (λ t.
        Keeps-if (ltb 0 count) t _ _
          (Keeps-bind t _ _
            (for_each-Keeps (allocate_for cell true) (allocate_for-Keeps cell true) sorted t)
            (λ t'.
              for_each-Keeps (allocate_for cell false) (allocate_for-Keeps cell false) sorted t'))
          (Keeps-some t t (Advances-refl t)))

begin_round-CountKeeps :
    (cell : CellConfig) (h round : ℕ) (c : UeConfig) (s : EnbSchedulingInfo) (count : ℕ)
    → CountKeeps s (begin_round cell h round c s count)
unfolding begin_round
begin_round-CountKeeps cell h round c s count p e =
    let (t, e1, e2) = bind_some (with_ue (λ u. some (set_round cell h round u)) c.rnti s) _ p e in
    Advances-trans s t p.0
      (with_some-Keeps (set_round cell h round) c.rnti s (set_round-Few cell h round) t e1)
      (CountKeeps-from t (find c.rnti t.scheduling_info) _ (λ u. CountKeeps-some t _) p e2)

count_ue-CountKeeps :
    (cell : CellConfig) (e : EnbRibInfo) (c : UeConfig) (p : EnbSchedulingInfo × ℕ)
    → CountKeeps p.0 (count_ue cell e c p)
unfolding count_ue
count_ue-CountKeeps cell e c (s, count) =
    CountKeeps-if (in_cell cell c) s _ _
      (CountKeeps-from s (get_ue_mac_info e c.rnti) _ (λ mac.
        CountKeeps-if (has_available_harq mac cell.cell_id) s _ _
          (CountKeeps-elim s (get_next_available_harq mac cell.cell_id) _
            (λ h. begin_round-CountKeeps cell h (get_harq_stats mac cell.cell_id h) c s count))
          (CountKeeps-some s count)))
      (CountKeeps-some s count)

-- Where the preprocessor returns, the symbols and the elements of the control channel of every
-- cell are as before, no UE has lost its entry, and where each UE had at most four blocks for each
-- group of its own, it has so again.
pub run_dlsch_scheduler_preprocessor-Keeps :
    (sort : List UeStats → List UeStats) (cell : CellConfig) (ues : List UeConfig)
    (lcs : List LcUeConfig) (e : EnbRibInfo) (subframe : ℕ) (s : EnbSchedulingInfo)
    → Keeps s (run_dlsch_scheduler_preprocessor sort cell ues lcs e subframe s)
unfolding run_dlsch_scheduler_preprocessor
run_dlsch_scheduler_preprocessor-Keeps sort cell ues lcs e subframe s =
    Keeps-bind s _ _ (for_each-Keeps (prepare_ue cell lcs e) (prepare_ue-Keeps cell lcs e) ues s)
      (λ s1.
        Keeps-from s1 (sort_ues sort cell ues e) _
          (λ ids. Keeps-from s1 (pick ues ids) _ (λ sorted. after s1 sorted)))
  where
    after :
        (s1 : EnbSchedulingInfo) (sorted : List UeConfig)
        → Keeps s1 (
            for_each (count_ue cell e) sorted (s1, zero) >>= (λ counted.
              for_each
                (needing cell (first_share cell (average_rbs cell subframe counted.1)))
                sorted
                counted.0
              >>= (λ s3.
                  share_round cell counted.1 sorted true s3
                  >>= (λ s4. share_round cell counted.1 sorted false s4))))
    after s1 sorted s' q =
        let (t, e1, e2) = bind_some (for_each (count_ue cell e) sorted (s1, zero)) _ s' q in
        let share = first_share cell (average_rbs cell subframe t.1) in
        Advances-trans s1 t.0 s'
          (for_each-CountKeeps (count_ue cell e) (count_ue-CountKeeps cell e) sorted (s1, zero) t
            e1)
          (Keeps-bind t.0 _ _
            (for_each-Keeps (needing cell share)
              (λ c s'.
                needing-Keeps cell share c s'
                  (first_share-Few cell (average_rbs cell subframe t.1)))
              sorted t.0)
            (λ s3.
              Keeps-bind s3 _ _ (share_round-Keeps cell t.1 sorted true s3)
                (share_round-Keeps cell t.1 sorted false))
            s' e2)
