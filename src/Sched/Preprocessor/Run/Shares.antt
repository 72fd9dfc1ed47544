-- ===== src/Sched/Preprocessor/Run/Shares.antt =====
-- The loops of run_dlsch_scheduler_preprocessor over the sorted UEs do not fault where these
-- have entries, and keep the groups of blocks exclusive.
use flexran_rtc.Base.{
  ℕ, ◌+◌, ◌≡◌, refl, ◌∙◌, inl, inr, ◌⊎◌, Bool, true, false, Option, some, List, arith,
  if◌then◌else◌, ltb, Bool-cases, Option-cases, All,
}
use flexran_rtc.Base.Faults.{◌>>=◌, for_each, Returns, Returns-bind, for_each-Returns}
use flexran_rtc.Messages.{CellConfig, UeConfig}
use flexran_rtc.Rib.Ue.{UeMacRibInfo, has_available_harq, get_next_available_harq, get_harq_stats}
use flexran_rtc.Rib.Ue.Harq.{get_next_available_harq_lem}
use flexran_rtc.Rib.Enb.{EnbRibInfo}
use flexran_rtc.Sched.Info.{UeSchedulingInfo, EnbSchedulingInfo}
use flexran_rtc.Sched.Helper.{perform_pre_processor_allocation}
use flexran_rtc.Sched.Helper.Exclusive.{Among, perform-Among}
use flexran_rtc.Sched.Preprocessor.{with_ue, in_cell}
use flexran_rtc.Sched.Preprocessor.Sorting.{KnownMac, mac_of}
use flexran_rtc.Sched.Preprocessor.Run.{
  set_round, begin_round, count_ue, needing, renew, chosen, allocate_for, share_round,
}
use flexran_rtc.Sched.Preprocessor.Run.Entries.{
  has_entry, entry_of, Shrinks, Kept, Kept-Among, with_ue-Kept, perform-entries,
}

module _ (cell : CellConfig) (M : ℕ → Type 0) where
  -- The state after the first loop: the groups are exclusive among the UEs of `M`, and the
  -- UEs that `entries` tells of have an entry.
  pub record Prepared (entries : ℕ → Bool) (s : EnbSchedulingInfo) : Type 0 where
    pub among : Among M cell.cell_id s
    pub present : (r : ℕ) → has_entry r s ≡ entries r

  -- A UE that the loops do not fault on.
  abbrev pub Entered : (ℕ → Bool) → UeConfig → Type 0
  Entered entries c = (in_cell cell c ≡ false) ⊎ ((entries c.rnti ≡ true) × M c.rnti)

  Kept-Prepared :
      (entries : ℕ → Bool) (s s' : EnbSchedulingInfo)
      → Prepared entries s
      → Kept cell.cell_id s s'
      → Prepared entries s'
  Kept-Prepared entries s s' p m = record {
    among = Kept-Among M cell.cell_id s s' m p.among;
    present = λ r. m.entries r ∙ p.present r;
  }

  -- The rule for the body of a loop over the UEs of the cell that changes an entry.
  changed :
      (f : UeSchedulingInfo → Option UeSchedulingInfo) (entries : ℕ → Bool) (c : UeConfig)
      (s : EnbSchedulingInfo)
      → ((u : UeSchedulingInfo) → Returns (f u) (Shrinks cell.cell_id u))
      → entries c.rnti ≡ true
      → Prepared entries s
      → Returns (with_ue f c.rnti s) (Prepared entries)
  changed f entries c s k q p =
      let (s', e, m) = with_ue-Kept cell.cell_id f c.rnti s k (p.present c.rnti ∙ q) in
      (s', e, Kept-Prepared entries s s' p m)

  entered :
      (entries : ℕ → Bool) (c : UeConfig)
      → in_cell cell c ≡ true
      → Entered entries c
      → (entries c.rnti ≡ true) × M c.rnti
  entered entries c e q = elim q [ inl out ↦ absurd (ground (arith, e, out)) | inr h ↦ h ]

  pub needing-Returns :
      (f : UeSchedulingInfo → UeSchedulingInfo) (entries : ℕ → Bool) (c : UeConfig)
      (s : EnbSchedulingInfo)
      → ((u : UeSchedulingInfo) (g : ℕ)
          → (f u).rballoc_sub cell.cell_id g ≡ u.rballoc_sub cell.cell_id g)
      → Entered entries c
      → Prepared entries s
      → Returns (needing cell f c s) (Prepared entries)
  unfolding needing
  needing-Returns f entries c s k q p = elim (Bool-cases (in_cell cell c)) [
    | inr e ↦ (s, rw e refl, p)
    | inl e ↦
        let (s', e', p') =
          changed (λ u. some (if ltb 0 (u.nb_rbs_required cell.cell_id) then f u else u)) entries c
            s (λ u. (_, refl, λ g. inl (ground (arith, k u g)))) (entered entries c e q).0 p in
        (s', rw e e', p')
  ]

  allocate_for-Returns :
      (high : Bool) (entries : ℕ → Bool) (c : UeConfig) (s : EnbSchedulingInfo)
      → Entered entries c
      → Prepared entries s
      → Returns (allocate_for cell high c s) (Prepared entries)
  unfolding allocate_for
  allocate_for-Returns high entries c s q p = elim (Bool-cases (in_cell cell c)) [
    | inr e ↦ (s, rw e refl, p)
    | inl e ↦
        let (u, e') = entry_of c.rnti s (p.present c.rnti ∙ (entered entries c e q).0) in
        (
          (if chosen high u
              then (if ltb 0 (u.nb_rbs_required cell.cell_id)
                  then perform_pre_processor_allocation cell c.rnti s
                  else s)
              else s),
          rw (e, e') refl,
          either _ _ (given (entered entries c e q).1),
        )
  ]
    where
      given : M c.rnti → Prepared entries (perform_pre_processor_allocation cell c.rnti s)
      given m = record {
        among = perform-Among cell c.rnti s M m p.among;
        present = λ r. perform-entries cell c.rnti s r ∙ p.present r;
      }

      either :
          (a b : Bool)
          → Prepared entries (perform_pre_processor_allocation cell c.rnti s)
          → Prepared entries
              (if a then (if b then perform_pre_processor_allocation cell c.rnti s else s) else s)
      either true true h = h
      either true false h = p
      either false b h = p

  -- The loops of one round over UEs that all have entries.
  pub share_round-Returns :
      (entries : ℕ → Bool) (count : ℕ) (sorted : List UeConfig) (first : Bool)
      (s : EnbSchedulingInfo)
      → All (Entered entries) sorted
      → Prepared entries s
      → Returns (share_round cell count sorted first s) (Prepared entries)
  unfolding share_round
  share_round-Returns entries count sorted first s q p =
      Returns-bind (Prepared entries) (for_each (needing cell (renew cell first)) sorted s) _
        (for_each-Returns (Prepared entries) (Entered entries) (needing cell (renew cell first))
          (λ c s' q' p'. needing-Returns (renew cell first) entries c s' (kept first) q' p') sorted
          s q p)
        (λ s1 p1. shared s1 p1 (ltb 0 count))
    where
      kept :
          (b : Bool) (u : UeSchedulingInfo) (g : ℕ)
          → (renew cell b u).rballoc_sub cell.cell_id g ≡ u.rballoc_sub cell.cell_id g
      kept true u g = unfold renew in refl
      kept false u g = unfold renew in refl

      given :
          (high : Bool) (t : EnbSchedulingInfo)
          → Prepared entries t
          → Returns (for_each (allocate_for cell high) sorted t) (Prepared entries)
      given high t pt =
          for_each-Returns (Prepared entries) (Entered entries) (allocate_for cell high)
            (λ c s' q' p'. allocate_for-Returns high entries c s' q' p') sorted t q pt

      shared :
          (t : EnbSchedulingInfo)
          → Prepared entries t
          → (b : Bool)
          → Returns
              (if b
                then for_each (allocate_for cell true) sorted t
                  >>= for_each (allocate_for cell false) sorted
                else some t)
              (Prepared entries)
      shared t pt true =
          Returns-bind (Prepared entries) (for_each (allocate_for cell true) sorted t)
            (for_each (allocate_for cell false) sorted) (given true t pt) (given false)
      shared t pt false = (t, refl, pt)

  set_round-kept :
      (harq_pid round : ℕ) (u : UeSchedulingInfo) (g : ℕ)
      → (set_round cell harq_pid round u).rballoc_sub cell.cell_id g ≡ u.rballoc_sub cell.cell_id g
  unfolding set_round
  set_round-kept harq_pid round u g = ground arith

  abbrev pub Counted : (ℕ → Bool) → EnbSchedulingInfo × ℕ → Type 0
  Counted entries t = Prepared entries t.0

  begin_round-Returns :
      (harq_pid round : ℕ) (entries : ℕ → Bool) (c : UeConfig) (s : EnbSchedulingInfo) (count : ℕ)
      → entries c.rnti ≡ true
      → Prepared entries s
      → Returns (begin_round cell harq_pid round c s count) (Counted entries)
  unfolding begin_round
  begin_round-Returns harq_pid round entries c s count q p =
      Returns-bind (Counted entries)
        (with_ue (λ u. some (set_round cell harq_pid round u)) c.rnti s) _
        (changed (λ u. some (set_round cell harq_pid round u)) entries c s
          (λ u. (_, refl, λ g. inl (set_round-kept harq_pid round u g))) q p)
        (λ s' p'.
          let (u, e) = entry_of c.rnti s' (p'.present c.rnti ∙ q) in
          (
            (s', if ltb 0 (u.nb_rbs_required cell.cell_id) then count + 1 else count),
            rw e refl,
            p',
          ))

  pub count_ue-Returns :
      (e : EnbRibInfo) (entries : ℕ → Bool) (c : UeConfig) (t : EnbSchedulingInfo × ℕ)
      → Entered entries c × KnownMac cell e c
      → Counted entries t
      → Returns (count_ue cell e c t) (Counted entries)
  unfolding count_ue
  count_ue-Returns e entries c (s, count) (q, k) p = elim (Bool-cases (in_cell cell c)) [
    | inr out ↦ ((s, count), rw out refl, p)
    | inl inside ↦
        let (mac, em) = mac_of cell e c inside k in
        elim (Bool-cases (has_available_harq mac cell.cell_id)) [
          | inr busy ↦ ((s, count), rw (inside, em, ◌>>=◌, busy) refl, p)
          | inl free ↦
              let (harq_pid, next) = next_of mac free in
              let (t', et, pt) =
                begin_round-Returns harq_pid (get_harq_stats mac cell.cell_id harq_pid) entries c s
                  count (entered entries c inside q).0 p in
              (t', rw (inside, em, ◌>>=◌, free, next) et, pt)
        ]
  ]
    where
      next_of :
          (mac : UeMacRibInfo)
          → has_available_harq mac cell.cell_id ≡ true
          → (harq_pid : ℕ) × (get_next_available_harq mac cell.cell_id ≡ some harq_pid)
      next_of mac free =
          let same = (get_next_available_harq_lem mac cell.cell_id).1 in
          elim (Option-cases (get_next_available_harq mac cell.cell_id)) [
            | inl none_left ↦ absurd (ground (arith, same, none_left, free))
            | inr found ↦ found
          ]
