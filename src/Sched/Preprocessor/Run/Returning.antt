-- ===== src/Sched/Preprocessor/Run/Returning.antt =====
-- run_dlsch_scheduler_preprocessor of src/app/remote_scheduler_helper.cc returns, and gives no
-- group of resource blocks to two UEs.
use flexran_rtc.Base.{
  ℕ, length, ◌≤◌, ◌≡◌, refl, ◌∙◌, inl, inr, Bool, true, false, some, List, [], ◌∷◌, arith, ◌==◌,
  ◌&&◌, ◌||◌, Bool-cases, ==_iff, All,
}
use flexran_rtc.Base.Faults.{◌>>=◌, for_each, Returns, for_each-Returns}
use flexran_rtc.Messages.{CellConfig, UeConfig, LcUeConfig}
use flexran_rtc.Rib.Enb.{EnbRibInfo}
use flexran_rtc.Sched.Info.{UeSchedulingInfo, EnbSchedulingInfo}
use flexran_rtc.Sched.Info.Channels.{Within}
use flexran_rtc.Sched.Helper.{UeStats}
use flexran_rtc.Sched.Helper.Exclusive.{Among}
use flexran_rtc.Sched.Preprocessor.{insertion_limit, in_cell, prepare_ue, sort_ues, pick}
use flexran_rtc.Sched.Preprocessor.Sorting.{Permutes, KnownMac, sort_ues-Returns, pick-Returns}
use flexran_rtc.Sched.Preprocessor.Run.{
  count_ue, average_rbs, needing, first_share, share_round, run_dlsch_scheduler_preprocessor,
}
use flexran_rtc.Sched.Preprocessor.Run.Shares.{
  Prepared, Entered, Counted, needing-Returns, share_round-Returns, count_ue-Returns,
}
use flexran_rtc.Sched.Preprocessor.Run.Prepare.{Clean, Ready, prepare_all}
use flexran_rtc.Sched.Preprocessor.Run.Entries.{has_entry}

-- The number of a configured UE of the cell.
abbrev pub serves : CellConfig → List UeConfig → ℕ → Bool
serves cell [] r = false
serves cell (c ∷ cs) r = (in_cell cell c && c.rnti == r) || serves cell cs r

-- Each configured UE of the cell has scheduling information, each group of the cell that one
-- of them has is marked in the map of the cell, and no two of them have the same group.
pub record Shared (cell : CellConfig) (ues : List UeConfig) (s : EnbSchedulingInfo) : Type 0 where
  pub present : (r : ℕ) → serves cell ues r ≡ true → has_entry r s ≡ true
  pub exclusive : Among (λ r. serves cell ues r ≡ true) cell.cell_id s

module _ (cell : CellConfig) (e : EnbRibInfo) where
  Entered-all :
      (s1 : EnbSchedulingInfo) (cs : List UeConfig)
      → All (Ready cell s1) cs
      → All (KnownMac cell e) cs
      → All (λ c. Entered cell (Clean cell s1) (λ r. has_entry r s1) c × KnownMac cell e c) cs
  Entered-all s1 [] h k = tt
  Entered-all s1 (c ∷ cs) h k = ((entry h.0, k.0), Entered-all s1 cs h.1 k.1)
    where
      entry : Ready cell s1 c → Entered cell (Clean cell s1) (λ r. has_entry r s1) c
      entry (inl out) = inl out
      entry (inr p) = inr (p.0, p)

  Entered-only :
      (M : ℕ → Type 0) (entries : ℕ → Bool) (cs : List UeConfig)
      → All (λ c. Entered cell M entries c × KnownMac cell e c) cs
      → All (Entered cell M entries) cs
  Entered-only M entries [] h = tt
  Entered-only M entries (c ∷ cs) h = (h.0.0, Entered-only M entries cs h.1)

  served-Clean :
      (s1 : EnbSchedulingInfo) (cs : List UeConfig) (r : ℕ)
      → All (Ready cell s1) cs
      → serves cell cs r ≡ true
      → Clean cell s1 r
  served-Clean s1 [] r h q = absurd (ground (arith, q))
  served-Clean s1 (c ∷ cs) r h q = elim (Bool-cases (in_cell cell c && c.rnti == r)) [
    | inr out ↦ served-Clean s1 cs r h.1 (ground (arith, q, out))
    | inl is ↦ own (ground (arith, is)) (ground (arith, is, ==_iff c.rnti r)) h.0
  ]
    where
      own : in_cell cell c ≡ true → c.rnti ≡ r → Ready cell s1 c → Clean cell s1 r
      own inside same (inl out) = absurd (ground (arith, inside, out))
      own inside same (inr p) = rw (← same) p

  Clean-Among : (s1 : EnbSchedulingInfo) → Among (Clean cell s1) cell.cell_id s1
  Clean-Among s1 = record { marked = λ a g m z. m.1 g; alone = λ a b g n m m'. inl (m.1 g) }

module _ (sort : List UeStats → List UeStats) (perm : Permutes sort) where
  first_share-kept :
      (cell : CellConfig) (average : ℕ) (u : UeSchedulingInfo) (g : ℕ)
      → (first_share cell average u).rballoc_sub cell.cell_id g ≡ u.rballoc_sub cell.cell_id g
  unfolding first_share
  first_share-kept cell average u g = refl

  -- The loops one after the other.
  steps :
      (cell : CellConfig) (ues : List UeConfig) (lcs : List LcUeConfig) (e : EnbRibInfo)
      (subframe : ℕ) (s s1 : EnbSchedulingInfo) (ids : List ℕ) (sorted : List UeConfig)
      (t : EnbSchedulingInfo × ℕ) (s3 s4 s5 : EnbSchedulingInfo)
      → for_each (prepare_ue cell lcs e) ues s ≡ some s1
      → sort_ues sort cell ues e ≡ some ids
      → pick ues ids ≡ some sorted
      → for_each (count_ue cell e) sorted (s1, 0) ≡ some t
      → for_each (needing cell (first_share cell (average_rbs cell subframe t.1))) sorted t.0
        ≡ some s3
      → share_round cell t.1 sorted true s3 ≡ some s4
      → share_round cell t.1 sorted false s4 ≡ some s5
      → run_dlsch_scheduler_preprocessor sort cell ues lcs e subframe s ≡ some s5
  unfolding run_dlsch_scheduler_preprocessor
  steps cell ues lcs e subframe s s1 ids sorted t s3 s4 s5 e1 ei es e2 e3 e4 e5 =
      rw (e1, ◌>>=◌, ei, es, e2, e3, e4) e5

  pub run_dlsch_scheduler_preprocessor-Shared :
      (cell : CellConfig) (ues : List UeConfig) (lcs : List LcUeConfig) (e : EnbRibInfo)
      (subframe : ℕ) (s : EnbSchedulingInfo)
      → Within cell
      → length ues ≤ insertion_limit
      → All (KnownMac cell e) ues
      → Returns (run_dlsch_scheduler_preprocessor sort cell ues lcs e subframe s) (Shared cell ues)
  run_dlsch_scheduler_preprocessor-Shared cell ues lcs e subframe s b few k =
      let (s1, e1, g) = prepare_all cell lcs e ues s (omega (arith, b.1)) k in
      let entries : ℕ → Bool = λ r. has_entry r s1 in
      let M : ℕ → Type 0 = Clean cell s1 in
      let p1 : Prepared cell M entries s1 = record {
        among = Clean-Among cell e s1;
        present = λ r. refl;
      } in
      let (ids, ei, below) = sort_ues-Returns sort perm cell ues e few k in
      let (sorted, es, q) =
        pick-Returns (λ c. Entered cell M entries c × KnownMac cell e c) ues ids
          (Entered-all cell e s1 ues g.1 k) below in
      let q' = Entered-only cell e M entries sorted q in
      let (t2, e2, p2) =
        for_each-Returns (Counted cell M entries)
          (λ c. Entered cell M entries c × KnownMac cell e c) (count_ue cell e)
          (count_ue-Returns cell M e entries) sorted (s1, 0) q p1 in
      let average = average_rbs cell subframe t2.1 in
      let share = first_share cell average in
      let (s3, e3, p3) =
        for_each-Returns (Prepared cell M entries) (Entered cell M entries) (needing cell share)
          (λ c s'. needing-Returns cell M share entries c s' (first_share-kept cell average)) sorted
          t2.0 q' p2 in
      let (s4, e4, p4) = share_round-Returns cell M entries t2.1 sorted true s3 q' p3 in
      let (s5, e5, p5) = share_round-Returns cell M entries t2.1 sorted false s4 q' p4 in
      let clean = λ (r : ℕ). served-Clean cell e s1 ues r g.1 in
      (
        s5,
        steps cell ues lcs e subframe s s1 ids sorted t2 s3 s4 s5 e1 ei es e2 e3 e4 e5,
        record {
          present = λ r h. p5.present r ∙ (clean r h).0;
          exclusive = record {
            marked = λ a x m. p5.among.marked a x (clean a m);
            alone = λ a b' x n m m'. p5.among.alone a b' x n (clean a m) (clean b' m');
          };
        },
      )
