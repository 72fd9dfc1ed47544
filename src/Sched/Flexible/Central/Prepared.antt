-- ===== src/Sched/Flexible/Central/Prepared.antt =====
-- The preprocessor over the cells of an eNodeB, as src/app/flexible_scheduler.cc runs it on what
-- src/rib/enb_rib_info.cc keeps.
use mathlib.Core.Option.{some-injective}
use flexran_rtc.Base.{
  length, sym, inl, ◌==◌, ◌||◌, false, Bool-cases, ℕ, ◌≤◌, ◌≡◌, refl, ap, ◌∙◌, inr, true, some,
  List, [], ◌∷◌, arith, ==_iff, All,
}
use flexran_rtc.Base.Faults.{◌>>=◌, Returns, for_each, bind_some}
use flexran_rtc.Messages.{CellConfig, UeConfig}
use flexran_rtc.Rib.Ue.{UeMacRibInfo}
use flexran_rtc.Rib.Enb.{EnbRibInfo, get_ue_mac_info}
use flexran_rtc.Rib.Enb.Known.{KnownUes, has_ue}
use flexran_rtc.Sched.Info.{EnbSchedulingInfo, start_round}
use flexran_rtc.Sched.Info.Round.{Counted}
use flexran_rtc.Sched.Info.Channels.{Within, Apart, Channels, Counted-same, start_round-Counted}
use flexran_rtc.Sched.Preprocessor.Run.Control.{control}
use flexran_rtc.Sched.Helper.{UeStats}
use flexran_rtc.Sched.Helper.Few.{EnbFew}
use flexran_rtc.Sched.Preprocessor.{insertion_limit, in_cell}
use flexran_rtc.Sched.Preprocessor.Run.Entries.{has_entry}
use flexran_rtc.Sched.Preprocessor.Sorting.{Permutes, KnownMac}
use flexran_rtc.Sched.Preprocessor.Run.Returning.{serves, run_dlsch_scheduler_preprocessor-Shared}
use flexran_rtc.Sched.Preprocessor.Run.Symbols.{run_dlsch_scheduler_preprocessor-Keeps}
use flexran_rtc.Sched.Flexible.Central.{Memory, prepare_cell}

-- At most three symbols for each cell.
abbrev pub FewSymbols : EnbSchedulingInfo → Type 0
FewSymbols s = (c : ℕ) → s.num_pdcch_symbols c ≤ 3

known_macs :
    (cell : CellConfig) (e : EnbRibInfo) (cs : List UeConfig)
    → ((rnti : ℕ) → has_ue rnti cs ≡ true → (u : UeMacRibInfo) × (get_ue_mac_info e rnti ≡ some u))
    → All (KnownMac cell e) cs
known_macs cell e [] k = tt
known_macs cell e (c ∷ cs) k = (
  inr (k c.rnti (ground (arith, ==_iff c.rnti c.rnti))),
  known_macs cell e cs (λ rnti h. k rnti (ground (arith, h))),
)

start_round-FewSymbols :
    (subframe : ℕ) (cell : CellConfig) (s : EnbSchedulingInfo)
    → FewSymbols s
    → FewSymbols (start_round subframe cell s)
unfolding start_round
start_round-FewSymbols subframe cell s h c = ground (arith, h c)

-- What the schedulers rely on in an agent beside what the updater ensures: the numbers and the
-- blocks of its cells fit the arrays, a number of a cell tells its configuration, and the list of its
-- UEs is sorted by insertion.
pub record Plain (e : EnbRibInfo) : Type 0 where
  pub cell_of : ℕ → CellConfig
  pub apart : Apart cell_of e.enb_config
  pub within : All Within e.enb_config
  pub short : length e.ue_config ≤ insertion_limit

-- What the preprocessor leaves for the cells: at most three symbols for each cell, at most four
-- blocks for each group that a UE has, and scheduling information for each UE of the cells.
pub record Prepared (e : EnbRibInfo) (cells : List CellConfig) (s : EnbSchedulingInfo)
    : Type 0 where
  pub symbols : FewSymbols s
  pub few : EnbFew s
  pub entered :
      All (λ cell. All (λ c. in_cell cell c ≡ true → has_entry c.rnti s ≡ true) e.ue_config) cells

-- The UEs of the cell have what every number of the cell has.
served_all :
    (cell : CellConfig) (P : ℕ → Type 0) (cs : List UeConfig)
    → ((r : ℕ) → serves cell cs r ≡ true → P r)
    → All (λ c. in_cell cell c ≡ true → P c.rnti) cs
served_all cell P [] h = tt
served_all cell P (c ∷ cs) h = (
  λ inside. h c.rnti (ground (arith, inside, ==_iff c.rnti c.rnti)),
  served_all cell P cs (λ r q. h r (ground (arith, q))),
)

served_later :
    (cell : CellConfig) (s s' : EnbSchedulingInfo) (cs : List UeConfig)
    → ((r : ℕ) → has_entry r s ≡ true → has_entry r s' ≡ true)
    → All (λ c. in_cell cell c ≡ true → has_entry c.rnti s ≡ true) cs
    → All (λ c. in_cell cell c ≡ true → has_entry c.rnti s' ≡ true) cs
served_later cell s s' [] k h = tt
served_later cell s s' (c ∷ cs) k h = (λ q. k c.rnti (h.0 q), served_later cell s s' cs k h.1)

start_round-EnbFew :
    (subframe : ℕ) (cell : CellConfig) (s : EnbSchedulingInfo)
    → EnbFew s
    → EnbFew (start_round subframe cell s)
unfolding start_round
start_round-EnbFew subframe cell s h = h

start_round-entries :
    (subframe : ℕ) (cell : CellConfig) (s : EnbSchedulingInfo) (r : ℕ)
    → has_entry r (start_round subframe cell s) ≡ has_entry r s
unfolding start_round
start_round-entries subframe cell s r = refl

-- The start of a round for another cell.
start_round-others :
    (subframe : ℕ) (cell : CellConfig) (s : EnbSchedulingInfo) (c : ℕ)
    → (cell.cell_id == c) ≡ false
    → ((start_round subframe cell s).num_pdcch_symbols c ≡ s.num_pdcch_symbols c)
      × ((start_round subframe cell s).ncce_rem c ≡ s.ncce_rem c)
unfolding start_round
start_round-others subframe cell s c other = (ground (arith, other), ground (arith, other))

module _ (sort : List UeStats → List UeStats) (perm : Permutes sort) where
  prepare_cell-Prepared :
      (m : Memory) (e : EnbRibInfo) (subframe : ℕ) (cell : CellConfig) (s : EnbSchedulingInfo)
      → KnownUes e
      → length e.ue_config ≤ insertion_limit
      → Within cell
      → FewSymbols s
      → EnbFew s
      → Returns (prepare_cell sort m e subframe cell s) (λ s'.
        Prepared e (cell ∷ []) s' × ((r : ℕ) → has_entry r s ≡ true → has_entry r s' ≡ true))
  unfolding prepare_cell
  prepare_cell-Prepared m e subframe cell s k n b h f =
      let started = start_round subframe cell s in
      let (s', r, shared) =
        run_dlsch_scheduler_preprocessor-Shared sort perm cell e.ue_config e.lc_config e subframe
          started b n (known_macs cell e e.ue_config k.known) in
      let kept =
        run_dlsch_scheduler_preprocessor-Keeps sort cell e.ue_config e.lc_config e subframe started
          s' r in
      (
        s',
        r,
        (
          record {
            symbols =
                λ c. rw (ap (λ p. p.0 c) kept.channel) (start_round-FewSymbols subframe cell s h c);
            few = kept.few (start_round-EnbFew subframe cell s f);
            entered = (served_all cell (λ r. has_entry r s' ≡ true) e.ue_config shared.present, tt);
          },
          λ r q. kept.entries r (start_round-entries subframe cell s r ∙ q),
        ),
      )

  pub prepare_cells-Prepared :
      (m : Memory) (e : EnbRibInfo) (subframe : ℕ) (cells : List CellConfig) (s : EnbSchedulingInfo)
      → (subframe == 0 || subframe == 5) ≡ false
      → KnownUes e
      → length e.ue_config ≤ insertion_limit
      → All Within cells
      → FewSymbols s
      → EnbFew s
      → Returns
          (for_each (prepare_cell sort m e subframe) cells s)
          (λ s'. Prepared e cells s' × ((r : ℕ) → has_entry r s ≡ true → has_entry r s' ≡ true))
  unfolding for_each
  prepare_cells-Prepared m e subframe [] s z k n b h f =
      (s, refl, (record { symbols = h; few = f; entered = tt }, λ r q. q))
  prepare_cells-Prepared m e subframe (cell ∷ cells) s z k n b h f =
      let (t, e1, (p, kept)) = prepare_cell-Prepared m e subframe cell s k n b.0 h f in
      let (s', e2, (q, kept')) =
        prepare_cells-Prepared m e subframe cells t z k n b.1 p.symbols p.few in
      (
        s',
        rw (e1, ◌>>=◌) e2,
        (
          record {
            symbols = q.symbols;
            few = q.few;
            entered = (served_later cell t s' e.ue_config kept' p.entered.0, q.entered);
          },
          λ r q. kept' r (kept r q),
        ),
      )

module _ (sort : List UeStats → List UeStats) (m : Memory) (e : EnbRibInfo) (subframe : ℕ) where
  -- The preprocessor leaves the control channels as the round began with them.
  prepare_cell-control :
      (cell : CellConfig) (s s' : EnbSchedulingInfo)
      → prepare_cell sort m e subframe cell s ≡ some s'
      → control s' ≡ control (start_round subframe cell s)
  unfolding prepare_cell
  prepare_cell-control cell s s' r =
      (run_dlsch_scheduler_preprocessor-Keeps sort cell e.ue_config e.lc_config e subframe
        (start_round subframe cell s) s' r).channel

  -- After the loop over the cells the elements of all of them are counted right, and those of other
  -- cells as well where they were.
  pub prepare_cells-Channels :
      (cell_of : ℕ → CellConfig) (cells : List CellConfig) (s s' : EnbSchedulingInfo)
      → (subframe == 0 || subframe == 5) ≡ false
      → Apart cell_of cells
      → for_each (prepare_cell sort m e subframe) cells s ≡ some s'
      → Channels cell_of cells subframe s'
        × ((x : CellConfig) → cell_of x.cell_id ≡ x → Counted x subframe s → Counted x subframe s')
  unfolding for_each
  prepare_cells-Channels cell_of [] s s' plain a r =
      (λ x is listed. absurd (ground (arith, listed)), λ x is k. rw (← some-injective s s' r) k)
  prepare_cells-Channels cell_of (cell ∷ cells) s s' plain a r =
      let (t, e1, e2) = bind_some (prepare_cell sort m e subframe cell s) _ s' r in
      let (listed, kept) = prepare_cells-Channels cell_of cells t s' plain a.1 e2 in
      let same = prepare_cell-control cell s t e1 in
      let own : Counted cell subframe t =
        Counted-same cell subframe (start_round subframe cell s) t (ap (λ p. p.0 cell.cell_id) same)
          (ap (λ p. p.1 cell.cell_id) same) (start_round-Counted subframe cell s plain) in
      let of_id : (x : CellConfig)
          → cell_of x.cell_id ≡ x
          → (cell.cell_id == x.cell_id) ≡ true
          → Counted x subframe t =
        λ x is q.
          let same_cell : cell ≡ x =
            sym a.0 ∙ (ap cell_of ((==_iff cell.cell_id x.cell_id).0 q) ∙ is) in
          rw (← same_cell) own in
      (
        λ x is q. elim (Bool-cases (cell.cell_id == x.cell_id)) [
          | inl here ↦ kept x is (of_id x is here)
          | inr other ↦ listed x is (ground (arith, other, q))
        ],
        λ x is k. elim (Bool-cases (cell.cell_id == x.cell_id)) [
          | inl here ↦ kept x is (of_id x is here)
          | inr other ↦ kept x is (
              let (p, q) = start_round-others subframe cell s x.cell_id other in
              Counted-same x subframe s t (ap (λ c. c.0 x.cell_id) same ∙ p)
                (ap (λ c. c.1 x.cell_id) same ∙ q) k)
        ],
      )
