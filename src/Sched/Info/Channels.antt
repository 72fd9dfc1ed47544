-- ===== src/Sched/Info/Channels.antt =====
-- The control channels of all cells of an eNodeB, as src/app/enb_scheduling_info.cc counts their
-- elements in one slot.
use flexran_rtc.Base.{
  ℕ, ◌+◌, ◌<◌, ◌≤◌, ◌≡◌, refl, sym, ap, ◌∙◌, inl, inr, ◌⊎◌, ◌||◌, Bool, true, false, List, [], ◌∷◌,
  arith, ◌==◌, ==_iff, Bool-cases, All,
}
use flexran_rtc.Messages.{CellConfig}
use flexran_rtc.Rib.Ue.{max_num_cc}
use flexran_rtc.Sched.Info.{EnbSchedulingInfo, assign_cce, start_round, too_few}
use flexran_rtc.Sched.Info.Round.{elements, Counted, Searched, Counted-room, get_ncce_max-bound}

-- The number of the cell and its blocks fit the arrays.
abbrev pub Within : CellConfig → Type 0
Within cell = (cell.cell_id < max_num_cc) × (cell.dl_bandwidth ≤ 100)

-- The number of a cell tells its configuration.
abbrev pub Apart : (ℕ → CellConfig) → List CellConfig → Type 0
Apart cell_of cells = All (λ cell. cell_of cell.cell_id ≡ cell) cells

abbrev pub has_cell : List CellConfig → ℕ → Bool
has_cell [] c = false
has_cell (cell ∷ cells) c = cell.cell_id == c || has_cell cells c

-- The elements of the cells in the list are counted right.
abbrev pub Channels : (ℕ → CellConfig) → List CellConfig → ℕ → EnbSchedulingInfo → Type 0
Channels cell_of cells subframe s =
    (x : CellConfig)
    → cell_of x.cell_id ≡ x
    → has_cell cells x.cell_id ≡ true
    → Counted x subframe s

-- Counting depends on the symbols and the elements of the cell only.
pub Counted-same :
    (x : CellConfig) (subframe : ℕ) (s s' : EnbSchedulingInfo)
    → s'.num_pdcch_symbols x.cell_id ≡ s.num_pdcch_symbols x.cell_id
    → s'.ncce_rem x.cell_id ≡ s.ncce_rem x.cell_id
    → Counted x subframe s
    → Counted x subframe s'
Counted-same x subframe s s' p q (used, b, e) = (used, b, q ∙ rw p e)

module _ (cell_of : ℕ → CellConfig) (cells : List CellConfig) (subframe : ℕ) where
  -- A change of one cell after which its elements are counted right.
  Channels-change :
      (cell : CellConfig) (s s' : EnbSchedulingInfo)
      → cell_of cell.cell_id ≡ cell
      → Counted cell subframe s'
      → ((c' : ℕ)
          → (cell.cell_id == c' ≡ true)
            ⊎ ((s'.num_pdcch_symbols c' ≡ s.num_pdcch_symbols c')
                × (s'.ncce_rem c' ≡ s.ncce_rem c')))
      → Channels cell_of cells subframe s
      → Channels cell_of cells subframe s'
  Channels-change cell s s' own k others h x is listed = elim (others x.cell_id) [
    | inl same ↦
        let e : cell ≡ x = sym own ∙ (ap cell_of ((==_iff cell.cell_id x.cell_id).0 same) ∙ is) in
        rw (← e) k
    | inr (p, q) ↦ Counted-same x subframe s s' p q (h x is listed)
  ]

  pub Channels-search :
      (cell : CellConfig) (aggregation : ℕ) (s s' : EnbSchedulingInfo) (flag : Bool)
      → cell_of cell.cell_id ≡ cell
      → Searched cell subframe aggregation s s' flag
      → Channels cell_of cells subframe s
      → Channels cell_of cells subframe s'
  Channels-search cell aggregation s s' flag own r h =
      Channels-change cell s s' own r.counted r.others h

  assigned-Counted :
      (cell : CellConfig) (n : ℕ) (s : EnbSchedulingInfo)
      → too_few (s.ncce_rem cell.cell_id) n ≡ false
      → Counted cell subframe s
      → Counted cell subframe (assign_cce cell.cell_id n s)
  unfolding assign_cce
  assigned-Counted cell n s enough (used, b, e) =
      let low = get_ncce_max-bound (s.num_pdcch_symbols cell.cell_id) cell subframe in
      let room =
        Counted-room (elements cell subframe s) used (s.ncce_rem cell.cell_id) n low b e enough in
      (used + n, omega (arith, room, low), ground (arith, e, room, low))

  pub Channels-assign :
      (cell : CellConfig) (n : ℕ) (s : EnbSchedulingInfo)
      → cell_of cell.cell_id ≡ cell
      → has_cell cells cell.cell_id ≡ true
      → too_few (s.ncce_rem cell.cell_id) n ≡ false
      → Channels cell_of cells subframe s
      → Channels cell_of cells subframe (assign_cce cell.cell_id n s)
  unfolding assign_cce
  Channels-assign cell n s own listed enough h =
      Channels-change cell s (assign_cce cell.cell_id n s) own
        (assigned-Counted cell n s enough (h cell own listed))
        (λ c'. elim (Bool-cases (cell.cell_id == c')) [
          | inl same ↦ inl same
          | inr other ↦ inr (refl, ground (arith, other))
        ])
        h

-- The scheduling information of the UEs does not matter.
pub Channels-same :
    (cell_of : ℕ → CellConfig) (cells : List CellConfig) (subframe : ℕ) (s s' : EnbSchedulingInfo)
    → ((c : ℕ) → s'.num_pdcch_symbols c ≡ s.num_pdcch_symbols c)
    → ((c : ℕ) → s'.ncce_rem c ≡ s.ncce_rem c)
    → Channels cell_of cells subframe s
    → Channels cell_of cells subframe s'
Channels-same cell_of cells subframe s s' p q h x is listed =
    Counted-same x subframe s s' (p x.cell_id) (q x.cell_id) (h x is listed)

-- A round starts with all elements that no symbols have, but in subframes 0 and 5, where it starts
-- with three symbols.
pub start_round-Counted :
    (subframe : ℕ) (cell : CellConfig) (s : EnbSchedulingInfo)
    → (subframe == 0 || subframe == 5) ≡ false
    → Counted cell subframe (start_round subframe cell s)
unfolding start_round
start_round-Counted subframe cell s plain =
    (0, omega arith, let low = get_ncce_max-bound 0 cell subframe in ground (arith, plain, low))
