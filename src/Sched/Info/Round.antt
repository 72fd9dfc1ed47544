-- ===== src/Sched/Info/Round.antt =====
-- A scheduling round of src/app/enb_scheduling_info.cc: the control channel elements that it
-- starts with, and the search for elements in remote_scheduler_primitives.cc.
use flexran_rtc.Base.{
  ℕ, zero, suc, ◌+◌, ◌-◌, ◌||◌, ◌*◌, ◌/◌, ◌%◌, ◌^◌, ◌≤◌, ◌<◌, ◌≡◌, refl, ap, ◌∙◌, inl, inr, ◌⊎◌,
  Bool, true, false, Option, some, arith, ltb, if◌then◌else◌, ◌==◌, Bool-cases, ==_iff,
}
use flexran_rtc.Rib.Ue.{u8}
use flexran_rtc.Messages.{CellConfig, CyclicPrefix, normal_prefix, extended_prefix}
use flexran_rtc.Sched.Primitives.{
  get_ncce_max, get_ncce_offset, get_nquad, get_mi, symbol_elements, phich_groups,
  get_phich_resource, double_if_extended, search_hash,
}
use flexran_rtc.Sched.Primitives.Blocks.{Supported, rb_6, rb_25, rb_50, rb_100}
use flexran_rtc.Sched.Info.{
  EnbSchedulingInfo, increase_num_pdcch_symbols, start_round, cce_loop, cce_allocation_infeasible,
  too_few,
}

-- How many elements the symbols of a cell have.
abbrev pub elements : CellConfig → ℕ → EnbSchedulingInfo → ℕ
elements cell subframe s = get_ncce_max (s.num_pdcch_symbols cell.cell_id) cell subframe

-- The elements that are left are those of the symbols less what was given to UEs, in 32 bits.
abbrev pub Counted : CellConfig → ℕ → EnbSchedulingInfo → Type 0
Counted cell subframe s =
    (used : ℕ) × (used < 2 ^ 16)
    × (s.ncce_rem cell.cell_id ≡ (elements cell subframe s + 2 ^ 32 - used) % 2 ^ 32)

-- What the search may change: the symbols of the cell, up to three, and its elements, which are
-- counted right again; where it succeeds, there are enough of them.
pub record Searched (cell : CellConfig) (subframe aggregation : ℕ) (s s' : EnbSchedulingInfo)
    (infeasible : Bool) : Type 0 where
  pub grown : s.num_pdcch_symbols cell.cell_id ≤ s'.num_pdcch_symbols cell.cell_id
  pub bounded : s'.num_pdcch_symbols cell.cell_id ≤ 3
  pub exhausted :
      ((infeasible ≡ false) × (too_few (s'.ncce_rem cell.cell_id) (2 ^ aggregation) ≡ false))
      ⊎ ((infeasible ≡ true)
          × (s'.num_pdcch_symbols cell.cell_id ≡ 3)
          × (too_few (s'.ncce_rem cell.cell_id) (2 ^ aggregation) ≡ true))
  pub counted : Counted cell subframe s'
  pub others :
      (c' : ℕ)
      → (cell.cell_id == c' ≡ true)
        ⊎ ((s'.num_pdcch_symbols c' ≡ s.num_pdcch_symbols c') × (s'.ncce_rem c' ≡ s.ncce_rem c'))
  pub blocks : s'.vrb_map ≡ s.vrb_map
  pub ues : s'.scheduling_info ≡ s.scheduling_info

-- Where there are enough elements left, the symbols have them on top of those that were given.
pub Counted-room :
    (total used left need : ℕ)
    → total < 2 ^ 16
    → used < 2 ^ 16
    → left ≡ (total + 2 ^ 32 - used) % 2 ^ 32
    → too_few left need ≡ false
    → used + need ≤ total
Counted-room total used left need t u e h = ground (arith, e, h)

pub get_ncce_max-bound :
    (symbols : ℕ) (cell : CellConfig) (subframe : ℕ) → get_ncce_max symbols cell subframe < 2 ^ 16
unfolding get_ncce_max get_nquad
get_ncce_max-bound symbols cell subframe = ground arith

-- The sizes of the levels that DCIs have.
level_sizes :
    (aggregation : ℕ)
    → aggregation ≤ 3
    → (2 ^ aggregation ≡ 1)
      ⊎ ((2 ^ aggregation ≡ 2) ⊎ ((2 ^ aggregation ≡ 4) ⊎ (2 ^ aggregation ≡ 8)))
level_sizes zero h = inl refl
level_sizes (suc zero) h = inr (inl refl)
level_sizes (suc (suc zero)) h = inr (inr (inl refl))
level_sizes (suc (suc (suc zero))) h = inr (inr (inr refl))
level_sizes (suc (suc (suc (suc n)))) h = absurd (omega arith)

module _ (total rnti subframe : ℕ) where
  offset_at :
      (need : ℕ)
      → (need == 0 || total / need == 0) ≡ false
      → (need == 1 || (need == 2 || (need == 4 || need == 8))) ≡ true
      → (offset : ℕ) × (get_ncce_offset need total false rnti subframe ≡ some (some offset))
  unfolding get_ncce_offset search_hash
  offset_at need some_groups known = (
    search_hash subframe (rnti % 2 ^ 32) % (total / need) % (total / need) * need,
    rw (some_groups, known) refl,
  )

  -- There is an offset where there are elements enough.
  get_ncce_offset-Found :
      (need : ℕ)
      → (need ≡ 1) ⊎ ((need ≡ 2) ⊎ ((need ≡ 4) ⊎ (need ≡ 8)))
      → need ≤ total
      → (offset : ℕ) × (get_ncce_offset (u8 need) total false rnti subframe ≡ some (some offset))
  get_ncce_offset-Found need (inl e) h =
      rw e (offset_at 1 (let b : 1 ≤ total = rw (← e) h in ground (arith, b)) refl)
  get_ncce_offset-Found need (inr (inl e)) h =
      rw e (offset_at 2 (let b : 2 ≤ total = rw (← e) h in ground (arith, b)) refl)
  get_ncce_offset-Found need (inr (inr (inl e))) h =
      rw e (offset_at 4 (let b : 4 ≤ total = rw (← e) h in ground (arith, b)) refl)
  get_ncce_offset-Found need (inr (inr (inr e))) h =
      rw e (offset_at 8 (let b : 8 ≤ total = rw (← e) h in ground (arith, b)) refl)

module _ (cell : CellConfig) (rnti aggregation subframe : ℕ) where
  Searched-increase :
      (s s' : EnbSchedulingInfo) (flag : Bool)
      → s.num_pdcch_symbols cell.cell_id < 3
      → Searched cell subframe aggregation (increase_num_pdcch_symbols cell subframe s) s' flag
      → Searched cell subframe aggregation s s' flag
  unfolding increase_num_pdcch_symbols
  Searched-increase s s' flag h r = record {
    grown = ground (arith, r.grown);
    bounded = r.bounded;
    exhausted = r.exhausted;
    counted = r.counted;
    others = λ c'. ground (arith, ==_iff cell.cell_id c', r.others c');
    blocks = r.blocks;
    ues = r.ues;
  }

  increased :
      (s : EnbSchedulingInfo)
      → s.num_pdcch_symbols cell.cell_id < 3
      → (increase_num_pdcch_symbols cell subframe s).num_pdcch_symbols cell.cell_id
        ≡ s.num_pdcch_symbols cell.cell_id + 1
  unfolding increase_num_pdcch_symbols
  increased s h = ground arith

  -- One more symbol leaves what was given to UEs.
  increased-rem :
      (s : EnbSchedulingInfo) (used : ℕ)
      → s.num_pdcch_symbols cell.cell_id < 3
      → used < 2 ^ 16
      → s.ncce_rem cell.cell_id ≡ (elements cell subframe s + 2 ^ 32 - used) % 2 ^ 32
      → (increase_num_pdcch_symbols cell subframe s).ncce_rem cell.cell_id
        ≡ (get_ncce_max (s.num_pdcch_symbols cell.cell_id + 1) cell subframe + 2 ^ 32 - used)
          % 2 ^ 32
  unfolding increase_num_pdcch_symbols
  increased-rem s used h b e =
      let n = s.num_pdcch_symbols cell.cell_id in
      let same : u8 (n + 1) ≡ n + 1 = omega arith in
      let low = get_ncce_max-bound n cell subframe in
      let given : (elements cell subframe s + 2 ^ 32 - s.ncce_rem cell.cell_id) % 2 ^ 32 ≡ used =
        omega (arith, e, low) in
      rw (same, given) (ground arith)

  increased-Counted :
      (s : EnbSchedulingInfo)
      → s.num_pdcch_symbols cell.cell_id < 3
      → Counted cell subframe s
      → Counted cell subframe (increase_num_pdcch_symbols cell subframe s)
  increased-Counted s h (used, b, e) = (used, b, rw (increased s h) (increased-rem s used h b e))

  abbrev Enough : EnbSchedulingInfo → Type 0
  Enough s = too_few (s.ncce_rem cell.cell_id) (2 ^ aggregation) ≡ false

  -- Where enough elements are left, an offset is found and nothing is divided by zero.
  offset_of :
      (s : EnbSchedulingInfo)
      → aggregation ≤ 3
      → Counted cell subframe s
      → Enough s
      → (offset : ℕ) × (get_ncce_offset
            (u8 (2 ^ aggregation))
            (elements cell subframe s)
            false
            rnti
            subframe
          ≡ some (some offset))
  offset_of s level (used, b, e) enough =
      let room =
        Counted-room (elements cell subframe s) used (s.ncce_rem cell.cell_id) (2 ^ aggregation)
          (get_ncce_max-bound (s.num_pdcch_symbols cell.cell_id) cell subframe) b e enough in
      get_ncce_offset-Found (elements cell subframe s) rnti subframe (2 ^ aggregation)
        (level_sizes aggregation level) (omega (arith, room))

  abbrev loop : ℕ → EnbSchedulingInfo → Option (EnbSchedulingInfo × Bool)
  loop fuel s = cce_loop fuel (s.ncce_rem cell.cell_id) s cell rnti aggregation subframe

  loop-Enough :
      (fuel : ℕ) (s : EnbSchedulingInfo)
      → aggregation ≤ 3
      → Counted cell subframe s
      → Enough s
      → loop (suc fuel) s ≡ some (s, false)
  unfolding cce_loop
  loop-Enough fuel s level k enough =
      let (offset, e) = offset_of s level k enough in rw (enough, e) refl

  loop-full :
      (fuel : ℕ) (s : EnbSchedulingInfo)
      → too_few (s.ncce_rem cell.cell_id) (2 ^ aggregation) ≡ true
      → (s.num_pdcch_symbols cell.cell_id == 3) ≡ true
      → loop (suc fuel) s ≡ some (s, true)
  unfolding cce_loop
  loop-full fuel s few full = rw (few, full) refl

  loop-next :
      (fuel : ℕ) (s : EnbSchedulingInfo)
      → too_few (s.ncce_rem cell.cell_id) (2 ^ aggregation) ≡ true
      → (s.num_pdcch_symbols cell.cell_id == 3) ≡ false
      → loop (suc fuel) s ≡ loop fuel (increase_num_pdcch_symbols cell subframe s)
  unfolding cce_loop
  loop-next fuel s few more = rw (few, more) refl

  unchanged :
      (s : EnbSchedulingInfo) (flag : Bool)
      → s.num_pdcch_symbols cell.cell_id ≤ 3
      → Counted cell subframe s
      → ((flag ≡ false) × Enough s)
        ⊎ ((flag ≡ true)
            × (s.num_pdcch_symbols cell.cell_id ≡ 3)
            × (too_few (s.ncce_rem cell.cell_id) (2 ^ aggregation) ≡ true))
      → Searched cell subframe aggregation s s flag
  unchanged s flag h k e = record {
    grown = omega arith;
    bounded = h;
    exhausted = e;
    counted = k;
    others = λ c'. inr (refl, refl);
    blocks = refl;
    ues = refl;
  }

  loop-Searched :
      (fuel : ℕ) (s : EnbSchedulingInfo)
      → aggregation ≤ 3
      → s.num_pdcch_symbols cell.cell_id ≤ 3
      → Counted cell subframe s
      → 3 < s.num_pdcch_symbols cell.cell_id + fuel
      → (s' : EnbSchedulingInfo) × (flag : Bool) × (loop fuel s ≡ some (s', flag))
        × Searched cell subframe aggregation s s' flag
  loop-Searched zero s level h k f = absurd (omega arith)
  loop-Searched (suc fuel) s level h k f =
      elim (Bool-cases (too_few (s.ncce_rem cell.cell_id) (2 ^ aggregation))) [
        | inr enough ↦ (
          s,
          false,
          loop-Enough fuel s level k enough,
          unchanged s false h k (inl (refl, enough)),
        )
        | inl few ↦ elim (Bool-cases (s.num_pdcch_symbols cell.cell_id == 3)) [
          | inl full ↦ (
            s,
            true,
            loop-full fuel s few full,
            unchanged s true h k (inr (refl, ground (arith, full), few)),
          )
          | inr more ↦
              let below : s.num_pdcch_symbols cell.cell_id < 3 = ground arith in
              let up = increased s below in
              let (s', flag, same, r) =
                loop-Searched fuel (increase_num_pdcch_symbols cell subframe s) level
                  (omega (arith, up)) (increased-Counted s below k) (omega (arith, up)) in
              (s', flag, loop-next fuel s few more ∙ same, Searched-increase s s' flag below r)
        ]
      ]

  -- For a level of at most three, from at most three symbols and where the elements that are left
  -- are those of the symbols less what was given to UEs: the search ends, and nothing is divided by
  -- zero. It never takes symbols away, stops at three, says that an allocation is infeasible only
  -- with three symbols and too few elements, and else leaves enough of them; the elements are
  -- counted right again, and it changes nothing but the symbols and the elements of its own cell.
  pub cce_allocation_infeasible_lem :
      (s : EnbSchedulingInfo)
      → aggregation ≤ 3
      → s.num_pdcch_symbols cell.cell_id ≤ 3
      → Counted cell subframe s
      → (s' : EnbSchedulingInfo) × (flag : Bool) × (cce_allocation_infeasible s cell rnti
            aggregation subframe
          ≡ some (s', flag))
        × Searched cell subframe aggregation s s' flag
  unfolding cce_allocation_infeasible
  cce_allocation_infeasible_lem s level h k = loop-Searched 5 s level h k (omega arith)

phich_groups-bound : (cell : CellConfig) (mi : ℕ) → phich_groups cell mi < 256
unfolding phich_groups
phich_groups-bound cell mi = omega arith

-- Without symbols the quadruplets wrap around below zero.
none_wrap : (cell : CellConfig) (subframe : ℕ) → 7000 < get_ncce_max 0 cell subframe
unfolding get_ncce_max get_nquad symbol_elements
none_wrap cell subframe = omega (arith, phich_groups-bound cell (get_mi cell subframe))

double_if_extended-bound : (p : CyclicPrefix) (n : ℕ) → n < 128 → double_if_extended p n ≤ 2 * n
unfolding double_if_extended
double_if_extended-bound normal_prefix n h = omega arith
double_if_extended-bound extended_prefix n h = omega arith

get_phich_resource-bound : (cell : CellConfig) → get_phich_resource cell ≤ 12
unfolding get_phich_resource
get_phich_resource-bound cell = ground arith

phich_groups-small :
    (cell : CellConfig) (mi product : ℕ)
    → product ≤ 1200
    → mi ≡ 1
    → get_phich_resource cell * cell.dl_bandwidth ≡ product
    → phich_groups cell mi ≤ 2 * (product / 48 + 1)
unfolding phich_groups
phich_groups-small cell mi product h one e =
    rw (e, one)
      (ground (arith, double_if_extended-bound cell.dl_cyclic_prefix_length rounded (ground arith)))
  where
    rounded : ℕ
    rounded =
        if ltb 0 (product % 48)
        then ((product / 48) % 2 ^ 8 + 1) % 2 ^ 8
        else (product / 48) % 2 ^ 8

symbol_elements-three :
    (cell : CellConfig) (b : ℕ)
    → cell.dl_bandwidth ≡ b
    → Supported b
    → (symbol_elements 3 cell ≡ some (8 * b)) × (5 < b) × (b < 101)
unfolding symbol_elements
symbol_elements-three cell b e rb_6 = (rw e refl, omega arith, omega arith)
symbol_elements-three cell b e rb_25 = (rw e refl, omega arith, omega arith)
symbol_elements-three cell b e rb_50 = (rw e refl, omega arith, omega arith)
symbol_elements-three cell b e rb_100 = (rw e refl, omega arith, omega arith)

three_bound :
    (cell : CellConfig) (subframe b : ℕ)
    → cell.dl_bandwidth ≡ b
    → Supported b
    → get_ncce_max 3 cell subframe < 100
unfolding get_ncce_max get_nquad get_mi
three_bound cell subframe b e h =
    let (elements, low, high) = symbol_elements-three cell b e h in
    let few = get_phich_resource-bound cell in
    let product : get_phich_resource cell * b ≤ 12 * b = grind (arith, few) in
    let groups =
      phich_groups-small cell 1 (get_phich_resource cell * b) (omega (arith, product)) refl
        (ap (λ x. get_phich_resource cell * x) e) in
    rw (get_nquad, elements) (omega (arith, groups, product))

-- A round starts with over 6900 more control channel elements counted than three symbols
-- have, whatever the subframe, for each supported bandwidth: it counts them for no symbols,
-- where the quadruplets wrap around.
pub start_round_lem :
    (subframe : ℕ) (cell : CellConfig) (s : EnbSchedulingInfo)
    → Supported cell.dl_bandwidth
    → get_ncce_max 3 cell subframe + 6900 < (start_round subframe cell s).ncce_rem cell.cell_id
unfolding start_round
start_round_lem subframe cell s h =
    ground (arith, none_wrap cell subframe, three_bound cell subframe cell.dl_bandwidth refl h)
