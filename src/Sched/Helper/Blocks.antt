-- ===== src/Sched/Helper/Blocks.antt =====
-- How many resource blocks src/app/remote_scheduler_helper.cc counts for a UE.
use flexran_rtc.Base.{
  ℕ, zero, suc, ◌+◌, ◌*◌, ◌^◌, ◌≤◌, ◌<◌, ◌≡◌, refl, sym, ◌∙◌, false, some, arith, if◌then◌else◌,
  ◌==◌,
}
use flexran_rtc.Base.Maps.{find, find-modify}
use flexran_rtc.Messages.{CellConfig}
use flexran_rtc.Sched.Primitives.{get_nb_rbg, get_min_rb_unit, group_blocks}
use flexran_rtc.Sched.Primitives.Blocks.{Supported, rb_6, rb_25, rb_50, rb_100}
use flexran_rtc.Sched.Info.{UeSchedulingInfo, EnbSchedulingInfo}
use flexran_rtc.Sched.Helper.{allocate_group, allocate_groups, perform_pre_processor_allocation}

-- The blocks of the groups from `i` on, `left` of them, in which two rows of the map differ.
pub gained : CellConfig → (ℕ → ℕ) → (ℕ → ℕ) → ℕ → ℕ → ℕ
gained cell row row' zero i = 0
gained cell row row' (suc left) i =
    (if row i == row' i then 0 else group_blocks cell i) + gained cell row row' left (suc i)

gained-later :
    (cell : CellConfig) (row row1 row' : ℕ → ℕ) (left i : ℕ)
    → ((j : ℕ) → i ≤ j → row j ≡ row1 j)
    → gained cell row row' left i ≡ gained cell row1 row' left i
unfolding gained
gained-later cell row row1 row' zero i h = refl
gained-later cell row row1 row' (suc left) i h = ground (
  arith,
  h i (omega arith),
  gained-later cell row row1 row' left (suc i) (λ j b. h j (omega arith)),
)

group_other :
    (cell : CellConfig) (i j : ℕ) (p : (ℕ → ℕ) × UeSchedulingInfo)
    → (i == j) ≡ false
    → (allocate_group cell i p).0 j ≡ p.0 j
unfolding allocate_group
group_other cell i j p h = ground arith

groups_earlier :
    (cell : CellConfig) (left i j : ℕ) (p : (ℕ → ℕ) × UeSchedulingInfo)
    → j < i
    → (allocate_groups cell left i p).0 j ≡ p.0 j
unfolding allocate_groups
groups_earlier cell zero i j p h = refl
groups_earlier cell (suc left) i j p h =
    let off : (i == j) ≡ false = ground arith in
    groups_earlier cell left (suc i) j (allocate_group cell i p) (omega arith)
    ∙ group_other cell i j p off

group_count :
    (cell : CellConfig) (b i : ℕ) (p : (ℕ → ℕ) × UeSchedulingInfo)
    → cell.dl_bandwidth ≡ b
    → Supported b
    → p.1.pre_nb_rbs_available cell.cell_id + 4 < 2 ^ 16
    → (allocate_group cell i p).1.pre_nb_rbs_available cell.cell_id
      ≡ p.1.pre_nb_rbs_available cell.cell_id
        + (if p.0 i == (allocate_group cell i p).0 i then 0 else group_blocks cell i)
unfolding allocate_group get_min_rb_unit group_blocks get_nb_rbg
group_count cell b i p e rb_6 h = ground (arith, e)
group_count cell b i p e rb_25 h = ground (arith, e)
group_count cell b i p e rb_50 h = ground (arith, e)
group_count cell b i p e rb_100 h = ground (arith, e)

group_blocks-bound : (cell : CellConfig) (i : ℕ) → group_blocks cell i ≤ 4
unfolding group_blocks
group_blocks-bound cell i = ground arith

groups_count :
    (cell : CellConfig) (left i : ℕ) (p : (ℕ → ℕ) × UeSchedulingInfo)
    → Supported cell.dl_bandwidth
    → p.1.pre_nb_rbs_available cell.cell_id + 4 * left < 2 ^ 16
    → (allocate_groups cell left i p).1.pre_nb_rbs_available cell.cell_id
      ≡ p.1.pre_nb_rbs_available cell.cell_id
        + gained cell p.0 (allocate_groups cell left i p).0 left i
unfolding allocate_groups gained
groups_count cell zero i p h b = omega arith
groups_count cell (suc left) i p h b =
    let q = allocate_group cell i p in
    let one = group_count cell cell.dl_bandwidth i p refl h (omega arith) in
    let small = group_blocks-bound cell i in
    let more : q.1.pre_nb_rbs_available cell.cell_id ≤ p.1.pre_nb_rbs_available cell.cell_id + 4 =
      ground (arith, one, small) in
    let rest = groups_count cell left (suc i) q h (omega (arith, more)) in
    let same = groups_earlier cell left (suc i) i q (omega arith) in
    let later =
      gained-later cell p.0 q.0 (allocate_groups cell left (suc i) q).0 left (suc i)
        (λ j d. sym (group_other cell i j p (ground arith))) in
    ground (arith, one, rest, same, later)

gained-same :
    (cell : CellConfig) (row row' row1 : ℕ → ℕ) (left i : ℕ)
    → ((j : ℕ) → row' j ≡ row1 j)
    → gained cell row row' left i ≡ gained cell row row1 left i
unfolding gained
gained-same cell row row' row1 zero i h = refl
gained-same cell row row' row1 (suc left) i h =
    ground (arith, h i, gained-same cell row row' row1 left (suc i) h)

pub get_nb_rbg-bound : (cell : CellConfig) → get_nb_rbg cell ≤ 25
unfolding get_nb_rbg
get_nb_rbg-bound cell = ground arith

module _ (cell : CellConfig) (rnti : ℕ) (s : EnbSchedulingInfo) (u : UeSchedulingInfo) where
  abbrev run : (ℕ → ℕ) × UeSchedulingInfo
  run = allocate_groups cell (get_nb_rbg cell) 0 (s.vrb_map cell.cell_id, u)

  find-perform :
      find rnti s.scheduling_info ≡ some u
      → find rnti (perform_pre_processor_allocation cell rnti s).scheduling_info ≡ some run.1
  unfolding perform_pre_processor_allocation allocate_groups
  find-perform e =
      rw (perform_pre_processor_allocation, e)
        (ground (arith, e, find-modify rnti rnti (λ _. run.1) s.scheduling_info))

  vrb_map-perform :
      find rnti s.scheduling_info ≡ some u
      → (j : ℕ) → (perform_pre_processor_allocation cell rnti s).vrb_map cell.cell_id j ≡ run.0 j
  unfolding perform_pre_processor_allocation allocate_groups
  vrb_map-perform e j = rw (perform_pre_processor_allocation, e) (ground arith)

-- The allocation for a UE that the map of UEs has, in a cell of a supported bandwidth and with
-- fewer than 60000 blocks counted for the UE, adds to that count exactly the sizes of the groups
-- that the map of the cell has gained.
pub perform_pre_processor_allocation_lem :
    (cell : CellConfig) (rnti : ℕ) (s : EnbSchedulingInfo) (u : UeSchedulingInfo)
    → Supported cell.dl_bandwidth
    → find rnti s.scheduling_info ≡ some u
    → u.pre_nb_rbs_available cell.cell_id < 60000
    → let s' = perform_pre_processor_allocation cell rnti s in
      (u' : UeSchedulingInfo) × (find rnti s'.scheduling_info ≡ some u')
      × (u'.pre_nb_rbs_available cell.cell_id
          ≡ u.pre_nb_rbs_available cell.cell_id
            + gained cell (s.vrb_map cell.cell_id) (s'.vrb_map cell.cell_id) (get_nb_rbg cell) 0)
perform_pre_processor_allocation_lem cell rnti s u h e b =
    let (row, u') = run cell rnti s u in
    let count =
      groups_count cell (get_nb_rbg cell) 0 (s.vrb_map cell.cell_id, u) h
        (omega (arith, get_nb_rbg-bound cell)) in
    let s' = perform_pre_processor_allocation cell rnti s in
    let same =
      gained-same cell (s.vrb_map cell.cell_id) (s'.vrb_map cell.cell_id) row (get_nb_rbg cell) 0
        (vrb_map-perform cell rnti s u e) in
    (u', find-perform cell rnti s u e, ground (arith, count, same))
