-- ===== src/Sched/Helper.antt =====
-- src/app/remote_scheduler_helper.cc: the blocks that a UE needs and those that it is given.
-- Cell numbers are below MAX_NUM_CC.
pub mod Required
pub mod Exclusive
pub mod Order
pub mod Blocks
pub mod Few
use flexran_rtc.Base.{
  ℕ, zero, suc, ◌+◌, ◌-◌, ◌%◌, ◌^◌, Bool, true, false, Option, none, some, List, [], ◌∷◌, ◌==◌,
  ◌&&◌, ◌||◌, not, ltb, if◌then◌else◌, length,
}
use flexran_rtc.Base.Maps
use flexran_rtc.Messages.{CellConfig, LcUeConfig, RlcBsr, DlCsi, UeStatsReport}
use flexran_rtc.Rib.SfnSf.{u16}
use flexran_rtc.Rib.Ue.{write1}
use flexran_rtc.Sched.Table.{cqi_to_mcs}
use flexran_rtc.Sched.Primitives.{get_min_rb_unit, get_nb_rbg, get_tbs_dl}
use flexran_rtc.Sched.Info.{
  UeSchedulingInfo, EnbSchedulingInfo, set_high_priority, set_nb_rbs_required, set_remaining,
  set_pre_available, set_rballoc_sub,
}

-- The scheme for the first report about the cell, and zero without one.
pub reported_mcs : ℕ → List DlCsi → ℕ
reported_mcs cell_id [] = 0
reported_mcs cell_id (r ∷ rs) =
    if cell_id == r.serv_cell_index then cqi_to_mcs r.wb_cqi else reported_mcs cell_id rs

abbrev queue_size : RlcBsr → ℕ
queue_size r = elim (r.tx_queue_size) [ some n ↦ n | none ↦ 0 ]

-- The sum as an int of 32 bits: from 2 ^ 31 on it is negative.
unfoldable pub buffer_bytes : List RlcBsr → ℕ
buffer_bytes [] = 0
buffer_bytes (r ∷ rs) = (queue_size r + buffer_bytes rs) % 2 ^ 32

-- The loop of assign_rbs_required from `n` blocks on, on fuel; `none` says that it ran out.
unfoldable pub rbs_loop : ℕ → ℕ → ℕ → ℕ → ℕ → ℕ → Option ℕ
rbs_loop zero mcs unit bandwidth bytes n = none
rbs_loop (suc fuel) mcs unit bandwidth bytes n =
    let more = u16 (n + unit) in
    let rest = rbs_loop fuel mcs unit bandwidth bytes more in
    if ltb (u16 (get_tbs_dl mcs n)) bytes
    then (if ltb bandwidth more then some (u16 bandwidth) else rest)
    else some n

-- The scheme and the blocks that the loop starts with.
abbrev pub first_rbs : CellConfig → ℕ → ℕ
first_rbs cell mcs = if mcs == 0 then 4 else get_min_rb_unit cell

-- Every report of a channel sets the same flag again.
abbrev pub mark_priority : List RlcBsr → LcUeConfig → UeSchedulingInfo → UeSchedulingInfo
mark_priority [] lc u = u
mark_priority (_ ∷ _) lc u = set_high_priority (not (ltb 2 (length lc.lc_config))) u

unfoldable pub assign_rbs_required :
    UeSchedulingInfo → UeStatsReport → CellConfig → LcUeConfig → Option UeSchedulingInfo
unfolding reported_mcs buffer_bytes rbs_loop
assign_rbs_required u report cell lc =
    let mcs = reported_mcs cell.cell_id report.dl_cqi_report.csi_report in
    let bytes = buffer_bytes report.rlc_report in
    let marked = mark_priority report.rlc_report lc u in
    let count : Option ℕ =
      rbs_loop (cell.dl_bandwidth + 1) mcs (get_min_rb_unit cell) cell.dl_bandwidth bytes
        (first_rbs cell mcs) in
    if ltb 0 bytes && ltb bytes (2 ^ 31)
    then elim count [ some n ↦ some (set_nb_rbs_required cell.cell_id n marked) | none ↦ none ]
    else some marked

-- One round of the loop of perform_pre_processor_allocation, on the row of the cell in the map
-- of blocks and on the UE. `rballoc_sub` of the source is that row, and toggle_vrb_map sets it.
unfoldable pub allocate_group :
    CellConfig → ℕ → (ℕ → ℕ) × UeSchedulingInfo → (ℕ → ℕ) × UeSchedulingInfo
allocate_group cell i (row, u) =
    let c = cell.cell_id in
    let unit = get_min_rb_unit cell in
    let remaining = u.nb_rbs_required_remaining c in
    let available = u.pre_nb_rbs_available c in
    let is_free =
      row i == 0
      && (u.rballoc_sub c i == 0 && (ltb 0 remaining && ltb available (u.nb_rbs_required c))) in
    let short = i == get_nb_rbg cell - 1 && (cell.dl_bandwidth == 25 || cell.dl_bandwidth == 50) in
    let give : ℕ → (ℕ → ℕ) × UeSchedulingInfo = λ n. (
      write1 row i 1,
      set_pre_available c (available + n)
          (set_remaining c (remaining - n) (set_rballoc_sub c i 1 u)),
    ) in
    if is_free
    then (if short then give (unit - 1) else if ltb remaining unit then (row, u) else give unit)
    else (row, u)

allocate_groups : CellConfig → ℕ → ℕ → (ℕ → ℕ) × UeSchedulingInfo → (ℕ → ℕ) × UeSchedulingInfo
allocate_groups cell zero i p = p
allocate_groups cell (suc left) i p = allocate_groups cell left (suc i) (allocate_group cell i p)

-- The UE is the object that the map of the eNodeB points to.
unfoldable pub perform_pre_processor_allocation :
    CellConfig → ℕ → EnbSchedulingInfo → EnbSchedulingInfo
unfolding allocate_groups
perform_pre_processor_allocation cell rnti s = elim (Maps.find rnti s.scheduling_info) [
  | none ↦ s
  | some u ↦
      let (row, u') = allocate_groups cell (get_nb_rbg cell) 0 (s.vrb_map cell.cell_id, u) in
      record s {
        vrb_map = λ c g. if c == cell.cell_id then row g else s.vrb_map c g;
        scheduling_info = Maps.modify rnti (λ _. u') s.scheduling_info;
      }
]

-- What sort_UEs keeps of a UE.
pub record UeStats : Type 0 where
  pub ue_id : ℕ
  pub bytes_in_ccch : ℕ
  pub total_bytes_in_buffers : ℕ
  pub hol_delay : ℕ
  pub cqi : ℕ
  pub harq_round : ℕ

-- For values that are not negative.
unfoldable pub compare_stats : UeStats → UeStats → Bool
compare_stats a b =
    if ltb b.harq_round a.harq_round
    then true
    else if ltb a.harq_round b.harq_round
    then false
    else if ltb b.bytes_in_ccch a.bytes_in_ccch
    then true
    else if ltb a.bytes_in_ccch b.bytes_in_ccch
    then false
    else if ltb b.hol_delay a.hol_delay
    then true
    else if ltb a.hol_delay b.hol_delay
    then false
    else if ltb b.total_bytes_in_buffers a.total_bytes_in_buffers
    then true
    else if ltb a.total_bytes_in_buffers b.total_bytes_in_buffers
    then false
    else if ltb b.cqi a.cqi
    then true
    else if ltb a.cqi b.cqi
    then false
    else true
