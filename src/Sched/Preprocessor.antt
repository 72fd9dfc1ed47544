-- ===== src/Sched/Preprocessor.antt =====
-- run_dlsch_scheduler_preprocessor and sort_UEs of src/app/remote_scheduler_helper.cc: who
-- needs resource blocks, in which order, and who gets them. Cell numbers are below MAX_NUM_CC,
-- and no more UEs are configured than MAX_NUM_UE.
pub mod Run
pub mod Sorting
use flexran_rtc.Base.{
  ℕ, zero, suc, ◌+◌, ◌-◌, ◌*◌, ◌/◌, ◌%◌, ◌^◌, ◌≡◌, Bool, true, false, Option, none, some, List, [],
  ◌∷◌, map, ◌==◌, ◌&&◌, ◌||◌, not, ltb, leb, if◌then◌else◌, get_elem?, min, max, length, All,
}
use flexran_rtc.Base.Faults.{◌>>=◌, for_each}
use flexran_rtc.Base.Maps
use flexran_rtc.Messages.{CellConfig, UeConfig, LcUeConfig, RlcBsr, DlCsi, UeStatsReport}
use flexran_rtc.Rib.SfnSf.{u16}
use flexran_rtc.Rib.Ue.{UeMacRibInfo, has_available_harq, get_next_available_harq, get_harq_stats}
use flexran_rtc.Rib.Enb.{EnbRibInfo, get_ue_mac_info}
use flexran_rtc.Sched.Primitives.{get_min_rb_unit}
use flexran_rtc.Sched.Info.{
  UeSchedulingInfo, EnbSchedulingInfo, start_ue_round, create_ue_scheduling_info,
  get_ue_scheduling_info, set_harq_round, set_nb_rbs_required, set_nb_scheduled_rbs, set_remaining,
  set_remaining_1,
}
use flexran_rtc.Sched.Helper.{UeStats, assign_rbs_required, perform_pre_processor_allocation}

-- A change of the object that the map has for a UE.
unfoldable pub with_ue :
    (UeSchedulingInfo → Option UeSchedulingInfo) → ℕ → EnbSchedulingInfo → Option EnbSchedulingInfo
with_ue f rnti s = do
  u ← Maps.find rnti s.scheduling_info
  u' ← f u
  some (record s { scheduling_info = Maps.modify rnti (λ _. u') s.scheduling_info })

-- The first logical channel configuration of the UE.
unfoldable pub find_lc : ℕ → List LcUeConfig → Option LcUeConfig
find_lc rnti [] = none
find_lc rnti (l ∷ ls) = if l.rnti == rnti then some l else find_lc rnti ls

-- `ue_mac_info->get_mac_stats_report()`
unfoldable pub assign_from :
    CellConfig → LcUeConfig → Option UeMacRibInfo → UeSchedulingInfo → Option UeSchedulingInfo
assign_from cell lc mac u = do m ← mac; assign_rbs_required u m.mac_stats_report cell lc

-- Whether the UE is assigned to the cell.
abbrev pub in_cell : CellConfig → UeConfig → Bool
in_cell cell c = c.pcell_carrier_index == cell.cell_id

unfoldable pub started : UeConfig → EnbSchedulingInfo → Option EnbSchedulingInfo
started c s = elim (get_ue_scheduling_info c.rnti s) [
  | none ↦ some (create_ue_scheduling_info c.rnti s)
  | some u ↦ with_ue (λ v. some (start_ue_round v)) c.rnti s
]

-- The first loop: each UE of the cell starts its round and is given what it needs.
unfoldable pub prepare_ue :
    CellConfig
    → List LcUeConfig
    → EnbRibInfo
    → UeConfig
    → EnbSchedulingInfo
    → Option EnbSchedulingInfo
unfolding find_lc assign_from started
prepare_ue cell lcs e c s =
    let prepared : Option EnbSchedulingInfo = started c s >>= (λ s'. elim (find_lc c.rnti lcs) [
      | none ↦ some s'
      | some lc ↦ with_ue (assign_from cell lc (get_ue_mac_info e c.rnti)) c.rnti s'
    ]) in
    if in_cell cell c then prepared else some s

-- sort_UEs: the sums are unsigned of 32 bits; an int reads them as long as they are below 2 ^ 31.
unfoldable pub ccch_bytes : List RlcBsr → ℕ
ccch_bytes [] = 0
ccch_bytes (r ∷ rs) =
    let rest = ccch_bytes rs in
    let size : ℕ = elim (r.tx_queue_size) [ some n ↦ n | none ↦ 0 ] in
    if r.lc_id == 1 || r.lc_id == 2 then (size + rest) % 2 ^ 32 else rest

unfoldable pub all_bytes : List RlcBsr → ℕ
all_bytes [] = 0
all_bytes (r ∷ rs) =
    let size : ℕ = elim (r.tx_queue_size) [ some n ↦ n | none ↦ 0 ] in
    (size + all_bytes rs) % 2 ^ 32

unfoldable pub longest_delay : List RlcBsr → ℕ
longest_delay [] = 0
longest_delay (r ∷ rs) =
    let delay : ℕ = elim (r.tx_queue_hol_delay) [ some n ↦ n | none ↦ 0 ] in
    max delay (longest_delay rs)

unfoldable pub reported_cqi : ℕ → List DlCsi → ℕ
reported_cqi cell_id [] = 0
reported_cqi cell_id (r ∷ rs) =
    if cell_id == r.serv_cell_index then r.wb_cqi else reported_cqi cell_id rs

abbrev pub no_stats : ℕ → UeStats
no_stats i = record {
  ue_id = i;
  bytes_in_ccch = 0;
  total_bytes_in_buffers = 0;
  hol_delay = 0;
  cqi = 0;
  harq_round = 0;
}

unfoldable pub stats_from : CellConfig → ℕ → UeMacRibInfo → UeStats
unfolding ccch_bytes all_bytes longest_delay reported_cqi
stats_from cell i mac =
    let report = mac.mac_stats_report in
    elim (get_next_available_harq mac cell.cell_id) [
      | none ↦ no_stats i
      | some harq_pid ↦ record {
        ue_id = i;
        bytes_in_ccch = ccch_bytes report.rlc_report;
        total_bytes_in_buffers = all_bytes report.rlc_report;
        hol_delay = longest_delay report.rlc_report;
        cqi = reported_cqi cell.cell_id report.dl_cqi_report.csi_report;
        harq_round = get_harq_stats mac cell.cell_id harq_pid;
      }
    ]

-- The fields of the element `i` of ue_list.
unfoldable pub ue_stats : CellConfig → EnbRibInfo → ℕ → UeConfig → Option UeStats
unfolding stats_from
ue_stats cell e i c =
    let found : Option UeStats = get_ue_mac_info e c.rnti >>= (λ mac.
      some (if has_available_harq mac cell.cell_id then stats_from cell i mac else no_stats i)) in
    if in_cell cell c then found else some (no_stats i)

unfoldable pub ue_list : CellConfig → EnbRibInfo → ℕ → List UeConfig → Option (List UeStats)
ue_list cell e i [] = some []
ue_list cell e i (c ∷ cs) = do
  x ← ue_stats cell e i c
  xs ← ue_list cell e (suc i) cs
  some (x ∷ xs)

-- How many elements the std::sort of libstdc++ sorts by insertion alone.
abbrev pub insertion_limit : ℕ
insertion_limit = 16

-- `sort` is what std::sort by compare_stats makes of the first num_ues elements. As compare_stats is
-- true for ties it is no strict order: for more elements than are sorted by insertion the source has
-- undefined behaviour, for which `none` stands.
unfoldable pub sort_ues :
    (List UeStats → List UeStats) → CellConfig → List UeConfig → EnbRibInfo → Option (List ℕ)
unfolding ue_stats ue_list
sort_ues sort cell ues e = do
  l ← ue_list cell e 0 ues
  let ids = map (λ (x : UeStats). x.ue_id) (sort l)
  if leb (length l) insertion_limit then some ids else none

-- The UEs at the indices: each loop over `*sorted_ues` reads them again.
unfoldable pub pick : List UeConfig → List ℕ → Option (List UeConfig)
pick ues [] = some []
pick ues (i ∷ is) = do c ← get_elem? ues i; cs ← pick ues is; some (c ∷ cs)
