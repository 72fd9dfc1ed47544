-- ===== src/Tests/Sched.antt =====
-- The laws of src/app at concrete inputs: a cell of 25 blocks with two UEs.
use flexran_rtc.Base.{
  refl, ℕ, ◌+◌, ◌^◌, ◌≤◌, ◌<◌, ◌≡◌, inl, Bool, none, some, [], ◌∷◌, arith, true, ◌⊎◌, ◌↔◌, ◌&&◌,
  ◌||◌, not,
}
use flexran_rtc.Base.Maps.{find}
use flexran_rtc.Messages.{LcUeConfig, UeStatsReport}
use flexran_rtc.Rib.Ue.{empty_report}
use flexran_rtc.Sched.Primitives.{get_nb_rbg, get_min_rb_unit, get_ncce_max}
use flexran_rtc.Sched.Primitives.Blocks.{rb_25}
use flexran_rtc.Sched.Info.{
  UeSchedulingInfo, EnbSchedulingInfo, new_enb_info, new_ue_info, start_round,
  cce_allocation_infeasible,
}
use flexran_rtc.Sched.Info.Round.{Searched, cce_allocation_infeasible_lem, start_round_lem}
use flexran_rtc.Sched.Helper.{
  reported_mcs, buffer_bytes, first_rbs, assign_rbs_required, perform_pre_processor_allocation,
  UeStats, compare_stats,
}
use flexran_rtc.Sched.Helper.Order.{SameStats, compare_stats_lem}
use flexran_rtc.Sched.Helper.Blocks.{gained, perform_pre_processor_allocation_lem}
use flexran_rtc.Sched.Helper.Required.{Least, assign_rbs_required_lem}
use flexran_rtc.Sched.Helper.Exclusive.{
  group_of, Exclusive, perform_pre_processor_allocation-Exclusive,
}
use flexran_rtc.Base.{List}
use mathlib.Core.List.Perm
use flexran_rtc.Messages.{UeConfig}
use flexran_rtc.Rib.Ue.{new_ue}
use flexran_rtc.Rib.Enb.{EnbRibInfo, new_enb, get_ue_mac_info}
use flexran_rtc.Sched.Info.Channels.{start_round-Counted}
use flexran_rtc.Tests.Queue.{cell}

abbrev enb : EnbSchedulingInfo
enb = start_round 1 cell (new_enb_info 0 1)

overfull : get_ncce_max 3 cell 1 + 6900 < enb.ncce_rem 0
overfull = start_round_lem 1 cell (new_enb_info 0 1) rb_25

enb_symbols : enb.num_pdcch_symbols 0 ≤ 3
unfolding start_round
enb_symbols = omega arith

searched :
    (s' : EnbSchedulingInfo) × (flag : Bool) × (cce_allocation_infeasible enb cell 61 2 1
      ≡ some (s', flag))
    × Searched cell 1 2 enb s' flag
searched =
    cce_allocation_infeasible_lem cell 61 2 1 enb (omega arith) enb_symbols
      (start_round-Counted 1 cell (new_enb_info 0 1) refl)

abbrev report : UeStatsReport
report = record empty_report {
  rlc_report = record { lc_id = 3; tx_queue_size = some 900; tx_queue_hol_delay = none } ∷ [];
  dl_cqi_report = record {
    sfn_sn = 0;
    csi_report = record { serv_cell_index = 0; wb_cqi = 9 } ∷ [];
  };
}

abbrev channels : LcUeConfig
channels = record { rnti = 61; lc_config = 1 ∷ 2 ∷ 3 ∷ [] }

report_bytes : (0 < buffer_bytes report.rlc_report) × (buffer_bytes report.rlc_report < 2 ^ 31)
unfolding buffer_bytes
report_bytes = (omega arith, omega arith)

assigned :
    let mcs = reported_mcs 0 report.dl_cqi_report.csi_report in
    (u' : UeSchedulingInfo) × (assign_rbs_required (new_ue_info 61) report cell channels ≡ some u')
    × Least mcs
        (get_min_rb_unit cell)
        25
        (buffer_bytes report.rlc_report)
        (first_rbs cell mcs)
        (u'.nb_rbs_required 0)
assigned =
    assign_rbs_required_lem (new_ue_info 61) report cell channels (omega arith) report_bytes.0
      report_bytes.1

abbrev wanting : ℕ → UeSchedulingInfo
wanting rnti = record (new_ue_info rnti) {
  nb_rbs_required = λ c. 6;
  nb_rbs_required_remaining = λ c. 6;
}

abbrev two_ues : EnbSchedulingInfo
two_ues = record (new_enb_info 0 1) { scheduling_info = (61, wanting 61) ∷ (62, wanting 62) ∷ [] }

none_yet : (a g : ℕ) → group_of two_ues a 0 g ≡ 0
unfolding find new_ue_info
none_yet a g = ground arith

two_ues-Exclusive : Exclusive 0 two_ues
two_ues-Exclusive = record { marked = λ a g h. none_yet a g; alone = λ a b g h. inl (none_yet a g) }

shared :
    Exclusive 0
      (perform_pre_processor_allocation cell 62 (perform_pre_processor_allocation cell 61 two_ues))
shared =
    perform_pre_processor_allocation-Exclusive cell 62
      (perform_pre_processor_allocation cell 61 two_ues)
      (perform_pre_processor_allocation-Exclusive cell 61 two_ues two_ues-Exclusive)

abbrev stats : ℕ → ℕ → UeStats
stats id bytes = record {
  ue_id = id;
  bytes_in_ccch = 0;
  total_bytes_in_buffers = bytes;
  hol_delay = 5;
  cqi = 9;
  harq_round = 0;
}

ordered :
    ((compare_stats (stats 0 10) (stats 1 10) ≡ true)
      ⊎ (compare_stats (stats 1 10) (stats 0 10) ≡ true))
    × (((compare_stats (stats 0 10) (stats 1 10) ≡ true)
          × (compare_stats (stats 1 10) (stats 0 10) ≡ true))
        ↔ SameStats (stats 0 10) (stats 1 10))
    × ((not (compare_stats (stats 0 10) (stats 1 10) && compare_stats (stats 1 10) (stats 2 4))
          || compare_stats (stats 0 10) (stats 2 4))
        ≡ true)
ordered = compare_stats_lem (stats 0 10) (stats 1 10) (stats 2 4)

has_61 : find 61 two_ues.scheduling_info ≡ some (wanting 61)
unfolding find get_ue_mac_info
has_61 = refl

room_61 : (wanting 61).pre_nb_rbs_available 0 < 60000
unfolding new_ue_info
room_61 = omega arith

counted :
    let s' = perform_pre_processor_allocation cell 61 two_ues in
    (u' : UeSchedulingInfo) × (find 61 s'.scheduling_info ≡ some u')
    × (u'.pre_nb_rbs_available 0
        ≡ (wanting 61).pre_nb_rbs_available 0
          + gained cell (two_ues.vrb_map 0) (s'.vrb_map 0) (get_nb_rbg cell) 0)
counted = perform_pre_processor_allocation_lem cell 61 two_ues (wanting 61) rb_25 has_61 room_61

abbrev ue : ℕ → UeConfig
ue rnti = record { rnti = rnti; pcell_carrier_index = 0; transmission_mode = 1 }

abbrev both : List UeConfig
both = ue 61 ∷ ue 62 ∷ []

abbrev served : EnbRibInfo
served = record (new_enb 0 7) {
  ue_config = both;
  ue_mac_info = (61, record (new_ue 61) { mac_stats_report = report }) ∷ (62, new_ue 62) ∷ [];
}

abbrev as_given : List UeStats → List UeStats
as_given l = l
