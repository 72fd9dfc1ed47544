-- ===== src/Rib/Enb.antt =====
-- src/rib/enb_rib_info.h and .cc, with cell_mac_rib_info.h and .cc: what is known of one eNodeB.
-- A call of clock() is an argument. The frame and subframe are not set by the constructor;
-- zeros stand for them. Nor are the strings that are dumped for a reader part of this.
pub mod Known
pub mod Fit
use flexran_rtc.Base.{
  ℕ, zero, suc, ◌+◌, ◌-◌, ◌%◌, ◌^◌, ◌≡◌, Bool, true, false, Option, none, some, List, [], ◌∷◌, ◌++◌,
  ◌==◌, ltb, if◌then◌else◌,
}
use flexran_rtc.Base.Int.{pos}
use flexran_rtc.Base.Maps
use flexran_rtc.Messages.{
  CellConfig, UeConfig, LcUeConfig, CellStatsReport, SfTrigger, DlInfo, UlInfo, UeStateChange,
  StatsReply, UeStatsReport, updated, activated, deactivated, moved, other_change,
}
use flexran_rtc.Rib.SfnSf.{get_frame, get_subframe, u16}
use flexran_rtc.Rib.Ue.{
  UeMacRibInfo, new_ue, update_dl_sf_info, update_ul_sf_info, update_mac_stats_report, has_flag,
}

pub record EnbRibInfo : Type 0 where
  pub agent_id : ℕ
  pub last_checked : ℕ
  pub current_frame : ℕ
  pub current_subframe : ℕ
  pub enb_config : List CellConfig
  pub ue_config : List UeConfig
  pub lc_config : List LcUeConfig
  pub ue_mac_info : List (ℕ × UeMacRibInfo)
  pub cell_mac_info : ℕ → CellStatsReport

abbrev empty_cell : CellStatsReport
empty_cell = record {
  carrier_index = 0;
  flags = 0;
  noise_inter_report = record { sfn_sf = 0; rip = 0; tnp = 0; p0_nominal_pucch = pos 0 };
}

abbrev pub time_to_query : ℕ
time_to_query = 500

unfoldable pub new_enb : ℕ → ℕ → EnbRibInfo
new_enb clock agent_id = record {
  agent_id = agent_id;
  last_checked = clock;
  current_frame = 0;
  current_subframe = 0;
  enb_config = [];
  ue_config = [];
  lc_config = [];
  ue_mac_info = [];
  cell_mac_info = λ i. empty_cell;
}

abbrev pub update_liveness : ℕ → EnbRibInfo → EnbRibInfo
update_liveness clock e = record e { last_checked = clock }

-- `clock() - last_checked > time_to_query`, for a clock that does not run backwards.
pub need_to_query : ℕ → EnbRibInfo → Bool
need_to_query clock e = ltb time_to_query (clock - e.last_checked)

unfoldable pub update_enb_config : ℕ → List CellConfig → EnbRibInfo → EnbRibInfo
update_enb_config clock cells e = update_liveness clock (record e { enb_config = cells })

-- The loop that makes an entry for each UE that has none.
add_missing : List UeConfig → List (ℕ × UeMacRibInfo) → List (ℕ × UeMacRibInfo)
add_missing [] m = m
add_missing (c ∷ cs) m =
    add_missing cs
      (elim (Maps.find c.rnti m) [ none ↦ Maps.insert c.rnti (new_ue c.rnti) m | some u ↦ m ])

pub update_ue_config : ℕ → List UeConfig → EnbRibInfo → EnbRibInfo
unfolding add_missing
update_ue_config clock ues e =
    update_liveness clock
      (record e { ue_config = ues; ue_mac_info = add_missing ues e.ue_mac_info })

-- The loop over the logical channel configurations: the one behind a removed one moves to its
-- place and is passed over.
remove_lc : ℕ → List LcUeConfig → List LcUeConfig
remove_lc rnti [] = []
remove_lc rnti (l ∷ []) = if rnti == l.rnti then [] else l ∷ []
remove_lc rnti (l ∷ k ∷ ls) =
    let gone = k ∷ remove_lc rnti ls in
    let kept = l ∷ remove_lc rnti (k ∷ ls) in if rnti == l.rnti then gone else kept

-- The first configuration of the UE is taken out; `none` where there is none.
remove_first : ℕ → List UeConfig → Option (List UeConfig)
remove_first rnti [] = none
remove_first rnti (c ∷ cs) =
    let rest = remove_first rnti cs in
    if c.rnti == rnti then some cs else elim rest [ none ↦ none | some cs' ↦ some (c ∷ cs') ]

replace_all : UeConfig → List UeConfig → List UeConfig
replace_all new [] = []
replace_all new (c ∷ cs) =
    let rest = replace_all new cs in if c.rnti == new.rnti then new ∷ rest else c ∷ rest

deactivate : ℕ → EnbRibInfo → EnbRibInfo
unfolding remove_first remove_lc
deactivate rnti e = elim (remove_first rnti e.ue_config) [
  | none ↦ e
  | some ues ↦ record e {
    ue_config = ues;
    ue_mac_info = Maps.erase rnti e.ue_mac_info;
    lc_config = remove_lc rnti e.lc_config;
  }
]

pub change_ue_state : UeStateChange → EnbRibInfo → EnbRibInfo
unfolding deactivate replace_all
change_ue_state s e = elim s.type [
  | activated ↦ record e {
    ue_config = e.ue_config ++ s.config ∷ [];
    ue_mac_info = Maps.insert s.config.rnti (new_ue s.config.rnti) e.ue_mac_info;
  }
  | deactivated ↦ deactivate s.config.rnti e
  | updated ↦ record e { ue_config = replace_all s.config e.ue_config }
  | moved ↦ e
  | other_change ↦ e
]

pub update_lc_config : ℕ → List LcUeConfig → EnbRibInfo → EnbRibInfo
update_lc_config clock lcs e = update_liveness clock (record e { lc_config = lcs })

dl_infos : List DlInfo → List (ℕ × UeMacRibInfo) → List (ℕ × UeMacRibInfo)
dl_infos [] m = m
dl_infos (d ∷ ds) m = dl_infos ds (Maps.modify d.rnti (λ u. update_dl_sf_info u d) m)

ul_infos : List UlInfo → List (ℕ × UeMacRibInfo) → List (ℕ × UeMacRibInfo)
ul_infos [] m = m
ul_infos (d ∷ ds) m = ul_infos ds (Maps.modify d.rnti (λ u. update_ul_sf_info u d) m)

pub update_subframe : ℕ → SfTrigger → EnbRibInfo → EnbRibInfo
unfolding dl_infos ul_infos
update_subframe clock t e =
    let sfn_sf = u16 t.sfn_sf in
    update_liveness clock (record e {
      current_frame = get_frame sfn_sf;
      current_subframe = get_subframe sfn_sf;
      ue_mac_info = ul_infos t.ul_info (dl_infos t.dl_info e.ue_mac_info);
    })

ue_reports : List UeStatsReport → List (ℕ × UeMacRibInfo) → List (ℕ × UeMacRibInfo)
ue_reports [] m = m
ue_reports (r ∷ rs) m = ue_reports rs (Maps.modify r.rnti (λ u. update_mac_stats_report u r) m)

-- cell_mac_rib_info::update_cell_stats_report
pub update_cell_stats_report : CellStatsReport → CellStatsReport → CellStatsReport
update_cell_stats_report old new =
    if has_flag 1 new.flags then record old { noise_inter_report = new.noise_inter_report } else old

cell_reports : ℕ → List CellStatsReport → (ℕ → CellStatsReport) → ℕ → CellStatsReport
cell_reports i [] cells = cells
cell_reports i (r ∷ rs) cells =
    cell_reports (suc i) rs (λ j. if i == j then update_cell_stats_report (cells j) r else cells j)

pub update_mac_stats : StatsReply → EnbRibInfo → EnbRibInfo
unfolding ue_reports cell_reports
update_mac_stats r e = record e {
  ue_mac_info = ue_reports r.ue_report e.ue_mac_info;
  cell_mac_info = cell_reports 0 r.cell_report e.cell_mac_info;
}

-- `none` is the null pointer.
unfoldable pub get_ue_mac_info : EnbRibInfo → ℕ → Option UeMacRibInfo
get_ue_mac_info e rnti = Maps.find rnti e.ue_mac_info
