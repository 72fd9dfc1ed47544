-- ===== src/Rib/Enb/Fit.antt =====
-- What the schedulers require of src/rib/enb_rib_info.cc, and how the updates keep it.
use flexran_rtc.Base.{ℕ, ◌^◌, ◌<◌, ◌≡◌, refl, inl, inr, false, List, [], arith, All, Option-cases}
use flexran_rtc.Messages.{
  CellConfig, UeConfig, LcUeConfig, SfTrigger, UeChange, UeStateChange, StatsReply, updated,
  activated, deactivated, moved, other_change,
}
use flexran_rtc.Rib.Enb.{
  EnbRibInfo, new_enb, update_liveness, update_enb_config, update_ue_config, remove_first,
  deactivate, change_ue_state, update_lc_config, update_subframe, update_mac_stats, get_ue_mac_info,
}
use flexran_rtc.Rib.Enb.Known.{
  KnownUes, Distinct, has_ue, change_ue_state-KnownUes, reports-KnownUes,
}

-- Bandwidths that a count of 16 bits holds twice.
abbrev pub Narrow : List CellConfig → Type 0
Narrow cells = All (λ cell. cell.dl_bandwidth < 2 ^ 15) cells

-- The configured UEs of an eNodeB are known, and its bandwidths are below 2 ^ 15.
abbrev pub AgentFit : EnbRibInfo → Type 0
AgentFit e = KnownUes e × Narrow e.enb_config

pub new_enb-Fit : (clock agent_id : ℕ) → AgentFit (new_enb clock agent_id)
unfolding new_enb
new_enb-Fit clock agent_id =
    (record { distinct = tt; known = λ rnti h. absurd (ground (arith, h)) }, tt)

abbrev no_trigger : SfTrigger
no_trigger = record { sfn_sf = 0; dl_info = []; ul_info = [] }

abbrev no_reports : StatsReply
no_reports = record { ue_report = []; cell_report = [] }

module _ (e : EnbRibInfo) (fit : AgentFit e) where
  pub update_liveness-Fit : (clock : ℕ) → AgentFit (update_liveness clock e)
  unfolding get_ue_mac_info
  update_liveness-Fit clock = (record { distinct = fit.0.distinct; known = fit.0.known }, fit.1)

  pub update_enb_config-Fit :
      (clock : ℕ) (cells : List CellConfig)
      → Narrow cells
      → AgentFit (update_enb_config clock cells e)
  unfolding get_ue_mac_info update_enb_config
  update_enb_config-Fit clock cells n =
      (record { distinct = fit.0.distinct; known = fit.0.known }, n)

  pub update_lc_config-Fit :
      (clock : ℕ) (lcs : List LcUeConfig) → AgentFit (update_lc_config clock lcs e)
  unfolding get_ue_mac_info update_lc_config
  update_lc_config-Fit clock lcs =
      (record { distinct = fit.0.distinct; known = fit.0.known }, fit.1)

  pub update_subframe-Fit : (clock : ℕ) (t : SfTrigger) → AgentFit (update_subframe clock t e)
  unfolding update_subframe
  update_subframe-Fit clock t = ((reports-KnownUes e fit.0 clock t no_reports [] tt).0, fit.1)

  pub update_mac_stats-Fit : (r : StatsReply) → AgentFit (update_mac_stats r e)
  unfolding update_mac_stats
  update_mac_stats-Fit r = ((reports-KnownUes e fit.0 0 no_trigger r [] tt).1, fit.1)

  pub update_ue_config-Fit :
      (clock : ℕ) (ues : List UeConfig) → Distinct ues → AgentFit (update_ue_config clock ues e)
  unfolding update_ue_config
  update_ue_config-Fit clock ues d =
      ((reports-KnownUes e fit.0 clock no_trigger no_reports ues d).2, fit.1)

  deactivate-cells : (rnti : ℕ) → (deactivate rnti e).enb_config ≡ e.enb_config
  unfolding deactivate
  deactivate-cells rnti = elim (Option-cases (remove_first rnti e.ue_config)) [
    | inl q ↦ rw (deactivate, q) refl
    | inr (ues, q) ↦ rw (deactivate, q) refl
  ]

  change-cells :
      (t : UeChange) (c : UeConfig)
      → (change_ue_state (record { type = t; config = c }) e).enb_config ≡ e.enb_config
  unfolding change_ue_state
  change-cells activated c = refl
  change-cells updated c = refl
  change-cells deactivated c = deactivate-cells c.rnti
  change-cells moved c = refl
  change-cells other_change c = refl

  pub change_ue_state-Fit :
      (s : UeStateChange)
      → (s.type ≡ activated → has_ue s.config.rnti e.ue_config ≡ false)
      → AgentFit (change_ue_state s e)
  change_ue_state-Fit s fresh =
      (change_ue_state-KnownUes e fit.0 s fresh, rw (change-cells s.type s.config) fit.1)
