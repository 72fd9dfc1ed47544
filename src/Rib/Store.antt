-- ===== src/Rib/Store.antt =====
-- src/rib/rib.h and .cc: the agents that are pending and those that have a configuration.
-- The dumps to a terminal or a string are not part of this.
pub mod Laws
use flexran_rtc.Base.{ℕ, ◌≡◌, Bool, true, false, Option, none, some, List, [], ◌∷◌}
use flexran_rtc.Base.Maps
use flexran_rtc.Messages.{CellConfig, UeConfig, LcUeConfig, SfTrigger, UeStateChange, StatsReply}
use flexran_rtc.Rib.Enb.{
  EnbRibInfo, new_enb, update_liveness, update_enb_config, update_ue_config, change_ue_state,
  update_lc_config, update_subframe, update_mac_stats,
}

-- The set of pending agents is the keys of a map.
pub record Rib : Type 0 where
  pub enb_configs : List (ℕ × EnbRibInfo)
  pub pending_agents : List (ℕ × Unit {0})

abbrev pub empty_rib : Rib
empty_rib = record { enb_configs = []; pending_agents = [] }

abbrev pub present {ℓ} : {A : Type ℓ} → Option A → Bool
present none = false
present (some a) = true

unfoldable pub add_pending_agent : ℕ → Rib → Rib
add_pending_agent agent_id r = record r {
  pending_agents = Maps.insert agent_id tt r.pending_agents;
}

unfoldable pub remove_pending_agent : ℕ → Rib → Rib
remove_pending_agent agent_id r = record r { pending_agents = Maps.erase agent_id r.pending_agents }

unfoldable pub agent_is_pending : ℕ → Rib → Bool
agent_is_pending agent_id r = present (Maps.find agent_id r.pending_agents)

-- The new entry is made with a reading of the clock; an entry that is there stays.
unfoldable pub new_enb_config_entry : ℕ → ℕ → Rib → Rib
new_enb_config_entry clock agent_id r = record r {
  enb_configs = Maps.insert agent_id (new_enb clock agent_id) r.enb_configs;
}

unfoldable pub has_enb_config_entry : ℕ → Rib → Bool
has_enb_config_entry agent_id r = present (Maps.find agent_id r.enb_configs)

-- Each update finds the entry, returns where there is none, and else changes the entry.
unfoldable pub update_entry : (EnbRibInfo → EnbRibInfo) → ℕ → Rib → Rib
update_entry f agent_id r = elim (Maps.find agent_id r.enb_configs) [
  | none ↦ r
  | some e ↦ record r { enb_configs = Maps.modify agent_id f r.enb_configs }
]

unfoldable pub enb_config_update : ℕ → ℕ → List CellConfig → Rib → Rib
enb_config_update clock agent_id cells = update_entry (update_enb_config clock cells) agent_id

unfoldable pub ue_config_update : ℕ → ℕ → List UeConfig → Rib → Rib
ue_config_update clock agent_id ues = update_entry (update_ue_config clock ues) agent_id

unfoldable pub ue_state_update : ℕ → UeStateChange → Rib → Rib
ue_state_update agent_id s = update_entry (change_ue_state s) agent_id

unfoldable pub lc_config_update : ℕ → ℕ → List LcUeConfig → Rib → Rib
lc_config_update clock agent_id lcs = update_entry (update_lc_config clock lcs) agent_id

unfoldable pub liveness_update : ℕ → ℕ → Rib → Rib
liveness_update clock agent_id = update_entry (update_liveness clock) agent_id

unfoldable pub set_subframe_updates : ℕ → ℕ → SfTrigger → Rib → Rib
set_subframe_updates clock agent_id t = update_entry (update_subframe clock t) agent_id

unfoldable pub mac_stats_update : ℕ → StatsReply → Rib → Rib
mac_stats_update agent_id s = update_entry (update_mac_stats s) agent_id

unfoldable pub get_available_agents : Rib → List ℕ
get_available_agents r = Maps.keys r.enb_configs

unfoldable pub get_agent : ℕ → Rib → Option EnbRibInfo
get_agent agent_id r = Maps.find agent_id r.enb_configs
