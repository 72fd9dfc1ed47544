-- ===== src/Apps/Stats.antt =====
-- src/app/stats_manager.cc: the application that asks each agent for statistics. The dumps to
-- strings are not part of this.
pub mod Asked
use flexran_rtc.Base.{ℕ, Option, none, some, List, [], ◌∷◌, ◌++◌}
use flexran_rtc.Base.Maps
use flexran_rtc.Messages.{FlexranMessage, CompleteStatsRequest, stats_request, stats_request_type}
use flexran_rtc.Rib.Store.{Rib, get_available_agents}
use flexran_rtc.Rib.Updater.{request, initiating}

-- The set `agent_list` is the keys of a map; `sent` is what send_message was given, in order.
pub record StatsManager : Type 0 where
  pub agent_list : List (ℕ × Unit {0})
  pub sent : List (ℕ × FlexranMessage)

-- FLSRF_PERIODICAL is 1; the flags of the UEs are PRH, DL_CQI, BSR, RLC_BS, MAC_CE_BS and UL_CQI,
-- and that of the cells is NOISE_INTERFERENCE.
abbrev pub complete_stats_request : CompleteStatsRequest
complete_stats_request = record {
  report_frequency = 1;
  sf = 4;
  cell_report_flags = 1;
  ue_report_flags = 95;
}

-- FLST_COMPLETE_STATS is 0.
abbrev pub stats_request_msg : FlexranMessage
stats_request_msg =
    initiating (stats_request (request stats_request_type (some 0) 0) 0 complete_stats_request)

unfoldable pub ask : ℕ → StatsManager → StatsManager
ask agent_id m = elim (Maps.find agent_id m.agent_list) [
  | some _ ↦ m
  | none ↦ record {
    agent_list = Maps.insert agent_id tt m.agent_list;
    sent = m.sent ++ (agent_id, stats_request_msg) ∷ [];
  }
]

unfoldable pub ask_all : List ℕ → StatsManager → StatsManager
unfolding ask
ask_all [] m = m
ask_all (a ∷ agents) m = ask_all agents (ask a m)

unfoldable pub run_periodic_task : Rib → StatsManager → StatsManager
unfolding ask_all
run_periodic_task r = ask_all (get_available_agents r)
