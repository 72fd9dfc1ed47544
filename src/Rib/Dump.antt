-- ===== src/Rib/Dump.antt =====
-- The dumps of src/rib/rib.cc, enb_rib_info.cc and ue_mac_rib_info.cc to texts. What protobuf and
-- the standard library print is a parameter.
use Prim.Native.String.{String}
use flexran_rtc.Base.{ℕ, zero, suc, List, [], ◌∷◌, ◌==◌, if◌then◌else◌}
use flexran_rtc.Base.Text.{joined}
use flexran_rtc.Messages.{CellConfig, UeConfig, LcUeConfig, UeStatsReport}
use flexran_rtc.Rib.Ue.{UeMacRibInfo}
use flexran_rtc.Rib.Enb.{EnbRibInfo}
use flexran_rtc.Rib.Store.{Rib}

-- DebugString of the messages, std::to_string, and the text of one character with a code.
pub record Printer : Type 0 where
  pub enb_config : List CellConfig → String
  pub ue_config : List UeConfig → String
  pub lc_config : List LcUeConfig → String
  pub mac_report : UeStatsReport → String
  pub number : ℕ → String
  pub character : ℕ → String

-- Texts one behind the other.
pub concat : List String → String
concat [] = ""
concat (s ∷ rest) = joined s (concat rest)

module _ (p : Printer) where
  -- `str += i` adds the character with the code `i`. FLHS_ACK is 0.
  harq_numbers : ℕ → ℕ → String
  harq_numbers zero i = ""
  harq_numbers (suc left) i = joined "  |   " (joined (p.character i) (harq_numbers left (suc i)))

  harq_states : UeMacRibInfo → ℕ → ℕ → String
  harq_states u zero i = ""
  harq_states u (suc left) i =
      joined " | "
        (joined (if u.harq_stats 0 i 0 == 0 then "ACK" else "NACK") (harq_states u left (suc i)))

  unfoldable pub dump_stats_to_string : UeMacRibInfo → String
  unfolding harq_numbers harq_states
  dump_stats_to_string u = concat (
      "Rnti: "
      ∷ p.number u.rnti
      ∷ "\n"
      ∷ p.mac_report u.mac_stats_report
      ∷ "\n"
      ∷ "Harq status"
      ∷ "\n"
      ∷ harq_numbers 8 0
      ∷ "   |   "
      ∷ "\n"
      ∷ " "
      ∷ harq_states u 8 0
      ∷ "  |"
      ∷ "\n"
      ∷ [])

  all_stats : List (ℕ × UeMacRibInfo) → String
  all_stats [] = ""
  all_stats ((rnti, u) ∷ rest) = joined (dump_stats_to_string u) (joined "\n" (all_stats rest))

  -- `str += agent_id_` adds a character as well.
  unfoldable pub dump_mac_stats : EnbRibInfo → String
  unfolding all_stats
  dump_mac_stats e =
      concat
        ("UE MAC stats for agent " ∷ p.character e.agent_id ∷ "\n" ∷ all_stats e.ue_mac_info ∷ [])

  unfoldable pub dump_configs : EnbRibInfo → String
  dump_configs e = concat (
      p.enb_config e.enb_config
      ∷ "\n"
      ∷ p.ue_config e.ue_config
      ∷ "\n"
      ∷ p.lc_config e.lc_config
      ∷ "\n"
      ∷ [])

  lines_of : (EnbRibInfo → String) → List (ℕ × EnbRibInfo) → String
  lines_of f [] = ""
  lines_of f ((agent_id, e) ∷ rest) = joined (f e) (joined "\n" (lines_of f rest))

  unfoldable pub dump_mac_stats_to_string : Rib → String
  unfolding lines_of
  dump_mac_stats_to_string r = lines_of dump_mac_stats r.enb_configs

  unfoldable pub dump_enb_configurations_to_string : Rib → String
  unfolding lines_of
  dump_enb_configurations_to_string r = lines_of dump_configs r.enb_configs

  -- src/app/stats_manager.cc
  unfoldable pub enb_config_to_string : Rib → String
  enb_config_to_string r = concat (
      "*********************\n"
      ∷ "Agent Configurations\n"
      ∷ "*********************\n"
      ∷ dump_enb_configurations_to_string r
      ∷ [])

  unfoldable pub mac_config_to_string : Rib → String
  mac_config_to_string r = concat (
      "***************\n"
      ∷ "MAC statistics\n"
      ∷ "****************\n"
      ∷ dump_mac_stats_to_string r
      ∷ [])

  unfoldable pub all_stats_to_string : Rib → String
  all_stats_to_string r =
      concat (enb_config_to_string r ∷ "\n\n\n" ∷ mac_config_to_string r ∷ "\n" ∷ [])
