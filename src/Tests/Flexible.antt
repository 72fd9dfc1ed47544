-- ===== src/Tests/Flexible.antt =====
-- The laws of src/app/flexible_scheduler.cc at concrete inputs: one eNodeB with a cell of 25
-- blocks and a UE.
use Prim.Native.String.{String}
use flexran_rtc.Sched.Flexible.Transmission.{Attempt, Grant, send_payload, retransmit}
use flexran_rtc.Sched.Flexible.Transmission.Repeats.{next_round, SameGrant, retransmit-send_payload}
use flexran_rtc.Base.{
  ℕ, ◌+◌, ◌≤◌, ◌≡◌, Bool, none, some, Option, List, [], ◌∷◌, arith, true, false, length,
  if◌then◌else◌, ltb,
}
use flexran_rtc.Base.Int.{pos}
use flexran_rtc.Base.Text.{joined}
use flexran_rtc.Messages.{RlcBsr, UeConfig, UeStatsReport}
use flexran_rtc.Rib.Ue.{new_ue, empty_report}
use flexran_rtc.Rib.Enb.{EnbRibInfo, new_enb}
use flexran_rtc.Rib.Store.{Rib, get_available_agents}
use flexran_rtc.Sched.Primitives.{get_min_rb_unit}
use flexran_rtc.Sched.Info.{UeSchedulingInfo, new_ue_info, new_enb_info}
use flexran_rtc.Sched.Primitives.{get_ncce_max}
use flexran_rtc.Sched.Info.Channels.{Channels}
use flexran_rtc.Sched.Helper.{first_rbs}
use flexran_rtc.Sched.Helper.Required.{Least}
use flexran_rtc.Sched.Flexible.{
  Flexible, push_once, for_agents, contents, directory, apply_agent_rrm_policy,
  apply_agent_rrm_policy_string, enable_central_scheduling,
}
use flexran_rtc.Sched.Flexible.Policy.{told, apply_agent_rrm_policy_lem, push_once_lem}
use flexran_rtc.Sched.Flexible.Fitting.Kept.{OwnGroups}
use flexran_rtc.Sched.Flexible.Fitting.{fit_mcs, raise_rbs}
use flexran_rtc.Sched.Flexible.Fitting.Schemes.{Fits, fit_mcs-Fits}
use flexran_rtc.Sched.Flexible.Fitting.Counts.{raise_rbs-Least}
use flexran_rtc.Sched.Flexible.Payload.{request_channels, empty_payload}
use flexran_rtc.Sched.Flexible.Payload.Sums.{Totalled, waiting, asked_all, request_channels_lem}
use flexran_rtc.Sched.Flexible.Transmission.{Locals}
use flexran_rtc.Sched.Flexible.Round.{Round}
use flexran_rtc.Sched.Flexible.Round.Sound.{Sound}
use flexran_rtc.Tests.Queue.{cell}

scheme-Fits : Fits 6 100 (fit_mcs 6 100 9)
scheme-Fits = fit_mcs-Fits 6 100 9 (omega arith)

blocks_found :
    (r : ℕ) × (raise_rbs 21 9 (get_min_rb_unit cell) 20 300 (first_rbs cell 9) ≡ some r)
    × Least 9 (get_min_rb_unit cell) 20 300 (first_rbs cell 9) r
blocks_found = raise_rbs-Least cell 9 20 300 (omega arith)

abbrev queues : List RlcBsr
queues =
    record { lc_id = 1; tx_queue_size = some 40; tx_queue_hol_delay = none }
    ∷ record { lc_id = 3; tx_queue_size = some 900; tx_queue_hol_delay = none }
    ∷ []

none_asked : Totalled empty_payload
none_asked = omega arith

bytes_asked :
    let out = request_channels 300 2 queues empty_payload in
    Totalled out.1
    × (waiting out.0 + asked_all (out.1).rlc_pdu ≡ 940 + 0)
    × ((length (out.1).rlc_pdu ≤ 0 + length queues) × (length out.0 ≡ length queues))
bytes_asked = request_channels_lem 300 2 queues empty_payload none_asked

abbrev files : String → Option String
files path = some "contents"

abbrev pub locals : Locals
locals = record { aggregation = 1; mcs = 0; ce_flags = 0; tpc_accumulated = pos 0 }

abbrev pub app : Flexible
app = record {
  central_scheduling = false;
  code_pushed = false;
  scheduling_info = [];
  locals = locals;
  sent = [];
}

abbrev ue : UeConfig
ue = record { rnti = 61; pcell_carrier_index = 0; transmission_mode = 1 }

abbrev pub report : UeStatsReport
report = record empty_report {
  rlc_report = queues;
  dl_cqi_report = record {
    sfn_sn = 0;
    csi_report = record { serv_cell_index = 0; wb_cqi = 9 } ∷ [];
  };
}

abbrev pub enb : EnbRibInfo
enb = record (new_enb 0 7) {
  current_frame = 3;
  current_subframe = 2;
  enb_config = cell ∷ [];
  ue_config = ue ∷ [];
  ue_mac_info = (61, record (new_ue 61) { mac_stats_report = report }) ∷ [];
}

abbrev two_agents : Rib
two_agents = record { enb_configs = (7, enb) ∷ (8, new_enb 0 8) ∷ []; pending_agents = [] }

policy_applied :
    let agents = get_available_agents two_agents in
    let file = contents files none (joined (directory files none) "policy.yaml") in
    (apply_agent_rrm_policy_string two_agents "policy.yaml" app
      ≡ (told (some "policy.yaml") agents app, true))
    × ((apply_agent_rrm_policy files none two_agents "policy.yaml" app
          ≡ (told file agents app, true))
        × ((central : Bool)
            → enable_central_scheduling files none two_agents central app
              ≡ told
                  (contents files none (
                    joined
                      (directory files none)
                      (if central then "remote_policy.yaml" else "local_policy.yaml")))
                  agents
                  (record app { central_scheduling = central })))
policy_applied = apply_agent_rrm_policy_lem files none two_agents "policy.yaml" app

code_pushed :
    let pushed = push_once files none 7 app in
    (for_agents (push_once files none) (7 ∷ 8 ∷ []) app ≡ pushed)
    × (for_agents (push_once files none) (8 ∷ []) pushed ≡ pushed)
code_pushed = push_once_lem files none 7 (8 ∷ []) (8 ∷ []) app

abbrev given : UeSchedulingInfo
given = record (new_ue_info 61) {
  pre_nb_rbs_available = λ c. 6;
  rballoc_sub = λ c g. if ltb g 3 then 1 else 0;
}

abbrev round : Round
round = record {
  enb = enb;
  sched = record (new_enb_info 3 1) {
    scheduling_info = (61, given) ∷ [];
    ncce_rem = λ c. get_ncce_max 0 cell 2;
  };
  locals = locals;
  dl_ue_data = [];
}

abbrev first_sent : Attempt
first_sent = send_payload cell ((enb).cell_mac_info 0) 3 2 0 120 report empty_payload 6 locals given

repeated :
    let later = next_round cell 0 1 (λ c. 8) (λ c g. 1) first_sent.ue in
    (g : Grant) × (g' : Grant) × (first_sent.grant ≡ some g)
    × ((retransmit cell 0 report locals later).grant ≡ some g')
    × SameGrant g g'
    × OwnGroups cell 0 false 6 later (retransmit cell 0 report locals later).ue
repeated =
    retransmit-send_payload cell ((enb).cell_mac_info 0) 3 2 0 120 report empty_payload 6 locals
      given (omega arith) (omega arith) 1 (λ c. 8) (λ c g. 1) report locals (omega arith)
      (omega arith)
