-- ===== src/NorthApi.antt =====
-- The calls of src/north_api: flexible_sched_calls.cc and stats_manager_calls.cc. The routes, the
-- request and the response belong to the Pistache library; a call is given the parameter of its
-- route or the body, and gives the code and the text of the response.
pub mod Answers
pub mod Calls
use Prim.Native.String.{String}
use text.Mathlib.Text.{◌==◌}
use flexran_rtc.Base.{ℕ, zero, suc, [], Bool, true, false, Option, not, if◌then◌else◌}
use flexran_rtc.Base.Int.{ℤ, pos, negsuc}
use flexran_rtc.Base.Text.{is_blank}
use flexran_rtc.Network.Xface.{Lockfree, Codec}
use flexran_rtc.Rib.Store.{Rib}
use flexran_rtc.Rib.Dump.{Printer, all_stats_to_string, enb_config_to_string, mac_config_to_string}
use flexran_rtc.Sched.Flexible.{
  Flexible, enable_central_scheduling, apply_agent_rrm_policy, apply_agent_rrm_policy_string,
}
use flexran_rtc.Core.{System, send_all}

-- Pistache::Http::Code: 200, 404 and 405.
pub data Code : Type 0 where
  ok : Code
  not_found : Code
  method_not_allowed : Code

pub record Response : Type 0 where
  pub code : Code
  pub text : String

module _ {Q : Type 0} (queue : Lockfree Q) (codec : Codec) where
  -- A call of the scheduler, whose messages go to the network.
  abbrev pub sched_app : (Rib → Flexible → Flexible × Bool) → System Q → System Q × Bool
  sched_app call s =
      let (f, done) = call s.rib (record (s.scheduler) { sent = [] }) in
      (record s { scheduler = f; net_xface = send_all queue codec f.sent s.net_xface }, done)

  module _ (files : String → Option String) (home : Option String) where
    abbrev switch : Bool → System Q → System Q
    switch central s =
        (sched_app (λ r f. (enable_central_scheduling files home r central f, true)) s).0

    unfoldable pub change_scheduler : ℤ → System Q → System Q × Response
    change_scheduler (pos zero) s =
        (switch false s, record { code = ok; text = "Loaded Local Scheduler" })
    change_scheduler (pos (suc zero)) s =
        (switch true s, record { code = ok; text = "Loaded Remote Scheduler" })
    change_scheduler (pos (suc (suc n))) s =
        (s, record { code = not_found; text = "Scheduler type does not exist" })
    change_scheduler (negsuc n) s =
        (s, record { code = not_found; text = "Scheduler type does not exist" })

    unfoldable pub apply_policy : String → System Q → System Q × Response
    apply_policy policy_name s =
        let (applied, done) =
          sched_app (λ r f. apply_agent_rrm_policy files home r policy_name f) s in
        let response : Response =
          if done then record { code = ok; text = "Set the policy to the agent\n" } else record {
            code = method_not_allowed;
            text = "Agent-side scheduling is currently inactive\n";
          } in
        if not (policy_name == "")
        then (applied, response)
        else (s, record { code = not_found; text = "Policy not set\n" })

    unfoldable pub apply_policy_string : String → System Q → System Q × Response
    apply_policy_string policy s =
        let (applied, done) = sched_app (λ r f. apply_agent_rrm_policy_string r policy f) s in
        let response : Response =
          if done then record { code = ok; text = "Set the policy to the agent\n" } else record {
            code = method_not_allowed;
            text = "Agent-side scheduling is currently inactive. Cannot set policy\n";
          } in
        if not (is_blank policy)
        then (applied, response)
        else (s, record { code = not_found; text = "No policy defined in request\n" })

-- The call for statistics reads only.
unfoldable pub obtain_stats : Printer → String → Rib → Response
obtain_stats p stats_type r =
    if stats_type == "all"
    then record { code = ok; text = all_stats_to_string p r }
    else if stats_type == "enb_config"
    then record { code = ok; text = enb_config_to_string p r }
    else if stats_type == "mac_stats"
    then record { code = ok; text = mac_config_to_string p r }
    else record { code = not_found; text = "Statistics type does not exist" }
