-- ===== src/Sched/Flexible.antt =====
-- src/app/flexible_scheduler.cc: the calls that switch between central scheduling and the
-- policies of the agents. `files` gives the contents of a file that can be read, and `home`
-- the environment variable FLEXRAN_RTC_HOME. What requests_manager::send_message is given is
-- kept in order in `sent`.
pub mod Fitting
pub mod Payload
pub mod Power
pub mod Transmission
pub mod Policy
pub mod Round
pub mod Central
use Prim.Native.String.{String}
use flexran_rtc.Base.{
  ℕ, Bool, true, false, Option, none, some, List, [], ◌∷◌, ◌++◌, not, if◌then◌else◌,
}
use flexran_rtc.Base.Text.{joined, is_blank}
use flexran_rtc.Messages.{
  FlexranMessage, control_delegation, agent_reconfiguration, delegate_control_type,
  reconfigure_agent_type,
}
use flexran_rtc.Rib.Store.{Rib, get_available_agents}
use flexran_rtc.Rib.Updater.{request, initiating}
use flexran_rtc.Sched.Info.{EnbSchedulingInfo}
use flexran_rtc.Sched.Flexible.Transmission.{Locals}

pub record Flexible : Type 0 where
  pub central_scheduling : Bool
  pub code_pushed : Bool
  pub scheduling_info : List (ℕ × EnbSchedulingInfo)
  pub locals : Locals
  pub sent : List (ℕ × FlexranMessage)

unfoldable pub send_message : ℕ → FlexranMessage → Flexible → Flexible
send_message agent_id msg f = record f { sent = f.sent ++ (agent_id, msg) ∷ [] }

abbrev pub reconfiguration_msg : String → FlexranMessage
reconfiguration_msg policy =
    initiating (agent_reconfiguration (request reconfigure_agent_type (some 0) 0) policy)

-- FLCDT_MAC_DL_UE_SCHEDULER is 1.
abbrev pub delegation_msg : String → String → FlexranMessage
delegation_msg function_name code = initiating (
    control_delegation (request delegate_control_type (some 0) 0)
      (record { delegation_type = 1; payload = code; name = function_name }))

abbrev pub reconfigure_agent_string : ℕ → String → Flexible → Flexible
reconfigure_agent_string agent_id policy = send_message agent_id (reconfiguration_msg policy)

-- `agent_ids` in their order.
unfoldable pub for_agents : (ℕ → Flexible → Flexible) → List ℕ → Flexible → Flexible
for_agents step [] f = f
for_agents step (a ∷ agents) f = for_agents step agents (step a f)

unfoldable pub apply_agent_rrm_policy_string : Rib → String → Flexible → Flexible × Bool
unfolding for_agents
apply_agent_rrm_policy_string r policy f =
    let applied = for_agents (λ a. reconfigure_agent_string a policy) (get_available_agents r) f in
    if f.central_scheduling then (f, false) else (applied, true)

module _ (files : String → Option String) (home : Option String) where
  -- The contents of a file that can be read and is not empty.
  unfoldable pub contents : String → Option String
  contents path = elim (files path) [
    | none ↦ none
    | some text ↦ if is_blank text then none else some text
  ]

  unfoldable pub reconfigure_agent_file : ℕ → String → Flexible → Flexible
  unfolding contents
  reconfigure_agent_file agent_id policy_name f = elim (contents policy_name) [
    | none ↦ f
    | some policy ↦ reconfigure_agent_string agent_id policy f
  ]

  unfoldable pub push_code : ℕ → String → String → Flexible → Flexible
  unfolding contents
  push_code agent_id function_name lib_name f = elim (contents lib_name) [
    | none ↦ f
    | some code ↦ send_message agent_id (delegation_msg function_name code) f
  ]

  unfoldable pub directory : String
  directory = elim home [
    | none ↦ "../tests/delegation_control/"
    | some env ↦ joined env "/tests/delegation_control/"
  ]

  unfoldable pub apply_agent_rrm_policy : Rib → String → Flexible → Flexible × Bool
  unfolding for_agents
  apply_agent_rrm_policy r policy_name f =
      let applied =
        for_agents (λ a. reconfigure_agent_file a (joined directory policy_name))
          (get_available_agents r) f in
      if f.central_scheduling then (f, false) else (applied, true)

  unfoldable pub enable_central_scheduling : Rib → Bool → Flexible → Flexible
  unfolding for_agents
  enable_central_scheduling r central_sch f =
      let policy =
        joined directory (if central_sch then "remote_policy.yaml" else "local_policy.yaml") in
      for_agents (λ a. reconfigure_agent_file a policy) (get_available_agents r)
        (record f { central_scheduling = central_sch })

  -- The loop of run_periodic_task that pushes the code.
  unfoldable pub push_once : ℕ → Flexible → Flexible
  push_once agent_id f =
      let remote =
        push_code agent_id "flexran_schedule_ue_spec_remote" (joined directory "libremote_sched.so")
          f in
      let both =
        push_code agent_id "flexran_schedule_ue_spec_default"
          (joined directory "libdefault_sched.so") remote in
      if f.code_pushed then f else record both { code_pushed = true }
