-- ===== src/Apps/Delegation.antt =====
-- src/app/delegation_manager.cc: an example application that delegates control at fixed times.
-- `files` gives the contents of a file that can be read; for any other the length is -1, and the
-- allocation of that many bytes throws, for which `none` stands.
pub mod Steps
use Prim.Native.String.{String}
use flexran_rtc.Base.{
  ℕ, ◌+◌, ◌*◌, Bool, true, false, Option, none, some, List, [], ◌∷◌, ◌++◌, ◌==◌, if◌then◌else◌,
}
use flexran_rtc.Base.Faults.{◌>>=◌, for_each}
use flexran_rtc.Messages.{FlexranMessage}
use flexran_rtc.Rib.Ue.{write1}
use flexran_rtc.Rib.Store.{Rib, get_agent, get_available_agents}
use flexran_rtc.Sched.Flexible.{delegation_msg, reconfiguration_msg}

pub record DelegationManager : Type 0 where
  pub delegation_steps : ℕ → Bool
  pub sent : List (ℕ × FlexranMessage)

abbrev pub send_to : ℕ → FlexranMessage → DelegationManager → DelegationManager
send_to agent_id msg d = record d { sent = d.sent ++ (agent_id, msg) ∷ [] }

module _ (files : String → Option String) where
  unfoldable pub push_code : ℕ → String → String → DelegationManager → Option DelegationManager
  push_code agent_id function_name lib_name d =
      files lib_name >>= (λ code. some (send_to agent_id (delegation_msg function_name code) d))

  unfoldable pub reconfigure_agent : ℕ → String → DelegationManager → Option DelegationManager
  reconfigure_agent agent_id policy_name d =
      files policy_name >>= (λ policy. some (send_to agent_id (reconfiguration_msg policy) d))

  -- `if (delegation_steps_[i] == false)`
  unfoldable pub once :
      ℕ
      → (DelegationManager → Option DelegationManager)
      → DelegationManager
      → Option DelegationManager
  once i act d =
      let done : Option DelegationManager =
        act d
        >>= (λ d'. some (record d' { delegation_steps = write1 d'.delegation_steps i true })) in
      if d.delegation_steps i then some d else done

  unfoldable pub at_time : ℕ → ℕ → DelegationManager → Option DelegationManager
  at_time agent_id time d =
      let remote =
        push_code agent_id "schedule_ue_spec_remote"
          "../tests/delegation_control/libremote_sched.so" in
      let local =
        push_code agent_id "schedule_ue_spec_default"
          "../tests/delegation_control/libdefault_sched.so" in
      let policy : String → DelegationManager → Option DelegationManager =
        reconfigure_agent agent_id in
      if time == 2000
      then once 0 remote d
      else if time == 2500
      then once 1 local d
      else if time == 4000
      then once 2 (policy "../tests/delegation_control/remote_policy.yaml") d
      else if time == 6000
      then once 3 (policy "../tests/delegation_control/remote_policy2.yaml") d
      else if time == 8000
      then once 4 (policy "../tests/delegation_control/local_policy.yaml") d
      else if time == 10000
      then once 5 (policy "../tests/delegation_control/local_policy2.yaml") d
      else some d

  unfoldable pub for_agent : Rib → ℕ → DelegationManager → Option DelegationManager
  for_agent r agent_id d =
      get_agent agent_id r >>= (λ e. at_time agent_id (e.current_frame * 10 + e.current_subframe) d)

  unfoldable pub run_periodic_task : Rib → DelegationManager → Option DelegationManager
  run_periodic_task r d = for_each (for_agent r) (get_available_agents r) d
