-- ===== src/Apps/Delegation/Steps.antt =====
-- How many messages src/app/delegation_manager.cc sends.
use Prim.Native.String.{String}
use flexran_rtc.Base.{
  ℕ, zero, suc, ◌+◌, ◌*◌, ◌≤◌, ◌<◌, ◌≡◌, refl, inl, inr, Bool, true, false, Option, some, [], ◌∷◌,
  arith, ◌==◌, if◌then◌else◌, Bool-cases, length, length-append,
}
use flexran_rtc.Base.Faults.{Returns, Returns-if, for_each-Returns}
use flexran_rtc.Base.Maps.{keys-Found}
use flexran_rtc.Messages.{FlexranMessage}
use flexran_rtc.Rib.Ue.{write1}
use flexran_rtc.Rib.Enb.{EnbRibInfo}
use flexran_rtc.Rib.Store.{Rib, get_agent, get_available_agents}
use flexran_rtc.Sched.Flexible.{delegation_msg, reconfiguration_msg}
use flexran_rtc.Apps.Delegation.{
  DelegationManager, send_to, push_code, reconfigure_agent, once, at_time, for_agent,
  run_periodic_task,
}

abbrev one_if : Bool → ℕ
one_if b = if b then 1 else 0

-- How many of the six steps were done.
unfoldable pub steps_done : (ℕ → Bool) → ℕ
steps_done t =
    one_if (t 0) + one_if (t 1) + one_if (t 2) + one_if (t 3) + one_if (t 4) + one_if (t 5)

steps_done-write1 :
    (t : ℕ → Bool) (i : ℕ) → i < 6 → t i ≡ false → steps_done (write1 t i true) ≡ suc (steps_done t)
unfolding steps_done
steps_done-write1 t zero b e = ground (arith, e)
steps_done-write1 t (suc zero) b e = ground (arith, e)
steps_done-write1 t (suc (suc zero)) b e = ground (arith, e)
steps_done-write1 t (suc (suc (suc zero))) b e = ground (arith, e)
steps_done-write1 t (suc (suc (suc (suc zero)))) b e = ground (arith, e)
steps_done-write1 t (suc (suc (suc (suc (suc zero))))) b e = ground (arith, e)
steps_done-write1 t (suc (suc (suc (suc (suc (suc i)))))) b e = absurd (omega arith)

six : (t : ℕ → Bool) → steps_done t ≤ 6
unfolding steps_done
six t = ground arith

-- Each step that was done has sent one message.
abbrev pub Counted : DelegationManager → Type 0
Counted d = length d.sent ≡ steps_done d.delegation_steps

-- The act sends one message.
abbrev Sends : (DelegationManager → Option DelegationManager) → Type 0
Sends act =
    (d : DelegationManager)
    → (agent_id : ℕ) × (msg : FlexranMessage) × (act d ≡ some (send_to agent_id msg d))

abbrev Readable : (String → Option String) → Type 0
Readable files = (path : String) → (text : String) × (files path ≡ some text)

module _ (files : String → Option String) (readable : Readable files) where
  push_code-Sends : (agent_id : ℕ) (name path : String) → Sends (push_code files agent_id name path)
  unfolding push_code
  push_code-Sends agent_id name path d =
      let (text, e) = readable path in (agent_id, delegation_msg name text, rw e refl)

  reconfigure_agent-Sends :
      (agent_id : ℕ) (path : String) → Sends (reconfigure_agent files agent_id path)
  unfolding reconfigure_agent
  reconfigure_agent-Sends agent_id path d =
      let (text, e) = readable path in (agent_id, reconfiguration_msg text, rw e refl)

  once-Counted :
      (i : ℕ) (act : DelegationManager → Option DelegationManager) (d : DelegationManager)
      → i < 6
      → Sends act
      → Counted d
      → Returns (once files i act d) Counted
  unfolding once
  once-Counted i act d b k h = elim (Bool-cases (d.delegation_steps i)) [
    | inl e ↦ (d, rw e refl, h)
    | inr e ↦
        let (agent_id, msg, sent) = k d in
        let steps = write1 d.delegation_steps i true in
        (
          record (send_to agent_id msg d) { delegation_steps = steps },
          rw (e, sent) refl,
          ground (
            arith,
            h,
            length-append d.sent ((agent_id, msg) ∷ []),
            steps_done-write1 d.delegation_steps i b e,
          ),
        )
  ]

  at_time-Counted :
      (agent_id time : ℕ) (d : DelegationManager)
      → Counted d
      → Returns (at_time files agent_id time d) Counted
  unfolding at_time
  at_time-Counted agent_id time d h =
      let remote =
        push_code-Sends agent_id "schedule_ue_spec_remote"
          "../tests/delegation_control/libremote_sched.so" in
      let local =
        push_code-Sends agent_id "schedule_ue_spec_default"
          "../tests/delegation_control/libdefault_sched.so" in
      let policy = reconfigure_agent-Sends agent_id in
      Returns-if (time == 2000) _ _ (once-Counted 0 _ d (omega arith) remote h) (
        Returns-if (time == 2500) _ _ (once-Counted 1 _ d (omega arith) local h) (
          Returns-if (time == 4000) _ _
            (once-Counted 2 _ d (omega arith)
              (policy "../tests/delegation_control/remote_policy.yaml") h)
            (Returns-if (time == 6000) _ _
              (once-Counted 3 _ d (omega arith)
                (policy "../tests/delegation_control/remote_policy2.yaml") h)
              (Returns-if (time == 8000) _ _
                (once-Counted 4 _ d (omega arith)
                  (policy "../tests/delegation_control/local_policy.yaml") h)
                (Returns-if (time == 10000) _ _
                  (once-Counted 5 _ d (omega arith)
                    (policy "../tests/delegation_control/local_policy2.yaml") h)
                  (d, refl, h))))))

  -- Where the files can be read, a run returns, and there are again as many messages sent as steps done: at most six over all runs
  -- and all agents.
  pub run_periodic_task-Counted :
      (r : Rib) (d : DelegationManager)
      → Counted d
      → Returns (run_periodic_task files r d) (λ d'. Counted d' × (length d'.sent ≤ 6))
  unfolding run_periodic_task for_agent get_available_agents get_agent
  run_periodic_task-Counted r d h =
      let (d', e, h') =
        for_each-Returns Counted (λ a. (e : EnbRibInfo) × (get_agent a r ≡ some e))
          (for_agent files r)
          (λ a t (e, q) p.
            let (t', e', p') = at_time-Counted a (e.current_frame * 10 + e.current_subframe) t p in
            (t', rw q e', p'))
          (get_available_agents r) d (keys-Found r.enb_configs) h in
      (d', e, (h', rw h' (six d'.delegation_steps)))
