-- ===== src/NorthApi/Answers.antt =====
-- What the calls of src/north_api answer and change.
use Prim.Native.String.{String}
use text.Mathlib.Text.{◌==◌}
use flexran_rtc.Base.{
  ℕ, zero, suc, [], none, some, List, ◌≡◌, refl, inl, inr, Bool, true, false, Option, Bool-cases,
}
use flexran_rtc.Base.Int.{ℤ, pos, negsuc}
use flexran_rtc.Base.Text.{is_blank, joined}
use flexran_rtc.Network.Xface.{Lockfree, Codec}
use flexran_rtc.Rib.Store.{Rib, get_available_agents}
use flexran_rtc.Sched.Flexible.{Flexible, contents, directory, enable_central_scheduling}
use flexran_rtc.Sched.Flexible.Policy.{told, apply_agent_rrm_policy_lem}
use flexran_rtc.Core.{System, send_all}
use flexran_rtc.NorthApi.{
  Response, Code, ok, not_found, method_not_allowed, change_scheduler, apply_policy,
  apply_policy_string,
}

-- Nothing is handed to the network and nothing is changed, but that the scheduler's list of the
-- messages of its last run may have been emptied.
pub record Untouched {Q : Type 0} (s s' : System Q) : Type 0 where
  pub net_xface : s'.net_xface ≡ s.net_xface
  pub rib : s'.rib ≡ s.rib
  pub stats : s'.stats ≡ s.stats
  pub scheduler : record (s'.scheduler) { sent = [] } ≡ record (s.scheduler) { sent = [] }

-- The code for a policy, by whether none is named and whether the central scheduler is on.
abbrev pub policy_code : Bool → Bool → Code
policy_code true central = not_found
policy_code false true = method_not_allowed
policy_code false false = ok

-- The mode that a number asks for.
abbrev pub mode : ℤ → Option Bool
mode (pos zero) = some false
mode (pos (suc zero)) = some true
mode (pos (suc (suc n))) = none
mode (negsuc n) = none

-- What is required of the answer for a mode.
abbrev pub Loaded : {Q : Type 0} → Option Bool → System Q → System Q × Response → Type 0
Loaded (some central) s out =
    ((out.1).code ≡ ok) × ((out.0).scheduler.central_scheduling ≡ central) × ((out.0).rib ≡ s.rib)
Loaded none s out = ((out.1).code ≡ not_found) × Untouched s out.0

told-mode :
    (o : Option String) (agents : List ℕ) (f : Flexible)
    → (told o agents f).central_scheduling ≡ f.central_scheduling
told-mode none agents f = refl
told-mode (some policy) agents f = refl

module _ {Q : Type 0} (queue : Lockfree Q) (codec : Codec) where
  -- The scheduler after the policy, where there is one, was sent to each available agent.
  abbrev pub told_agents : Option String → System Q → Flexible
  told_agents policy s =
      told policy (get_available_agents s.rib) (record (s.scheduler) { sent = [] })

  -- A policy that is answered with ok was told to the agents, and its messages were handed to the
  -- network in this order; a refusal leaves the system untouched.
  abbrev pub Carried : Code → Option String → System Q → System Q → Type 0
  Carried ok policy s s' =
      (s'.scheduler ≡ told_agents policy s)
      × (s'.net_xface ≡ send_all queue codec (told_agents policy s).sent s.net_xface)
      × (s'.rib ≡ s.rib)
      × (s'.stats ≡ s.stats)
  Carried not_found policy s s' = Untouched s s'
  Carried method_not_allowed policy s s' = Untouched s s'

  -- What is required of the answer for a policy, which is blank or not.
  abbrev pub Applied : Bool → Option String → System Q → System Q × Response → Type 0
  Applied blank policy s out =
      ((out.1).code ≡ policy_code blank (s.scheduler).central_scheduling)
      × Carried (out.1).code policy s out.0

  same : (s : System Q) → Untouched s s
  same s = record { net_xface = refl; rib = refl; stats = refl; scheduler = refl }

  module _ (files : String → Option String) (home : Option String) where
    -- Sending a policy leaves the mode.
    switched :
        (r : Rib) (central : Bool) (f : Flexible)
        → (enable_central_scheduling files home r central f).central_scheduling ≡ central
    switched r central f =
        rw ((apply_agent_rrm_policy_lem files home r "" f).1.1 central) (told-mode _ _ _)

    -- The number 0 loads the scheduler of the agents and 1 the central one: the answer is ok and
    -- the mode is as asked. For any other number the answer is that there is no such scheduler,
    -- and nothing changes.
    pub change_scheduler_lem :
        (n : ℤ) (s : System Q) → Loaded (mode n) s (change_scheduler queue codec files home n s)
    unfolding change_scheduler
    change_scheduler_lem (pos zero) s = (refl, switched s.rib false _, refl)
    change_scheduler_lem (pos (suc zero)) s = (refl, switched s.rib true _, refl)
    change_scheduler_lem (pos (suc (suc n))) s = (refl, same s)
    change_scheduler_lem (negsuc n) s = (refl, same s)

    -- The contents of the file that a policy names.
    abbrev pub named_policy : String → Option String
    named_policy policy = contents files home (joined (directory files home) policy)

    named :
        (policy : String) (s : System Q)
        → Applied
            (policy == "")
            (named_policy policy)
            s
            (apply_policy queue codec files home policy s)
    unfolding apply_policy send_all
    named policy s =
        let law =
          (apply_agent_rrm_policy_lem files home s.rib policy
            (record (s.scheduler) { sent = [] })).1.0 in
        elim (Bool-cases (policy == "")) [
          | inl e ↦ rw (apply_policy, e) (refl, same s)
          | inr e ↦ elim (Bool-cases ((s.scheduler).central_scheduling)) [
            | inl on ↦
                rw (apply_policy, e, law, on)
                  (refl, record { net_xface = refl; rib = refl; stats = refl; scheduler = refl })
            | inr off ↦ rw (apply_policy, e, law, off) (refl, (refl, refl, refl, refl))
          ]
        ]

    whole :
        (policy : String) (s : System Q)
        → Applied
            (is_blank policy)
            (some policy)
            s
            (apply_policy_string queue codec files home policy s)
    unfolding apply_policy_string send_all
    whole policy s =
        let law =
          (apply_agent_rrm_policy_lem files home s.rib policy
            (record (s.scheduler) { sent = [] })).0 in
        elim (Bool-cases (is_blank policy)) [
          | inl e ↦ rw (apply_policy_string, e) (refl, same s)
          | inr e ↦ elim (Bool-cases ((s.scheduler).central_scheduling)) [
            | inl on ↦
                rw (apply_policy_string, e, law, on)
                  (refl, record { net_xface = refl; rib = refl; stats = refl; scheduler = refl })
            | inr off ↦ rw (apply_policy_string, e, law, off) (refl, (refl, refl, refl, refl))
          ]
        ]

    -- A policy, by name or whole, is not found where it is empty and not allowed under central
    -- scheduling; then no message is sent and nothing changes. Else the answer is ok, the policy, or
    -- the contents of its file where it can be read and is not empty, is told to each available
    -- agent once, and exactly these messages are handed to the network.
    pub apply_policy_lem :
        (policy : String) (s : System Q)
        → Applied
            (policy == "")
            (named_policy policy)
            s
            (apply_policy queue codec files home policy s)
          × Applied
              (is_blank policy)
              (some policy)
              s
              (apply_policy_string queue codec files home policy s)
    apply_policy_lem policy s = (named policy s, whole policy s)
