-- ===== src/NorthApi/Calls.antt =====
-- The calls of src/north_api leave the information base and the scheduling information.
use Prim.Native.String.{String}
use text.Mathlib.Text.{◌==◌}
use flexran_rtc.Base.{
  ℕ, zero, suc, ◌≡◌, refl, inl, inr, Bool, true, false, Option, none, some, List, [], if◌then◌else◌,
  Bool-cases,
}
use flexran_rtc.Base.Int.{ℤ, pos, negsuc}
use flexran_rtc.Base.Text.{is_blank, joined}
use flexran_rtc.Network.Xface.{Lockfree, Codec}
use flexran_rtc.Rib.Store.{Rib, get_available_agents}
use flexran_rtc.Sched.Flexible.{
  Flexible, contents, directory, apply_agent_rrm_policy, apply_agent_rrm_policy_string,
  enable_central_scheduling,
}
use flexran_rtc.Sched.Flexible.Policy.{told, apply_agent_rrm_policy_lem}
use flexran_rtc.Core.{System}
use flexran_rtc.Core.Cycle.{Sane}
use flexran_rtc.NorthApi.{change_scheduler, apply_policy, apply_policy_string}

-- The same information base and the same scheduling information.
pub record SameInfo {Q : Type 0} (s s' : System Q) : Type 0 where
  pub rib : s'.rib ≡ s.rib
  pub info : (s'.scheduler).scheduling_info ≡ (s.scheduler).scheduling_info

pub SameInfo-Sane : {Q : Type 0} (s s' : System Q) → SameInfo s s' → Sane s → Sane s'
SameInfo-Sane s s' k h = record {
  agents = λ a e q. h.agents a e (rw k.rib at q);
  infos = λ a i q. h.infos a i (rw k.info at q);
}

told-info :
    (o : Option String) (agents : List ℕ) (f : Flexible)
    → (told o agents f).scheduling_info ≡ f.scheduling_info
told-info none agents f = refl
told-info (some policy) agents f = refl

-- A result that is the state as it was, or after a policy was sent.
either-info :
    (b : Bool) (o : Option String) (agents : List ℕ) (f : Flexible)
    → let out : Flexible × Bool = if b then (f, false) else (told o agents f, true) in
      (out.0).scheduling_info ≡ f.scheduling_info
either-info true o agents f = refl
either-info false o agents f = told-info o agents f

module _ {Q : Type 0} (queue : Lockfree Q) (codec : Codec) (files : String → Option String)
    (home : Option String) where
  switch-info :
      (r : Rib) (central : Bool) (f : Flexible)
      → (enable_central_scheduling files home r central f).scheduling_info ≡ f.scheduling_info
  switch-info r central f =
      rw ((apply_agent_rrm_policy_lem files home r "" f).1.1 central) (told-info _ _ _)

  pub change_scheduler-info :
      (n : ℤ) (s : System Q) → SameInfo s (change_scheduler queue codec files home n s).0
  unfolding change_scheduler
  change_scheduler-info (pos zero) s = record { rib = refl; info = switch-info s.rib false _ }
  change_scheduler-info (pos (suc zero)) s = record { rib = refl; info = switch-info s.rib true _ }
  change_scheduler-info (pos (suc (suc n))) s = record { rib = refl; info = refl }
  change_scheduler-info (negsuc n) s = record { rib = refl; info = refl }

  policy-info :
      (r : Rib) (policy : String) (f : Flexible)
      → ((apply_agent_rrm_policy files home r policy f).0.scheduling_info ≡ f.scheduling_info)
        × ((apply_agent_rrm_policy_string r policy f).0.scheduling_info ≡ f.scheduling_info)
  policy-info r policy f =
      let agents = get_available_agents r in
      let (whole, (named, _)) = apply_agent_rrm_policy_lem files home r policy f in
      (
        rw named (
            either-info f.central_scheduling
              (contents files home (joined (directory files home) policy)) agents f),
        rw whole (either-info f.central_scheduling (some policy) agents f),
      )

  pub apply_policy-info :
      (policy : String) (s : System Q) → SameInfo s (apply_policy queue codec files home policy s).0
  unfolding apply_policy
  apply_policy-info policy s = elim (Bool-cases (policy == "")) [
    | inl e ↦ rw (apply_policy, e) (record { rib = refl; info = refl })
    | inr e ↦
        rw (apply_policy, e)
          (record {
            rib = refl;
            info = (policy-info s.rib policy (record (s.scheduler) { sent = [] })).0;
          })
  ]

  pub apply_policy_string-info :
      (policy : String) (s : System Q)
      → SameInfo s (apply_policy_string queue codec files home policy s).0
  unfolding apply_policy_string
  apply_policy_string-info policy s = elim (Bool-cases (is_blank policy)) [
    | inl e ↦ rw (apply_policy_string, e) (record { rib = refl; info = refl })
    | inr e ↦
        rw (apply_policy_string, e)
          (record {
            rib = refl;
            info = (policy-info s.rib policy (record (s.scheduler) { sent = [] })).1;
          })
  ]
