-- ===== src/Sched/Flexible/Policy.antt =====
-- The messages that the policy calls of src/app/flexible_scheduler.cc send.
use Prim.Native.String.{String}
use flexran_rtc.Base.{
  ℕ, ◌≡◌, refl, inl, inr, arith, ◌∙◌, ap, Bool, true, false, Option, none, some, List, [], ◌∷◌,
  ◌++◌, map, if◌then◌else◌, Option-cases, sym,
}
use mathlib.Core.List.{append_assoc, append-nil}
use flexran_rtc.Base.Text.{joined}
use flexran_rtc.Rib.Store.{Rib, get_available_agents}
use flexran_rtc.Sched.Flexible.{
  Flexible, send_message, for_agents, reconfiguration_msg, reconfigure_agent_string,
  reconfigure_agent_file, apply_agent_rrm_policy, apply_agent_rrm_policy_string,
  enable_central_scheduling, contents, directory, push_once,
}

-- Each agent is sent the policy, where there is one.
abbrev pub told : Option String → List ℕ → Flexible → Flexible
told none agents f = f
told (some policy) agents f = record f {
  sent = f.sent ++ map (λ a. (a, reconfiguration_msg policy)) agents;
}

for_agents-string :
    (policy : String) (agents : List ℕ) (f : Flexible)
    → for_agents (λ a. reconfigure_agent_string a policy) agents f ≡ told (some policy) agents f
unfolding for_agents send_message
for_agents-string policy [] f = ap (λ l. record f { sent = l }) (sym (append-nil f.sent))
for_agents-string policy (a ∷ agents) f =
    for_agents-string policy agents (reconfigure_agent_string a policy f)
    ∙ ap (λ l. record f { sent = l }) (append_assoc f.sent _ _)

for_agents-same :
    (step : ℕ → Flexible → Flexible) (agents : List ℕ) (f : Flexible)
    → ((a : ℕ) → step a f ≡ f)
    → for_agents step agents f ≡ f
unfolding for_agents
for_agents-same step [] f h = refl
for_agents-same step (a ∷ agents) f h = rw (h a) (for_agents-same step agents f h)

for_agents-ext :
    (step step' : ℕ → Flexible → Flexible) (agents : List ℕ) (f : Flexible)
    → ((a : ℕ) (g : Flexible) → step a g ≡ step' a g)
    → for_agents step agents f ≡ for_agents step' agents f
unfolding for_agents
for_agents-ext step step' [] f h = refl
for_agents-ext step step' (a ∷ agents) f h =
    rw (h a f) (for_agents-ext step step' agents (step' a f) h)

module _ (files : String → Option String) (home : Option String) where
  for_agents-file :
      (path : String) (agents : List ℕ) (f : Flexible)
      → for_agents (λ a. reconfigure_agent_file files home a path) agents f
        ≡ told (contents files home path) agents f
  unfolding reconfigure_agent_file
  for_agents-file path agents f =
      let step = λ (a : ℕ). reconfigure_agent_file files home a path in
      elim (Option-cases (contents files home path)) [
        | inl e ↦ rw e (for_agents-same step agents f (λ a. rw (reconfigure_agent_file, e) refl))
        | inr (policy, e) ↦ rw e (
            for_agents-ext step (λ a. reconfigure_agent_string a policy) agents f
              (λ a g. rw (reconfigure_agent_file, e) refl)
            ∙ for_agents-string policy agents f)
      ]

  -- The calls by which a policy is applied answer false and change nothing under central
  -- scheduling; else they answer true and send the policy, or the contents of its file, to each
  -- agent once and in order, and nothing where the file cannot be read or is empty. Switching
  -- central scheduling sends the contents of the file for the mode in the same way.
  pub apply_agent_rrm_policy_lem :
      (r : Rib) (policy : String) (f : Flexible)
      → let agents = get_available_agents r in
        let file = contents files home (joined (directory files home) policy) in
        (apply_agent_rrm_policy_string r policy f
          ≡ (if f.central_scheduling then (f, false) else (told (some policy) agents f, true)))
        × ((apply_agent_rrm_policy files home r policy f
              ≡ (if f.central_scheduling then (f, false) else (told file agents f, true)))
            × ((central : Bool)
                → enable_central_scheduling files home r central f
                  ≡ told
                      (contents files home (
                        joined
                          (directory files home)
                          (if central then "remote_policy.yaml" else "local_policy.yaml")))
                      agents
                      (record f { central_scheduling = central })))
  unfolding apply_agent_rrm_policy_string apply_agent_rrm_policy enable_central_scheduling
  apply_agent_rrm_policy_lem r policy f =
      let agents = get_available_agents r in
      (
        rw (for_agents-string policy agents f) refl,
        (
          rw (for_agents-file (joined (directory files home) policy) agents f) refl,
          λ central.
              for_agents-file
                (joined (directory files home)
                  (if central then "remote_policy.yaml" else "local_policy.yaml"))
                agents (record f { central_scheduling = central }),
        ),
      )

  push_once-pushed : (a : ℕ) (f : Flexible) → f.code_pushed ≡ true → push_once files home a f ≡ f
  unfolding push_once
  push_once-pushed a f h = rw h refl

  push_once-marks : (a : ℕ) (f : Flexible) → (push_once files home a f).code_pushed ≡ true
  unfolding push_once
  push_once-marks a f = ground arith

  -- Of all agents only the first is ever pushed the code: after it, neither the other agents of
  -- the same run nor any agents of a later run change anything.
  pub push_once_lem :
      (a : ℕ) (agents later : List ℕ) (f : Flexible)
      → let pushed = push_once files home a f in
        (for_agents (push_once files home) (a ∷ agents) f ≡ pushed)
        × (for_agents (push_once files home) later pushed ≡ pushed)
  unfolding for_agents
  push_once_lem a agents later f =
      let pushed = push_once files home a f in
      let done : (b : ℕ) → push_once files home b pushed ≡ pushed =
        λ b. push_once-pushed b pushed (push_once-marks a f) in
      (
        for_agents-same (push_once files home) agents pushed done,
        for_agents-same (push_once files home) later pushed done,
      )
