-- ===== src/Sched/Flexible/Central/Health.antt =====
-- What run_central_scheduler of src/app/flexible_scheduler.cc relies on in the information base and
-- in its own scheduling information, and how the steps of its body for an agent keep it.
use mathlib.Core.Option.{some-injective}
use flexran_rtc.Base.{
  ℕ, ◌≡◌, refl, ◌∙◌, ap, inl, inr, none, some, List, [], ◌∷◌, arith, ◌==◌, if◌then◌else◌, ==_iff,
  Bool-cases, Option-cases,
}
use flexran_rtc.Base.Maps.{find, find-modify, find-insert, find-nil, keys, keys-modify}
use flexran_rtc.Messages.{DlData}
use flexran_rtc.Rib.Enb.{EnbRibInfo}
use flexran_rtc.Rib.Enb.Fit.{AgentFit}
use flexran_rtc.Rib.Store.{Rib, get_agent, update_entry, get_available_agents}
use flexran_rtc.Sched.Info.{EnbSchedulingInfo, new_enb_info}
use flexran_rtc.Sched.Helper.Few.{EnbFew}
use flexran_rtc.Sched.Flexible.{Flexible, send_message}
use flexran_rtc.Sched.Flexible.Round.{Round}
use flexran_rtc.Sched.Flexible.Central.{
  Memory, Controller, ensure_info, store_info, send_scheduled, finish,
}
use flexran_rtc.Sched.Flexible.Central.Prepared.{FewSymbols, Plain}

-- At most three symbols for each cell, and at most four blocks for each group that a UE has.
abbrev pub InfoFit : EnbSchedulingInfo → Type 0
InfoFit s = FewSymbols s × EnbFew s

-- An agent whose UEs can be scheduled.
abbrev pub Schedulable : EnbRibInfo → Type 0
Schedulable e = AgentFit e × Plain e

-- This holds of each agent and of all scheduling information.
pub record Healthy (w : Controller) : Type 0 where
  pub agents : (a : ℕ) (e : EnbRibInfo) → get_agent a w.rib ≡ some e → Schedulable e
  pub infos : (a : ℕ) (s : EnbSchedulingInfo) → find a (w.app).scheduling_info ≡ some s → InfoFit s

pub new_enb_info-InfoFit : (frame subframe : ℕ) → InfoFit (new_enb_info frame subframe)
unfolding new_enb_info
new_enb_info-InfoFit frame subframe =
    (λ c. omega arith, λ r u e. absurd (ground (arith, rw (find-nil r) at e)))

-- What is found after scheduling information was made for an agent.
pub ensure_info-find :
    (m : Memory) (a b : ℕ) (f : Flexible)
    → find b (ensure_info m a f).scheduling_info ≡ (elim (find b f.scheduling_info) [
      | none ↦ if a == b then some (new_enb_info m.frame m.subframe) else none
      | some s ↦ some s
    ])
unfolding ensure_info
ensure_info-find m a b f = elim (Option-cases (find a f.scheduling_info)) [
  | inl e ↦
      rw (ensure_info, e) (find-insert a b (new_enb_info m.frame m.subframe) f.scheduling_info)
  | inr (s, e) ↦ rw (ensure_info, e) (ground (arith, e, ==_iff a b))
]

-- Sending leaves the scheduling information.
send_scheduled-info :
    (agent_id frame subframe : ℕ) (l : List DlData) (f : Flexible)
    → (send_scheduled agent_id frame subframe l f).scheduling_info ≡ f.scheduling_info
unfolding send_scheduled send_message
send_scheduled-info agent_id frame subframe [] f = refl
send_scheduled-info agent_id frame subframe (d ∷ l) f = refl

-- Sending leaves the variables of the run.
send_scheduled-locals :
    (agent_id frame subframe : ℕ) (l : List DlData) (f : Flexible)
    → (send_scheduled agent_id frame subframe l f).locals ≡ f.locals
unfolding send_scheduled send_message
send_scheduled-locals agent_id frame subframe [] f = refl
send_scheduled-locals agent_id frame subframe (d ∷ l) f = refl

-- Making scheduling information leaves them as well.
pub ensure_info-locals : (m : Memory) (a : ℕ) (f : Flexible) → (ensure_info m a f).locals ≡ f.locals
unfolding ensure_info
ensure_info-locals m a f = elim (Option-cases (find a f.scheduling_info)) [
  | inl e ↦ rw (ensure_info, e) refl
  | inr (s, e) ↦ rw (ensure_info, e) refl
]

-- The scheduling information that is stored at the end of the body for an agent.
abbrev pub checked : EnbRibInfo → Round → EnbSchedulingInfo
checked e r = record (r.sched) {
  last_checked_frame = e.current_frame;
  last_checked_subframe = e.current_subframe;
}

update_entry-keys :
    (f : EnbRibInfo → EnbRibInfo) (a : ℕ) (r : Rib)
    → keys (update_entry f a r).enb_configs ≡ keys r.enb_configs
unfolding update_entry
update_entry-keys f a r = elim (Option-cases (find a r.enb_configs)) [
  | inl e ↦ rw (update_entry, e) refl
  | inr (v, e) ↦ rw (update_entry, e) (keys-modify a f r.enb_configs)
]

module _ (a : ℕ) (e : EnbRibInfo) (frame subframe : ℕ) (r : Round) (w : Controller) where
  pub finish-info :
      (b : ℕ) (s : EnbSchedulingInfo)
      → find a (w.app).scheduling_info ≡ some s
      → find b ((finish a e frame subframe r w).app).scheduling_info
        ≡ (if a == b then some (checked e r) else find b (w.app).scheduling_info)
  unfolding finish store_info
  finish-info b s es =
      ap (λ l. find b l)
        (send_scheduled-info a frame subframe r.dl_ue_data
          (record (store_info a (checked e r) w.app) { locals = r.locals }))
      ∙ ground (arith, find-modify a b (λ _. checked e r) (w.app).scheduling_info, es, ==_iff a b)

  pub finish-locals : ((finish a e frame subframe r w).app).locals ≡ r.locals
  unfolding finish
  finish-locals =
      send_scheduled-locals a frame subframe r.dl_ue_data
        (record (store_info a (checked e r) w.app) { locals = r.locals })

  pub finish-agent :
      (b : ℕ)
      → get_agent a w.rib ≡ some e
      → get_agent b (finish a e frame subframe r w).rib
        ≡ (if a == b then some r.enb else get_agent b w.rib)
  unfolding finish get_agent update_entry
  finish-agent b ea =
      rw (update_entry, ea)
        (ground (arith, find-modify a b (λ _. r.enb) (w.rib).enb_configs, ea, ==_iff a b))

  pub finish-agents :
      get_available_agents (finish a e frame subframe r w).rib ≡ get_available_agents w.rib
  unfolding finish get_available_agents
  finish-agents = update_entry-keys (λ _. r.enb) a w.rib

-- The scheduling information of an agent is there after it was made.
pub ensure_info-Found :
    (m : Memory) (a : ℕ) (f : Flexible)
    → (s : EnbSchedulingInfo) × (find a (ensure_info m a f).scheduling_info ≡ some s)
ensure_info-Found m a f = elim (Option-cases (find a f.scheduling_info)) [
  | inl e ↦
      (new_enb_info m.frame m.subframe, ensure_info-find m a a f ∙ ground (arith, e, ==_iff a a))
  | inr (s, e) ↦ (s, ensure_info-find m a a f ∙ rw e refl)
]

-- What was there stays.
pub ensure_info-kept :
    (m : Memory) (a b : ℕ) (f : Flexible) (s : EnbSchedulingInfo)
    → find b f.scheduling_info ≡ some s
    → find b (ensure_info m a f).scheduling_info ≡ some s
ensure_info-kept m a b f s e = ensure_info-find m a b f ∙ rw e refl

pub ensure_info-Healthy :
    (m : Memory) (a : ℕ) (w : Controller)
    → Healthy w
    → Healthy (record w { app = ensure_info m a w.app })
ensure_info-Healthy m a w h = record { agents = h.agents; infos = fit }
  where
    fit :
        (b : ℕ) (s : EnbSchedulingInfo)
        → find b (ensure_info m a w.app).scheduling_info ≡ some s
        → InfoFit s
    fit b s e =
        let found = ensure_info-find m a b w.app in
        elim (Option-cases (find b (w.app).scheduling_info)) [
          | inr (v, old) ↦ h.infos b s (old ∙ rw (found, old) at e)
          | inl new ↦ elim (Bool-cases (a == b)) [
            | inl is ↦
                rw (← some-injective (new_enb_info m.frame m.subframe) s (rw (found, new, is) at e))
                  (new_enb_info-InfoFit m.frame m.subframe)
            | inr other ↦ absurd (ground (arith, rw (found, new, other) at e))
          ]
        ]

-- The end of the body keeps all of this, where the cells are those of the agent and the UEs that
-- the loop leaves are known and have few blocks.
pub finish-Healthy :
    (a : ℕ) (e : EnbRibInfo) (s : EnbSchedulingInfo) (frame subframe : ℕ) (r : Round)
    (w : Controller)
    → get_agent a w.rib ≡ some e
    → find a (w.app).scheduling_info ≡ some s
    → Schedulable r.enb
    → InfoFit r.sched
    → Healthy w
    → Healthy (finish a e frame subframe r w)
finish-Healthy a e s frame subframe r w ea es fit info h = record { agents = agents; infos = infos }
  where
    agents :
        (b : ℕ) (e' : EnbRibInfo)
        → get_agent b (finish a e frame subframe r w).rib ≡ some e'
        → Schedulable e'
    agents b e' q =
        let found = finish-agent a e frame subframe r w b ea in
        elim (Bool-cases (a == b)) [
          | inl is ↦ rw (← some-injective r.enb e' (rw (found, is) at q)) fit
          | inr other ↦ h.agents b e' (rw (found, other) at q)
        ]

    infos :
        (b : ℕ) (s' : EnbSchedulingInfo)
        → find b ((finish a e frame subframe r w).app).scheduling_info ≡ some s'
        → InfoFit s'
    infos b s' q =
        let found = finish-info a e frame subframe r w b s es in
        elim (Bool-cases (a == b)) [
          | inl is ↦ rw (← some-injective (checked e r) s' (rw (found, is) at q)) info
          | inr other ↦ h.infos b s' (rw (found, other) at q)
        ]
