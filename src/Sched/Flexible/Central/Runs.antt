-- ===== src/Sched/Flexible/Central/Runs.antt =====
-- run_central_scheduler and run_periodic_task of src/app/flexible_scheduler.cc over all agents.
use Prim.Native.String.{String}
use flexran_rtc.Sched.Preprocessor.Sorting.{Permutes}
use flexran_rtc.Base.{
  arith, ◌≤◌, ℕ, ◌≡◌, refl, ◌∙◌, inl, inr, Bool, true, false, Option, some, List, [], ◌∷◌,
  if◌then◌else◌, Option-cases, All,
}
use flexran_rtc.Base.Faults.{◌>>=◌, Returns, Returns-if, for_each}
use flexran_rtc.Base.Maps.{keys-Found}
use flexran_rtc.Base.Text.{joined}
use flexran_rtc.Rib.Enb.{EnbRibInfo}
use flexran_rtc.Rib.Store.{get_agent, get_available_agents}
use flexran_rtc.Sched.Info.{EnbSchedulingInfo}
use flexran_rtc.Sched.Helper.{UeStats}
use flexran_rtc.Sched.Flexible.{
  Flexible, send_message, for_agents, push_code, push_once, contents, directory,
}
use flexran_rtc.Sched.Flexible.Central.{
  Memory, Controller, schedule_agent, run_central_scheduler, run_periodic_task,
}
use flexran_rtc.Sched.Flexible.Central.Health.{Healthy}
use flexran_rtc.Sched.Flexible.Central.Slots.{
  Idle, Idle-schedule_agent, Visited, schedule_agent-Visited,
}

-- The state with the variables that a run starts from.
abbrev pub begun : Memory → Controller → Controller
begun m w = record w {
  app = record (w.app) {
    locals = record ((w.app).locals) { aggregation = 1; ce_flags = 0; mcs = m.mcs };
  };
}

begun-Healthy : (m : Memory) (w : Controller) → Healthy w → Healthy (begun m w)
begun-Healthy m w h = record { agents = h.agents; infos = h.infos }

module _ (sort : List UeStats → List UeStats) (m : Memory) where
  -- Where no slot is due the loop does nothing.
  for_each-Idle :
      (l : List ℕ) (w : Controller)
      → All (λ a. Idle sort m a w) l
      → for_each (schedule_agent sort m) l w ≡ some w
  unfolding for_each
  for_each-Idle [] w h = refl
  for_each-Idle (a ∷ l) w h = rw (Idle-schedule_agent sort m a w h.0, ◌>>=◌) (for_each-Idle l w h.1)

  module _ (perm : Permutes sort) where
    visit_all :
        (l : List ℕ) (w : Controller)
        → ((w.app).locals).aggregation ≤ 3
        → Healthy w
        → All (λ a. (e : EnbRibInfo) × (get_agent a w.rib ≡ some e)) l
        → Returns (for_each (schedule_agent sort m) l w) (λ w'.
          Healthy w'
          × All (λ a. Idle sort m a w') l
          × ((b : ℕ) → Idle sort m b w → Idle sort m b w')
          × (get_available_agents w'.rib ≡ get_available_agents w.rib))
    unfolding for_each
    visit_all [] w level h k = (w, refl, (h, tt, λ b i. i, refl))
    visit_all (a ∷ l) w level h k =
        let (e, eg) = k.0 in
        let (w1, e1, v) = schedule_agent-Visited sort m perm a w e level h eg in
        let (w2, e2, (h2, idle, kept, same)) =
          visit_all l w1 v.level v.healthy (later l w1 v k.1) in
        (
          w2,
          rw (e1, ◌>>=◌) e2,
          (h2, (kept a v.own, idle), λ b i. kept b (v.others b i), same ∙ v.agents),
        )
      where
        later :
            (l' : List ℕ) (w1 : Controller)
            → Visited sort m perm a w w1
            → All (λ b. (e : EnbRibInfo) × (get_agent b w.rib ≡ some e)) l'
            → All (λ b. (e : EnbRibInfo) × (get_agent b w1.rib ≡ some e)) l'
        later [] w1 v k' = tt
        later (b ∷ l') w1 v k' = (v.there b k'.0.0 k'.0.1, later l' w1 v k'.1)

    pub run_central_scheduler-once :
        (w : Controller)
        → Healthy w
        → Returns (run_central_scheduler sort m w) (λ w'.
          Healthy w'
          × (run_central_scheduler sort m w' ≡ some (begun m w'))
          × (get_available_agents w'.rib ≡ get_available_agents w.rib))
    unfolding run_central_scheduler get_available_agents get_agent
    run_central_scheduler-once w h =
        let (w', e, (h', idle, _, same)) =
          visit_all (get_available_agents w.rib) (begun m w) (omega arith) (begun-Healthy m w h)
            (keys-Found (w.rib).enb_configs) in
        (w', e, (h', rw same (for_each-Idle (get_available_agents w.rib) (begun m w') idle), same))

-- Sending the code leaves the scheduling information.
push_code-info :
    (files : String → Option String) (home : Option String) (a : ℕ) (name lib : String)
    (f : Flexible)
    → (push_code files home a name lib f).scheduling_info ≡ f.scheduling_info
unfolding push_code send_message
push_code-info files home a name lib f = elim (Option-cases (contents files home lib)) [
  | inl e ↦ rw (push_code, e) refl
  | inr (text, e) ↦ rw (push_code, e) refl
]

info-if :
    (b : Bool) (f g : Flexible) (l : List (ℕ × EnbSchedulingInfo))
    → f.scheduling_info ≡ l
    → g.scheduling_info ≡ l
    → (if b then f else g).scheduling_info ≡ l
info-if true f g l p q = p
info-if false f g l p q = q

push_once-info :
    (files : String → Option String) (home : Option String) (a : ℕ) (f : Flexible)
    → (push_once files home a f).scheduling_info ≡ f.scheduling_info
unfolding push_once
push_once-info files home a f =
    let remote =
      push_code files home a "flexran_schedule_ue_spec_remote"
        (joined (directory files home) "libremote_sched.so") f in
    info-if f.code_pushed f _ f.scheduling_info refl (
      push_code-info files home a "flexran_schedule_ue_spec_default"
        (joined (directory files home) "libdefault_sched.so") remote
      ∙ push_code-info files home a "flexran_schedule_ue_spec_remote"
          (joined (directory files home) "libremote_sched.so") f)

for_agents-info :
    (files : String → Option String) (home : Option String) (l : List ℕ) (f : Flexible)
    → (for_agents (push_once files home) l f).scheduling_info ≡ f.scheduling_info
unfolding for_agents
for_agents-info files home [] f = refl
for_agents-info files home (a ∷ l) f =
    for_agents-info files home l (push_once files home a f) ∙ push_once-info files home a f

-- From a state as run_central_scheduler requires it, run_periodic_task of the scheduler returns
-- without a fault, with central scheduling and without, leaves such a state again, and
-- the available agents stay the same.
pub run_periodic_task-Healthy :
    (sort : List UeStats → List UeStats) (m : Memory)
    → Permutes sort
    → (files : String → Option String) (home : Option String) (w : Controller) → Healthy w
    → Returns
        (run_periodic_task sort m files home w)
        (λ w'. Healthy w' × (get_available_agents w'.rib ≡ get_available_agents w.rib))
unfolding run_periodic_task
run_periodic_task-Healthy sort m perm files home w h =
    let pushed = for_agents (push_once files home) (get_available_agents w.rib) w.app in
    let w1 : Controller = record w { app = pushed } in
    let h1 : Healthy w1 = record {
      agents = h.agents;
      infos = λ a s e.
          h.infos a s (rw (for_agents-info files home (get_available_agents w.rib) w.app) at e);
    } in
    let (w2, e2, p) = run_central_scheduler-once sort m perm w1 h1 in
    Returns-if pushed.central_scheduling _ _ (w2, e2, (p.0, p.2)) (w1, refl, (h1, refl))
