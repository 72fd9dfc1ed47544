-- ===== src/Tests/Central.antt =====
-- The runs of src/app/flexible_scheduler.cc at concrete inputs: two agents, of which one has a cell
-- of 25 blocks and a UE.
use mathlib.Core.List.Perm
use mathlib.Core.Option.{some-injective}
use flexran_rtc.Base.{
  ℕ, ◌^◌, ◌<◌, ◌≡◌, refl, inl, inr, none, some, List, [], ◌∷◌, arith, ◌==◌, ==_iff, Bool-cases, All,
}
use flexran_rtc.Base.Faults.{Returns}
use flexran_rtc.Base.Maps.{find, find-cons, find-nil}
use flexran_rtc.Rib.Ue.{new_ue}
use flexran_rtc.Rib.Enb.{EnbRibInfo, new_enb, get_ue_mac_info}
use flexran_rtc.Rib.Enb.Known.{KnownUes}
use flexran_rtc.Rib.Store.{get_agent, get_available_agents}
use flexran_rtc.Sched.Helper.{UeStats}
use flexran_rtc.Sched.Flexible.Central.{Memory, Controller, run_periodic_task}
use flexran_rtc.Sched.Flexible.Central.Prepared.{Plain, Prepared}
use flexran_rtc.Sched.Flexible.Central.Health.{Healthy, Schedulable}
use flexran_rtc.Sched.Preprocessor.Sorting.{Permutes}
use flexran_rtc.Sched.Flexible.Central.Runs.{run_periodic_task-Healthy}
use flexran_rtc.Tests.Queue.{cell}
use flexran_rtc.Tests.Flexible.{app, enb}

-- The eNodeB whose UE has nothing to send.
abbrev pub quiet : EnbRibInfo
quiet = record enb { ue_mac_info = (61, new_ue 61) ∷ [] }

abbrev pub memory : Memory
memory = record { frame = 0; subframe = 0; mcs = 0 }

abbrev pub controller : Controller
controller = record {
  rib = record { enb_configs = (7, quiet) ∷ (8, new_enb 0 8) ∷ []; pending_agents = [] };
  app = app;
}

abbrev pub as_given : List UeStats → List UeStats
as_given l = l

pub given_sort : Permutes as_given
given_sort l h = Perm.refl l

quiet_ues : KnownUes quiet
unfolding get_ue_mac_info find
quiet_ues = record {
  distinct = (refl, tt);
  known = λ rnti h.
      let same : rnti ≡ 61 = ground (arith, ==_iff 61 rnti, h) in rw same (new_ue 61, refl);
}

empty_ues : KnownUes (new_enb 0 8)
unfolding new_enb
empty_ues = record { distinct = tt; known = λ rnti h. absurd (ground (arith, h)) }

empty_cells : All (λ cell. cell.dl_bandwidth < 2 ^ 15) (new_enb 0 8).enb_config
unfolding new_enb
empty_cells = tt

-- Both agents have cells that are told apart.
quiet-Plain : Plain quiet
quiet-Plain = record {
  cell_of = λ c. cell;
  apart = (refl, tt);
  within = ((omega arith, omega arith), tt);
  short = omega arith;
}

empty-Plain : Plain (new_enb 0 8)
unfolding new_enb
empty-Plain = record { cell_of = λ c. cell; apart = tt; within = tt; short = omega arith }

agents-Fit : (a : ℕ) (e : EnbRibInfo) → get_agent a controller.rib ≡ some e → Schedulable e
unfolding get_agent
agents-Fit a e q =
    let first = find-cons a 7 quiet ((8, new_enb 0 8) ∷ []) in
    let second = find-cons a 8 (new_enb 0 8) [] in
    elim (Bool-cases (7 == a)) [
      | inl is ↦
          rw (← some-injective quiet e (rw (first, is) at q))
            ((quiet_ues, (omega arith, tt)), quiet-Plain)
      | inr off ↦ elim (Bool-cases (8 == a)) [
        | inl is ↦
            rw (← some-injective (new_enb 0 8) e (rw (first, off, second, is) at q))
              ((empty_ues, empty_cells), empty-Plain)
        | inr other ↦ absurd (ground (arith, rw (first, off, second, other, find-nil a) at q))
      ]
    ]

pub controller-Healthy : Healthy controller
controller-Healthy = record {
  agents = agents-Fit;
  infos = λ a s e. absurd (ground (arith, rw (find-nil a) at e));
}

task_run :
    Returns
      (run_periodic_task as_given memory (λ path. some "contents") none controller)
      (λ w. Healthy w × (get_available_agents w.rib ≡ get_available_agents controller.rib))
task_run =
    run_periodic_task-Healthy as_given memory given_sort (λ path. some "contents") none controller
      controller-Healthy
