-- ===== src/Tests/Apps.antt =====
-- The laws of the managers of src/app at concrete inputs.
use Prim.Native.String.{String}
use flexran_rtc.Base.{refl, ℕ, ◌≤◌, ◌≡◌, some, Option, [], ◌∷◌, false, length, ◌||◌}
use flexran_rtc.Base.Faults.{Returns}
use flexran_rtc.Base.Maps.{find}
use flexran_rtc.Rib.Enb.{EnbRibInfo, new_enb}
use flexran_rtc.Rib.Store.{Rib, get_available_agents}
use flexran_rtc.Apps.Stats
use flexran_rtc.Apps.Stats.{StatsManager}
use flexran_rtc.Apps.Stats.Asked.{Once, asked, is_among, run_periodic_task-Once}
use flexran_rtc.Apps.Delegation
use flexran_rtc.Apps.Delegation.{DelegationManager}
use flexran_rtc.Apps.Delegation.Steps.{Counted, steps_done, run_periodic_task-Counted}

abbrev late : EnbRibInfo
late = record (new_enb 0 7) { current_frame = 200; current_subframe = 0 }

abbrev two_agents : Rib
two_agents = record { enb_configs = (7, late) ∷ (8, late) ∷ []; pending_agents = [] }

abbrev new_stats : StatsManager
new_stats = record { agent_list = []; sent = [] }

none_asked : Once new_stats
unfolding Once find
none_asked a = refl

both_asked :
    Once (Stats.run_periodic_task two_agents new_stats)
    × ((a : ℕ)
        → asked a (Stats.run_periodic_task two_agents new_stats)
          ≡ (is_among a (get_available_agents two_agents) || asked a new_stats))
both_asked = run_periodic_task-Once two_agents new_stats none_asked

abbrev files : String → Option String
files path = some "contents"

readable : (path : String) → (text : String) × (files path ≡ some text)
readable path = ("contents", refl)

abbrev new_delegation : DelegationManager
new_delegation = record { delegation_steps = λ i. false; sent = [] }

nothing_sent : Counted new_delegation
unfolding steps_done
nothing_sent = refl

step_sent :
    Returns
      (Delegation.run_periodic_task files two_agents new_delegation)
      (λ d. Counted d × (length d.sent ≤ 6))
step_sent = run_periodic_task-Counted files readable two_agents new_delegation nothing_sent
