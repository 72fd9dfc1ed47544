-- ===== src/Apps/Stats/Asked.antt =====
-- Which agents src/app/stats_manager.cc has asked for statistics.
use flexran_rtc.Base.{
  ℕ, ◌+◌, ◌≡◌, refl, inl, inr, Bool, false, List, [], ◌∷◌, ◌++◌, arith, ◌==◌, ◌||◌, if◌then◌else◌,
  ==_iff, Option-cases,
}
use flexran_rtc.Base.Maps.{find, find-insert}
use flexran_rtc.Messages.{FlexranMessage}
use flexran_rtc.Rib.Store.{Rib, present, get_available_agents}
use flexran_rtc.Apps.Stats.{StatsManager, stats_request_msg, ask, ask_all, run_periodic_task}

-- How many messages went to an agent.
abbrev pub sent_to : ℕ → List (ℕ × FlexranMessage) → ℕ
sent_to a [] = 0
sent_to a ((b, msg) ∷ l) = (if b == a then 1 else 0) + sent_to a l

abbrev pub asked : ℕ → StatsManager → Bool
asked a m = present (find a m.agent_list)

abbrev pub is_among : ℕ → List ℕ → Bool
is_among a [] = false
is_among a (b ∷ l) = b == a || is_among a l

-- An agent that was asked was sent one message, and any other none.
unfoldable pub Once : StatsManager → Type 0
Once m = (a : ℕ) → sent_to a m.sent ≡ (if asked a m then 1 else 0)

sent_to-append :
    (a b : ℕ) (msg : FlexranMessage) (l : List (ℕ × FlexranMessage))
    → sent_to a (l ++ (b, msg) ∷ []) ≡ sent_to a l + (if b == a then 1 else 0)
sent_to-append a b msg [] = ground arith
sent_to-append a b msg ((c, n) ∷ l) = ground (arith, sent_to-append a b msg l)

ask_lem :
    (b : ℕ) (m : StatsManager)
    → Once m
    → Once (ask b m) × ((a : ℕ) → asked a (ask b m) ≡ (b == a || asked a m))
unfolding ask Once
ask_lem b m h = elim (Option-cases (find b m.agent_list)) [
  | inr (_, e) ↦ (rw (ask, e) h, λ a. ground (arith, e, ==_iff b a))
  | inl e ↦ (
    λ a. ground (
      arith,
      e,
      h a,
      ==_iff b a,
      find-insert b a tt m.agent_list,
      sent_to-append a b stats_request_msg m.sent,
    ),
    λ a. ground (arith, e, ==_iff b a, find-insert b a tt m.agent_list),
  )
]

ask_all_lem :
    (agents : List ℕ) (m : StatsManager)
    → Once m
    → Once (ask_all agents m)
      × ((a : ℕ) → asked a (ask_all agents m) ≡ (is_among a agents || asked a m))
unfolding ask_all
ask_all_lem [] m h = (h, λ a. refl)
ask_all_lem (b ∷ agents) m h =
    let (h1, k1) = ask_lem b m h in
    let (h2, k2) = ask_all_lem agents (ask b m) h1 in (h2, λ a. ground (arith, k1 a, k2 a))

-- While each agent that was asked was sent one message and any other none, so it is after a
-- run; and the agents that were asked are then those that were before and all that are
-- available, so that each available agent has been sent exactly one request.
pub run_periodic_task-Once :
    (r : Rib) (m : StatsManager)
    → Once m
    → Once (run_periodic_task r m)
      × ((a : ℕ)
          → asked a (run_periodic_task r m) ≡ (is_among a (get_available_agents r) || asked a m))
unfolding run_periodic_task
run_periodic_task-Once r m h = ask_all_lem (get_available_agents r) m h
