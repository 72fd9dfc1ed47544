-- ===== src/Sched/Eicic/Turns.antt =====
-- src/app/remote_scheduler_eicic.cc lets either the macro cell or the pico cells send, never both.
use flexran_rtc.Base.{
  ℕ, ◌≡◌, ◌≢◌, refl, sym, ap, ◌∙◌, inl, inr, Bool, true, false, some, List, [], ◌∷◌, ◌++◌, arith,
  if◌then◌else◌, ==_iff, Bool-cases, Option-cases, All,
}
use mathlib.Core.List.{append_assoc, append-nil}
use flexran_rtc.Base.Faults.{Returns, for_each}
use flexran_rtc.Base.Maps.{find, find-insert, keys-Found}
use flexran_rtc.Messages.{FlexranMessage}
use flexran_rtc.Rib.Enb.{EnbRibInfo}
use flexran_rtc.Rib.Store.{Rib, get_agent, get_available_agents}
use flexran_rtc.Sched.Info.{EnbSchedulingInfo, new_enb_info, needs_scheduling}
use flexran_rtc.Sched.Flexible.Central.{Memory, dl_mac_config_msg}
use flexran_rtc.Sched.Eicic.{
  Eicic, Marks, macro_agent_id, target_slot, ensure, mark, check_agent, passes_over, permit,
  run_periodic_task,
}

-- Whose turn it is: every message goes to the macro cell, or none does.
abbrev pub Turn : Bool → ℕ × FlexranMessage → Type 0
Turn true p = p.0 ≡ macro_agent_id
Turn false p = p.0 ≢ macro_agent_id

-- What a state sent after another, in turn.
pub record Sent (macro_turn : Bool) (s s' : Eicic) : Type 0 where
  pub messages : List (ℕ × FlexranMessage)
  pub behind : s'.sent ≡ s.sent ++ messages
  pub turn : All (Turn macro_turn) messages

ensure-Found :
    (m : Memory) (a : ℕ) (infos : List (ℕ × EnbSchedulingInfo))
    → (s : EnbSchedulingInfo) × (find a (ensure m a infos) ≡ some s)
unfolding ensure
ensure-Found m a infos = elim (Option-cases (find a infos)) [
  | inr (s, e) ↦ (s, rw (ensure, e) e)
  | inl e ↦
      let made = find-insert a a (new_enb_info m.frame m.subframe) infos in
      (new_enb_info m.frame m.subframe, rw (ensure, e) (made ∙ ground (arith, e, ==_iff a a)))
]

module _ (m : Memory) (r : Rib) where
  abbrev There : ℕ → Type 0
  There a = (e : EnbRibInfo) × (get_agent a r ≡ some e)

  check_all :
      (l : List ℕ) (k : Marks)
      → All There l
      → (k' : Marks) × (for_each (check_agent m r) l k ≡ some k')
  unfolding for_each check_agent
  check_all [] k h = (k, refl)
  check_all (a ∷ l) k h =
      let (e, eg) = h.0 in
      let made : Marks = record k { infos = ensure m a k.infos } in
      let (s, es) = ensure-Found m a k.infos in
      let next : Marks =
        if needs_scheduling s e.current_frame e.current_subframe
        then mark m r a e s made
        else made in
      let (k', rest) = check_all l next h.1 in (k', rw (eg, es) rest)

  Sent-none : (macro_turn : Bool) (s : Eicic) → Sent macro_turn s s
  Sent-none macro_turn s = record { messages = []; behind = sym (append-nil s.sent); turn = tt }

  Sent-more :
      (macro_turn : Bool) (s t u : Eicic) (p : ℕ × FlexranMessage)
      → t.sent ≡ s.sent ++ p ∷ []
      → Turn macro_turn p
      → Sent macro_turn t u
      → Sent macro_turn s u
  Sent-more macro_turn s t u p e h k = record {
    messages = p ∷ k.messages;
    behind = k.behind ∙ (ap (λ l. l ++ k.messages) e ∙ append_assoc s.sent (p ∷ []) k.messages);
    turn = (h, k.turn);
  }

  passes_over-Turn :
      (macro_turn : Bool) (a : ℕ) (msg : FlexranMessage)
      → passes_over m r macro_turn a ≡ false
      → Turn macro_turn (a, msg)
  passes_over-Turn true a msg e = ground (arith, e, ==_iff a macro_agent_id)
  passes_over-Turn false a msg e = ground (arith, e, ==_iff a macro_agent_id)

  permit_all :
      (macro_turn : Bool) (l : List ℕ) (s : Eicic)
      → All There l
      → Returns (for_each (permit m r macro_turn) l s) (Sent macro_turn s)
  unfolding for_each permit
  permit_all macro_turn [] s h = (s, refl, Sent-none macro_turn s)
  permit_all macro_turn (a ∷ l) s h = elim (Bool-cases (passes_over m r macro_turn a)) [
    | inl over ↦ let (u, eu, k) = permit_all macro_turn l s h.1 in (u, rw (permit, over) eu, k)
    | inr sends ↦
        let (e, eg) = h.0 in
        let (frame, subframe) = target_slot e.current_frame e.current_subframe in
        let msg = dl_mac_config_msg frame subframe [] in
        let t : Eicic = record {
          scheduling_info = ensure m a s.scheduling_info;
          sent = s.sent ++ (a, msg) ∷ [];
        } in
        let (u, eu, k) = permit_all macro_turn l t h.1 in
        (
          u,
          rw (permit, sends, eg) eu,
          Sent-more macro_turn s t u (a, msg) refl (passes_over-Turn macro_turn a msg sends) k,
        )
  ]

  -- A run over the agents that are available never faults, whatever it starts from; and of the
  -- messages that it sends, which permit to schedule, all go to the agent of the macro cell or
  -- none does: the macro cell and a pico cell are never permitted in the same run.
  pub run_periodic_task-Sent :
      (s : Eicic)
      → Returns (run_periodic_task m r s) (λ s'. (macro_turn : Bool) × Sent macro_turn s s')
  unfolding run_periodic_task get_available_agents get_agent
  run_periodic_task-Sent s =
      let start : Marks = record {
        infos = s.scheduling_info;
        schedule_macro = true;
        schedule_flag = false;
      } in
      let there = keys-Found r.enb_configs in
      let (k, ek) = check_all (get_available_agents r) start there in
      let marked : Eicic = record s { scheduling_info = k.infos } in
      let (u, eu, p) = permit_all k.schedule_macro (get_available_agents r) marked there in
      let none_sent : Sent true s marked = record {
        messages = [];
        behind = sym (append-nil s.sent);
        turn = tt;
      } in
      let some_sent : Sent k.schedule_macro s u = record {
        messages = p.messages;
        behind = p.behind;
        turn = p.turn;
      } in
      elim (Bool-cases (k.schedule_flag)) [
        | inl e ↦ (u, rw (ek, e) eu, (k.schedule_macro, some_sent))
        | inr e ↦ (marked, rw (ek, e) refl, (true, none_sent))
      ]
