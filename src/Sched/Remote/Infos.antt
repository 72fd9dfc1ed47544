-- ===== src/Sched/Remote/Infos.antt =====
-- The scheduling information of src/app/remote_scheduler.cc after its steps for an agent.
use mathlib.Core.Option.{some-injective}
use flexran_rtc.Base.{
  ℕ, ◌≡◌, refl, ◌∙◌, inl, inr, none, some, arith, ◌==◌, ==_iff, if◌then◌else◌, Bool-cases,
  Option-cases,
}
use flexran_rtc.Base.Maps.{find, find-insert, find-modify}
use flexran_rtc.Rib.Enb.{EnbRibInfo}
use flexran_rtc.Sched.Info.{EnbSchedulingInfo, new_enb_info}
use flexran_rtc.Sched.Flexible.Central.{Memory}
use flexran_rtc.Sched.Flexible.Central.Health.{InfoFit, new_enb_info-InfoFit}
use flexran_rtc.Sched.Remote.Round.{RemoteRound}
use flexran_rtc.Sched.Remote.Task.{
  RemoteScheduler, get_scheduling_info, ensure_scheduling_info, complete,
}

-- All scheduling information has at most three symbols for each cell and at most four blocks for
-- each group that a UE has.
abbrev pub InfosFit : RemoteScheduler → Type 0
InfosFit w = (a : ℕ) (s : EnbSchedulingInfo) → get_scheduling_info a w ≡ some s → InfoFit s

ensure_scheduling_info-find :
    (m : Memory) (a b : ℕ) (w : RemoteScheduler)
    → get_scheduling_info b (ensure_scheduling_info m a w) ≡ (elim (get_scheduling_info b w) [
      | none ↦ if a == b then some (new_enb_info m.frame m.subframe) else none
      | some s ↦ some s
    ])
unfolding ensure_scheduling_info get_scheduling_info
ensure_scheduling_info-find m a b w = elim (Option-cases (find a w.scheduling_info)) [
  | inl e ↦
      rw (ensure_scheduling_info, get_scheduling_info, e)
        (find-insert a b (new_enb_info m.frame m.subframe) w.scheduling_info)
  | inr (s, e) ↦ rw (ensure_scheduling_info, get_scheduling_info, e) (ground (arith, e, ==_iff a b))
]

pub ensure_scheduling_info-Found :
    (m : Memory) (a : ℕ) (w : RemoteScheduler)
    → (s : EnbSchedulingInfo) × (get_scheduling_info a (ensure_scheduling_info m a w) ≡ some s)
ensure_scheduling_info-Found m a w = elim (Option-cases (get_scheduling_info a w)) [
  | inl e ↦ (
    new_enb_info m.frame m.subframe,
    ensure_scheduling_info-find m a a w ∙ ground (arith, e, ==_iff a a),
  )
  | inr (s, e) ↦ (s, ensure_scheduling_info-find m a a w ∙ rw e refl)
]

pub ensure_scheduling_info-kept :
    (m : Memory) (a b : ℕ) (w : RemoteScheduler) (s : EnbSchedulingInfo)
    → get_scheduling_info b w ≡ some s
    → get_scheduling_info b (ensure_scheduling_info m a w) ≡ some s
ensure_scheduling_info-kept m a b w s e = ensure_scheduling_info-find m a b w ∙ rw e refl

pub ensure_scheduling_info-Fit :
    (m : Memory) (a : ℕ) (w : RemoteScheduler)
    → InfosFit w
    → InfosFit (ensure_scheduling_info m a w)
ensure_scheduling_info-Fit m a w h b s e =
    let found = ensure_scheduling_info-find m a b w in
    elim (Option-cases (get_scheduling_info b w)) [
      | inr (v, old) ↦ h b s (old ∙ rw (found, old) at e)
      | inl new ↦ elim (Bool-cases (a == b)) [
        | inl is ↦
            rw (← some-injective (new_enb_info m.frame m.subframe) s (rw (found, new, is) at e))
              (new_enb_info-InfoFit m.frame m.subframe)
        | inr other ↦ absurd (ground (arith, rw (found, new, other) at e))
      ]
    ]

-- Scheduling information that is there is not made again.
pub ensured_info :
    (m : Memory) (a : ℕ) (w : RemoteScheduler) (s : EnbSchedulingInfo)
    → get_scheduling_info a w ≡ some s
    → ensure_scheduling_info m a w ≡ w
unfolding ensure_scheduling_info
ensured_info m a w s es = rw (ensure_scheduling_info, es) refl

-- The scheduling information that is stored at the end of the body for an agent.
abbrev pub checked : EnbRibInfo → RemoteRound → EnbSchedulingInfo
checked e r = record (r.sched) {
  last_checked_frame = e.current_frame;
  last_checked_subframe = e.current_subframe;
}

module _ (a : ℕ) (e : EnbRibInfo) (frame subframe : ℕ) (r : RemoteRound) (w : RemoteScheduler) where
  pub complete-find :
      (b : ℕ) (s : EnbSchedulingInfo)
      → get_scheduling_info a w ≡ some s
      → get_scheduling_info b (complete a e frame subframe r w)
        ≡ (if a == b then some (checked e r) else get_scheduling_info b w)
  unfolding complete get_scheduling_info
  complete-find b s es =
      ground (arith, find-modify a b (λ _. checked e r) w.scheduling_info, es, ==_iff a b)

  pub complete-Fit :
      (s : EnbSchedulingInfo)
      → get_scheduling_info a w ≡ some s
      → InfoFit r.sched
      → InfosFit w
      → InfosFit (complete a e frame subframe r w)
  complete-Fit s es info h b s' q =
      let found = complete-find b s es in
      elim (Bool-cases (a == b)) [
        | inl is ↦ rw (← some-injective (checked e r) s' (rw (found, is) at q)) info
        | inr other ↦ h b s' (rw (found, other) at q)
      ]
