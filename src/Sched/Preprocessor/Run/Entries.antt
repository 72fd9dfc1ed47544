-- ===== src/Sched/Preprocessor/Run/Entries.antt =====
-- A change of one UE's entry in the scheduling information: it keeps which UEs have an entry,
-- and keeps the groups of blocks exclusive where it gives the UE no group.
use flexran_rtc.Base.{
  ℕ, ◌≡◌, refl, inl, inr, ◌⊎◌, Bool, true, Option, some, List, arith, if◌then◌else◌, ◌==◌, ◌||◌,
  Option-cases, ==_iff,
}
use flexran_rtc.Base.Faults.{Returns}
use flexran_rtc.Base.Maps.{find, modify, find-modify, find-insert}
use flexran_rtc.Rib.Store.{present}
use flexran_rtc.Sched.Info.{
  UeSchedulingInfo, EnbSchedulingInfo, create_ue_scheduling_info, new_ue_info,
}
use flexran_rtc.Messages.{CellConfig}
use flexran_rtc.Sched.Helper.{perform_pre_processor_allocation}
use flexran_rtc.Sched.Helper.Exclusive.{Among, group_of}
use flexran_rtc.Sched.Preprocessor.{with_ue}

-- Whether a UE has an entry.
abbrev pub has_entry : ℕ → EnbSchedulingInfo → Bool
has_entry rnti s = present (find rnti s.scheduling_info)

-- Every group of the second that is marked was marked in the first.
abbrev pub Shrinks : ℕ → UeSchedulingInfo → UeSchedulingInfo → Type 0
Shrinks c u u' = (g : ℕ) → (u'.rballoc_sub c g ≡ u.rballoc_sub c g) ⊎ (u'.rballoc_sub c g ≡ 0)

-- The same UEs have entries, the map of the cell stays, and no UE gains a group.
pub record Kept (c : ℕ) (s s' : EnbSchedulingInfo) : Type 0 where
  pub entries : (r : ℕ) → has_entry r s' ≡ has_entry r s
  pub shrinks : (a g : ℕ) → (group_of s' a c g ≡ group_of s a c g) ⊎ (group_of s' a c g ≡ 0)
  pub blocks : (g : ℕ) → s'.vrb_map c g ≡ s.vrb_map c g

pub Kept-Among :
    (M : ℕ → Type 0) (c : ℕ) (s s' : EnbSchedulingInfo) → Kept c s s' → Among M c s → Among M c s'
Kept-Among M c s s' k h = record {
  marked = λ a g m. ground (arith, k.shrinks a g, k.blocks g, h.marked a g m);
  alone = λ a b g n m m'. ground (arith, k.shrinks a g, k.shrinks b g, h.alone a b g n m m');
}

abbrev pub replace : ℕ → UeSchedulingInfo → EnbSchedulingInfo → EnbSchedulingInfo
replace rnti u' s = record s { scheduling_info = modify rnti (λ _. u') s.scheduling_info }

module _ (c rnti : ℕ) (s : EnbSchedulingInfo) (u u' : UeSchedulingInfo) where
  pub group_of-replace :
      (a g : ℕ)
      → find rnti s.scheduling_info ≡ some u
      → group_of (replace rnti u' s) a c g
        ≡ (if rnti == a then u'.rballoc_sub c g else group_of s a c g)
  group_of-replace a g e =
      ground (arith, e, ==_iff rnti a, find-modify rnti a (λ _. u') s.scheduling_info)

  pub replace-Kept :
      find rnti s.scheduling_info ≡ some u → Shrinks c u u' → Kept c s (replace rnti u' s)
  replace-Kept e k = record {
    entries = λ r. ground (arith, e, ==_iff rnti r, find-modify rnti r (λ _. u') s.scheduling_info);
    shrinks = λ a g. rw (group_of-replace a g e) (ground (arith, ==_iff rnti a, own g, k g));
    blocks = λ g. refl;
  }
    where
      own : (g : ℕ) → group_of s rnti c g ≡ u.rballoc_sub c g
      own g = rw (group_of, e) refl

pub entry_of :
    (rnti : ℕ) (s : EnbSchedulingInfo)
    → has_entry rnti s ≡ true
    → (u : UeSchedulingInfo) × (find rnti s.scheduling_info ≡ some u)
entry_of rnti s h = elim (Option-cases (find rnti s.scheduling_info)) [
  | inl e ↦ absurd (ground (arith, e))
  | inr p ↦ p
]

pub with_ue-Kept :
    (c : ℕ) (f : UeSchedulingInfo → Option UeSchedulingInfo) (rnti : ℕ) (s : EnbSchedulingInfo)
    → ((u : UeSchedulingInfo) → Returns (f u) (Shrinks c u))
    → has_entry rnti s ≡ true
    → Returns (with_ue f rnti s) (Kept c s)
unfolding with_ue
with_ue-Kept c f rnti s k h =
    let (u, e) = entry_of rnti s h in
    let (u', e', p) = k u in
    (replace rnti u' s, rw (e, with_ue, e') refl, replace-Kept c rnti s u u' e p)

pub with_ue-some :
    (f : UeSchedulingInfo → Option UeSchedulingInfo) (rnti : ℕ) (s : EnbSchedulingInfo)
    (u u' : UeSchedulingInfo)
    → find rnti s.scheduling_info ≡ some u
    → f u ≡ some u'
    → with_ue f rnti s ≡ some (replace rnti u' s)
unfolding with_ue
with_ue-some f rnti s u u' e e' = rw (e, with_ue, e') refl

-- The groups of a UE that is not there yet are none.
pub create_lem :
    (c rnti : ℕ) (s : EnbSchedulingInfo)
    → ((r : ℕ) → has_entry r (create_ue_scheduling_info rnti s) ≡ (has_entry r s || rnti == r))
      × ((a g : ℕ) → group_of (create_ue_scheduling_info rnti s) a c g ≡ group_of s a c g)
unfolding create_ue_scheduling_info new_ue_info
create_lem c rnti s = (
  λ r. ground (arith, ==_iff rnti r, find-insert rnti r (new_ue_info rnti) s.scheduling_info),
  λ a g. ground (arith, find-insert rnti a (new_ue_info rnti) s.scheduling_info),
)

pub present-modify :
    (k r : ℕ) (f : UeSchedulingInfo → UeSchedulingInfo) (m : List (ℕ × UeSchedulingInfo))
    → present (find r (modify k f m)) ≡ present (find r m)
present-modify k r f m = ground (arith, find-modify k r f m)

pub perform-entries :
    (cell : CellConfig) (rnti : ℕ) (s : EnbSchedulingInfo) (r : ℕ)
    → has_entry r (perform_pre_processor_allocation cell rnti s) ≡ has_entry r s
unfolding perform_pre_processor_allocation
perform-entries cell rnti s r = elim (Option-cases (find rnti s.scheduling_info)) [
  | inl e ↦ rw (perform_pre_processor_allocation, e) refl
  | inr (u, e) ↦
      rw (perform_pre_processor_allocation, e) (present-modify rnti r _ s.scheduling_info)
]
