-- ===== src/Sched/Helper/Exclusive.antt =====
-- Who gets which groups of resource blocks in src/app/remote_scheduler_helper.cc.
use flexran_rtc.Base.{
  ℕ, zero, suc, ◌≡◌, ◌≢◌, refl, inl, inr, ◌⊎◌, none, some, arith, if◌then◌else◌, ◌==◌, Option-cases,
  ==_iff,
}
use flexran_rtc.Base.Maps.{find, find-modify}
use flexran_rtc.Messages.{CellConfig}
use flexran_rtc.Sched.Primitives.{get_nb_rbg}
use flexran_rtc.Sched.Info.{UeSchedulingInfo, EnbSchedulingInfo}
use flexran_rtc.Sched.Helper.{allocate_group, allocate_groups, perform_pre_processor_allocation}

-- What a run did to the group `g` of the cell `c`: nothing, or it was free and is now the UE's.
abbrev Granted : ℕ → ℕ → (ℕ → ℕ) × UeSchedulingInfo → (ℕ → ℕ) × UeSchedulingInfo → Type 0
Granted c g p q = (p.0 g ≡ 0) × (p.1.rballoc_sub c g ≡ 0) × (q.0 g ≡ 1) × (q.1.rballoc_sub c g ≡ 1)

abbrev Kept : ℕ → ℕ → (ℕ → ℕ) × UeSchedulingInfo → (ℕ → ℕ) × UeSchedulingInfo → Type 0
Kept c g p q = (q.0 g ≡ p.0 g) × (q.1.rballoc_sub c g ≡ p.1.rballoc_sub c g)

allocate_group-Granted :
    (cell : CellConfig) (i : ℕ) (p : (ℕ → ℕ) × UeSchedulingInfo) (g : ℕ)
    → Kept cell.cell_id g p (allocate_group cell i p)
      ⊎ Granted cell.cell_id g p (allocate_group cell i p)
unfolding allocate_group
allocate_group-Granted cell i p g = ground arith

allocate_groups-Granted :
    (cell : CellConfig) (left i : ℕ) (p : (ℕ → ℕ) × UeSchedulingInfo) (g : ℕ)
    → Kept cell.cell_id g p (allocate_groups cell left i p)
      ⊎ Granted cell.cell_id g p (allocate_groups cell left i p)
unfolding allocate_groups
allocate_groups-Granted cell zero i p g = inl (refl, refl)
allocate_groups-Granted cell (suc left) i p g =
    let one = allocate_group-Granted cell i p g in
    let rest = allocate_groups-Granted cell left (suc i) (allocate_group cell i p) g in
    ground (arith, one, rest)

-- The mark of the group `g` of the cell `c` in the allocation of the UE `a`.
abbrev pub group_of : EnbSchedulingInfo → ℕ → ℕ → ℕ → ℕ
group_of s a c g = elim (find a s.scheduling_info) [ none ↦ 0 | some u ↦ u.rballoc_sub c g ]

-- Each group of the cell that a UE has is marked in the map, and no two UEs have one group.
pub record Exclusive (c : ℕ) (s : EnbSchedulingInfo) : Type 0 where
  pub marked : (a g : ℕ) → s.vrb_map c g ≡ 0 → group_of s a c g ≡ 0
  pub alone : (a b g : ℕ) → a ≢ b → (group_of s a c g ≡ 0) ⊎ (group_of s b c g ≡ 0)

-- The same of the UEs that `M` holds of.
pub record Among (M : ℕ → Type 0) (c : ℕ) (s : EnbSchedulingInfo) : Type 0 where
  pub marked : (a g : ℕ) → M a → s.vrb_map c g ≡ 0 → group_of s a c g ≡ 0
  pub alone : (a b g : ℕ) → a ≢ b → M a → M b → (group_of s a c g ≡ 0) ⊎ (group_of s b c g ≡ 0)

module _ (cell : CellConfig) (rnti : ℕ) (s : EnbSchedulingInfo) where
  abbrev run : UeSchedulingInfo → (ℕ → ℕ) × UeSchedulingInfo
  run u = allocate_groups cell (get_nb_rbg cell) 0 (s.vrb_map cell.cell_id, u)

  group_of-perform :
      (u : UeSchedulingInfo) (a g : ℕ)
      → find rnti s.scheduling_info ≡ some u
      → group_of (perform_pre_processor_allocation cell rnti s) a cell.cell_id g
        ≡ (if rnti == a then (run u).1.rballoc_sub cell.cell_id g else group_of s a cell.cell_id g)
  unfolding perform_pre_processor_allocation allocate_groups
  group_of-perform u a g e =
      rw (perform_pre_processor_allocation, e)
        (ground (arith, ==_iff rnti a, find-modify rnti a (λ _. (run u).1) s.scheduling_info))

  vrb_map-perform :
      (u : UeSchedulingInfo) (g : ℕ)
      → find rnti s.scheduling_info ≡ some u
      → (perform_pre_processor_allocation cell rnti s).vrb_map cell.cell_id g ≡ (run u).0 g
  unfolding perform_pre_processor_allocation allocate_groups
  vrb_map-perform u g e = rw (perform_pre_processor_allocation, e) (ground arith)

  perform-none :
      find rnti s.scheduling_info ≡ none → perform_pre_processor_allocation cell rnti s ≡ s
  unfolding perform_pre_processor_allocation
  perform-none e = rw (perform_pre_processor_allocation, e) refl

  perform-some :
      (M : ℕ → Type 0) (u : UeSchedulingInfo)
      → find rnti s.scheduling_info ≡ some u
      → M rnti
      → Among M cell.cell_id s
      → Among M cell.cell_id (perform_pre_processor_allocation cell rnti s)
  perform-some M u e me h = record {
    marked = λ a g m.
        rw (vrb_map-perform u g e, group_of-perform u a g e)
          (ground (arith, ==_iff rnti a, own g, allocated g, h.marked a g m, h.marked rnti g me));
    alone = λ a b g n m m'.
        rw (group_of-perform u a g e, group_of-perform u b g e)
          (ground (
            arith,
            ==_iff rnti a,
            ==_iff rnti b,
            own g,
            allocated g,
            h.marked a g m,
            h.marked b g m',
            h.alone a b g n m m',
          ));
  }
    where
      own : (g : ℕ) → group_of s rnti cell.cell_id g ≡ u.rballoc_sub cell.cell_id g
      own g = rw (group_of, e) refl

      allocated :
          (g : ℕ)
          → Kept cell.cell_id g (s.vrb_map cell.cell_id, u) (run u)
            ⊎ Granted cell.cell_id g (s.vrb_map cell.cell_id, u) (run u)
      allocated = allocate_groups-Granted cell (get_nb_rbg cell) 0 (s.vrb_map cell.cell_id, u)

  pub perform-Among :
      (M : ℕ → Type 0)
      → M rnti
      → Among M cell.cell_id s
      → Among M cell.cell_id (perform_pre_processor_allocation cell rnti s)
  perform-Among M me h = elim (Option-cases (find rnti s.scheduling_info)) [
    | inl e ↦ rw (perform-none e) h
    | inr (u, e) ↦ perform-some M u e me h
  ]

  -- The allocation for any UE keeps the groups of the cell exclusive: each group that some UE
  -- has is marked in the map of the cell, and no two UEs have the same group.
  pub perform_pre_processor_allocation-Exclusive :
      Exclusive cell.cell_id s
      → Exclusive cell.cell_id (perform_pre_processor_allocation cell rnti s)
  perform_pre_processor_allocation-Exclusive h =
      let all : Among (λ r. Unit {0}) cell.cell_id s = record {
        marked = λ a g m. h.marked a g;
        alone = λ a b g n m m'. h.alone a b g n;
      } in
      let h' = perform-Among (λ r. Unit {0}) tt all in
      record { marked = λ a g. h'.marked a g tt; alone = λ a b g n. h'.alone a b g n tt tt }
