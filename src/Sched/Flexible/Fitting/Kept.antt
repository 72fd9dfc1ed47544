-- ===== src/Sched/Flexible/Fitting/Kept.antt =====
-- The loops of src/app/flexible_scheduler.cc that copy the groups of a UE keep what the
-- preprocessor gave it.
use flexran_rtc.Base.{
  ℕ, zero, suc, ◌+◌, ◌==◌, ◌&&◌, ◌≡◌, ◌∙◌, ◌≤◌, ◌<◌, refl, inl, inr, Bool-cases, leb, ltb,
  if◌then◌else◌, arith, ==_iff, Bool, true, false,
}
use flexran_rtc.Rib.Ue.{u8}
use flexran_rtc.Messages.{CellConfig}
use flexran_rtc.Sched.Primitives.{get_nb_rbg}
use flexran_rtc.Sched.Info.{UeSchedulingInfo}
use flexran_rtc.Sched.Helper.Few.{SameBlocks, SameBlocks-refl, SameBlocks-if}
use flexran_rtc.Sched.Flexible.Fitting.{
  schedule_groups, copy_groups, fill_groups, set_rballoc_sub_scheduled, less_group,
}

copy_groups-SameBlocks :
    (c h left j : ℕ) (u : UeSchedulingInfo) → SameBlocks u (copy_groups c h left j u)
unfolding copy_groups
copy_groups-SameBlocks c h zero j u = SameBlocks-refl u
copy_groups-SameBlocks c h (suc left) j u =
    copy_groups-SameBlocks c h left (suc j) (set_rballoc_sub_scheduled c h j (u.rballoc_sub c j) u)

fill_groups-SameBlocks :
    (cell : CellConfig) (h left j n : ℕ) (u : UeSchedulingInfo)
    → SameBlocks u (fill_groups cell h left j n u)
unfolding fill_groups
fill_groups-SameBlocks cell h zero j n u = SameBlocks-refl u
fill_groups-SameBlocks cell h (suc left) j n u =
    let taken =
      fill_groups-SameBlocks cell h left (suc j) (less_group cell j n)
        (set_rballoc_sub_scheduled cell.cell_id h j 1 u) in
    let passed = fill_groups-SameBlocks cell h left (suc j) n u in
    SameBlocks-if (n == 0) u _ _ (SameBlocks-refl u)
      (SameBlocks-if (u.rballoc_sub cell.cell_id j == 1) u _ _ taken passed)

-- The blocks and the groups that the preprocessor gave stay as they are.
pub schedule_groups-SameBlocks :
    (cell : CellConfig) (h : ℕ) (exact : Bool) (n : ℕ) (u : UeSchedulingInfo)
    → SameBlocks u (schedule_groups cell h exact n u)
unfolding schedule_groups
schedule_groups-SameBlocks cell h true n u =
    copy_groups-SameBlocks cell.cell_id h (get_nb_rbg cell) 0 u
schedule_groups-SameBlocks cell h false n u = fill_groups-SameBlocks cell h (get_nb_rbg cell) 0 n u

-- The groups from `j` on are copied, and no others.
copy_groups-copied :
    (c h left j : ℕ) (u : UeSchedulingInfo) (g : ℕ)
    → (copy_groups c h left j u).rballoc_sub_scheduled c h g ≡ (
        if leb j g && ltb g (j + left)
        then u8 (u.rballoc_sub c g)
        else u.rballoc_sub_scheduled c h g)
unfolding copy_groups
copy_groups-copied c h zero j u g = ground arith
copy_groups-copied c h (suc left) j u g =
    let next = set_rballoc_sub_scheduled c h j (u.rballoc_sub c j) u in
    copy_groups-copied c h left (suc j) next g ∙ ground (arith, ==_iff j g)

-- Where the UE has just the blocks that it needs, exactly its groups of the cell are scheduled.
pub schedule_groups-exact :
    (cell : CellConfig) (h n : ℕ) (u : UeSchedulingInfo) (g : ℕ)
    → (schedule_groups cell h true n u).rballoc_sub_scheduled cell.cell_id h g ≡ (
        if ltb g (get_nb_rbg cell)
        then u8 (u.rballoc_sub cell.cell_id g)
        else u.rballoc_sub_scheduled cell.cell_id h g)
unfolding schedule_groups
schedule_groups-exact cell h n u g =
    copy_groups-copied cell.cell_id h (get_nb_rbg cell) 0 u g ∙ ground arith

module _ (cell : CellConfig) (h : ℕ) where
  abbrev pub scheduled : UeSchedulingInfo → ℕ → ℕ
  scheduled u g = u.rballoc_sub_scheduled cell.cell_id h g

  -- The UE has the group.
  abbrev pub has_group : UeSchedulingInfo → ℕ → Bool
  has_group u g = u.rballoc_sub cell.cell_id g == 1

  abbrev marked : UeSchedulingInfo → ℕ → UeSchedulingInfo
  marked u j = set_rballoc_sub_scheduled cell.cell_id h j 1 u

  either_scheduled :
      (b : Bool) (x y : UeSchedulingInfo) (g v : ℕ)
      → (b ≡ true → scheduled x g ≡ v)
      → (b ≡ false → scheduled y g ≡ v)
      → scheduled (if b then x else y) g ≡ v
  either_scheduled true x y g v p q = p refl
  either_scheduled false x y g v p q = q refl

  -- Groups of others are left.
  fill_groups-foreign :
      (left j n : ℕ) (u : UeSchedulingInfo) (g : ℕ)
      → has_group u g ≡ false
      → scheduled (fill_groups cell h left j n u) g ≡ scheduled u g
  unfolding fill_groups
  fill_groups-foreign zero j n u g other = refl
  fill_groups-foreign (suc left) j n u g other =
      either_scheduled (n == 0) _ _ g _ (λ _. refl)
        (λ _.
          either_scheduled (has_group u j) _ _ g _
            (λ own.
              fill_groups-foreign left (suc j) (less_group cell j n) (marked u j) g other
              ∙ ground (arith, other, own, ==_iff j g))
            (λ _. fill_groups-foreign left (suc j) n u g other))

  -- What is scheduled stays.
  fill_groups-kept :
      (left j n : ℕ) (u : UeSchedulingInfo) (g : ℕ)
      → scheduled u g ≡ 1
      → scheduled (fill_groups cell h left j n u) g ≡ 1
  unfolding fill_groups
  fill_groups-kept zero j n u g e = e
  fill_groups-kept (suc left) j n u g e =
      either_scheduled (n == 0) _ _ g _ (λ _. e)
        (λ _.
          either_scheduled (has_group u j) _ _ g _
            (λ _.
              fill_groups-kept left (suc j) (less_group cell j n) (marked u j) g
                (ground (arith, e)))
            (λ _. fill_groups-kept left (suc j) n u g e))

  -- The first group that the UE has is scheduled, where a block is wanted.
  fill_groups-first :
      (left j n : ℕ) (u : UeSchedulingInfo) (g : ℕ)
      → (n == 0) ≡ false
      → j ≤ g
      → g < j + left
      → has_group u g ≡ true
      → ((i : ℕ) → i < g → has_group u i ≡ false)
      → scheduled (fill_groups cell h left j n u) g ≡ 1
  unfolding fill_groups
  fill_groups-first zero j n u g some_block low high own first = absurd (omega arith)
  fill_groups-first (suc left) j n u g some_block low high own first = elim (Bool-cases (j == g)) [
    | inl here ↦
        let same : j ≡ g = (==_iff j g).0 here in
        either_scheduled (n == 0) _ _ g _ (λ z. absurd (ground (arith, z, some_block)))
          (λ _.
            either_scheduled (has_group u j) _ _ g _
              (λ _.
                fill_groups-kept left (suc j) (less_group cell j n) (marked u j) g
                  (ground (arith, here)))
              (λ z. absurd (ground (arith, rw same at z, own))))
    | inr earlier ↦
        let below : j < g = ground (arith, earlier) in
        either_scheduled (n == 0) _ _ g _ (λ z. absurd (ground (arith, z, some_block)))
          (λ _.
            either_scheduled (has_group u j) _ _ g _
              (λ z. absurd (ground (arith, z, first j below)))
              (λ _.
                fill_groups-first left (suc j) n u g some_block (omega arith) (omega arith) own
                  first))
  ]

  -- What is scheduled of a UE that had nothing scheduled: no group that it has not; all of its groups
  -- of the cell where it has just the blocks that are wanted; and else, where a block is wanted, its
  -- first group.
  pub record OwnGroups (exact : Bool) (n : ℕ) (u u' : UeSchedulingInfo) : Type 0 where
    pub foreign : (g : ℕ) → u.rballoc_sub cell.cell_id g ≡ 0 → scheduled u' g ≡ 0
    pub all :
        exact ≡ true → (g : ℕ) → g < get_nb_rbg cell → has_group u g ≡ true → scheduled u' g ≡ 1
    pub first :
        exact ≡ false
        → (n == 0) ≡ false
        → (g : ℕ) → g < get_nb_rbg cell
        → has_group u g ≡ true
        → ((i : ℕ) → i < g → has_group u i ≡ false)
        → scheduled u' g ≡ 1

  pub schedule_groups-OwnGroups :
      (exact : Bool) (n : ℕ) (u : UeSchedulingInfo)
      → ((g : ℕ) → scheduled u g ≡ 0)
      → OwnGroups exact n u (schedule_groups cell h exact n u)
  unfolding schedule_groups
  schedule_groups-OwnGroups true n u empty = record {
    foreign =
        λ g zero_group. schedule_groups-exact cell h n u g ∙ ground (arith, zero_group, empty g);
    all = λ _ g low own. schedule_groups-exact cell h n u g ∙ ground (arith, own, low);
    first = λ q. absurd (ground (arith, q));
  }
  schedule_groups-OwnGroups false n u empty = record {
    foreign = λ g zero_group.
        fill_groups-foreign (get_nb_rbg cell) 0 n u g (ground (arith, zero_group)) ∙ empty g;
    all = λ q. absurd (ground (arith, q));
    first = λ _ wanted g low own first.
        fill_groups-first (get_nb_rbg cell) 0 n u g wanted (omega arith) (omega arith) own first;
  }
