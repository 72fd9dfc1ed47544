-- ===== src/Sched/Helper/Few.antt =====
-- What src/app/remote_scheduler_helper.cc counts for a UE stays below the size of the cell: each
-- group adds at most four blocks, and only once in a round.
use flexran_rtc.Base.{
  ℕ, zero, suc, ◌+◌, ◌*◌, ◌^◌, ◌≤◌, ◌<◌, ◌≡◌, refl, sym, ◌∙◌, inl, inr, ◌-◌, ◌&&◌, ◌||◌, ltb, Bool,
  true, false, some, List, arith, if◌then◌else◌, ◌==◌, Bool-cases, Option-cases, ==_iff,
}
use mathlib.Core.Option.{some-injective}
use flexran_rtc.Base.Maps.{find, modify, find-modify}
use flexran_rtc.Rib.Ue.{u8, write2}
use flexran_rtc.Messages.{CellConfig}
use flexran_rtc.Sched.Primitives.{get_nb_rbg, get_min_rb_unit}
use flexran_rtc.Sched.Info.{
  UeSchedulingInfo, EnbSchedulingInfo, set_pre_available, set_remaining, set_rballoc_sub,
}
use flexran_rtc.Sched.Helper.{allocate_group, allocate_groups, perform_pre_processor_allocation}
use flexran_rtc.Sched.Helper.Blocks.{get_nb_rbg-bound}

-- How many groups below `n` are marked.
unfoldable pub marks : (ℕ → ℕ) → ℕ → ℕ
marks row zero = 0
marks row (suc n) = (if row n == 0 then 0 else 1) + marks row n

-- At most four blocks for each of the 25 groups that are marked.
abbrev pub Few : UeSchedulingInfo → Type 0
Few u = (c : ℕ) → u.pre_nb_rbs_available c ≤ 4 * marks (u.rballoc_sub c) 25

marks-bound : (row : ℕ → ℕ) (n : ℕ) → marks row n ≤ n
unfolding marks
marks-bound row zero = omega arith
marks-bound row (suc n) = ground (arith, marks-bound row n)

pub Few-bound : (u : UeSchedulingInfo) (c : ℕ) → Few u → u.pre_nb_rbs_available c < 2 ^ 15
Few-bound u c h = omega (arith, h c, marks-bound (u.rballoc_sub c) 25)

marks-same :
    (row row' : ℕ → ℕ) (n : ℕ) → ((j : ℕ) → j < n → row' j ≡ row j) → marks row' n ≡ marks row n
unfolding marks
marks-same row row' zero h = refl
marks-same row row' (suc n) h =
    ground (arith, h n (omega arith), marks-same row row' n (λ j b. h j (omega arith)))

marks-more :
    (row row' : ℕ → ℕ) (i n : ℕ)
    → i < n
    → row i ≡ 0
    → row' i ≡ 1
    → ((j : ℕ) → (i == j) ≡ false → row' j ≡ row j)
    → marks row' n ≡ marks row n + 1
unfolding marks
marks-more row row' i zero b e e' h = absurd (omega arith)
marks-more row row' i (suc n) b e e' h = elim (Bool-cases (i == n)) [
  | inl last ↦
      let same : i ≡ n = ground (arith, last, ==_iff i n) in
      let below = marks-same row row' n (λ j d. h j (ground arith)) in
      ground (arith, same, below, e, e')
  | inr earlier ↦
      let off : i < n = ground (arith, earlier) in
      ground (arith, h n earlier, marks-more row row' i n off e e' h)
]

-- The same marks and blocks for the cells.
abbrev pub SameBlocks : UeSchedulingInfo → UeSchedulingInfo → Type 0
SameBlocks u u' =
    (c : ℕ)
    → (u'.pre_nb_rbs_available c ≡ u.pre_nb_rbs_available c)
      × ((g : ℕ) → u'.rballoc_sub c g ≡ u.rballoc_sub c g)

pub SameBlocks-Few : (u u' : UeSchedulingInfo) → SameBlocks u u' → Few u → Few u'
SameBlocks-Few u u' k h c =
    omega
      (arith, (k c).0, h c, marks-same (u.rballoc_sub c) (u'.rballoc_sub c) 25 (λ j b. (k c).1 j))

pub SameBlocks-refl : (u : UeSchedulingInfo) → SameBlocks u u
SameBlocks-refl u c = (refl, λ g. refl)

pub SameBlocks-trans : (u v w : UeSchedulingInfo) → SameBlocks u v → SameBlocks v w → SameBlocks u w
SameBlocks-trans u v w p q c = ((q c).0 ∙ (p c).0, λ g. (q c).1 g ∙ (p c).1 g)

pub SameBlocks-if :
    (b : Bool) (u x y : UeSchedulingInfo)
    → SameBlocks u x
    → SameBlocks u y
    → SameBlocks u (if b then x else y)
SameBlocks-if true u x y p q = p
SameBlocks-if false u x y p q = q

get_min_rb_unit-bound : (cell : CellConfig) → get_min_rb_unit cell ≤ 4
unfolding get_min_rb_unit
get_min_rb_unit-bound cell = ground arith

-- A group that the UE does not have, of at most four blocks, is given to it.
given-Few :
    (c0 i n left : ℕ) (u : UeSchedulingInfo)
    → i < 25
    → n ≤ 4
    → u.rballoc_sub c0 i ≡ 0
    → Few u
    → Few (
        set_pre_available c0
          (u.pre_nb_rbs_available c0 + n)
          (set_remaining c0 left (set_rballoc_sub c0 i 1 u)))
given-Few c0 i n left u b small none h c = elim (Bool-cases (c0 == c)) [
  | inr other ↦
      let same =
        marks-same (u.rballoc_sub c) (write2 u.rballoc_sub c0 i (u8 1) c) 25
          (λ j d. ground (arith, other)) in
      ground (arith, other, h c, same)
  | inl here ↦
      let is : c0 ≡ c = ground (arith, here, ==_iff c0 c) in
      let free : u.rballoc_sub c i ≡ 0 = rw (← is) none in
      let more =
        marks-more (u.rballoc_sub c) (write2 u.rballoc_sub c0 i (u8 1) c) i 25 b free
          (ground (arith, here)) (λ j d. ground (arith, here, d)) in
      ground (arith, here, is, h c, more)
]

allocate_group-Few :
    (cell : CellConfig) (i : ℕ) (p : (ℕ → ℕ) × UeSchedulingInfo)
    → i < 25
    → Few p.1
    → Few (allocate_group cell i p).1
unfolding allocate_group
allocate_group-Few cell i (row, u) b h =
    let c = cell.cell_id in
    let unit = get_min_rb_unit cell in
    let small = get_min_rb_unit-bound cell in
    let left = u.nb_rbs_required_remaining c in
    let available = u.pre_nb_rbs_available c in
    elim (Bool-cases (
      row i == 0
      && (u.rballoc_sub c i == 0 && (ltb 0 left && ltb available (u.nb_rbs_required c))))) [
        | inr taken ↦ rw (allocate_group, taken) h
        | inl free ↦
            let none : u.rballoc_sub c i ≡ 0 = ground (arith, free, ==_iff (u.rballoc_sub c i) 0) in
            elim (Bool-cases
              (i == get_nb_rbg cell - 1 && (cell.dl_bandwidth == 25 || cell.dl_bandwidth == 50))) [
                | inl short ↦
                    rw (allocate_group, free, short)
                      (given-Few c i (unit - 1) (left - (unit - 1)) u b (omega (arith, small)) none
                        h)
                | inr full ↦ elim (Bool-cases (ltb left unit)) [
                  | inl stop ↦ rw (allocate_group, free, full, stop) h
                  | inr give ↦
                      rw (allocate_group, free, full, give)
                        (given-Few c i unit (left - unit) u b small none h)
                ]
              ]
      ]

allocate_groups-Few :
    (cell : CellConfig) (left i : ℕ) (p : (ℕ → ℕ) × UeSchedulingInfo)
    → i + left ≤ 25
    → Few p.1
    → Few (allocate_groups cell left i p).1
unfolding allocate_groups
allocate_groups-Few cell zero i p b h = h
allocate_groups-Few cell (suc left) i p b h =
    allocate_groups-Few cell left (suc i) (allocate_group cell i p) (omega arith)
      (allocate_group-Few cell i p (omega arith) h)

-- Each UE of the eNodeB has few blocks.
abbrev pub EnbFew : EnbSchedulingInfo → Type 0
EnbFew s = (r : ℕ) (u : UeSchedulingInfo) → find r s.scheduling_info ≡ some u → Few u

pub modify-EnbFew :
    (rnti : ℕ) (u u' : UeSchedulingInfo) (m : List (ℕ × UeSchedulingInfo))
    → find rnti m ≡ some u
    → (Few u → Few u')
    → ((r : ℕ) (v : UeSchedulingInfo) → find r m ≡ some v → Few v)
    → (r : ℕ) (v : UeSchedulingInfo) → find r (modify rnti (λ _. u') m) ≡ some v
    → Few v
modify-EnbFew rnti u u' m e k h r v ev = elim (Bool-cases (rnti == r)) [
  | inr other ↦ h r v (sym (find-modify rnti r (λ _. u') m ∙ rw other refl) ∙ ev)
  | inl here ↦
      let is : rnti ≡ r = ground (arith, here, ==_iff rnti r) in
      let found : find r (modify rnti (λ _. u') m) ≡ some u' =
        find-modify rnti r (λ _. u') m ∙ (rw here (rw (← is) (rw e refl))) in
      rw (← some-injective u' v (sym found ∙ ev)) (k (h rnti u e))
]

pub perform-EnbFew :
    (cell : CellConfig) (rnti : ℕ) (s : EnbSchedulingInfo)
    → EnbFew s
    → EnbFew (perform_pre_processor_allocation cell rnti s)
unfolding perform_pre_processor_allocation
perform-EnbFew cell rnti s h = elim (Option-cases (find rnti s.scheduling_info)) [
  | inl e ↦ rw (perform_pre_processor_allocation, e) h
  | inr (u, e) ↦
      let start : (ℕ → ℕ) × UeSchedulingInfo = (s.vrb_map cell.cell_id, u) in
      rw (perform_pre_processor_allocation, e)
        (modify-EnbFew rnti u (allocate_groups cell (get_nb_rbg cell) 0 start).1 s.scheduling_info e
          (λ f.
            allocate_groups-Few cell (get_nb_rbg cell) 0 start
              (omega (arith, get_nb_rbg-bound cell)) f)
          h)
]
