-- ===== src/Sched/Flexible/Fitting.antt =====
-- The loops of run_central_scheduler in src/app/flexible_scheduler.cc that fit the bytes of a
-- UE: how many blocks, which of its groups, and which modulation and coding scheme.
pub mod Schemes
pub mod Counts
pub mod Kept
use flexran_rtc.Base.{
  ℕ, zero, suc, ◌+◌, ◌-◌, ◌%◌, ◌^◌, Bool, Option, none, some, ◌==◌, ◌&&◌, ◌||◌, ltb, if◌then◌else◌,
}
use flexran_rtc.Messages.{CellConfig}
use flexran_rtc.Rib.SfnSf.{u16}
use flexran_rtc.Rib.Ue.{u8, write3}
use flexran_rtc.Sched.Primitives.{get_min_rb_unit, get_nb_rbg, get_tbs_dl}
use flexran_rtc.Sched.Info.{UeSchedulingInfo}

-- `TBS` has 16 bits.
unfoldable pub tbs : ℕ → ℕ → ℕ
tbs mcs nb_rb = u16 (get_tbs_dl mcs nb_rb)

abbrev pub set_rballoc_sub_scheduled : ℕ → ℕ → ℕ → ℕ → UeSchedulingInfo → UeSchedulingInfo
set_rballoc_sub_scheduled c h g v u = record u {
  rballoc_sub_scheduled = write3 u.rballoc_sub_scheduled c h g (u8 v);
}

-- The groups of the UE from `j` on are all scheduled.
copy_groups : ℕ → ℕ → ℕ → ℕ → UeSchedulingInfo → UeSchedulingInfo
copy_groups c h zero j u = u
copy_groups c h (suc left) j u =
    copy_groups c h left (suc j) (set_rballoc_sub_scheduled c h j (u.rballoc_sub c j) u)

-- What is left of `nb_rb_tmp` after group `j`, in 16 bits: it wraps around below zero.
abbrev pub less_group : CellConfig → ℕ → ℕ → ℕ
less_group cell j left =
    let short = j == get_nb_rbg cell - 1 && (cell.dl_bandwidth == 25 || cell.dl_bandwidth == 50) in
    let rest = left + 2 ^ 16 - get_min_rb_unit cell in if short then u16 (rest + 1) else u16 rest

-- The groups of the UE from `j` on are scheduled until `nb_rb_tmp` is zero.
fill_groups : CellConfig → ℕ → ℕ → ℕ → ℕ → UeSchedulingInfo → UeSchedulingInfo
fill_groups cell h zero j nb_rb_tmp u = u
fill_groups cell h (suc left) j nb_rb_tmp u =
    let c = cell.cell_id in
    let taken =
      fill_groups cell h left (suc j) (less_group cell j nb_rb_tmp)
        (set_rballoc_sub_scheduled c h j 1 u) in
    let passed = fill_groups cell h left (suc j) nb_rb_tmp u in
    if nb_rb_tmp == 0 then u else if u.rballoc_sub c j == 1 then taken else passed

unfoldable pub schedule_groups : CellConfig → ℕ → Bool → ℕ → UeSchedulingInfo → UeSchedulingInfo
unfolding copy_groups fill_groups
schedule_groups cell h exact nb_rb u =
    if exact
    then copy_groups cell.cell_id h (get_nb_rbg cell) 0 u
    else fill_groups cell h (get_nb_rbg cell) 0 nb_rb u

-- The loop that adds blocks while the bytes do not fit, on fuel; `none` says that it ran out.
unfoldable pub raise_rbs : ℕ → ℕ → ℕ → ℕ → ℕ → ℕ → Option ℕ
raise_rbs zero mcs unit available need nb_rb = none
raise_rbs (suc fuel) mcs unit available need nb_rb =
    let more = u16 (nb_rb + unit) in
    let rest = raise_rbs fuel mcs unit available need more in
    if ltb (tbs mcs nb_rb) need
    then (if ltb available more then some available else rest)
    else some nb_rb

-- `while ((TBS > need) && (mcs_tmp > 0))`
unfoldable pub lower_mcs : ℕ → ℕ → ℕ → ℕ
lower_mcs nb_rb need zero = zero
lower_mcs nb_rb need (suc mcs) =
    let rest = lower_mcs nb_rb need mcs in if ltb need (tbs (suc mcs) nb_rb) then rest else suc mcs

-- `while ((TBS < need) && (mcs_tmp < 28))`, with the schemes up to 28 that are left.
unfoldable pub raise_mcs : ℕ → ℕ → ℕ → ℕ → ℕ
raise_mcs nb_rb need zero mcs = mcs
raise_mcs nb_rb need (suc left) mcs =
    let rest = raise_mcs nb_rb need left (suc mcs) in if ltb (tbs mcs nb_rb) need then rest else mcs

unfoldable pub fit_mcs : ℕ → ℕ → ℕ → ℕ
unfolding lower_mcs raise_mcs
fit_mcs nb_rb need mcs =
    let lowered = lower_mcs nb_rb need mcs in raise_mcs nb_rb need (28 - lowered) lowered
