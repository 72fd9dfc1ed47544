-- ===== src/Sched/Flexible/Fitting/Counts.antt =====
-- The blocks that run_central_scheduler of src/app/flexible_scheduler.cc settles on for the
-- bytes of a UE: its loop is that of assign_rbs_required, up to the blocks the UE was given.
use flexran_rtc.Base.{ℕ, zero, suc, ◌+◌, ◌%◌, ◌^◌, ◌<◌, ◌≡◌, refl, ◌∙◌, some, arith}
use flexran_rtc.Messages.{CellConfig}
use flexran_rtc.Sched.Primitives.{get_min_rb_unit}
use flexran_rtc.Sched.Helper.{rbs_loop, first_rbs}
use flexran_rtc.Sched.Helper.Required.{Least, rbs_loop_lem, unit_bounds, first_rbs_bounds}
use flexran_rtc.Sched.Flexible.Fitting.{tbs, raise_rbs}

raise_rbs-rbs_loop :
    (fuel mcs unit available need n : ℕ)
    → available < 2 ^ 15
    → raise_rbs fuel mcs unit available need n ≡ rbs_loop fuel mcs unit available need n
unfolding raise_rbs rbs_loop tbs
raise_rbs-rbs_loop zero mcs unit available need n b = refl
raise_rbs-rbs_loop (suc fuel) mcs unit available need n b =
    let whole : available % 2 ^ 16 ≡ available = omega arith in
    ground (arith, raise_rbs-rbs_loop fuel mcs unit available need ((n + unit) % 2 ^ 16) b, whole)

-- Where a UE was given fewer than 2 ^ 15 blocks, the loop that adds blocks ends. The count it
-- ends with carries all the bytes or is the number that the UE was given, is at most four above
-- that number, and every smaller count that it tried carries fewer bytes.
pub raise_rbs-Least :
    (cell : CellConfig) (mcs available need : ℕ)
    → available < 2 ^ 15
    → (r : ℕ) × (raise_rbs
          (available + 1)
          mcs
          (get_min_rb_unit cell)
          available
          need
          (first_rbs cell mcs)
        ≡ some r)
      × Least mcs (get_min_rb_unit cell) available need (first_rbs cell mcs) r
raise_rbs-Least cell mcs available need b =
    let (unit, four) = unit_bounds cell in
    let (some_first, first) = first_rbs_bounds cell mcs in
    let n = first_rbs cell mcs in
    let (r, same, found) =
      rbs_loop_lem (available + 1) mcs (get_min_rb_unit cell) available need n unit four b
        (omega (arith, first)) (omega (arith, some_first)) (omega arith) in
    (
      r,
      raise_rbs-rbs_loop (available + 1) mcs (get_min_rb_unit cell) available need n b ∙ same,
      found,
    )
