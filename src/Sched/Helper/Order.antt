-- ===== src/Sched/Helper/Order.antt =====
-- The order of UEs by compare_stats in src/app/remote_scheduler_helper.cc.
use flexran_rtc.Base.{◌≡◌, ◌⊎◌, ◌↔◌, true, arith, ◌&&◌, ◌||◌, not}
use flexran_rtc.Sched.Helper.{UeStats, compare_stats}

-- The five numbers that are compared are the same; those of the UEs may differ.
pub record SameStats (a b : UeStats) : Type 0 where
  pub harq_round : a.harq_round ≡ b.harq_round
  pub bytes_in_ccch : a.bytes_in_ccch ≡ b.bytes_in_ccch
  pub hol_delay : a.hol_delay ≡ b.hol_delay
  pub total_bytes : a.total_bytes_in_buffers ≡ b.total_bytes_in_buffers
  pub cqi : a.cqi ≡ b.cqi

one_first : (a b : UeStats) → (compare_stats a b ≡ true) ⊎ (compare_stats b a ≡ true)
unfolding compare_stats
one_first a b = ground arith

both_first : (a b : UeStats) → compare_stats a b ≡ true → compare_stats b a ≡ true → SameStats a b
unfolding compare_stats
both_first a b h k = record {
  harq_round = ground arith;
  bytes_in_ccch = ground arith;
  hol_delay = ground arith;
  total_bytes = ground arith;
  cqi = ground arith;
}

transitive :
    (a b c : UeStats)
    → compare_stats a b ≡ true
    → compare_stats b c ≡ true
    → compare_stats a c ≡ true
unfolding compare_stats
transitive a b c h k = ground arith

equal_first :
    (a b : UeStats) → SameStats a b → (compare_stats a b ≡ true) × (compare_stats b a ≡ true)
unfolding compare_stats
equal_first a b s = (
  ground (arith, s.harq_round, s.bytes_in_ccch, s.hol_delay, s.total_bytes, s.cqi),
  ground (arith, s.harq_round, s.bytes_in_ccch, s.hol_delay, s.total_bytes, s.cqi),
)

-- The comparison is total and transitive, and puts each of two UEs before the other exactly
-- where all five numbers are the same: so it is no strict order, as std::sort asks for.
pub compare_stats_lem :
    (a b c : UeStats)
    → ((compare_stats a b ≡ true) ⊎ (compare_stats b a ≡ true))
      × (((compare_stats a b ≡ true) × (compare_stats b a ≡ true)) ↔ SameStats a b)
      × ((not (compare_stats a b && compare_stats b c) || compare_stats a c) ≡ true)
compare_stats_lem a b c = (
  one_first a b,
  (λ h. both_first a b h.0 h.1, equal_first a b),
  ground (arith, transitive a b c),
)
