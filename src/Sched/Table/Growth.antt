-- ===== src/Sched/Table/Growth.antt =====
-- How the entries of TBStable in src/rib/rib_common.cc grow, by looking at all of them.
use flexran_rtc.Base.{ℕ, zero, suc, ◌+◌, ◌≤◌, ◌<◌, ◌≡◌, refl, Bool, true, ◌&&◌, arith, leb, leb→le}
use flexran_rtc.Sched.Table.{tbs_entry}

-- A test at all numbers below a bound.
all_below : ℕ → (ℕ → Bool) → Bool
all_below zero p = true
all_below (suc n) p = p n && all_below n p

all_below-true : (n : ℕ) (p : ℕ → Bool) (k : ℕ) → all_below n p ≡ true → k < n → p k ≡ true
unfolding all_below
all_below-true zero p k h b = absurd (omega arith)
all_below-true (suc n) p k h b = ground (arith, all_below-true n p k)

columns_grow :
    all_below 27 (λ i. all_below 108 (λ j. leb (tbs_entry i (j + 1)) (tbs_entry i (j + 2)))) ≡ true
unfolding all_below tbs_entry
columns_grow = refl

pub tbs_entry-mono_column : (i j : ℕ) → i < 27 → j < 108 → tbs_entry i (j + 1) ≤ tbs_entry i (j + 2)
tbs_entry-mono_column i j hi hj =
    leb→le _ _ (all_below-true 108 _ j (all_below-true 27 _ i columns_grow hi) hj)
