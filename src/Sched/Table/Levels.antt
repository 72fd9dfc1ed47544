-- ===== src/Sched/Table/Levels.antt =====
-- The aggregation levels of src/rib/rib_common.cc.
use flexran_rtc.Base.{
  ℕ, zero, suc, ◌≤◌, ◌≡◌, refl, Bool, true, List, [], ◌∷◌, arith, ◌&&◌, leb, get_or,
}
use flexran_rtc.Sched.Table.{cqi2fmt1x_agg, agg_1_4, agg_5, agg_10, agg_20_fmt1}

at_most_three : List ℕ → Bool
at_most_three [] = true
at_most_three (x ∷ xs) = leb x 3 && at_most_three xs

rows_at_most_three : List (List ℕ) → Bool
rows_at_most_three [] = true
rows_at_most_three (x ∷ xs) = at_most_three x && rows_at_most_three xs

level_in_row : (l : List ℕ) (i : ℕ) → at_most_three l ≡ true → get_or l i 0 ≤ 3
unfolding at_most_three
level_in_row [] i h = omega arith
level_in_row (x ∷ l) zero h = ground (arith, h)
level_in_row (x ∷ l) (suc i) h = level_in_row l i (ground (arith, h))

level_in_table :
    (t : List (List ℕ)) (bw i : ℕ) → rows_at_most_three t ≡ true → get_or (get_or t bw []) i 0 ≤ 3
unfolding rows_at_most_three
level_in_table [] bw i h = omega arith
level_in_table (x ∷ t) zero i h = level_in_row x i (ground (arith, h))
level_in_table (x ∷ t) (suc bw) i h = level_in_table t bw i (ground (arith, h))

-- Every level of the table for the first format is at most three.
pub cqi2fmt1x_agg-bound : (bw cqi : ℕ) → cqi2fmt1x_agg bw cqi ≤ 3
unfolding cqi2fmt1x_agg agg_1_4 agg_5 agg_10 agg_20_fmt1 rows_at_most_three at_most_three
cqi2fmt1x_agg-bound bw cqi =
    level_in_table (agg_1_4 ∷ agg_5 ∷ agg_10 ∷ agg_20_fmt1 ∷ []) bw cqi refl
