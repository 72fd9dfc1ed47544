-- ===== src/Sched/Table.antt =====
-- src/rib/rib_common.cc: the tables of transport block sizes, MCS values and aggregation
-- levels. An index past the end of a table is undefined behaviour in the source; 0 stands for
-- what is read there.
pub mod Levels
mod Row
mod Low
mod Middle
mod High
pub mod Growth
use flexran_rtc.Base.{ℕ, List, [], ◌∷◌, get_or}
use Low.{row0, row1, row2, row3, row4, row5, row6, row7, row8}
use Middle.{row9, row10, row11, row12, row13, row14, row15, row16, row17}
use High.{row18, row19, row20, row21, row22, row23, row24, row25, row26}

tbs_table : List (List ℕ)
unfolding row0 row1 row2 row3 row4 row5 row6 row7 row8 row9 row10 row11 row12 row13 row14 row15
    row16 row17 row18 row19 row20 row21 row22 row23 row24 row25 row26
tbs_table =
    row0 ∷ row1 ∷ row2 ∷ row3 ∷ row4 ∷ row5 ∷ row6 ∷ row7 ∷ row8 ∷ row9 ∷ row10 ∷ row11 ∷ row12
    ∷ row13 ∷ row14 ∷ row15 ∷ row16 ∷ row17 ∷ row18 ∷ row19 ∷ row20 ∷ row21 ∷ row22 ∷ row23 ∷ row24
    ∷ row25 ∷ row26 ∷ []

-- TBStable[i][j]
unfoldable pub tbs_entry : ℕ → ℕ → ℕ
unfolding tbs_table
tbs_entry i j = get_or (get_or tbs_table i []) j 0

cqi_mcs_table : List ℕ
cqi_mcs_table = 0 ∷ 0 ∷ 1 ∷ 2 ∷ 4 ∷ 6 ∷ 8 ∷ 11 ∷ 13 ∷ 16 ∷ 18 ∷ 20 ∷ 23 ∷ 25 ∷ 27 ∷ 28 ∷ []

-- cqi_to_mcs[cqi]
unfoldable pub cqi_to_mcs : ℕ → ℕ
unfolding cqi_mcs_table
cqi_to_mcs cqi = get_or cqi_mcs_table cqi 0

agg_1_4 : List ℕ
agg_1_4 = 3 ∷ 3 ∷ 3 ∷ 2 ∷ 2 ∷ 1 ∷ 1 ∷ 1 ∷ 1 ∷ 0 ∷ 0 ∷ 0 ∷ 0 ∷ 0 ∷ 0 ∷ 0 ∷ []

agg_5 : List ℕ
agg_5 = 3 ∷ 3 ∷ 3 ∷ 3 ∷ 2 ∷ 2 ∷ 1 ∷ 1 ∷ 1 ∷ 1 ∷ 0 ∷ 0 ∷ 0 ∷ 0 ∷ 0 ∷ 0 ∷ []

agg_10 : List ℕ
agg_10 = 3 ∷ 3 ∷ 3 ∷ 3 ∷ 2 ∷ 2 ∷ 2 ∷ 1 ∷ 1 ∷ 1 ∷ 1 ∷ 0 ∷ 0 ∷ 0 ∷ 0 ∷ 0 ∷ []

agg_20_fmt1 : List ℕ
agg_20_fmt1 = 3 ∷ 3 ∷ 3 ∷ 3 ∷ 2 ∷ 2 ∷ 2 ∷ 2 ∷ 1 ∷ 1 ∷ 1 ∷ 1 ∷ 0 ∷ 0 ∷ 0 ∷ 0 ∷ []

agg_20_fmt2 : List ℕ
agg_20_fmt2 = 3 ∷ 3 ∷ 3 ∷ 3 ∷ 3 ∷ 2 ∷ 2 ∷ 2 ∷ 2 ∷ 2 ∷ 1 ∷ 1 ∷ 1 ∷ 1 ∷ 0 ∷ 0 ∷ []

-- cqi2fmt1x_agg[bw][cqi]. The table has sixteen rows; those past the fourth are zeros.
unfoldable pub cqi2fmt1x_agg : ℕ → ℕ → ℕ
unfolding agg_1_4 agg_5 agg_10 agg_20_fmt1
cqi2fmt1x_agg bw cqi = get_or (get_or (agg_1_4 ∷ agg_5 ∷ agg_10 ∷ agg_20_fmt1 ∷ []) bw []) cqi 0

-- cqi2fmt2x_agg[bw][cqi]
unfoldable pub cqi2fmt2x_agg : ℕ → ℕ → ℕ
unfolding agg_1_4 agg_5 agg_10 agg_20_fmt2
cqi2fmt2x_agg bw cqi = get_or (get_or (agg_1_4 ∷ agg_5 ∷ agg_10 ∷ agg_20_fmt2 ∷ []) bw []) cqi 0
