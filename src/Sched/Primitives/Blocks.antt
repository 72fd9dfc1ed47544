-- ===== src/Sched/Primitives/Blocks.antt =====
-- The groups of resource blocks and the transport block sizes of
-- src/app/remote_scheduler_primitives.cc.
use flexran_rtc.Base.{ℕ, zero, suc, ◌+◌, ◌-◌, ◌%◌, ◌^◌, ◌≤◌, ◌<◌, ◌≡◌, refl, arith}
use flexran_rtc.Messages.{CellConfig}
use flexran_rtc.Sched.Table.Growth.{tbs_entry-mono_column}
use flexran_rtc.Sched.Primitives.{get_nb_rbg, group_blocks, get_i_tbs, get_tbs_dl}

-- The bandwidths for which the source has branches of its own.
pub data Supported : ℕ → Type 0 where
  rb_6 : Supported 6
  rb_25 : Supported 25
  rb_50 : Supported 50
  rb_100 : Supported 100

-- The blocks of the first `n` groups.
pub total_blocks : CellConfig → ℕ → ℕ
total_blocks cell zero = 0
total_blocks cell (suc n) = total_blocks cell n + group_blocks cell n

groups_at :
    (cell : CellConfig) (b : ℕ)
    → cell.dl_bandwidth ≡ b
    → Supported b
    → total_blocks cell (get_nb_rbg cell) ≡ cell.dl_bandwidth
unfolding total_blocks group_blocks get_nb_rbg
groups_at cell b e rb_6 = rw e refl
groups_at cell b e rb_25 = rw e refl
groups_at cell b e rb_50 = rw e refl
groups_at cell b e rb_100 = rw e refl

-- For the supported bandwidths, the groups of resource blocks that allocate_prbs_sub counts
-- down by divide the cell: their sizes, that of the short last one included, add up to the
-- downlink bandwidth.
total_blocks_lem :
    (cell : CellConfig)
    → Supported cell.dl_bandwidth
    → total_blocks cell (get_nb_rbg cell) ≡ cell.dl_bandwidth
total_blocks_lem cell h = groups_at cell cell.dl_bandwidth refl h

get_i_tbs-bound : (mcs : ℕ) → mcs < 29 → get_i_tbs mcs < 27
unfolding get_i_tbs
get_i_tbs-bound mcs h = ground arith

-- For every scheme that the table has and from two blocks on, one more block never carries
-- fewer bytes, up to the 110 columns of the table.
get_tbs_dl-step : (mcs n : ℕ) → mcs < 29 → n < 108 → get_tbs_dl mcs (n + 2) ≤ get_tbs_dl mcs (n + 3)
unfolding get_tbs_dl
get_tbs_dl-step mcs n hm hn =
    let g = tbs_entry-mono_column (get_i_tbs mcs) n (get_i_tbs-bound mcs hm) hn in
    let m : mcs % 2 ^ 8 ≡ mcs = omega arith in
    let a : (n + 2) % 2 ^ 16 ≡ n + 2 = omega arith in
    let b : (n + 3) % 2 ^ 16 ≡ n + 3 = omega arith in
    let c : n + 2 - 1 ≡ n + 1 = omega arith in
    let d : n + 3 - 1 ≡ n + 2 = omega arith in rw (m, a, b, c, d) (ground (arith, g))
