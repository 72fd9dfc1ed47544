-- ===== src/Sched/Primitives.antt =====
-- src/app/remote_scheduler_primitives.cc: resource units, transport block sizes, the control
-- channel elements of a subframe and the bitmap of an allocation. Conversions to uint8_t and
-- uint16_t are written out.
pub mod Blocks
use Prim.Native.Nat.{bit_or}
use flexran_rtc.Base.{
  ℕ, zero, suc, ◌+◌, ◌-◌, ◌*◌, ◌/◌, ◌%◌, ◌^◌, ◌≡◌, Bool, true, false, Option, none, some, ◌==◌,
  ◌&&◌, ◌||◌, not, ltb, leb, if◌then◌else◌,
}
use flexran_rtc.Messages.{
  CellConfig, CyclicPrefix, normal_prefix, extended_prefix, PhichResource, one_sixth, half, one,
  two,
}
use flexran_rtc.Rib.SfnSf.{u16}
use flexran_rtc.Rib.Ue.{u8}
use flexran_rtc.Sched.Table.{tbs_entry, cqi2fmt1x_agg, cqi2fmt2x_agg}

unfoldable pub get_min_rb_unit : CellConfig → ℕ
get_min_rb_unit cell =
    if cell.dl_bandwidth == 6
    then 1
    else if cell.dl_bandwidth == 25
    then 2
    else if cell.dl_bandwidth == 50
    then 3
    else if cell.dl_bandwidth == 100
    then 4
    else 2

unfoldable pub get_nb_rbg : CellConfig → ℕ
get_nb_rbg cell =
    if cell.dl_bandwidth == 100
    then 25
    else if cell.dl_bandwidth == 75
    then 19
    else if cell.dl_bandwidth == 50
    then 17
    else if cell.dl_bandwidth == 25
    then 13
    else if cell.dl_bandwidth == 15
    then 8
    else if cell.dl_bandwidth == 6
    then 6
    else 0

unfoldable pub get_i_tbs : ℕ → ℕ
get_i_tbs i_mcs =
    if ltb i_mcs 10
    then i_mcs
    else if i_mcs == 10
    then 9
    else if ltb i_mcs 17
    then i_mcs - 1
    else if i_mcs == 17
    then 15
    else i_mcs - 2

-- The build sets no TBS_FIX. The MCS is converted to uint8_t and the blocks to uint16_t.
unfoldable pub get_tbs_dl : ℕ → ℕ → ℕ
get_tbs_dl mcs nb_rb =
    if ltb 0 (u16 nb_rb) && ltb (u8 mcs) 29
    then tbs_entry (get_i_tbs (u8 mcs)) (u16 nb_rb - 1) / 2 ^ 3
    else 0

-- Both duplex modes take the same value.
unfoldable pub get_mi : CellConfig → ℕ → ℕ
get_mi cell subframe = 1

unfoldable pub get_phich_resource : CellConfig → ℕ
get_phich_resource cell = elim cell.phich_resource [ one_sixth ↦ 1 | half ↦ 3 | one ↦ 6 | two ↦ 12 ]

unfoldable pub double_if_extended : CyclicPrefix → ℕ → ℕ
double_if_extended normal_prefix n = n
double_if_extended extended_prefix n = u8 (n * 2 ^ 1)

unfoldable pub phich_groups : CellConfig → ℕ → ℕ
phich_groups cell mi =
    let product = get_phich_resource cell * cell.dl_bandwidth in
    let rounded = if ltb 0 (product % 48) then u8 (u8 (product / 48) + 1) else u8 (product / 48) in
    u8 (double_if_extended cell.dl_cyclic_prefix_length rounded * mi)

-- The elements for a number of symbols; `none` is the early return for other bandwidths.
unfoldable pub symbol_elements : ℕ → CellConfig → Option ℕ
symbol_elements symbols cell =
    if ltb 0 symbols && ltb symbols 4
    then (if cell.dl_bandwidth == 6
        then some (12 + (symbols - 1) * 18)
        else if cell.dl_bandwidth == 25
        then some (50 + (symbols - 1) * 75)
        else if cell.dl_bandwidth == 50
        then some (100 + (symbols - 1) * 150)
        else if cell.dl_bandwidth == 100
        then some (200 + (symbols - 1) * 300)
        else none)
    else some 0

-- The difference wraps around where it is negative.
unfoldable pub get_nquad : ℕ → CellConfig → ℕ → ℕ
get_nquad symbols cell mi = elim (symbol_elements symbols cell) [
  | none ↦ 0
  | some n_reg ↦ (n_reg + 2 ^ 16 - (4 + 3 * phich_groups cell mi)) % 2 ^ 16
]

unfoldable pub get_ncce_max : ℕ → CellConfig → ℕ → ℕ
get_ncce_max symbols cell subframe = get_nquad symbols cell (get_mi cell subframe) / 9

-- `for (i = 0; i <= subframe; i++) Yk = (Yk * 39827) % 65537;`, in unsigned arithmetic.
unfoldable pub search_hash : ℕ → ℕ → ℕ
search_hash zero yk = yk * 39827 % 2 ^ 32 % 65537
search_hash (suc i) yk = search_hash i (yk * 39827 % 2 ^ 32 % 65537)

-- The first candidate is always free. The outer `none` is the division by zero that fewer elements
-- than one aggregate make, the inner one stands for -1.
unfoldable pub get_ncce_offset : ℕ → ℕ → Bool → ℕ → ℕ → Option (Option ℕ)
unfolding search_hash
get_ncce_offset aggregation ncce true rnti subframe = some none
get_ncce_offset aggregation ncce false rnti subframe =
    let groups = ncce / aggregation in
    let candidates =
      aggregation == 1 || (aggregation == 2 || (aggregation == 4 || aggregation == 8)) in
    let offset = search_hash subframe (rnti % 2 ^ 32) % groups % groups * aggregation in
    if aggregation == 0 || groups == 0
    then none
    else some (if candidates then some offset else none)

-- What is taken off the blocks that are left for the group `check`. The loop stops at zero or
-- below, for which zero stands.
unfoldable pub group_blocks : CellConfig → ℕ → ℕ
group_blocks cell check =
    let last = check == get_nb_rbg cell - 1 in
    if cell.dl_bandwidth == 6
    then 1
    else if cell.dl_bandwidth == 25
    then (if last then 1 else 2)
    else if cell.dl_bandwidth == 50
    then (if last then 2 else 3)
    else if cell.dl_bandwidth == 100
    then 4
    else 0

-- The loop from group `check` on, with the number of groups left.
prbs_loop : CellConfig → (ℕ → ℕ) → ℕ → ℕ → ℕ → ℕ → ℕ
prbs_loop cell rballoc zero check nb_rb dci = dci
prbs_loop cell rballoc (suc left) check nb_rb dci =
    let rest = prbs_loop cell rballoc left (check + 1) in
    if nb_rb == 0
    then dci
    else if rballoc check == 1
    then rest (nb_rb - group_blocks cell check) (bit_or dci (2 ^ (get_nb_rbg cell - 1 - check)))
    else rest nb_rb dci

unfoldable pub allocate_prbs_sub : ℕ → (ℕ → ℕ) → CellConfig → ℕ
unfolding prbs_loop
allocate_prbs_sub nb_rb rballoc cell = prbs_loop cell rballoc (get_nb_rbg cell) 0 nb_rb 0

pub data DciFormat : Type 0 where
  format_1 format_1a format_1b format_1c format_1d format_2 format_2a format_2b : DciFormat
  format_3 format_3a : DciFormat

unfoldable pub get_aggregation : ℕ → ℕ → DciFormat → ℕ
get_aggregation bw_index cqi format_1 = cqi2fmt1x_agg bw_index cqi
get_aggregation bw_index cqi format_1a = cqi2fmt1x_agg bw_index cqi
get_aggregation bw_index cqi format_1b = cqi2fmt1x_agg bw_index cqi
get_aggregation bw_index cqi format_1d = cqi2fmt1x_agg bw_index cqi
get_aggregation bw_index cqi format_2 = cqi2fmt2x_agg bw_index cqi
get_aggregation bw_index cqi format_2a = cqi2fmt2x_agg bw_index cqi
get_aggregation bw_index cqi format_2b = cqi2fmt2x_agg bw_index cqi
get_aggregation bw_index cqi _ = 3

unfoldable pub get_bw_index : ℕ → ℕ
get_bw_index n_rb_dl =
    if n_rb_dl == 6
    then 0
    else if n_rb_dl == 25
    then 1
    else if n_rb_dl == 50
    then 2
    else if n_rb_dl == 100
    then 3
    else 1
