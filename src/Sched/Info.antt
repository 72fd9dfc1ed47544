-- ===== src/Sched/Info.antt =====
-- src/app/ue_scheduling_info.h and .cc, enb_scheduling_info.h and .cc: what a scheduler keeps
-- of a UE and of an eNodeB. Arrays are functions of their indices, of which the first is the
-- cell; an index past the end is undefined behaviour in the source.
pub mod Round
pub mod Channels
use flexran_rtc.Base.{
  ℕ, zero, suc, ◌+◌, ◌-◌, ◌%◌, ◌^◌, ◌≡◌, Bool, true, false, Option, none, some, List, [], ◌∷◌, ◌==◌,
  ◌&&◌, ◌||◌, not, ltb, if◌then◌else◌,
}
use flexran_rtc.Base.Maps
use flexran_rtc.Messages.{CellConfig}
use flexran_rtc.Rib.SfnSf.{u16}
use flexran_rtc.Rib.Ue.{u8, write1, write2, write3, max_num_cc, max_num_harq}
use flexran_rtc.Sched.Primitives.{get_ncce_max, get_ncce_offset}

pub record UeSchedulingInfo : Type 0 where
  pub ta_timer : ℕ
  pub rnti : ℕ
  pub ndi : ℕ → ℕ → ℕ
  pub tpc : ℕ → ℕ → ℕ
  pub nb_scheduled_rbs : ℕ → ℕ → ℕ
  pub mcs : ℕ → ℕ → ℕ
  pub rballoc_sub_scheduled : ℕ → ℕ → ℕ → ℕ
  pub dl_pow_off : ℕ → ℕ
  pub nb_rbs_required : ℕ → ℕ
  pub harq_round : ℕ → ℕ → ℕ → ℕ
  pub rballoc_sub : ℕ → ℕ → ℕ
  pub nb_rbs_required_remaining : ℕ → ℕ
  pub nb_rbs_required_remaining_1 : ℕ → ℕ
  pub pre_nb_rbs_available : ℕ → ℕ
  pub pucch_tpc_tx_frame : ℕ
  pub pucch_tpc_tx_subframe : ℕ
  pub high_priority : Bool

-- `dl_pow_off_{2}` sets the first element only.
unfoldable pub new_ue_info : ℕ → UeSchedulingInfo
new_ue_info rnti = record {
  ta_timer = 20;
  rnti = rnti;
  ndi = λ c h. 0;
  tpc = λ c h. 0;
  nb_scheduled_rbs = λ c h. 0;
  mcs = λ c h. 0;
  rballoc_sub_scheduled = λ c h g. 0;
  dl_pow_off = λ c. if c == 0 then 2 else 0;
  nb_rbs_required = λ c. 0;
  harq_round = λ c h b. 0;
  rballoc_sub = λ c g. 0;
  nb_rbs_required_remaining = λ c. 0;
  nb_rbs_required_remaining_1 = λ c. 0;
  pre_nb_rbs_available = λ c. 0;
  pucch_tpc_tx_frame = 0;
  pucch_tpc_tx_subframe = 0;
  high_priority = true;
}

-- Each array is filled with zeros whole.
unfoldable pub start_ue_round : UeSchedulingInfo → UeSchedulingInfo
start_ue_round u = record u {
  rballoc_sub = λ c g. 0;
  nb_rbs_required = λ c. 0;
  nb_rbs_required_remaining = λ c. 0;
  nb_rbs_required_remaining_1 = λ c. 0;
  pre_nb_rbs_available = λ c. 0;
  rballoc_sub_scheduled = λ c h g. 0;
}

-- `none` stands for -1.
pub get_harq_round : UeSchedulingInfo → ℕ → ℕ → Option ℕ
get_harq_round u cell_id harq_pid =
    if ltb cell_id max_num_cc && ltb harq_pid max_num_harq
    then some (u.harq_round cell_id harq_pid 0)
    else none

abbrev pub set_harq_round : ℕ → ℕ → ℕ → UeSchedulingInfo → UeSchedulingInfo
set_harq_round c h round u = record u { harq_round = write3 u.harq_round c h 0 (u8 round) }

abbrev pub set_nb_rbs_required : ℕ → ℕ → UeSchedulingInfo → UeSchedulingInfo
set_nb_rbs_required c n u = record u { nb_rbs_required = write1 u.nb_rbs_required c (u16 n) }

abbrev pub set_remaining : ℕ → ℕ → UeSchedulingInfo → UeSchedulingInfo
set_remaining c n u = record u {
  nb_rbs_required_remaining = write1 u.nb_rbs_required_remaining c (u16 n);
}

abbrev pub set_remaining_1 : ℕ → ℕ → UeSchedulingInfo → UeSchedulingInfo
set_remaining_1 c n u = record u {
  nb_rbs_required_remaining_1 = write1 u.nb_rbs_required_remaining_1 c (u16 n);
}

abbrev pub set_rballoc_sub : ℕ → ℕ → ℕ → UeSchedulingInfo → UeSchedulingInfo
set_rballoc_sub c g v u = record u { rballoc_sub = write2 u.rballoc_sub c g (u8 v) }

abbrev pub set_nb_scheduled_rbs : ℕ → ℕ → ℕ → UeSchedulingInfo → UeSchedulingInfo
set_nb_scheduled_rbs c h n u = record u { nb_scheduled_rbs = write2 u.nb_scheduled_rbs c h (u16 n) }

abbrev pub set_pre_available : ℕ → ℕ → UeSchedulingInfo → UeSchedulingInfo
set_pre_available c n u = record u {
  pre_nb_rbs_available = write1 u.pre_nb_rbs_available c (u16 n);
}

abbrev pub set_high_priority : Bool → UeSchedulingInfo → UeSchedulingInfo
set_high_priority flag u = record u { high_priority = flag }

pub record EnbSchedulingInfo : Type 0 where
  pub last_checked_frame : ℕ
  pub last_checked_subframe : ℕ
  pub scheduling_info : List (ℕ × UeSchedulingInfo)
  pub vrb_map : ℕ → ℕ → ℕ
  pub num_pdcch_symbols : ℕ → ℕ
  pub ncce_rem : ℕ → ℕ

-- The constructor leaves the frame and the subframe as memory had them: they are arguments.
unfoldable pub new_enb_info : ℕ → ℕ → EnbSchedulingInfo
new_enb_info frame subframe = record {
  last_checked_frame = frame;
  last_checked_subframe = subframe;
  scheduling_info = [];
  vrb_map = λ c g. 0;
  num_pdcch_symbols = λ c. 0;
  ncce_rem = λ c. 0;
}

unfoldable pub get_ue_scheduling_info : ℕ → EnbSchedulingInfo → Option UeSchedulingInfo
get_ue_scheduling_info rnti s = Maps.find rnti s.scheduling_info

unfoldable pub create_ue_scheduling_info : ℕ → EnbSchedulingInfo → EnbSchedulingInfo
create_ue_scheduling_info rnti s = record s {
  scheduling_info = Maps.insert rnti (new_ue_info rnti) s.scheduling_info;
}

abbrev u32 : ℕ → ℕ
u32 x = x % 2 ^ 32

unfoldable pub assign_cce : ℕ → ℕ → EnbSchedulingInfo → EnbSchedulingInfo
assign_cce c n s = record s { ncce_rem = write1 s.ncce_rem c (u32 (s.ncce_rem c + 2 ^ 32 - n)) }

unfoldable pub increase_num_pdcch_symbols : CellConfig → ℕ → EnbSchedulingInfo → EnbSchedulingInfo
increase_num_pdcch_symbols cell subframe s =
    let c = cell.cell_id in
    let prev_max = get_ncce_max (s.num_pdcch_symbols c) cell subframe in
    let symbols = u8 (s.num_pdcch_symbols c + 1) in
    let new_max = get_ncce_max symbols cell subframe in
    let used = u32 (prev_max + 2 ^ 32 - s.ncce_rem c) in
    record s {
      num_pdcch_symbols = write1 s.num_pdcch_symbols c symbols;
      ncce_rem = write1 s.ncce_rem c (u32 (new_max + 2 ^ 32 - used));
    }

-- Four blocks from `i` on are taken.
abbrev take_four : (ℕ → ℕ) → ℕ → ℕ → ℕ
take_four row i = write1 (write1 (write1 (write1 row i 1) (i + 1) 1) (i + 2) 1) (i + 3) 1

abbrev si_index : ℕ → ℕ
si_index n_rb_dl =
    if n_rb_dl == 6
    then 0
    else if n_rb_dl == 15
    then 6
    else if n_rb_dl == 25
    then 11
    else if n_rb_dl == 50
    then 23
    else if n_rb_dl == 100
    then 48
    else 0

-- The map of blocks after the random access and the system information have theirs.
unfoldable pub common_blocks : ℕ → CellConfig → ℕ → ℕ
common_blocks subframe cell =
    let clear = λ (g : ℕ). zero in
    let access = if subframe == 0 || subframe == 5 then take_four clear 0 else clear in
    if subframe == 5 then take_four access (si_index cell.dl_bandwidth) else access

unfoldable pub start_round : ℕ → CellConfig → EnbSchedulingInfo → EnbSchedulingInfo
start_round subframe cell s =
    let c = cell.cell_id in
    record s {
      vrb_map = λ c' g. if c == c' then common_blocks subframe cell g else s.vrb_map c' g;
      num_pdcch_symbols =
          write1 s.num_pdcch_symbols c (if subframe == 0 || subframe == 5 then 3 else 0);
      ncce_rem = write1 s.ncce_rem c (get_ncce_max 0 cell subframe);
    }

-- remote_scheduler_primitives.cc: whether this slot was not looked at last.
unfoldable pub needs_scheduling : EnbSchedulingInfo → ℕ → ℕ → Bool
needs_scheduling s frame subframe =
    not (s.last_checked_frame == frame && s.last_checked_subframe == subframe)

-- `(1<<aggregation) > nCCE_rem`, where nCCE_rem is an int: from 2 ^ 31 on it is negative.
abbrev pub too_few : ℕ → ℕ → Bool
too_few left need = ltb left need || not (ltb left (2 ^ 31))

-- remote_scheduler_primitives.cc: the loop over the number of symbols, on fuel; `none` says
-- that the fuel ran out, or is the division by zero in get_nCCE_offset. `left` is the local copy of the elements that remain.
cce_loop : ℕ → ℕ → EnbSchedulingInfo → CellConfig → ℕ → ℕ → ℕ → Option (EnbSchedulingInfo × Bool)
cce_loop zero left s cell rnti aggregation subframe = none
cce_loop (suc fuel) left s cell rnti aggregation subframe =
    let c = cell.cell_id in
    let need = 2 ^ aggregation in
    let more = increase_num_pdcch_symbols cell subframe s in
    let retry = cce_loop fuel (more.ncce_rem c) more cell rnti aggregation subframe in
    let again = cce_loop fuel left more cell rnti aggregation subframe in
    let total = get_ncce_max (s.num_pdcch_symbols c) cell subframe in
    let full = s.num_pdcch_symbols c == 3 in
    if too_few left need
    then (if full then some (s, true) else retry)
    else elim (get_ncce_offset (u8 need) total false rnti subframe) [
      | none ↦ none
      | some found ↦ elim found [
        | some offset ↦ some (s, false)
        | none ↦ if full then some (s, true) else again
      ]
    ]

-- Fuel for the symbols up to three, from a count of at most three.
unfoldable pub cce_allocation_infeasible :
    EnbSchedulingInfo → CellConfig → ℕ → ℕ → ℕ → Option (EnbSchedulingInfo × Bool)
unfolding cce_loop
cce_allocation_infeasible s cell rnti aggregation subframe =
    cce_loop 5 (s.ncce_rem cell.cell_id) s cell rnti aggregation subframe
