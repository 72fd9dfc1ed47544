-- ===== src/Sched/Preprocessor/Run.antt =====
-- The loops of run_dlsch_scheduler_preprocessor in src/app/remote_scheduler_helper.cc.
pub mod Entries
pub mod Shares
pub mod Prepare
pub mod Returning
pub mod Control
pub mod Setters
pub mod Symbols
use flexran_rtc.Base.{
  ℕ, zero, suc, ◌+◌, ◌-◌, ◌*◌, ◌/◌, ◌%◌, ◌^◌, Bool, true, false, not, Option, none, some, List,
  ◌==◌, ltb, leb, if◌then◌else◌, min,
}
use flexran_rtc.Base.Faults.{◌>>=◌, for_each}
use flexran_rtc.Base.Maps
use flexran_rtc.Messages.{CellConfig, UeConfig, LcUeConfig}
use flexran_rtc.Rib.SfnSf.{u16}
use flexran_rtc.Rib.Ue.{UeMacRibInfo, has_available_harq, get_next_available_harq, get_harq_stats}
use flexran_rtc.Rib.Enb.{EnbRibInfo, get_ue_mac_info}
use flexran_rtc.Sched.Primitives.{get_min_rb_unit}
use flexran_rtc.Sched.Info.{
  UeSchedulingInfo, EnbSchedulingInfo, set_harq_round, set_nb_rbs_required, set_nb_scheduled_rbs,
  set_remaining, set_remaining_1,
}
use flexran_rtc.Sched.Helper.{UeStats, perform_pre_processor_allocation}
use flexran_rtc.Sched.Preprocessor.{with_ue, in_cell, prepare_ue, sort_ues, pick}

unfoldable pub set_round : CellConfig → ℕ → ℕ → UeSchedulingInfo → UeSchedulingInfo
set_round cell harq_pid round u =
    let c = cell.cell_id in
    let u' = set_harq_round c harq_pid round u in
    if ltb 0 round
    then set_nb_rbs_required c (u'.nb_scheduled_rbs c harq_pid) u'
    else set_nb_scheduled_rbs c harq_pid 0 u'

-- The state with the round of the UE, and `total_ue_count` with it counted if it needs blocks.
unfoldable pub begin_round :
    CellConfig → ℕ → ℕ → UeConfig → EnbSchedulingInfo → ℕ → Option (EnbSchedulingInfo × ℕ)
unfolding set_round
begin_round cell harq_pid round c s count = do
  s' ← with_ue (λ u. some (set_round cell harq_pid round u)) c.rnti s
  u ← Maps.find c.rnti s'.scheduling_info
  some (s', if ltb 0 (u.nb_rbs_required cell.cell_id) then count + 1 else count)

-- `none` for get_next_available_harq is -1, which has_available_harq rules out.
unfoldable pub count_ue :
    CellConfig → EnbRibInfo → UeConfig → EnbSchedulingInfo × ℕ → Option (EnbSchedulingInfo × ℕ)
unfolding begin_round
count_ue cell e c (s, count) =
    let counted : UeMacRibInfo → Option (EnbSchedulingInfo × ℕ) = λ mac.
      elim (get_next_available_harq mac cell.cell_id) [
        | none ↦ none
        | some harq_pid ↦
            begin_round cell harq_pid (get_harq_stats mac cell.cell_id harq_pid) c s count
      ] in
    if in_cell cell c
    then get_ue_mac_info e c.rnti
      >>= (λ mac. if has_available_harq mac cell.cell_id then counted mac else some (s, count))
    else some (s, count)

-- The blocks left by the common channels, as an unsigned number of 16 bits.
unfoldable pub total_available : CellConfig → ℕ → ℕ
total_available cell subframe =
    let all = u16 cell.dl_bandwidth in
    if subframe == 0
    then u16 (all + 2 ^ 16 - 4)
    else if subframe == 5
    then u16 (all + 2 ^ 16 - 8)
    else all

unfoldable pub average_rbs : CellConfig → ℕ → ℕ → ℕ
average_rbs cell subframe count =
    let total = total_available cell subframe in
    if count == 0
    then 0
    else if leb (get_min_rb_unit cell * count) total
    then u16 (total / count)
    else get_min_rb_unit cell

-- A loop body for the UEs of the cell that need blocks.
unfoldable pub needing :
    CellConfig
    → (UeSchedulingInfo → UeSchedulingInfo)
    → UeConfig
    → EnbSchedulingInfo
    → Option EnbSchedulingInfo
needing cell f c s =
    if in_cell cell c
    then with_ue (λ u. some (if ltb 0 (u.nb_rbs_required cell.cell_id) then f u else u)) c.rnti s
    else some s

unfoldable pub first_share : CellConfig → ℕ → UeSchedulingInfo → UeSchedulingInfo
first_share cell average u =
    let c = cell.cell_id in
    let required = u.nb_rbs_required c in
    set_remaining_1 c (if u.high_priority then required else min average required) u

-- What is left to give in the first round and in the second.
unfoldable pub renew : CellConfig → Bool → UeSchedulingInfo → UeSchedulingInfo
renew cell true u = let c = cell.cell_id in set_remaining c (u.nb_rbs_required_remaining_1 c) u
renew cell false u =
    let c = cell.cell_id in
    let rest = u.nb_rbs_required c + 2 ^ 16 - u.nb_rbs_required_remaining_1 c in
    set_remaining c (u16 (rest + u.nb_rbs_required_remaining c)) u

abbrev pub chosen : Bool → UeSchedulingInfo → Bool
chosen high u = if u.high_priority then high else not high

-- The two loops that give blocks, to the UEs of high priority and to the others.
unfoldable pub allocate_for :
    CellConfig → Bool → UeConfig → EnbSchedulingInfo → Option EnbSchedulingInfo
allocate_for cell high c s =
    let given = perform_pre_processor_allocation cell c.rnti s in
    if in_cell cell c
    then Maps.find c.rnti s.scheduling_info >>= (λ u.
      some (
        if chosen high u then (if ltb 0 (u.nb_rbs_required cell.cell_id) then given else s) else s))
    else some s

unfoldable pub share_round :
    CellConfig → ℕ → List UeConfig → Bool → EnbSchedulingInfo → Option EnbSchedulingInfo
unfolding renew allocate_for needing
share_round cell count sorted first s = do
  s1 ← for_each (needing cell (renew cell first)) sorted s
  if ltb 0 count
      then for_each (allocate_for cell true) sorted s1 >>= for_each (allocate_for cell false) sorted
      else some s1

unfoldable pub run_dlsch_scheduler_preprocessor :
    (List UeStats → List UeStats)
    → CellConfig
    → List UeConfig
    → List LcUeConfig
    → EnbRibInfo
    → ℕ
    → EnbSchedulingInfo
    → Option EnbSchedulingInfo
unfolding count_ue first_share share_round needing
run_dlsch_scheduler_preprocessor sort cell ues lcs e subframe s = do
  s1 ← for_each (prepare_ue cell lcs e) ues s
  ids ← sort_ues sort cell ues e
  sorted ← pick ues ids
  counted ← for_each (count_ue cell e) sorted (s1, zero)
  s3 ←
      for_each (needing cell (first_share cell (average_rbs cell subframe counted.1))) sorted
        counted.0
  s4 ← share_round cell counted.1 sorted true s3
  share_round cell counted.1 sorted false s4
