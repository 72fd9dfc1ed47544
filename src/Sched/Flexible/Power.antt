-- ===== src/Sched/Flexible/Power.antt =====
-- The power control of the uplink control channel in run_central_scheduler of
-- src/app/flexible_scheduler.cc.
use flexran_rtc.Base.{
  ℕ, ◌+◌, ◌*◌, Bool, Option, none, some, List, [], ◌∷◌, ◌==◌, ◌&&◌, ◌||◌, ltb, leb, if◌then◌else◌,
}
use flexran_rtc.Base.Int.{ℤ, pos, ◌+ℤ◌, ◌-ℤ◌, ltb_ℤ}
use flexran_rtc.Messages.{CellConfig, CellStatsReport, UeStatsReport, PucchDbm}
use flexran_rtc.Sched.Info.{UeSchedulingInfo}

-- The first power report of the cell that has a power, and whether it is new.
unfoldable pub rx_power : ℕ → List PucchDbm → Option (ℤ × Bool)
rx_power cell_id [] = none
rx_power cell_id (r ∷ rs) =
    let rest = rx_power cell_id rs in
    elim (r.p0_pucch_dbm) [
      | none ↦ rest
      | some p ↦ if r.serv_cell_index == cell_id then some (p, r.p0_pucch_updated == 1) else rest
    ]

-- Ten subframes have gone by since the last command, over the end of the frames as well.
abbrev pub tpc_is_due : ℕ → ℕ → Bool
tpc_is_due last now = leb (last + 10) now || (ltb now last && leb (last + 10) (10240 + now))

-- The command and the accumulated commands, for a new power: powers of 16 bits.
abbrev pub tpc_command : ℤ → ℤ → ℤ → ℕ × ℤ
tpc_command target normalized accumulated =
    if ltb_ℤ (target +ℤ pos 1) normalized
    then (0, accumulated -ℤ pos 1)
    else if ltb_ℤ normalized (target -ℤ pos 1)
    then (2, accumulated +ℤ pos 1)
    else (1, accumulated)

-- The power control: the UE, the command and the accumulated commands.
unfoldable pub control_power :
    CellConfig
    → CellStatsReport
    → UeStatsReport
    → ℕ
    → ℕ
    → ℤ
    → UeSchedulingInfo
    → UeSchedulingInfo × (ℕ × ℤ)
unfolding rx_power
control_power cell cell_report report frame subframe accumulated u =
    let last = u.pucch_tpc_tx_frame * 10 + u.pucch_tpc_tx_subframe in
    let target = cell_report.noise_inter_report.p0_nominal_pucch +ℤ pos 20 in
    let timed = record u { pucch_tpc_tx_frame = frame; pucch_tpc_tx_subframe = subframe } in
    let steady : UeSchedulingInfo × (ℕ × ℤ) = (u, (1, accumulated)) in
    let due : UeSchedulingInfo × (ℕ × ℤ) =
      elim (rx_power cell.cell_id report.ul_cqi_report.pucch_dbm) [
        | none ↦ steady
        | some p ↦ if p.1 then (timed, tpc_command target p.0 accumulated) else steady
      ] in
    if tpc_is_due last (frame * 10 + subframe) then due else steady
