-- ===== src/Sched/Flexible/Transmission/Levels.antt =====
-- The aggregation level in run_central_scheduler of src/app/flexible_scheduler.cc.
use flexran_rtc.Base.{◌≤◌, ◌≡◌, refl, inl, inr, arith, Option-cases}
use flexran_rtc.Messages.{CellConfig, UeStatsReport}
use flexran_rtc.Sched.Primitives.{get_aggregation, get_bw_index}
use flexran_rtc.Sched.Table.Levels.{cqi2fmt1x_agg-bound}
use flexran_rtc.Sched.Flexible.Transmission.{Locals, cell_csi, set_aggregation, set_scheme}

module _ (cell : CellConfig) (report : UeStatsReport) where
  -- Set or kept, the level is at most three.
  pub set_aggregation-bound :
      (l : Locals) → l.aggregation ≤ 3 → (set_aggregation cell report l).aggregation ≤ 3
  unfolding set_aggregation get_aggregation
  set_aggregation-bound l h =
      elim (Option-cases (cell_csi cell.cell_id report.dl_cqi_report.csi_report)) [
        | inl e ↦ rw (set_aggregation, e) h
        | inr (r, e) ↦
            let b = cqi2fmt1x_agg-bound (get_bw_index cell.dl_bandwidth) r.wb_cqi in
            rw (set_aggregation, e) (omega (arith, b))
      ]

  -- Set again from the same report, the level stays, whatever else changed.
  pub set_aggregation-again :
      (l l' : Locals)
      → l'.aggregation ≡ (set_aggregation cell report l).aggregation
      → (set_aggregation cell report l').aggregation ≡ l'.aggregation
  unfolding set_aggregation
  set_aggregation-again l l' h =
      elim (Option-cases (cell_csi cell.cell_id report.dl_cqi_report.csi_report)) [
        | inl e ↦ rw (set_aggregation, e) refl
        | inr (r, e) ↦ rw (set_aggregation, e) (ground (arith, rw (set_aggregation, e) at h))
      ]

  pub set_scheme-aggregation : (l : Locals) → (set_scheme cell report l).aggregation ≡ l.aggregation
  unfolding set_scheme
  set_scheme-aggregation l =
      elim (Option-cases (cell_csi cell.cell_id report.dl_cqi_report.csi_report)) [
        | inl e ↦ rw (set_scheme, e) refl
        | inr (r, e) ↦ rw (set_scheme, e) refl
      ]
