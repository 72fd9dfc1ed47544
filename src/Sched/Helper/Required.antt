-- ===== src/Sched/Helper/Required.antt =====
-- The loop of assign_rbs_required in src/app/remote_scheduler_helper.cc.
use flexran_rtc.Base.{
  List, [], ◌∷◌, ℕ, zero, suc, ◌+◌, ◌*◌, ◌%◌, ◌^◌, ◌≤◌, ◌<◌, ◌≡◌, refl, ◌∙◌, inl, inr, ◌⊎◌, true,
  false, some, arith, ltb, ◌&&◌, Bool-cases, ltb→lt,
}
use flexran_rtc.Messages.{CellConfig, LcUeConfig, RlcBsr, UeStatsReport}
use flexran_rtc.Rib.SfnSf.{u16}
use flexran_rtc.Sched.Primitives.{get_tbs_dl, get_min_rb_unit}
use flexran_rtc.Sched.Info.{UeSchedulingInfo, set_nb_rbs_required}
use flexran_rtc.Sched.Helper.{
  reported_mcs, buffer_bytes, rbs_loop, first_rbs, mark_priority, assign_rbs_required,
}

-- The bytes that a block of `n` resource blocks carries, as the loop stores them.
abbrev pub carried : ℕ → ℕ → ℕ
carried mcs n = u16 (get_tbs_dl mcs n)

-- The count `r`, reached from `n` in steps of `unit`, is enough or the whole bandwidth, and
-- no count tried before it was enough.
pub record Least (mcs unit bandwidth bytes n r : ℕ) : Type 0 where
  pub enough : (bytes ≤ carried mcs r) ⊎ (r ≡ bandwidth)
  pub within : r ≤ bandwidth + 4
  pub least : (k : ℕ) → n + k * unit < r → carried mcs (n + k * unit) < bytes

least_step :
    (mcs unit bytes n r : ℕ)
    → carried mcs n < bytes
    → ((k : ℕ) → n + unit + k * unit < r → carried mcs (n + unit + k * unit) < bytes)
    → (k : ℕ) → n + k * unit < r
    → carried mcs (n + k * unit) < bytes
least_step mcs unit bytes n r h later zero b = rw (start) h
  where
    start : n + 0 * unit ≡ n
    start = omega arith
least_step mcs unit bytes n r h later (suc k) b = rw (shift k) (later k (rw (← shift k) b))
  where
    shift : (k : ℕ) → n + suc k * unit ≡ n + unit + k * unit
    shift k = ground arith

rbs_loop-step :
    (fuel mcs unit bandwidth bytes n : ℕ)
    → ltb (carried mcs n) bytes ≡ true
    → ltb bandwidth (n + unit) ≡ false
    → u16 (n + unit) ≡ n + unit
    → rbs_loop (suc fuel) mcs unit bandwidth bytes n
      ≡ rbs_loop fuel mcs unit bandwidth bytes (n + unit)
unfolding rbs_loop
rbs_loop-step fuel mcs unit bandwidth bytes n e f small = rw (e, small, f) refl

pub rbs_loop_lem :
    (fuel mcs unit bandwidth bytes n : ℕ)
    → 0 < unit
    → unit ≤ 4
    → bandwidth < 2 ^ 15
    → n ≤ bandwidth + 4
    → bandwidth < n + fuel
    → 0 < fuel
    → (r : ℕ) × (rbs_loop fuel mcs unit bandwidth bytes n ≡ some r)
      × Least mcs unit bandwidth bytes n r
unfolding rbs_loop
rbs_loop_lem zero mcs unit bandwidth bytes n hu h4 hb hn hf h0 = absurd (omega arith)
rbs_loop_lem (suc fuel) mcs unit bandwidth bytes n hu h4 hb hn hf h0 =
    let small : (n + unit) % 2 ^ 16 ≡ n + unit = omega arith in
    let whole : bandwidth % 2 ^ 16 ≡ bandwidth = omega arith in
    elim (Bool-cases (ltb (carried mcs n) bytes)) [
      | inr e ↦ (
        n,
        rw e refl,
        record { enough = inl (ground arith); within = hn; least = λ k h. absurd (omega arith) },
      )
      | inl e ↦ elim (Bool-cases (ltb bandwidth (n + unit))) [
        | inl f ↦ (
          bandwidth,
          rw (e, small, f, whole) refl,
          record {
            enough = inr refl;
            within = omega arith;
            least =
                least_step mcs unit bytes n bandwidth (ltb→lt _ _ e)
                  (λ k h. absurd (omega (arith, ltb→lt _ _ f)));
          },
        )
        | inr f ↦
            let inside : n + unit ≤ bandwidth = ground arith in
            let (r, same, found) =
              rbs_loop_lem fuel mcs unit bandwidth bytes (n + unit) hu h4 hb (omega arith)
                (omega arith) (omega arith) in
            (
              r,
              rbs_loop-step fuel mcs unit bandwidth bytes n e f small ∙ same,
              record {
                enough = found.enough;
                within = found.within;
                least = least_step mcs unit bytes n r (ltb→lt _ _ e) found.least;
              },
            )
      ]
    ]

pub unit_bounds : (cell : CellConfig) → (0 < get_min_rb_unit cell) × (get_min_rb_unit cell ≤ 4)
unfolding get_min_rb_unit
unit_bounds cell = (ground arith, ground arith)

pub first_rbs_bounds :
    (cell : CellConfig) (mcs : ℕ) → (0 < first_rbs cell mcs) × (first_rbs cell mcs ≤ 4)
first_rbs_bounds cell mcs =
    let (a, b) = unit_bounds cell in (ground (arith, a, b), ground (arith, a, b))

-- For a UE with bytes to send, fewer than 2 ^ 31, and a bandwidth below 2 ^ 15, the loop ends,
-- and the blocks it stores either carry all the bytes or are the whole bandwidth; and every
-- smaller count on the way, in steps of the resource unit from the first count, carries fewer
-- bytes than there are.
pub assign_rbs_required_lem :
    (u : UeSchedulingInfo) (report : UeStatsReport) (cell : CellConfig) (lc : LcUeConfig)
    → cell.dl_bandwidth < 2 ^ 15
    → 0 < buffer_bytes report.rlc_report
    → buffer_bytes report.rlc_report < 2 ^ 31
    → let mcs = reported_mcs cell.cell_id report.dl_cqi_report.csi_report in
      (u' : UeSchedulingInfo) × (assign_rbs_required u report cell lc ≡ some u')
      × Least mcs
          (get_min_rb_unit cell)
          cell.dl_bandwidth
          (buffer_bytes report.rlc_report)
          (first_rbs cell mcs)
          (u'.nb_rbs_required cell.cell_id)
unfolding assign_rbs_required
assign_rbs_required_lem u report cell lc hb h0 h1 =
    let mcs = reported_mcs cell.cell_id report.dl_cqi_report.csi_report in
    let bytes = buffer_bytes report.rlc_report in
    let (a, b) = unit_bounds cell in
    let (c, d) = first_rbs_bounds cell mcs in
    let (r, same, found) =
      rbs_loop_lem (cell.dl_bandwidth + 1) mcs (get_min_rb_unit cell) cell.dl_bandwidth bytes
        (first_rbs cell mcs) a b hb (omega (arith, d)) (omega (arith, c)) (omega arith) in
    let busy : (ltb 0 bytes && ltb bytes (2 ^ 31)) ≡ true = ground arith in
    let fits : r % 2 ^ 16 ≡ r = omega (arith, found.within) in
    let stored = set_nb_rbs_required cell.cell_id r (mark_priority report.rlc_report lc u) in
    let read : stored.nb_rbs_required cell.cell_id ≡ r = ground (arith, fits) in
    (stored, rw (busy, same) refl, rw read found)

-- The loop of assign_rbs_required never runs out of fuel, and gives the UE no group.
pub assign_rbs_required-Returns :
    (u : UeSchedulingInfo) (report : UeStatsReport) (cell : CellConfig) (lc : LcUeConfig)
    → cell.dl_bandwidth < 2 ^ 15
    → (u' : UeSchedulingInfo) × (assign_rbs_required u report cell lc ≡ some u')
      × ((c g : ℕ) → u'.rballoc_sub c g ≡ u.rballoc_sub c g)
unfolding assign_rbs_required
assign_rbs_required-Returns u report cell lc hb =
    let mcs = reported_mcs cell.cell_id report.dl_cqi_report.csi_report in
    let bytes = buffer_bytes report.rlc_report in
    let (a, b) = unit_bounds cell in
    let (c, d) = first_rbs_bounds cell mcs in
    let (r, same, found) =
      rbs_loop_lem (cell.dl_bandwidth + 1) mcs (get_min_rb_unit cell) cell.dl_bandwidth bytes
        (first_rbs cell mcs) a b hb (omega (arith, d)) (omega (arith, c)) (omega arith) in
    let marked = mark_priority report.rlc_report lc u in
    elim (Bool-cases (ltb 0 bytes && ltb bytes (2 ^ 31))) [
      | inl e ↦ (
        set_nb_rbs_required cell.cell_id r marked,
        rw (e, same) refl,
        λ c g. kept c g report.rlc_report,
      )
      | inr e ↦ (marked, rw e refl, λ c g. kept c g report.rlc_report)
    ]
  where
    kept :
        (c g : ℕ) (rs : List RlcBsr) → (mark_priority rs lc u).rballoc_sub c g ≡ u.rballoc_sub c g
    kept c g [] = refl
    kept c g (x ∷ rs) = refl
