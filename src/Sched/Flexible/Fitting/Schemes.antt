-- ===== src/Sched/Flexible/Fitting/Schemes.antt =====
-- The scheme that the last two loops of run_central_scheduler in src/app/flexible_scheduler.cc
-- choose for the bytes of a UE.
use flexran_rtc.Base.{
  ℕ, zero, suc, ◌+◌, ◌-◌, ◌≤◌, ◌<◌, ◌≡◌, refl, inl, inr, ◌⊎◌, arith, ltb, Bool-cases, ltb→lt,
}
use flexran_rtc.Sched.Flexible.Fitting.{tbs, lower_mcs, raise_mcs, fit_mcs}

-- Even the highest scheme carries too little; or the bytes fit, and exactly, or one scheme
-- lower they would not fit, or there is no lower scheme.
pub record Fits (nb_rb need mcs : ℕ) : Type 0 where
  pub bounded : mcs ≤ 28
  pub fits :
      ((mcs ≡ 28) × (tbs mcs nb_rb < need))
      ⊎ ((need ≤ tbs mcs nb_rb)
          × ((tbs mcs nb_rb ≡ need) ⊎ ((mcs ≡ 0) ⊎ (tbs (mcs - 1) nb_rb < need))))

-- The first loop leaves a scheme that is no higher, and that fits exactly, does not fit, or is
-- the lowest.
lower_mcs_lem :
    (nb_rb need mcs : ℕ)
    → (lower_mcs nb_rb need mcs ≤ mcs)
      × ((tbs (lower_mcs nb_rb need mcs) nb_rb ≤ need) ⊎ (lower_mcs nb_rb need mcs ≡ 0))
unfolding lower_mcs
lower_mcs_lem nb_rb need zero = (omega arith, inr refl)
lower_mcs_lem nb_rb need (suc mcs) = elim (Bool-cases (ltb need (tbs (suc mcs) nb_rb))) [
  | inl over ↦
      let (low, p) = lower_mcs_lem nb_rb need mcs in
      (ground (arith, over, low), ground (arith, over, p))
  | inr fit ↦ (ground (arith, fit), inl (ground (arith, fit)))
]

abbrev Start : ℕ → ℕ → ℕ → Type 0
Start nb_rb need mcs =
    (tbs mcs nb_rb < need) ⊎ ((tbs mcs nb_rb ≡ need) ⊎ ((mcs ≡ 0) ⊎ (tbs (mcs - 1) nb_rb < need)))

raise_mcs_lem :
    (nb_rb need left mcs : ℕ)
    → mcs + left ≡ 28
    → Start nb_rb need mcs
    → Fits nb_rb need (raise_mcs nb_rb need left mcs)
unfolding raise_mcs
raise_mcs_lem nb_rb need zero mcs h s = record { bounded = omega arith; fits = ground (arith, s) }
raise_mcs_lem nb_rb need (suc left) mcs h s = elim (Bool-cases (ltb (tbs mcs nb_rb) need)) [
  | inl short ↦
      let same : suc mcs - 1 ≡ mcs = omega arith in
      let lower : tbs (suc mcs - 1) nb_rb < need = rw same (ltb→lt (tbs mcs nb_rb) need short) in
      rw short (raise_mcs_lem nb_rb need left (suc mcs) (omega arith) (inr (inr (inr lower))))
  | inr fit ↦ rw fit (record { bounded = omega arith; fits = ground (arith, s, fit) })
]

-- From a scheme of the table, the two loops end with a scheme of the table. Either it is the
-- highest and even that carries too little, or the bytes fit, and then they fit exactly, or
-- would not fit one scheme lower, or the scheme is the lowest.
pub fit_mcs-Fits : (nb_rb need mcs : ℕ) → mcs ≤ 28 → Fits nb_rb need (fit_mcs nb_rb need mcs)
unfolding fit_mcs
fit_mcs-Fits nb_rb need mcs h =
    let (low, p) = lower_mcs_lem nb_rb need mcs in
    let lowered = lower_mcs nb_rb need mcs in
    raise_mcs_lem nb_rb need (28 - lowered) lowered (ground (arith, low)) (ground (arith, p))
