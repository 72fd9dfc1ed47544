-- ===== src/Sched/Preprocessor/Sorting.antt =====
-- The order of the UEs that sort_UEs of src/app/remote_scheduler_helper.cc gives: the indices
-- are those of the UEs, where std::sort permutes the elements.
use mathlib.Core.Logic.Or
use mathlib.Core.List.{Mem, Perm, mem-cons, mem-cons_self, mem-cons_of_mem, not-mem-nil}
use mathlib.Core.List.Perm
use native.Mathlib.Bridge.{le_prop}
use flexran_rtc.Base.{
  ℕ, leb, le→leb, zero, suc, ◌+◌, ◌≤◌, ◌<◌, ◌≡◌, refl, inl, inr, ◌⊎◌, true, false, some, List, [],
  ◌∷◌, map, arith, if◌then◌else◌, Bool-cases, length, get_elem?, All,
}
use flexran_rtc.Base.Faults.{Returns}
use flexran_rtc.Messages.{CellConfig, UeConfig}
use flexran_rtc.Rib.Ue.{UeMacRibInfo, has_available_harq}
use flexran_rtc.Rib.Enb.{EnbRibInfo, get_ue_mac_info}
use flexran_rtc.Sched.Helper.{UeStats}
use flexran_rtc.Sched.Preprocessor.{
  insertion_limit, in_cell, stats_from, no_stats, ue_stats, ue_list, sort_ues, pick,
}

-- By insertion, std::sort of libstdc++ permutes whatever the comparison says.
abbrev pub Permutes : (List UeStats → List UeStats) → Type 0
Permutes sort = (l : List UeStats) → length l ≤ insertion_limit → Perm (sort l) l

-- A UE of the cell has MAC information.
abbrev pub KnownMac : CellConfig → EnbRibInfo → UeConfig → Type 0
KnownMac cell e c =
    (in_cell cell c ≡ false) ⊎ ((mac : UeMacRibInfo) × (get_ue_mac_info e c.rnti ≡ some mac))

pub mac_of :
    (cell : CellConfig) (e : EnbRibInfo) (c : UeConfig)
    → in_cell cell c ≡ true
    → KnownMac cell e c
    → (mac : UeMacRibInfo) × (get_ue_mac_info e c.rnti ≡ some mac)
mac_of cell e c inside k = elim k [ inl out ↦ absurd (ground (arith, inside, out)) | inr p ↦ p ]

-- Ids below a bound.
abbrev IdBelow : ℕ → UeStats → Type 0
IdBelow n x = x.ue_id < n

below_of_mem : {x : UeStats} {n : ℕ} (l : List UeStats) → All (IdBelow n) l → Mem x l → x.ue_id < n
below_of_mem [] h m = absurd (not-mem-nil m)
below_of_mem (y ∷ l) h m = Or.elim le_prop (mem-cons.0 m) (λ e. rw e h.0) (below_of_mem l h.1)

all_of_mem :
    (n : ℕ) (l : List UeStats) → ((x : UeStats) → Mem x l → x.ue_id < n) → All (IdBelow n) l
all_of_mem n [] h = tt
all_of_mem n (x ∷ l) h = (h x mem-cons_self, all_of_mem n l (λ y m. h y (mem-cons_of_mem x m)))

stats_from-ue_id :
    (cell : CellConfig) (i : ℕ) (mac : UeMacRibInfo) → (stats_from cell i mac).ue_id ≡ i
unfolding stats_from
stats_from-ue_id cell i mac = ground arith

ue_stats-Returns :
    (cell : CellConfig) (e : EnbRibInfo) (i : ℕ) (c : UeConfig)
    → KnownMac cell e c
    → Returns (ue_stats cell e i c) (λ x. x.ue_id ≡ i)
unfolding ue_stats
ue_stats-Returns cell e i c k = elim (Bool-cases (in_cell cell c)) [
  | inr out ↦ (no_stats i, rw out refl, refl)
  | inl inside ↦
      let (mac, em) = mac_of cell e c inside k in
      (
        (if has_available_harq mac cell.cell_id then stats_from cell i mac else no_stats i),
        rw (inside, em) refl,
        ground (arith, stats_from-ue_id cell i mac),
      )
]

ue_list-Returns :
    (cell : CellConfig) (e : EnbRibInfo) (i n : ℕ) (cs : List UeConfig)
    → i + length cs ≤ n
    → All (KnownMac cell e) cs
    → Returns (ue_list cell e i cs) (λ l. All (IdBelow n) l × (length l ≡ length cs))
unfolding ue_list
ue_list-Returns cell e i n [] h k = ([], refl, (tt, refl))
ue_list-Returns cell e i n (c ∷ cs) h k =
    let (x, ex, p) = ue_stats-Returns cell e i c k.0 in
    let (xs, exs, (ps, same)) = ue_list-Returns cell e (suc i) n cs (omega arith) k.1 in
    (x ∷ xs, rw (ex, exs) refl, ((omega (arith, p), ps), omega (arith, same)))

pub sort_ues-Returns :
    (sort : List UeStats → List UeStats)
    → Permutes sort
    → (cell : CellConfig) (ues : List UeConfig) (e : EnbRibInfo) → length ues ≤ insertion_limit
    → All (KnownMac cell e) ues
    → Returns (sort_ues sort cell ues e) (All (λ i. i < length ues))
unfolding sort_ues
sort_ues-Returns sort perm cell ues e few k =
    let (l, el, (p, same)) = ue_list-Returns cell e 0 (length ues) ues (omega arith) k in
    let short : length l ≤ insertion_limit = rw same few in
    let test : leb (length l) insertion_limit ≡ true = le→leb (length l) insertion_limit short in
    (
      map (λ (x : UeStats). x.ue_id) (sort l),
      rw (el, test) refl,
      ids (sort l) (
          all_of_mem (length ues) (sort l)
            (λ x m. below_of_mem l p ((Perm.mem_iff (perm l short)).0 m))),
    )
  where
    ids :
        (l : List UeStats)
        → All (IdBelow (length ues)) l
        → All (λ i. i < length ues) (map (λ (x : UeStats). x.ue_id) l)
    ids [] h = tt
    ids (x ∷ l) h = (h.0, ids l h.1)

get_elem?-All {κ} :
    (Q : UeConfig → Type κ) (cs : List UeConfig) (i : ℕ)
    → i < length cs
    → All Q cs
    → Returns (get_elem? cs i) Q
get_elem?-All Q [] i h q = absurd (omega arith)
get_elem?-All Q (c ∷ cs) zero h q = (c, refl, q.0)
get_elem?-All Q (c ∷ cs) (suc i) h q = get_elem?-All Q cs i (omega arith) q.1

pub pick-Returns {κ} :
    (Q : UeConfig → Type κ) (ues : List UeConfig) (ids : List ℕ)
    → All Q ues
    → All (λ i. i < length ues) ids
    → Returns (pick ues ids) (All Q)
unfolding pick
pick-Returns Q ues [] q h = ([], refl, tt)
pick-Returns Q ues (i ∷ ids) q h =
    let (c, ec, qc) = get_elem?-All Q ues i h.0 q in
    let (cs, ecs, qcs) = pick-Returns Q ues ids q h.1 in (c ∷ cs, rw (ec, ecs) refl, (qc, qcs))
