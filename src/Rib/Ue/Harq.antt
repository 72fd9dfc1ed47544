-- ===== src/Rib/Ue/Harq.antt =====
-- The HARQ processes of src/rib/ue_mac_rib_info.h: which is used next, and when it is free.
use flexran_rtc.Base.{
  length, ==_iff, ◌∙◌, ℕ, zero, suc, ◌+◌, ◌≤◌, ◌<◌, ◌≡◌, ◌≢◌, inl, inr, refl, Bool, true, false,
  Option, none, some, List, [], ◌∷◌, arith, ◌==◌, if◌then◌else◌, Bool-cases, dec_lt, ◌&&◌,
}
use flexran_rtc.Messages.{DlInfo}
use flexran_rtc.Rib.Ue.{
  UeMacRibInfo, max_num_harq, max_num_cc, u8, record_harq, update_dl_sf_info, flat, write_flat,
  first_active, any_active, get_next_available_harq, has_available_harq, harq_scheduled,
}

-- The first process in the range that is active, and why no other was taken.
abbrev pub Found : (ℕ → Bool) → ℕ → ℕ → Option ℕ → Type 0
Found active i left none = (j : ℕ) → i ≤ j → j < i + left → active j ≡ false
Found active i left (some k) =
    (i ≤ k) × (k < i + left) × (active k ≡ true) × ((j : ℕ) → i ≤ j → j < k → active j ≡ false)

Found-cons :
    (active : ℕ → Bool) (i left : ℕ) (r : Option ℕ)
    → active i ≡ false
    → Found active (i + 1) left r
    → Found active i (suc left) r
Found-cons active i left none e f = λ j a b. elim (dec_lt i j) [
  | yes p ↦ f j (omega arith) (omega arith)
  | no p ↦ let same : j ≡ i = omega arith in rw same e
]
Found-cons active i left (some k) e f = (
  omega (arith, f.0),
  omega (arith, f.1),
  f.2,
  λ j a b. elim (dec_lt i j) [
    | yes p ↦ f.3 j (omega arith) b
    | no p ↦ let same : j ≡ i = omega arith in rw same e
  ],
)

first_active-Found :
    (active : ℕ → Bool) (i left : ℕ) → Found active i left (first_active active i left)
unfolding first_active
first_active-Found active i zero = λ j a b. absurd (omega arith)
first_active-Found active i (suc left) = elim (Bool-cases (active i)) [
  | inl e ↦ rw e (omega arith, omega arith, e, λ j a b. absurd (omega arith))
  | inr e ↦ rw e (Found-cons active i left _ e (first_active-Found active (i + 1) left))
]

any_active_lem :
    (active : ℕ → Bool) (i left : ℕ)
    → any_active active i left
      ≡ (elim (first_active active i left) [ none ↦ false | some k ↦ true ])
unfolding any_active first_active
any_active_lem active i zero = refl
any_active_lem active i (suc left) = ground (arith, any_active_lem active (i + 1) left)

-- The process that is taken next is the lowest of the eight that are free, and -1 is
-- returned exactly when none is free, which is when `has_available_harq` says so.
pub get_next_available_harq_lem :
    (u : UeMacRibInfo) (cell_id : ℕ)
    → Found (λ i. u.active_harq cell_id i 0) 0 max_num_harq (get_next_available_harq u cell_id)
      × (has_available_harq u cell_id
          ≡ (elim (get_next_available_harq u cell_id) [ none ↦ false | some k ↦ true ]))
unfolding get_next_available_harq has_available_harq
get_next_available_harq_lem u cell_id = (
  first_active-Found (λ i. u.active_harq cell_id i 0) 0 max_num_harq,
  any_active_lem (λ i. u.active_harq cell_id i 0) 0 max_num_harq,
)

-- A process is free, as `get_next_available_harq` reads it.
abbrev pub IsFree : UeMacRibInfo → ℕ → ℕ → Type 0
IsFree u cell_id harq_pid = u.active_harq cell_id harq_pid 0 ≡ true

-- No status after the first of two blocks is about the first block of a process.
record_harq_later :
    (cc harq : ℕ) (ss : List ℕ) (u : UeMacRibInfo) (c h : ℕ)
    → length ss ≤ 1
    → ((record_harq cc harq 1 ss u).active_harq c h 0 ≡ u.active_harq c h 0)
      × ((record_harq cc harq 1 ss u).harq_stats c h 0 ≡ u.harq_stats c h 0)
unfolding record_harq
record_harq_later cc harq [] u c h b = (refl, refl)
record_harq_later cc harq (x ∷ []) u c h b = (ground arith, ground arith)
record_harq_later cc harq (x ∷ y ∷ ss) u c h b = absurd (omega arith)

-- For process numbers below eight the first blocks of different processes are different elements.
flat_iff :
    (c h c' h' : ℕ)
    → h < max_num_harq
    → h' < max_num_harq
    → (flat c h 0 == flat c' h' 0) ≡ (c == c' && h == h')
flat_iff c h c' h' b b' =
    ground (arith, ==_iff (flat c h 0) (flat c' h' 0), ==_iff c c', ==_iff h h')

-- A report with one status or two for a process below eight of a cell below two frees the process
-- and stores the status of its first block; the free flags and the statuses of all other processes
-- below eight, and of all other cells, stay.
pub update_dl_sf_info_lem :
    (u : UeMacRibInfo) (dl : DlInfo) (status : ℕ) (rest : List ℕ) (c h : ℕ)
    → dl.harq_status ≡ status ∷ rest
    → length rest ≤ 1
    → u8 dl.serv_cell_index < max_num_cc
    → u8 dl.harq_process_id < max_num_harq
    → h < max_num_harq
    → let u' = update_dl_sf_info u dl in
      let here = u8 dl.serv_cell_index == c && u8 dl.harq_process_id == h in
      (u'.active_harq c h 0 ≡ (if here then true else u.active_harq c h 0))
      × (u'.harq_stats c h 0 ≡ (if here then u8 status else u.harq_stats c h 0))
unfolding update_dl_sf_info
update_dl_sf_info_lem u dl status rest c h e two known b b' =
    let cc = u8 dl.serv_cell_index in
    let harq = u8 dl.harq_process_id in
    let first : UeMacRibInfo = record u {
      harq_stats = write_flat u.harq_stats cc harq 0 (u8 status);
      active_harq = write_flat u.active_harq cc harq 0 true;
    } in
    let (later_active, later_stats) = record_harq_later cc harq rest first c h two in
    let same = flat_iff cc harq c h b b' in
    (
      rw (e, record_harq) (later_active ∙ rw same refl),
      rw (e, record_harq) (later_stats ∙ rw same refl),
    )

-- A process that was scheduled is not what the next call hands out, and the processes of
-- other numbers and cells are as free as before.
pub harq_scheduled_lem :
    (u : UeMacRibInfo) (c p : ℕ)
    → (get_next_available_harq (harq_scheduled u c p) c ≢ some p)
      × ((c' p' : ℕ)
          → (harq_scheduled u c p).active_harq c' p' 0
            ≡ (if c == c' && p == p' then false else u.active_harq c' p' 0))
unfolding harq_scheduled
harq_scheduled_lem u c p = (
  λ q.
      let found = (get_next_available_harq_lem (harq_scheduled u c p) c).0 in
      let free : IsFree (harq_scheduled u c p) c p = (rw q at found).2 in ground arith,
  λ c' p'. ground arith,
)
