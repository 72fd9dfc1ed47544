-- ===== src/Sched/Flexible/Round/Sound.antt =====
-- What the loop of run_central_scheduler of src/app/flexible_scheduler.cc over the UEs of a cell
-- relies on and keeps.
use flexran_rtc.Base.{
  ℕ, ◌≤◌, ◌≡◌, refl, ◌∙◌, inl, inr, Bool, true, false, some, List, [], ◌∷◌, ◌++◌, arith, All,
}
use flexran_rtc.Base.Maps.{find, modify, find-replaced}
use flexran_rtc.Messages.{CellConfig, DlData, DlDci}
use flexran_rtc.Rib.Ue.{UeMacRibInfo, harq_scheduled}
use flexran_rtc.Rib.Enb.Known.{KnownUes}
use flexran_rtc.Rib.Enb.{EnbRibInfo, get_ue_mac_info}
use flexran_rtc.Sched.Info.{UeSchedulingInfo}
use flexran_rtc.Sched.Info.Channels.{Channels}
use flexran_rtc.Sched.Helper.Few.{EnbFew, SameBlocks, SameBlocks-Few, modify-EnbFew}
use flexran_rtc.Sched.Preprocessor.Run.Entries.{has_entry, present-modify}
use flexran_rtc.Sched.Flexible.Round.{Round, store_ue}

-- The process of the UE in the cell is taken.
abbrev pub Busy : EnbRibInfo → ℕ → ℕ → ℕ → Type 0
Busy e rnti c h =
    (mac : UeMacRibInfo) × (get_ue_mac_info e rnti ≡ some mac) × (mac.active_harq c h 0 ≡ false)

-- The process that an entry of the message names is taken.
abbrev pub Scheduled : EnbRibInfo → DlData → Type 0
Scheduled e d = (k : DlDci) × (d.dl_dci ≡ some k) × Busy e d.rnti d.serv_cell_index k.harq_process

-- What the loop relies on: at most three symbols for each cell, elements of the cells of the eNodeB
-- that are counted right, a level of at most three, few blocks for each UE, and scheduling
-- information for the UEs that `entered` tells of. It keeps the frame, the subframe, the cells, the
-- configured UEs and that the UEs are known, and ensures that the processes that the message names
-- are taken.
pub record Sound (entered : ℕ → Bool) (start : EnbRibInfo) (cell_of : ℕ → CellConfig) (subframe : ℕ)
    (r : Round) : Type 0 where
  pub slot :
      ((r.enb).current_frame ≡ start.current_frame)
      × ((r.enb).current_subframe ≡ start.current_subframe)
  pub cells : (r.enb).enb_config ≡ start.enb_config
  pub configs : (r.enb).ue_config ≡ start.ue_config
  pub symbols : (c : ℕ) → (r.sched).num_pdcch_symbols c ≤ 3
  pub channels : Channels cell_of start.enb_config subframe r.sched
  pub level : (r.locals).aggregation ≤ 3
  pub entries : (rnti : ℕ) → entered rnti ≡ true → has_entry rnti r.sched ≡ true
  pub few : EnbFew r.sched
  pub busy : All (Scheduled r.enb) r.dl_ue_data
  pub ues : KnownUes r.enb

pub all_snoc :
    (P : DlData → Type 0) (l : List DlData) (d : DlData) → All P l → P d → All P (l ++ d ∷ [])
all_snoc P [] d h p = (p, tt)
all_snoc P (x ∷ l) d h p = (h.0, all_snoc P l d h.1 p)

all_later :
    (P Q : DlData → Type 0) (l : List DlData) → ((d : DlData) → P d → Q d) → All P l → All Q l
all_later P Q [] k h = tt
all_later P Q (x ∷ l) k h = (k x h.0, all_later P Q l k h.1)

-- No process that is taken becomes free.
abbrev NoneFreed : UeMacRibInfo → UeMacRibInfo → Type 0
NoneFreed mac mac' = (c h : ℕ) → mac.active_harq c h 0 ≡ false → mac'.active_harq c h 0 ≡ false

pub harq_scheduled-NoneFreed :
    (mac : UeMacRibInfo) (c h : ℕ) → NoneFreed mac (harq_scheduled mac c h)
unfolding harq_scheduled
harq_scheduled-NoneFreed mac c h c' h' b = ground (arith, b)

pub harq_scheduled-taken :
    (mac : UeMacRibInfo) (c h : ℕ) → (harq_scheduled mac c h).active_harq c h 0 ≡ false
unfolding harq_scheduled
harq_scheduled-taken mac c h = ground arith

pub store_ue-found :
    (rnti : ℕ) (mac mac' : UeMacRibInfo) (u' : UeSchedulingInfo) (r : Round)
    → get_ue_mac_info r.enb rnti ≡ some mac
    → get_ue_mac_info (store_ue rnti mac' u' r).enb rnti ≡ some mac'
unfolding store_ue get_ue_mac_info
store_ue-found rnti mac mac' u' r em =
    elim (find-replaced rnti rnti mac mac' mac (r.enb).ue_mac_info em em) [
      | inl (_, _, now) ↦ now
      | inr (other, _) ↦ absurd (other refl)
    ]

module _ (entered : ℕ → Bool) (start : EnbRibInfo) (cell_of : ℕ → CellConfig) (subframe : ℕ) where
  Busy-store :
      (rnti : ℕ) (mac mac' : UeMacRibInfo) (u : UeSchedulingInfo) (r : Round) (a c h : ℕ)
      → get_ue_mac_info r.enb rnti ≡ some mac
      → NoneFreed mac mac'
      → Busy r.enb a c h
      → Busy (store_ue rnti mac' u r).enb a c h
  unfolding store_ue get_ue_mac_info
  Busy-store rnti mac mac' u r a c h em kept (old, eo, b) =
      elim (find-replaced rnti a mac mac' old (r.enb).ue_mac_info em eo) [
        | inl (same, was, now) ↦ (mac', now, kept c h (rw (← was) b))
        | inr (other, now) ↦ (old, now, b)
      ]

  KnownUes-store :
      (rnti : ℕ) (mac mac' : UeMacRibInfo) (u' : UeSchedulingInfo) (r : Round)
      → get_ue_mac_info r.enb rnti ≡ some mac
      → KnownUes r.enb
      → KnownUes (store_ue rnti mac' u' r).enb
  unfolding store_ue get_ue_mac_info
  KnownUes-store rnti mac mac' u' r em k = record {
    distinct = k.distinct;
    known = λ a h. still a (k.known a h);
  }
    where
      still :
          (a : ℕ)
          → (v : UeMacRibInfo) × (find a (r.enb).ue_mac_info ≡ some v)
          → (v : UeMacRibInfo) × (find a (modify rnti (λ _. mac') (r.enb).ue_mac_info) ≡ some v)
      still a (v, ev) = elim (find-replaced rnti a mac mac' v (r.enb).ue_mac_info em ev) [
        | inl (_, _, now) ↦ (mac', now)
        | inr (_, now) ↦ (v, now)
      ]

  -- A change of the objects of a UE that frees no process and keeps the blocks given.
  pub Sound-store :
      (rnti : ℕ) (mac mac' : UeMacRibInfo) (u u' : UeSchedulingInfo) (r : Round)
      → get_ue_mac_info r.enb rnti ≡ some mac
      → NoneFreed mac mac'
      → find rnti (r.sched).scheduling_info ≡ some u
      → SameBlocks u u'
      → Sound entered start cell_of subframe r
      → Sound entered start cell_of subframe (store_ue rnti mac' u' r)
  unfolding store_ue
  Sound-store rnti mac mac' u u' r em kept eu same s = record {
    ues = KnownUes-store rnti mac mac' u' r em s.ues;
    slot = s.slot;
    cells = s.cells;
    configs = s.configs;
    symbols = s.symbols;
    channels = s.channels;
    level = s.level;
    entries = λ a h. present-modify rnti a (λ _. u') (r.sched).scheduling_info ∙ s.entries a h;
    few = modify-EnbFew rnti u u' (r.sched).scheduling_info eu (SameBlocks-Few u u' same) s.few;
    busy =
        all_later (Scheduled r.enb) (Scheduled (store_ue rnti mac' u' r).enb) r.dl_ue_data
          (λ d (k, ek, b). (k, ek, Busy-store rnti mac mac' u' r _ _ _ em kept b)) s.busy;
  }
