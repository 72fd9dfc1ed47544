-- ===== src/Rib/Ue.antt =====
-- src/rib/ue_mac_rib_info.h and .cc: what is known of the MAC layer of one UE. The arrays are
-- functions of their indices; an index past the end of an array is undefined behaviour in the
-- source, and only writes cells past the end here.
pub mod Harq
use Prim.Native.Nat.{bit_and}
use flexran_rtc.Base.{
  ◌*◌, ℕ, zero, suc, ◌+◌, ◌%◌, ◌^◌, Bool, true, false, Option, none, some, List, [], ◌∷◌, ◌++◌,
  ◌&&◌, not, ◌==◌, if◌then◌else◌,
}
use flexran_rtc.Base.Int.{ℤ}
use flexran_rtc.Messages.{DlCqiReport, UlCqiReport, UeStatsReport, DlInfo, UlInfo}

abbrev pub max_num_harq : ℕ
max_num_harq = 8

abbrev pub max_num_tb : ℕ
max_num_tb = 2

abbrev pub max_num_cc : ℕ
max_num_cc = 2

abbrev pub Array2 : Type 0 → Type 0
Array2 A = ℕ → ℕ → A

abbrev pub Array3 : Type 0 → Type 0
Array3 A = ℕ → ℕ → ℕ → A

abbrev pub write1 {ℓ} : {A : Type ℓ} → (ℕ → A) → ℕ → A → ℕ → A
write1 t i v i' = if i == i' then v else t i'

abbrev pub write2 {ℓ} : {A : Type ℓ} → (ℕ → ℕ → A) → ℕ → ℕ → A → ℕ → ℕ → A
write2 t i j v i' j' = if i == i' && j == j' then v else t i' j'

abbrev pub write3 {ℓ} : {A : Type ℓ} → (ℕ → ℕ → ℕ → A) → ℕ → ℕ → ℕ → A → ℕ → ℕ → ℕ → A
write3 t i j k v i' j' k' = if i == i' && (j == j' && k == k') then v else t i' j' k'

pub record UeMacRibInfo : Type 0 where
  pub rnti : ℕ
  pub mac_stats_report : UeStatsReport
  pub harq_stats : Array3 ℕ
  pub active_harq : Array3 Bool
  pub uplink_reception_stats : ℕ → ℕ
  pub ul_reception_data : Array2 ℕ
  pub tpc : ℕ

abbrev pub empty_report : UeStatsReport
empty_report = record {
  rnti = 0;
  flags = 0;
  bsr = [];
  phr = 0;
  rlc_report = [];
  pending_mac_ces = 0;
  dl_cqi_report = record { sfn_sn = 0; csi_report = [] };
  pbr = [];
  ul_cqi_report = record { sfn_sn = 0; pucch_dbm = [] };
}

-- The constructor: every HARQ process is available, and was acknowledged (FLHS_ACK is 0).
-- `tpc_` is not initialised; zero stands for it.
unfoldable pub new_ue : ℕ → UeMacRibInfo
new_ue rnti = record {
  rnti = rnti;
  mac_stats_report = empty_report;
  harq_stats = λ i j k. 0;
  active_harq = λ i j k. true;
  uplink_reception_stats = λ i. 0;
  ul_reception_data = λ i j. 0;
  tpc = 0;
}

abbrev pub u8 : ℕ → ℕ
u8 x = x % 2 ^ 8

-- Nothing checks the indices of a report: the three of them count as one through the array, so that
-- a process or a block too many stands for an element of the next process or cell. Behind the end
-- of the whole array the source has undefined behaviour.
abbrev pub flat : ℕ → ℕ → ℕ → ℕ
flat cc harq i = (cc * max_num_harq + harq) * max_num_tb + i

abbrev pub write_flat {ℓ} : {A : Type ℓ} → (ℕ → ℕ → ℕ → A) → ℕ → ℕ → ℕ → A → ℕ → ℕ → ℕ → A
write_flat t i j k v i' j' k' = if flat i j k == flat i' j' k' then v else t i' j' k'

-- The loop over the status of each transport block, from block `i` on.
record_harq : ℕ → ℕ → ℕ → List ℕ → UeMacRibInfo → UeMacRibInfo
record_harq cc harq i [] u = u
record_harq cc harq i (status ∷ rest) u = record_harq cc harq (suc i) rest (record u {
  harq_stats = write_flat u.harq_stats cc harq i (u8 status);
  active_harq = write_flat u.active_harq cc harq i true;
})

pub update_dl_sf_info : UeMacRibInfo → DlInfo → UeMacRibInfo
unfolding record_harq
update_dl_sf_info u dl =
    record_harq (u8 dl.serv_cell_index) (u8 dl.harq_process_id) 0 dl.harq_status u

record_reception : ℕ → ℕ → List ℕ → UeMacRibInfo → UeMacRibInfo
record_reception cc i [] u = u
record_reception cc i (x ∷ rest) u =
    record_reception cc (suc i) rest
      (record u { ul_reception_data = write2 u.ul_reception_data cc i (u8 x) })

pub update_ul_sf_info : UeMacRibInfo → UlInfo → UeMacRibInfo
unfolding record_reception
update_ul_sf_info u ul =
    let cc = u8 ul.serv_cell_index in
    record_reception cc 0 ul.ul_reception (record u {
      tpc = u8 ul.tpc;
      uplink_reception_stats = write1 u.uplink_reception_stats cc (u8 ul.reception_status);
    })

-- `protocol::FLUST_... & flags`
abbrev pub has_flag : ℕ → ℕ → Bool
has_flag flag flags = not (bit_and flag flags == 0)

pub update_mac_stats_report : UeMacRibInfo → UeStatsReport → UeMacRibInfo
update_mac_stats_report u new =
    let old = u.mac_stats_report in
    let flags = new.flags in
    record u {
      mac_stats_report = record old {
        bsr = if has_flag 1 flags then new.bsr else old.bsr;
        phr = if has_flag 2 flags then new.phr else old.phr;
        rlc_report = if has_flag 4 flags then new.rlc_report else old.rlc_report;
        pending_mac_ces = if has_flag 8 flags then new.pending_mac_ces else old.pending_mac_ces;
        dl_cqi_report = if has_flag 16 flags then new.dl_cqi_report else old.dl_cqi_report;
        pbr = if has_flag 32 flags then new.pbr else old.pbr;
        ul_cqi_report = if has_flag 64 flags then new.ul_cqi_report else old.ul_cqi_report;
      };
    }

unfoldable pub get_harq_stats : UeMacRibInfo → ℕ → ℕ → ℕ
get_harq_stats u cell_id harq_pid = u.harq_stats cell_id harq_pid 0

-- The search of both loops from process `i` on, with the number of processes left.
unfoldable pub first_active : (ℕ → Bool) → ℕ → ℕ → Option ℕ
first_active active i zero = none
first_active active i (suc left) =
    let rest = first_active active (i + 1) left in if active i then some i else rest

-- `none` stands for -1.
unfoldable pub get_next_available_harq : UeMacRibInfo → ℕ → Option ℕ
unfolding first_active
get_next_available_harq u cell_id = first_active (λ i. u.active_harq cell_id i 0) 0 max_num_harq

-- The same walk, in the loop of `has_available_harq`.
unfoldable pub any_active : (ℕ → Bool) → ℕ → ℕ → Bool
any_active active i zero = false
any_active active i (suc left) =
    let rest = any_active active (i + 1) left in if active i then true else rest

unfoldable pub has_available_harq : UeMacRibInfo → ℕ → Bool
unfolding any_active
has_available_harq u cell_id = any_active (λ i. u.active_harq cell_id i 0) 0 max_num_harq

unfoldable pub harq_scheduled : UeMacRibInfo → ℕ → ℕ → UeMacRibInfo
harq_scheduled u cell_id harq_pid = record u {
  active_harq = write3 (write3 u.active_harq cell_id harq_pid 0 false) cell_id harq_pid 1 false;
}
