-- ===== src/Messages.antt =====
-- src/MESSAGES/V2: the protocol messages, with the fields that the controller reads or sets.
-- An optional field that is only read stands for its value, the default where it is not set;
-- one whose presence the code tests is an Option.
use Prim.Native.String.{String}
use flexran_rtc.Base.{ℕ, List, Option}
use flexran_rtc.Base.Int.{ℤ}

pub data Direction : Type 0 where
  not_set initiating_message successful_outcome unsuccessful_outcome : Direction

pub data MessageType : Type 0 where
  hello_type echo_request_type echo_reply_type stats_request_type stats_reply_type : MessageType
  sf_trigger_type ul_sr_info_type enb_config_request_type enb_config_reply_type : MessageType
  ue_config_request_type ue_config_reply_type lc_config_request_type : MessageType
  lc_config_reply_type dl_mac_config_type ue_state_change_type : MessageType
  delegate_control_type reconfigure_agent_type : MessageType

-- A header that is built leaves the version unset in some messages.
pub record Header : Type 0 where
  pub type : MessageType
  pub version : Option ℕ
  pub xid : ℕ

pub data CyclicPrefix : Type 0 where
  normal_prefix extended_prefix : CyclicPrefix

pub data PhichResource : Type 0 where
  one_sixth half one two : PhichResource

pub data DuplexMode : Type 0 where
  tdd fdd : DuplexMode

pub record CellConfig : Type 0 where
  pub cell_id : ℕ
  pub dl_bandwidth : ℕ
  pub phich_resource : PhichResource
  pub dl_cyclic_prefix_length : CyclicPrefix
  pub duplex_mode : DuplexMode

pub record UeConfig : Type 0 where
  pub rnti : ℕ
  pub pcell_carrier_index : ℕ
  pub transmission_mode : ℕ

-- The logical channels by their numbers.
pub record LcUeConfig : Type 0 where
  pub rnti : ℕ
  pub lc_config : List ℕ

pub record RlcBsr : Type 0 where
  pub lc_id : ℕ
  pub tx_queue_size : Option ℕ
  pub tx_queue_hol_delay : Option ℕ

-- A CSI report, with the wideband CQI of its p10csi.
pub record DlCsi : Type 0 where
  pub serv_cell_index : ℕ
  pub wb_cqi : ℕ

pub record DlCqiReport : Type 0 where
  pub sfn_sn : ℕ
  pub csi_report : List DlCsi

pub record PagingInfo : Type 0 where
  pub paging_index : ℕ
  pub paging_message_size : ℕ
  pub paging_subframe : ℕ
  pub carrier_index : ℕ

pub record PucchDbm : Type 0 where
  pub p0_pucch_dbm : Option ℤ
  pub serv_cell_index : ℕ
  pub p0_pucch_updated : ℕ

pub record UlCqiReport : Type 0 where
  pub sfn_sn : ℕ
  pub pucch_dbm : List PucchDbm

pub record UeStatsReport : Type 0 where
  pub rnti : ℕ
  pub flags : ℕ
  pub bsr : List ℕ
  pub phr : ℕ
  pub rlc_report : List RlcBsr
  pub pending_mac_ces : ℕ
  pub dl_cqi_report : DlCqiReport
  pub pbr : List PagingInfo
  pub ul_cqi_report : UlCqiReport

pub record NoiseInterReport : Type 0 where
  pub sfn_sf : ℕ
  pub rip : ℕ
  pub tnp : ℕ
  pub p0_nominal_pucch : ℤ

pub record CellStatsReport : Type 0 where
  pub carrier_index : ℕ
  pub flags : ℕ
  pub noise_inter_report : NoiseInterReport

pub record DlInfo : Type 0 where
  pub rnti : ℕ
  pub harq_process_id : ℕ
  pub harq_status : List ℕ
  pub serv_cell_index : ℕ

pub record UlInfo : Type 0 where
  pub rnti : ℕ
  pub ul_reception : List ℕ
  pub reception_status : ℕ
  pub tpc : ℕ
  pub serv_cell_index : ℕ

pub record SfTrigger : Type 0 where
  pub sfn_sf : ℕ
  pub dl_info : List DlInfo
  pub ul_info : List UlInfo

-- The values of `flex_ue_state_change.type`; any other number is `other_change`.
pub data UeChange : Type 0 where
  updated activated deactivated moved other_change : UeChange

pub record UeStateChange : Type 0 where
  pub type : UeChange
  pub config : UeConfig

pub record StatsReply : Type 0 where
  pub ue_report : List UeStatsReport
  pub cell_report : List CellStatsReport

pub record CompleteStatsRequest : Type 0 where
  pub report_frequency : ℕ
  pub sf : ℕ
  pub cell_report_flags : ℕ
  pub ue_report_flags : ℕ

pub record RlcPduTb : Type 0 where
  pub logical_channel_id : ℕ
  pub size : ℕ

pub record DlDci : Type 0 where
  pub rnti : ℕ
  pub res_alloc : ℕ
  pub rb_bitmap : ℕ
  pub rb_shift : ℕ
  pub tbs_size : List ℕ
  pub mcs : List ℕ
  pub ndi : List ℕ
  pub rv : List ℕ
  pub aggr_level : ℕ
  pub format : ℕ
  pub tpc : ℕ
  pub harq_process : ℕ
  pub vrb_format : ℕ

-- The RLC PDUs are the two transport blocks of each logical channel.
pub record DlData : Type 0 where
  pub rnti : ℕ
  pub dl_dci : Option DlDci
  pub ce_bitmap : List ℕ
  pub rlc_pdu : List (List RlcPduTb)
  pub serv_cell_index : ℕ

pub record ControlDelegation : Type 0 where
  pub delegation_type : ℕ
  pub payload : String
  pub name : String

pub data Body : Type 0 where
  hello : Header → Body
  echo_request : Header → Body
  echo_reply : Header → Body
  stats_request : Header → ℕ → CompleteStatsRequest → Body
  stats_reply : Header → StatsReply → Body
  sf_trigger : Header → SfTrigger → Body
  ul_sr_info : Header → Body
  enb_config_request : Header → Body
  enb_config_reply : Header → List CellConfig → Body
  ue_config_request : Header → Body
  ue_config_reply : Header → List UeConfig → Body
  lc_config_request : Header → Body
  lc_config_reply : Header → List LcUeConfig → Body
  dl_mac_config : Header → ℕ → List DlData → Body
  ue_state_change : Header → UeStateChange → Body
  control_delegation : Header → ControlDelegation → Body
  agent_reconfiguration : Header → String → Body

-- The oneof may be unset.
pub record FlexranMessage : Type 0 where
  pub msg_dir : Direction
  pub msg : Option Body
