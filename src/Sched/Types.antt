-- ===== src/Sched/Types.antt =====
-- The data of the scheduler: src/vivm/sched/sched_internal.h, sched_api.h, sched_req_common.h,
-- sched_api_export.h and sched_agent_export.h. A pointer is a number, NULL an `Option`; a C string
-- is its bytes; mutexes and condition variables are in the held-lock list of `World`.
use flex_gas.Prelude.{ℕ, Bool, Option, List, Bytes}
use flex_gas.Container.Map.{Map}

abbrev pub Ptr : Type 0
Ptr = ℕ

pub data DeviceType : Type 0 where
  ivm_cpu ivm_gpu ivm_any : DeviceType

pub data Link : Type 0 where
  sched_link_rdma sched_link_inet : Link

pub data CopyType : Type 0 where
  mem_master mem_mirror mem_record : CopyType

pub data ReqType : Type 0 where
  local remote : ReqType

pub data ReqStatus : Type 0 where
  success initial in_progress failed : ReqStatus

pub data AckType : Type 0 where
  sched_event_wait_none sched_event_busy_wait sched_event_sleep_wait : AckType

pub record CompConfig : Type 0 where
  pub max_pes_num : ℕ
  pub type : DeviceType
  pub min_res : ℕ
  pub req_res : ℕ
  pub max_res : ℕ

pub record Comp : Type 0 where
  pub comp_id : Bytes
  pub ptr : ℕ
  pub is_configured : Bool
  pub config : CompConfig

-- A memory region: its address, its length and the key of its registration.
pub record Mr : Type 0 where
  pub addr : ℕ
  pub len : ℕ
  pub key : ℕ

pub record DeviceMr : Type 0 where
  pub device : Option Ptr
  pub mr : Option Mr

pub record MemEt : Type 0 where
  pub iden : Bytes
  pub copy_type : CopyType
  pub local_ptr : Option ℕ
  pub mr : Option Mr
  pub jid : ℕ
  pub gid : ℕ
  pub master_did : ℕ
  pub job : Ptr
  pub group : Option Ptr
  pub master_device : Option Ptr
  pub remote_device : List DeviceMr

pub record Pe : Type 0 where
  pub pid : ℕ
  pub uid : ℕ
  pub jid : ℕ
  pub gid : ℕ
  pub hid : ℕ
  pub did : ℕ
  pub peid : ℕ
  pub comp : Ptr
  pub device : Ptr
  pub group : Ptr
  pub job : Ptr
  pub is_killed : Bool

-- A process that an agent has started and that has not registered yet; the thread that waits for
-- it, which nothing reads, is left out.
pub record ProspPe : Type 0 where
  pub job : Ptr
  pub group : Ptr
  pub device : Ptr
  pub pid : ℕ
  pub uid : ℕ
  pub jid : ℕ
  pub gid : ℕ
  pub hid : ℕ
  pub did : ℕ
  pub peid : ℕ
  pub rec_level : ℕ
  pub comp : Ptr
  pub comp_desc_exec : ℕ
  pub notif : Ptr
  pub notif_idx : ℕ

pub record PhyInfo : Type 0 where
  pub type : DeviceType
  pub host : Bytes
  pub service : Bytes
  pub link : Link
  pub phy_dev_id : ℕ

pub record Device : Type 0 where
  pub jid : ℕ
  pub gid : ℕ
  pub did : ℕ
  pub pid : ℕ
  pub uid : ℕ
  pub request_ch : ℕ
  pub phy : PhyInfo
  pub pe_tab : Map ℕ Ptr
  pub group : Ptr
  pub job : Ptr

pub record Group : Type 0 where
  pub jid : ℕ
  pub gid : ℕ
  pub uid : ℕ
  pub pid : ℕ
  pub did_cnt : ℕ
  pub peid_cnt : ℕ
  pub rec_level : ℕ
  pub handle : Option Ptr
  pub comp_tab : Map Bytes Ptr
  pub device_tab : Map ℕ Ptr
  pub pe_tab : Map ℕ Ptr
  pub killed_pe_tab : Map ℕ Ptr
  pub job : Ptr
  pub mem_tab : Map Bytes Ptr

pub record Job : Type 0 where
  pub jid : ℕ
  pub uid : ℕ
  pub pid : ℕ
  pub gid_cnt : ℕ
  pub argc : ℕ
  pub argv : Bytes
  pub path : Bytes
  pub bin : Bytes
  pub handle : Option Ptr
  pub comp_tab : Map Bytes Ptr
  pub group_tab : Map ℕ Ptr
  pub mem_tab : Map Bytes Ptr

-- `ack` is the cell of a busy wait; the condition variable of a sleeping wait is not modelled.
pub record Event : Type 0 where
  pub type : ℕ
  pub uid : ℕ
  pub pid : ℕ
  pub jid : ℕ
  pub gid : ℕ
  pub hid : ℕ
  pub did : ℕ
  pub peid : ℕ
  pub job : Ptr
  pub group : Option Ptr
  pub device : Option Ptr
  pub comp : Option Ptr
  pub ack_type : AckType
  pub ack : Option Ptr

pub record Tnotif : Type 0 where
  pub mask : ℕ
  pub queue : List Event

pub data SaaReqType : Type 0 where
  saa_register_pe saa_unregister_pe saa_register_comp saa_configure_comp : SaaReqType
  saa_launch_comp saa_mem_alloc saa_mem_map saa_mem_put saa_mem_get : SaaReqType
  saa_mem_update : SaaReqType

pub data SagReqType : Type 0 where
  sag_agent_register_job sag_agent_register_group sag_agent_register_device : SagReqType
  sag_agent_register_jgd sag_agent_unregister_device sag_agent_unregister_group : SagReqType
  sag_agent_unregister_job sag_agent_spawn_pes sag_agent_kill_pes : SagReqType
  sag_agent_query_memory sag_sched_register_agent sag_sched_unregister_agent : SagReqType
  sag_sched_notify_pe_done sag_sched_add_memory_entry sag_sched_remove_memory_entry : SagReqType
  sag_sched_query_memory sag_sched_launch_comp : SagReqType
