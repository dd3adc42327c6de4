-- ===== src/Sched/Requests.antt =====
-- The requests that the API and the agents exchange with the scheduler: `saa_req` and `sag_req`.
use flex_gas.Prelude.{Bool, Bytes, ℕ}
use flex_gas.Sched.Types.{
  Comp, CompConfig, DeviceType, Link, Mr, ReqStatus, ReqType, SaaReqType, SagReqType,
}

-- SCHED_API_ROOT_PEID, _DID, _HID and _GID, all 0xffffffff.
abbrev pub sched_api_root : ℕ
sched_api_root = 0xffffffff

-- The head that both kinds of request share.
pub record ReqHead : Type 0 where
  pub type : ReqType
  pub status : ReqStatus
  pub pid : ℕ
  pub uid : ℕ
  pub host : Bytes
  pub peid : ℕ
  pub did : ℕ
  pub hid : ℕ
  pub gid : ℕ
  pub jid : ℕ

pub record SaaReqData : Type 0 where
  pub type : SaaReqType
  pub argc : ℕ
  pub argv : Bytes
  pub path : Bytes
  pub bin : Bytes
  pub comp_desc_exec : ℕ
  pub rec_level : ℕ
  pub comp_id : Bytes
  pub comp_fn_ptr : ℕ
  pub comp_config : CompConfig
  pub device_type : DeviceType
  pub phy_dev_id : ℕ
  pub mem_flags : ℕ
  pub mem_id : Bytes
  pub mem_addr : ℕ
  pub mem_offset : ℕ
  pub mem_size : ℕ
  pub mr : Mr

pub record SaaReq : Type 0 where
  pub head : ReqHead
  pub data_part : SaaReqData

pub record SagReqData : Type 0 where
  pub type : SagReqType
  pub argc : ℕ
  pub argv : Bytes
  pub path : Bytes
  pub bin : Bytes
  pub gid : ℕ
  pub comp : Comp
  pub rec_level : ℕ
  pub did : ℕ
  pub host : Bytes
  pub link : Link
  pub device_type : DeviceType
  pub phy_dev_id : ℕ
  pub num_pes : ℕ
  pub device_type_pes : DeviceType
  pub phy_dev_id_pes : ℕ
  pub hid : ℕ
  pub s_peid : ℕ
  pub e_peid : ℕ
  pub mem_flags : ℕ
  pub mem_id : Bytes
  pub mem_size : ℕ
  pub mr_valid : Bool
  pub comp_id : Bytes
  pub comp_config : CompConfig

pub record SagReq : Type 0 where
  pub head : ReqHead
  pub data_part : SagReqData

-- What a daemon puts on a channel, and the objects that it registers with one: a named object of
-- shared memory, or one that is mapped at an address, each with its size.
pub data Message : Type 0 where
  saa : SaaReq → Message
  sag : SagReq → Message
  region : Mr → Message
  shm_object : Bytes → ℕ → Message
  mapped_object : ℕ → ℕ → Message
