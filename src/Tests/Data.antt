-- ===== src/Tests/Data.antt =====
-- A small system to run the operations on.
use flex_gas.Agent.Remote.{AgentHandler}
use flex_gas.Prelude.{Bytes, Option, [], false, none, some, true, ℕ, ◌∷◌}
use flex_gas.Sched.Events.{group_event_pe_exit}
use flex_gas.Sched.Local.{LocalHandler}
use flex_gas.Sched.Remote.{RemoteHandler}
use flex_gas.Sched.Requests.{ReqHead, SaaReq, SagReq, sched_api_root}
use flex_gas.Sched.Types.{
  Comp, CompConfig, Device, Group, Job, Pe, Ptr, Tnotif, initial, ivm_cpu, local, saa_register_comp,
  sag_sched_notify_pe_done, sched_link_inet, success,
}
use flex_gas.Sched.World.{Net, World, update}

abbrev pub fn_name : Bytes
fn_name = 102 ∷ 105 ∷ 98 ∷ []

abbrev pub the_config : CompConfig
the_config = record { max_pes_num = 2; type = ivm_cpu; min_res = 1; req_res = 1; max_res = 2 }

abbrev pub the_comp : Comp
the_comp = record { comp_id = fn_name; ptr = 4096; is_configured = true; config = the_config }

abbrev pub the_job : Job
the_job = record {
  jid = 7;
  uid = 500;
  pid = 321;
  gid_cnt = 5;
  argc = 0;
  argv = [];
  path = [];
  bin = [];
  handle = none;
  comp_tab = (fn_name, 5) ∷ [];
  group_tab = (4, 2) ∷ [];
  mem_tab = [];
}

abbrev pub the_group : Group
the_group = record {
  jid = 7;
  gid = 4;
  uid = 500;
  pid = 321;
  did_cnt = 1;
  peid_cnt = 2;
  rec_level = 0;
  handle = some 6;
  comp_tab = (fn_name, 5) ∷ [];
  device_tab = (0, 3) ∷ [];
  pe_tab = (0, 10) ∷ (1, 9) ∷ [];
  killed_pe_tab = [];
  job = 1;
  mem_tab = [];
}

abbrev pub the_device : Device
the_device = record {
  jid = 7;
  gid = 4;
  did = 0;
  pid = 321;
  uid = 500;
  request_ch = 11;
  phy = record {
    type = ivm_cpu;
    host = 104 ∷ [];
    service = 49 ∷ [];
    link = sched_link_inet;
    phy_dev_id = 0;
  };
  pe_tab = [];
  group = 2;
  job = 1;
}

abbrev pub the_pe : Pe
the_pe = record {
  pid = 321;
  uid = 500;
  jid = 7;
  gid = 4;
  hid = sched_api_root;
  did = 0;
  peid = 1;
  comp = 5;
  device = 3;
  group = 2;
  job = 1;
  is_killed = false;
}

abbrev pub the_handle : Tnotif
the_handle = record { mask = group_event_pe_exit; queue = [] }

abbrev pub head_of : ℕ → ReqHead
head_of jid = record {
  type = local;
  status = initial;
  pid = 321;
  uid = 500;
  host = [];
  peid = 1;
  did = 0;
  hid = sched_api_root;
  gid = 4;
  jid = jid;
}

abbrev pub api_request : ℕ → SaaReq
api_request jid = record {
  head = head_of jid;
  data_part = record {
    type = saa_register_comp;
    argc = 0;
    argv = [];
    path = [];
    bin = [];
    comp_desc_exec = 0;
    rec_level = 0;
    comp_id = fn_name;
    comp_fn_ptr = 8192;
    comp_config = the_config;
    device_type = ivm_cpu;
    phy_dev_id = 0;
    mem_flags = 0;
    mem_id = [];
    mem_addr = 0;
    mem_offset = 0;
    mem_size = 0;
    mr = record { addr = 0; len = 0; key = 0 };
  };
}

abbrev pub agent_request : ℕ → SagReq
agent_request jid = record {
  head = head_of jid;
  data_part = record {
    type = sag_sched_notify_pe_done;
    argc = 0;
    argv = [];
    path = [];
    bin = [];
    gid = 4;
    comp = the_comp;
    rec_level = 0;
    did = 0;
    host = [];
    link = sched_link_inet;
    device_type = ivm_cpu;
    phy_dev_id = 0;
    num_pes = 1;
    device_type_pes = ivm_cpu;
    phy_dev_id_pes = 0;
    hid = sched_api_root;
    s_peid = 0;
    e_peid = 0;
    mem_flags = 0;
    mem_id = [];
    mem_size = 0;
    mr_valid = false;
    comp_id = fn_name;
    comp_config = the_config;
  };
}

abbrev pub agent_reply : SagReq
agent_reply = record (agent_request 7) { head = record (head_of 7) { status = success } }

abbrev pub the_net : Net
the_net = record {
  sends = true ∷ true ∷ [];
  sag_replies = some agent_reply ∷ [];
  saa_requests = [];
  forks = some 900 ∷ [];
  opens = some 12 ∷ [];
  closes = true ∷ [];
  regions = [];
  writes = [];
  closed = [];
  heard = [];
}

abbrev pub empty {ℓ} : {A : Type ℓ} → Ptr → Option A
empty p = none

abbrev pub the_world : World
the_world = record {
  jobs = update empty 1 (some the_job);
  groups = update empty 2 (some the_group);
  devices = update empty 3 (some the_device);
  pes = update empty 9 (some the_pe);
  comps = update empty 5 (some the_comp);
  entries = empty;
  handles = update empty 6 (some the_handle);
  acks = update empty 8 (some 0);
  notifs = update empty 40 (some (false ∷ []));
  fresh = 20;
  job_tab = (7, 1) ∷ [];
  job_id_cnt = 8;
  prosp_pe_tab = [];
  sys_handle = none;
  local_hostname = [];
  held = [];
  net = the_net;
  sent = [];
}

-- The other threads do nothing.
abbrev pub idle : World → World
idle w = w

abbrev pub the_local_handler : LocalHandler
the_local_handler = record { api_channel = 13; terminate = false; jid = 7; job = some 1 }

abbrev pub the_remote_handler : RemoteHandler
the_remote_handler = record {
  agent_channel = 14;
  terminate = false;
  jid = 7;
  job = some 1;
  group = some 2;
  gid = 4;
  device = some 3;
  did = 0;
}

abbrev pub the_agent_handler : AgentHandler
the_agent_handler = record {
  sched_channel = 15;
  peer_id = [];
  terminate = false;
  job = some 1;
  group = some 2;
  device = some 3;
}
