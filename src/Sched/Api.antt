-- ===== src/Sched/Api.antt =====
-- src/vivm/sched/sched_api.cpp: what the scheduling library calls. `blank` is the content that a
-- request on the stack has before its fields are set. A reply from an agent overwrites the whole
-- request, as `chRecv` does.
pub mod Limit
pub mod Pes
pub mod Retire
pub mod Respawn
pub mod Submit
use flex_gas.Container.Map.{least}
use flex_gas.Prelude.{Bool, Bytes, Option, false, if◌then◌else◌, none, some, true, ℕ, ◌+◌}
use flex_gas.Sched.Devices.{create_new_device_id, get_new_device_id, register_device}
use flex_gas.Sched.Find.{lock_device_internal, unlock_device_internal}
use flex_gas.Sched.Groups.{unregister_group}
use flex_gas.Sched.Jobs.{unregister_job}
use flex_gas.Sched.Requests.{SagReq, sag, sched_api_root}
use flex_gas.Sched.Types.{
  DeviceType, Link, Ptr, ReqStatus, SagReqType, failed, in_progress, initial, remote,
  sag_agent_register_jgd, sag_agent_unregister_device, sched_link_inet, sched_link_rdma, success,
}
use flex_gas.Sched.World.{
  M, Ret, ch_recv_sag, ch_send, delete_group, delete_job, deref, done, load_comp, load_device,
  load_group, load_job, on_ok, pure, ret_err, ret_ok, ◌>>=◌, ◌>>◌,
}

-- The ports of the settings, scheds_get_agent_rdma_port and scheds_get_agent_inet_port.
pub record Ports : Type 0 where
  pub agent_rdma : Bytes
  pub agent_inet : Bytes

unfoldable pub create_agent_request :
    SagReq → SagReqType → (pid uid jid gid hid did peid : ℕ) → M SagReq
create_agent_request blank type pid uid jid gid hid did peid w =
    done
      (record {
        head = record (blank.head) {
          type = remote;
          pid = pid;
          uid = uid;
          host = w.local_hostname;
          jid = jid;
          gid = gid;
          hid = hid;
          did = did;
          peid = peid;
        };
        data_part = record (blank.data_part) { type = type };
      })
      w

-- `none` is a return of -1; on 0 the request holds the agent's reply.
unfoldable pub submit_agent_request : SagReq → Ptr → M (Option SagReq)
submit_agent_request req device = do
  lock_device_internal device
  d ← load_device device
  sent_ok ← ch_send d.request_ch (sag req)
  elim sent_ok [
    | ret_err ↦ (do unlock_device_internal device; pure none)
    | ret_ok ↦ do reply ← ch_recv_sag d.request_ch; unlock_device_internal device; pure reply
  ]

-- The test of `req.status` behind a submission.
unfoldable pub is_success : ReqStatus → Bool
is_success success = true
is_success initial = false
is_success in_progress = false
is_success failed = false

-- The submission with both checks: the reply where the agent reports success.
unfoldable pub accepted : Option SagReq → Option SagReq
accepted none = none
accepted (some r) = if is_success r.head.status then some r else none

unfoldable pub request_agent_create_job_group_device : SagReq → Ptr → Ptr → Ptr → M Ret
request_agent_create_job_group_device blank job group device = do
  d ← load_device device
  dj ← load_job d.job
  dg ← load_group d.group
  req ←
      create_agent_request blank sag_agent_register_jgd dj.pid dj.uid dj.jid dg.gid sched_api_root
        d.did sched_api_root
  j ← load_job job
  g ← load_group group
  entry ← deref (least g.comp_tab)
  comp ← load_comp entry.1
  r ←
      submit_agent_request
        (record req {
          data_part = record (req.data_part) {
            argc = j.argc;
            argv = j.argv;
            path = j.path;
            bin = j.bin;
            gid = g.gid;
            comp = comp;
            rec_level = g.rec_level + 1;
            did = d.did;
            link = d.phy.link;
            device_type = d.phy.type;
            phy_dev_id = d.phy.phy_dev_id;
          };
        })
        device
  elim (accepted r) [ none ↦ pure ret_err | some _ ↦ pure ret_ok ]

unfoldable pub service_of : Ports → Link → Bytes
service_of ports sched_link_rdma = ports.agent_rdma
service_of ports sched_link_inet = ports.agent_inet

-- schedCreateDevice, which is `create_new_device`: the device, or `none` for -1.
unfoldable pub sched_create_device :
    SagReq → Ports → Bytes → Link → DeviceType → ℕ → Ptr → M (Option Ptr)
sched_create_device blank ports host link dev_type phy_dev_id group = do
  did ← get_new_device_id group
  created ← create_new_device_id host (service_of ports link) link dev_type phy_dev_id group did
  elim created [
    | none ↦ pure none
    | some device ↦ do
      d ← load_device device
      r ← request_agent_create_job_group_device blank d.job d.group device
      elim r [
        | ret_err ↦ pure none
        | ret_ok ↦ do
          r' ← register_device group device
          elim r' [ ret_err ↦ pure none | ret_ok ↦ pure (some device) ]
      ]
  ]

-- schedDestroyJob
unfoldable pub sched_destroy_job : Ptr → M Ret
sched_destroy_job job = do r ← unregister_job job; on_ok r (do delete_job job; pure ret_ok)

-- schedDestroyGroup
unfoldable pub sched_destroy_group : Ptr → M Ret
sched_destroy_group group = do
  g ← load_group group
  r ← unregister_group g.job group
  on_ok r (do delete_group group; pure ret_ok)

-- schedDestroyDevice
unfoldable pub sched_destroy_device : SagReq → Ptr → M Ret
sched_destroy_device blank device = do
  d ← load_device device
  j ← load_job d.job
  g ← load_group d.group
  req ←
      create_agent_request blank sag_agent_unregister_device j.pid j.uid j.jid g.gid sched_api_root
        d.did sched_api_root
  r ←
      submit_agent_request (record req { data_part = record (req.data_part) { did = d.did } })
        device
  elim (accepted r) [ none ↦ pure ret_err | some _ ↦ pure ret_ok ]
