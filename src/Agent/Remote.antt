-- ===== src/Agent/Remote.antt =====
-- AgentRemoteHandler of src/vivm/agent/agent_remote_handler.cpp: the requests of the scheduler.
pub mod Delete
pub mod Obtain
use flex_gas.Container.Map.{bytes_key, find, nat_key}
use flex_gas.Prelude.{
  Bool, Bytes, Option, false, if◌then◌else◌, length, ltb, none, not, some, true, ℕ, ◌==◌,
}
use flex_gas.Sched.Api.{accepted, create_agent_request, submit_agent_request}
use flex_gas.Sched.Devices.{
  create_new_device_id, destroy_device, register_device, unregister_device,
}
use flex_gas.Sched.Find.{find_device, find_group, find_job, lock_device_tab, unlock_device_tab}
use flex_gas.Sched.Groups.{
  create_new_group_id, is_group_tab_empty, register_group, unregister_group,
}
use flex_gas.Sched.Jobs.{create_new_job_id, from_agent, register_job, unregister_job}
use flex_gas.Sched.Remote.{answered}
use flex_gas.Sched.Requests.{SagReq, sag, sched_api_root}
use flex_gas.Sched.Types.{
  Link, Ptr, failed, sag_sched_register_agent, sag_sched_unregister_agent, sched_link_inet,
  sched_link_rdma, success,
}
use flex_gas.Sched.World.{
  M, Ret, ch_send, delete_group, delete_job, deref, load_device, load_group, load_job, load_pe,
  new_comp, on_ok, pure, ret_err, ret_ok, store_pe, ◌>>=◌, ◌>>◌,
}

pub record AgentHandler : Type 0 where
  pub sched_channel : ℕ
  pub peer_id : Bytes
  pub terminate : Bool
  pub job : Option Ptr
  pub group : Option Ptr
  pub device : Option Ptr

abbrev pub Served : Type 0
Served = AgentHandler × Ret

unfoldable pub refuse_sched : AgentHandler → SagReq → M Served
refuse_sched h req = do _ ← ch_send h.sched_channel (sag (answered req failed)); pure (h, ret_err)

unfoldable pub accept_sched : AgentHandler → SagReq → M Served
accept_sched h req = do r ← ch_send h.sched_channel (sag (answered req success)); pure (h, r)

-- `submit_sched_request` and `create_sched_request` are, line for line, the functions of the
-- scheduler for its agents.
unfoldable pub submit_sched_request : SagReq → Ptr → M (Option SagReq)
submit_sched_request req device = submit_agent_request req device

-- The job of a request: found, or created under the identifier of the scheduler and registered.
unfoldable pub obtain_job : SagReq → M Ptr
obtain_job req = do
  found ← find_job req.head.jid
  elim found [
    | some job ↦ pure job
    | none ↦ do
      job ← create_new_job_id (from_agent req) req.head.jid
      _ ← register_job job
      pure job
  ]

-- The group of a request: found, or created and registered; `none` where the registration fails.
unfoldable pub obtain_group : Ptr → SagReq → M (Option Ptr)
obtain_group job req = do
  found ← find_group job req.head.gid
  elim found [
    | some group ↦ pure (some group)
    | none ↦ do
      comp ← new_comp req.data_part.comp
      group ← create_new_group_id job comp req.head.gid req.data_part.rec_level
      r ← register_group job group
      elim r [ ret_err ↦ pure none | ret_ok ↦ pure (some group) ]
  ]

unfoldable pub handler_register_job : AgentHandler → SagReq → M Served
handler_register_job h req = do _ ← obtain_job req; accept_sched h req

unfoldable pub handler_register_group : AgentHandler → SagReq → M Served
handler_register_group h req = do
  job ← find_job req.head.jid
  elim job [
    | none ↦ refuse_sched h req
    | some p ↦ do
      group ← obtain_group p req
      elim group [ none ↦ pure (h, ret_err) | some _ ↦ accept_sched h req ]
  ]

-- The ports of the settings, agts_get_sched_rdma_port and agts_get_sched_inet_port.
pub record SchedPorts : Type 0 where
  pub sched_rdma : Bytes
  pub sched_inet : Bytes

unfoldable pub sched_service_of : SchedPorts → Link → Bytes
sched_service_of ports sched_link_rdma = ports.sched_rdma
sched_service_of ports sched_link_inet = ports.sched_inet

-- finalize_creating_device: a device that the scheduler does not accept is taken out of the table.
unfoldable pub finalize_creating_device :
    SagReq → SchedPorts → AgentHandler → SagReq → Ptr → M (AgentHandler × Option Ptr)
finalize_creating_device blank ports h req group = do
  made ←
      create_new_device_id h.peer_id (sched_service_of ports req.data_part.link) req.data_part.link
        req.data_part.device_type req.data_part.phy_dev_id group req.data_part.did
  elim made [
    | none ↦ pure (h, none)
    | some device ↦ do
      _ ← register_device group device
      d ← load_device device
      sched_req ←
          create_agent_request blank sag_sched_register_agent d.pid d.uid d.jid d.gid sched_api_root
            d.did sched_api_root
      reply ← submit_sched_request sched_req device
      elim (accepted reply) [
        | none ↦ (do _ ← unregister_device group device; pure (h, none))
        | some _ ↦ do
          g ← load_group group
          pure
              (record h { job = some g.job; group = some group; device = some device }, some device)
      ]
  ]

-- The end that both registrations of a device share: an identifier in use is refused.
unfoldable pub add_device : SagReq → SchedPorts → AgentHandler → SagReq → Ptr → M Served
add_device blank ports h req group = do
  known ← find_device group req.head.did
  elim known [
    | some _ ↦ refuse_sched h req
    | none ↦ do
      (h', made) ← finalize_creating_device blank ports h req group
      elim made [ none ↦ refuse_sched h' req | some _ ↦ accept_sched h' req ]
  ]

unfoldable pub handler_register_device : SagReq → SchedPorts → AgentHandler → SagReq → M Served
handler_register_device blank ports h req = do
  job ← find_job req.head.jid
  elim job [
    | none ↦ refuse_sched h req
    | some p ↦ do
      group ← find_group p req.head.gid
      elim group [ none ↦ refuse_sched h req | some q ↦ add_device blank ports h req q ]
  ]

unfoldable pub handler_register_job_device_group :
    SagReq → SchedPorts → AgentHandler → SagReq → M Served
handler_register_job_device_group blank ports h req = do
  job ← obtain_job req
  group ← obtain_group job req
  elim group [ none ↦ pure (h, ret_err) | some q ↦ add_device blank ports h req q ]

unfoldable pub delete_job_of : AgentHandler → M Ret
delete_job_of h = do job ← deref h.job; _ ← unregister_job job; delete_job job; pure ret_ok

-- delete_group: the device leaves the group, and an empty group leaves the job and is deleted. The
-- mutex that is unlocked at the end lies in the group.
unfoldable pub delete_group_of : AgentHandler → M Ret
delete_group_of h = do
  group ← deref h.group
  device ← deref h.device
  r ← unregister_device group device
  on_ok r (do
    lock_device_tab group
    g ← load_group group
    if ltb 0 (length g.device_tab) then (do unlock_device_tab group; pure ret_ok) else do
      job ← deref h.job
      _ ← unregister_group job group
      delete_group group
      empty ← is_group_tab_empty job
      elim empty [ true ↦ (do _ ← delete_job_of h; pure tt) | false ↦ pure tt ]
      unlock_device_tab group
      pure ret_ok)

-- HandlerUnregisterDevice behind its checks.
unfoldable pub unregister_agent : SagReq → AgentHandler → SagReq → Ptr → M Served
unregister_agent blank h req device = do
  r ← ch_send h.sched_channel (sag (answered req success))
  elim r [
    | ret_err ↦ pure (h, ret_err)
    | ret_ok ↦ do
      d ← load_device device
      sched_req ←
          create_agent_request blank sag_sched_unregister_agent d.pid d.uid d.jid d.gid
            sched_api_root d.did sched_api_root
      reply ← submit_sched_request sched_req device
      elim (accepted reply) [
        | none ↦ pure (h, ret_err)
        | some _ ↦ do
          _ ← delete_group_of h
          own ← deref h.device
          _ ← destroy_device own
          pure (record h { terminate = true }, ret_ok)
      ]
  ]

unfoldable pub handler_unregister_device : SagReq → AgentHandler → SagReq → M Served
handler_unregister_device blank h req = do
  job ← deref h.job
  j ← load_job job
  if not (j.jid == req.head.jid) then refuse_sched h req else do
    group ← deref h.group
    g ← load_group group
    if not (g.gid == req.head.gid) then refuse_sched h req else do
      own ← deref h.device
      d ← load_device own
      if not (d.did == req.data_part.did) then refuse_sched h req else do
        found ← find_device group req.data_part.did
        elim found [ none ↦ refuse_sched h req | some p ↦ unregister_agent blank h req p ]

-- `kill` and `waitpid` act on the process; what stays in the state is the mark on the PE.
unfoldable pub handler_kill_pes : AgentHandler → SagReq → M Served
handler_kill_pes h req = do
  group ← deref h.group
  g ← load_group group
  elim (find req.head.peid g.pe_tab) [
    | none ↦ refuse_sched h req
    | some p ↦ do pe ← load_pe p; store_pe p (record pe { is_killed = true }); accept_sched h req
  ]

-- HandlerQueryMemory, which is not implemented.
unfoldable pub handler_query_memory : AgentHandler → SagReq → M Served
handler_query_memory h req = accept_sched h req
