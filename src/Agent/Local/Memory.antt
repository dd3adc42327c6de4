-- ===== src/Agent/Local/Memory.antt =====
-- HandleMemAlloc of src/vivm/agent/agent_local_handler.cpp.
pub mod Hidden
use flex_gas.Agent.Local.{AgentLocalHandler, PeHandled, med_clipped, refuse_pe}
use flex_gas.Agent.Remote.{submit_sched_request}
use flex_gas.Prelude.{none, some}
use flex_gas.Sched.Api.{create_agent_request}
use flex_gas.Sched.Find.{find_memory_entry_group}
use flex_gas.Sched.Local.{with_status}
use flex_gas.Sched.Memory.{allocate_master_object, register_mem_entry}
use flex_gas.Sched.Requests.{SaaReq, SagReq, saa, sched_api_root}
use flex_gas.Sched.Types.{Ptr, sag_sched_add_memory_entry, success}
use flex_gas.Sched.World.{
  M, ch_send, deref, load_device, load_entry, load_group, load_job, pure, ret_err, ret_ok, ◌>>=◌,
  ◌>>◌,
}

-- The request by which the scheduler learns of a new object.
unfoldable pub announce : SagReq → SaaReq → M SagReq
announce blank req = do
  sched_req ←
      create_agent_request blank sag_sched_add_memory_entry req.head.pid req.head.uid req.head.jid
        req.head.gid sched_api_root req.head.did req.head.peid
  pure (record sched_req {
    data_part = record (sched_req.data_part) {
      mem_flags = req.data_part.mem_flags;
      mem_size = req.data_part.mem_size;
      mem_id = med_clipped req.data_part.mem_id;
    };
  })

-- The part behind the allocation. The scheduler's status is not looked at.
unfoldable pub publish_entry : SagReq → AgentLocalHandler → SaaReq → Ptr → Ptr → M PeHandled
publish_entry blank h req device entry = do
  r ← register_mem_entry entry req.data_part.mem_flags
  elim r [
    | ret_err ↦ refuse_pe h req
    | ret_ok ↦ do
      sched_req ← announce blank req
      reply ← submit_sched_request sched_req device
      elim reply [
        | none ↦ refuse_pe h req
        | some _ ↦ do
          e ← load_entry entry
          mr ← deref e.mr
          let req' : SaaReq = record req { data_part = record (req.data_part) { mr = mr } }
          r' ← ch_send h.api_channel (saa (with_status req' success))
          pure (h, r')
      ]
  ]

-- The search is only in the table of the group, also for a global object.
unfoldable pub agent_mem_alloc : SagReq → AgentLocalHandler → SaaReq → M PeHandled
agent_mem_alloc blank h req = do
  group ← deref h.group
  known ← find_memory_entry_group group req.data_part.mem_id
  elim known [
    | some _ ↦ refuse_pe h req
    | none ↦ do
      job ← deref h.job
      device ← deref h.device
      j ← load_job job
      g ← load_group group
      d ← load_device device
      made ←
          allocate_master_object j.jid g.gid d.did job group device h.api_channel
            req.data_part.mem_size req.data_part.mem_id req.data_part.mem_flags
      elim made [ none ↦ refuse_pe h req | some entry ↦ publish_entry blank h req device entry ]
  ]
