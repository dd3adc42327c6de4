-- ===== src/Sched/Remote.antt =====
-- SchedRemoteHandler of src/vivm/sched: the requests of one agent (sched_remote_handler.cpp, and
-- the inline methods of sched_threads.h).
pub mod Exit
pub mod Missing
pub mod Loop
pub mod Session
use flex_gas.Prelude.{Bool, Option, [], false, if◌then◌else◌, none, not, some, true, ℕ, ◌==◌, ◌∷◌}
use flex_gas.Sched.Devices.{destroy_device, unregister_device}
use flex_gas.Sched.Events.{
  create_new_group_event, create_new_job_event, group_event_pe_exit, job_event_start_comp,
}
use flex_gas.Sched.Find.{
  find_device, find_group, find_job, find_memory_entry, get_computation_from_table,
}
use flex_gas.Sched.Local.{await_event, launch_group}
use flex_gas.Sched.Memory.{create_memory_entry, register_mem_entry, register_remote_dmr}
use flex_gas.Sched.Pes.{unregister_peids}
use flex_gas.Sched.Requests.{SagReq, region, sag}
use flex_gas.Sched.Types.{
  Mr, Ptr, ReqStatus, failed, mem_master, mem_record, sched_event_busy_wait, success,
}
use flex_gas.Sched.World.{
  M, Ret, World, ch_recv_mr, ch_send, ch_write, deref, load_device, load_entry, load_group,
  load_job, on_ok, pure, ret_err, ret_ok, ◌>>=◌, ◌>>◌,
}

-- The pointers are NULL until the agent has registered.
pub record RemoteHandler : Type 0 where
  pub agent_channel : ℕ
  pub terminate : Bool
  pub jid : ℕ
  pub job : Option Ptr
  pub group : Option Ptr
  pub gid : ℕ
  pub device : Option Ptr
  pub did : ℕ

abbrev pub AgentHandled : Type 0
AgentHandled = RemoteHandler × Ret

abbrev pub answered : SagReq → ReqStatus → SagReq
answered req status = record req { head = record (req.head) { status = status } }

abbrev pub respond_agent : RemoteHandler → SagReq → M Ret
respond_agent h req = ch_send h.agent_channel (sag req)

unfoldable pub refuse_agent : RemoteHandler → SagReq → M AgentHandled
refuse_agent h req = do _ ← respond_agent h (answered req failed); pure (h, ret_err)

unfoldable pub accept_agent : RemoteHandler → SagReq → M AgentHandled
accept_agent h req = do r ← respond_agent h (answered req success); pure (h, r)

-- patch_mpDevice: the device is looked up at its first use.
unfoldable pub patch_device : RemoteHandler → SagReq → M (RemoteHandler × Ret)
patch_device h req = elim h.device [
  | some _ ↦ pure (h, ret_ok)
  | none ↦ do
    group ← deref h.group
    device ← find_device group req.head.did
    elim device [ none ↦ pure (h, ret_err) | some d ↦ pure (record h { device = some d }, ret_ok) ]
]

unfoldable pub handle_register_agent : RemoteHandler → SagReq → M AgentHandled
handle_register_agent h req = do
  job ← find_job req.head.jid
  elim job [
    | none ↦ refuse_agent h req
    | some p ↦ do
      group ← find_group p req.head.gid
      elim group [
        | none ↦ refuse_agent h req
        | some q ↦ do
          j ← load_job p
          g ← load_group q
          accept_agent
              (record h {
                job = some p;
                jid = j.jid;
                group = some q;
                gid = g.gid;
                did = req.head.did;
              })
              req
      ]
  ]

-- The part behind the success response. A missing device is only answered, not returned for, so
-- the NULL pointer is followed here.
unfoldable pub close_agent : RemoteHandler → M AgentHandled
close_agent h = do
  group ← deref h.group
  device ← deref h.device
  r ← unregister_device group device
  elim r [
    | ret_err ↦ pure (h, ret_err)
    | ret_ok ↦ do
      r' ← destroy_device device
      elim r' [
        | ret_err ↦ pure (h, ret_err)
        | ret_ok ↦ pure (record h { terminate = true }, ret_ok)
      ]
  ]

-- A failed patch is answered with `failed`; unless that answer is lost, the handler goes on.
unfoldable pub answer_patch : RemoteHandler → SagReq → Ret → M Ret
answer_patch h req ret_ok = pure ret_ok
answer_patch h req ret_err = respond_agent h (answered req failed)

unfoldable pub handle_unregister_agent : RemoteHandler → SagReq → M AgentHandled
handle_unregister_agent h req = do
  (h', patched) ← patch_device h req
  r ← answer_patch h' req patched
  elim r [
    | ret_err ↦ pure (h', ret_err)
    | ret_ok ↦ do
      r' ← respond_agent h' (answered req success)
      elim r' [ ret_err ↦ pure (h', ret_err) | ret_ok ↦ close_agent h' ]
  ]

unfoldable pub notify_exit : RemoteHandler → ℕ → M (Unit {0})
notify_exit h peid = do
  group ← deref h.group
  g ← load_group group
  elim g.handle [
    | none ↦ pure tt
    | some handle ↦ do
      job ← deref h.job
      device ← deref h.device
      _ ← create_new_group_event group_event_pe_exit job group device peid handle
      pure tt
  ]

unfoldable pub handle_notify_pe_done : (World → World) → ℕ → RemoteHandler → SagReq → M AgentHandled
handle_notify_pe_done others rounds h req = do
  (h', patched) ← patch_device h req
  elim patched [
    | ret_err ↦ refuse_agent h' req
    | ret_ok ↦ do
      job ← deref h'.job
      group ← deref h'.group
      device ← deref h'.device
      r ← unregister_peids others rounds job group device (req.head.peid ∷ [])
      elim r [
        | ret_err ↦ refuse_agent h' req
        | ret_ok ↦ (do notify_exit h' req.head.peid; accept_agent h' req)
      ]
  ]

unfoldable pub add_memory_entry : RemoteHandler → SagReq → M AgentHandled
add_memory_entry h req = do
  job ← deref h.job
  group ← deref h.group
  device ← deref h.device
  j ← load_job job
  g ← load_group group
  d ← load_device device
  entry ←
      create_memory_entry mem_record j.jid g.gid d.did job (some group) (some device)
        req.data_part.mem_id none none
  r ← register_mem_entry entry req.data_part.mem_flags
  elim r [ ret_err ↦ refuse_agent h req | ret_ok ↦ accept_agent h req ]

unfoldable pub handle_add_memory_entry : RemoteHandler → SagReq → M AgentHandled
handle_add_memory_entry h req = do
  (h', patched) ← patch_device h req
  r ← answer_patch h' req patched
  elim r [ ret_err ↦ pure (h', ret_err) | ret_ok ↦ add_memory_entry h' req ]

unfoldable pub handle_remove_memory_entry : RemoteHandler → SagReq → M AgentHandled
handle_remove_memory_entry h req = accept_agent h req

-- The exchange behind the answer for a master copy: both regions, the write, and the notice. Each
-- step that fails ends it with -1.
unfoldable pub synchronise : RemoteHandler → Ptr → Option Mr → M Ret
synchronise h entry entry_mr = do
  mr ← deref entry_mr
  r₁ ← ch_send h.agent_channel (region mr)
  on_ok r₁ (do
    got ← ch_recv_mr h.agent_channel
    elim got [
      | none ↦ pure ret_err
      | some mirror ↦ do
        r₂ ← ch_write h.agent_channel mr mirror
        on_ok r₂ (do
          r₃ ← ch_send h.agent_channel (region mr)
          on_ok r₃ (register_remote_dmr entry h.device (some mirror)))
    ])

unfoldable pub query_found : RemoteHandler → SagReq → Ptr → M AgentHandled
query_found h req entry = do
  e ← load_entry entry
  elim e.copy_type [
    | mem_master ↦ do
      let req' = record req { data_part = record (req.data_part) { mr_valid = true } }
      r ← respond_agent h (answered req' success)
      elim r [
        | ret_err ↦ pure (h, ret_err)
        | ret_ok ↦ (do r' ← synchronise h entry e.mr; pure (h, r'))
      ]
    | _ ↦ do
      device ← deref e.master_device
      d ← load_device device
      accept_agent h (record req {
        data_part = record (req.data_part) {
          mr_valid = false;
          did = d.did;
          host = d.phy.host;
          link = d.phy.link;
          device_type = d.phy.type;
          phy_dev_id = d.phy.phy_dev_id;
        };
      })
  ]

unfoldable pub handle_query_memory : RemoteHandler → SagReq → M AgentHandled
handle_query_memory h req = do
  (h', patched) ← patch_device h req
  r ← answer_patch h' req patched
  elim r [
    | ret_err ↦ pure (h', ret_err)
    | ret_ok ↦ do
      group ← deref h'.group
      entry ← find_memory_entry group req.data_part.mem_id req.data_part.mem_flags
      elim entry [ none ↦ refuse_agent h' req | some e ↦ query_found h' req e ]
  ]

unfoldable pub handle_agent_launch_comp :
    (World → World) → ℕ → RemoteHandler → SagReq → M AgentHandled
handle_agent_launch_comp others rounds h req =
    if not (req.head.jid == h.jid) then refuse_agent h req else do
      job ← deref h.job
      comp ← get_computation_from_table job req.data_part.comp_id
      elim comp [
        | none ↦ refuse_agent h req
        | some p ↦ do
          launched ← launch_group job p req.data_part.comp_config req.data_part.rec_level
          elim launched [
            | none ↦ pure (h, ret_err)
            | some (comp_group, group) ↦ do
              j ← load_job job
              elim j.handle [
                | none ↦ refuse_agent h req
                | some handle ↦ do
                  event ←
                      create_new_job_event job_event_start_comp job group comp_group
                        sched_event_busy_wait handle
                  await_event others rounds event
                  accept_agent h req
              ]
          ]
      ]
