-- ===== src/Sched/Local.antt =====
-- SchedLocalHandler of src/vivm/sched: the requests of one program through its API channel
-- (sched_local_handler.cpp, and the dispatch of sched_threads.cpp). A handler gives its object, the
-- request as it then stands, and its return value.
pub mod Foreign
pub mod Allocate
pub mod Session
pub mod Schedule
pub mod Comps
pub mod Launch
use flex_gas.Prelude.{
  Bool, Option, [], false, if◌then◌else◌, length, ltb, none, not, some, suc, true, zero, ℕ, ◌==◌,
}
use flex_gas.Sched.Events.{
  create_new_job_event, create_new_sys_event, destroy_event, job_event_start_comp,
  sys_event_start_job, wait_event_ack,
}
use flex_gas.Sched.Find.{find_memory_entry_job, get_computation_from_table}
use flex_gas.Sched.Groups.{create_new_group, register_group}
use flex_gas.Sched.Jobs.{add_new_computation_to_table, create_new_job, register_job}
use flex_gas.Sched.Memory.{allocate_master_object_root, register_mem_entry_root}
use flex_gas.Sched.Requests.{SaaReq, saa, sched_api_root}
use flex_gas.Sched.Types.{
  Comp, CompConfig, Event, Ptr, ReqStatus, ReqType, SaaReqType, failed, ivm_any, local, remote,
  saa_configure_comp, saa_launch_comp, saa_mem_alloc, saa_mem_get, saa_mem_map, saa_mem_put,
  saa_mem_update, saa_register_comp, saa_register_pe, saa_unregister_pe, sched_event_busy_wait,
  success,
}
use flex_gas.Sched.World.{
  M, Ret, World, blocked, ch_close, ch_recv_saa, ch_send, deref, get, load_comp, load_entry,
  load_job, new_comp, pure, ret_err, ret_ok, store_comp, ◌>>=◌, ◌>>◌,
}

-- The object: `job` is NULL and `jid` unset until the program has registered.
pub record LocalHandler : Type 0 where
  pub api_channel : ℕ
  pub terminate : Bool
  pub jid : ℕ
  pub job : Option Ptr

abbrev pub Handled : Type 0
Handled = LocalHandler × Ret

abbrev pub with_status : SaaReq → ReqStatus → SaaReq
with_status req status = record req { head = record (req.head) { status = status } }

-- The five-identifier `create_response`.
abbrev pub with_ids : SaaReq → ReqStatus → ℕ → SaaReq
with_ids req status jid = record req {
  head = record (req.head) {
    status = status;
    jid = jid;
    gid = sched_api_root;
    hid = sched_api_root;
    did = sched_api_root;
    peid = sched_api_root;
  };
}

abbrev pub respond_api : LocalHandler → SaaReq → M Ret
respond_api h req = ch_send h.api_channel (saa req)

-- A failed response and a return of -1, whether or not the response gets through.
unfoldable pub refuse : LocalHandler → SaaReq → M Handled
refuse h req = do _ ← respond_api h (with_status req failed); pure (h, ret_err)

-- A success response; -1 where it does not get through.
unfoldable pub accept : LocalHandler → SaaReq → M Handled
accept h req = do r ← respond_api h (with_status req success); pure (h, r)

-- The wait of a handler for the scheduling thread: an event, its acknowledgement, its end.
unfoldable pub await_event : (World → World) → ℕ → Event → M (Unit {0})
await_event others rounds event = do
  _ ← wait_event_ack others rounds event
  _ ← destroy_event event
  pure tt

unfoldable pub handle_register_pe : (World → World) → ℕ → LocalHandler → SaaReq → M Handled
handle_register_pe others rounds h req = do
  job ← create_new_job req
  _ ← register_job job
  j ← load_job job
  let h' = record h { jid = j.jid; job = some job }
  w ← get
  elim w.sys_handle [
    | none ↦ pure tt
    | some handle ↦ do
      event ← create_new_sys_event sys_event_start_job job sched_event_busy_wait handle
      await_event others rounds event
  ]
  r ← respond_api h' (with_ids req success j.jid)
  pure (h', r)

unfoldable pub handle_unregister_pe : LocalHandler → SaaReq → M Handled
handle_unregister_pe h req = if not (req.head.jid == h.jid) then refuse h req else do
  job ← deref h.job
  j ← load_job job
  if ltb 0 (length j.group_tab) then refuse h req else accept h req

-- A zeroed `sched_comp_t`.
abbrev pub new_comp_t : Comp
new_comp_t = record {
  comp_id = [];
  ptr = 0;
  is_configured = false;
  config = record { max_pes_num = 0; type = ivm_any; min_res = 0; req_res = 0; max_res = 0 };
}

unfoldable pub handle_register_comp : LocalHandler → SaaReq → M Handled
handle_register_comp h req = if not (req.head.jid == h.jid) then refuse h req else do
  comp ← new_comp new_comp_t
  job ← deref h.job
  _ ← add_new_computation_to_table job comp req.data_part.comp_id req.data_part.comp_fn_ptr
  accept h req

unfoldable pub handle_configure_comp : LocalHandler → SaaReq → M Handled
handle_configure_comp h req = if not (req.head.jid == h.jid) then refuse h req else do
  job ← deref h.job
  comp ← get_computation_from_table job req.data_part.comp_id
  elim comp [
    | none ↦ refuse h req
    | some p ↦ do
      c ← load_comp p
      store_comp p (record c { config = req.data_part.comp_config; is_configured = true })
      accept h req
  ]

-- What both daemons do for a launch: a copy of the computation with the configuration of the
-- request, and a group for it in the job. `none` is a group that could not be registered.
unfoldable pub launch_group : Ptr → Ptr → CompConfig → ℕ → M (Option (Ptr × Ptr))
launch_group job comp config rec_level = do
  c ← load_comp comp
  comp_group ← new_comp (record c { config = config })
  group ← create_new_group job comp_group rec_level
  r ← register_group job group
  elim r [ ret_err ↦ pure none | ret_ok ↦ pure (some (comp_group, group)) ]

unfoldable pub handle_launch_comp : (World → World) → ℕ → LocalHandler → SaaReq → M Handled
handle_launch_comp others rounds h req = if not (req.head.jid == h.jid) then refuse h req else do
  job ← deref h.job
  comp ← get_computation_from_table job req.data_part.comp_id
  elim comp [
    | none ↦ refuse h req
    | some p ↦ do
      launched ← launch_group job p req.data_part.comp_config 0
      elim launched [
        | none ↦ pure (h, ret_err)
        | some (comp_group, group) ↦ do
          j ← load_job job
          elim j.handle [
            | none ↦ refuse h req
            | some handle ↦ do
              event ←
                  create_new_job_event job_event_start_comp job group comp_group
                    sched_event_busy_wait handle
              await_event others rounds event
              accept h req
          ]
      ]
  ]

unfoldable pub handle_mem_alloc : LocalHandler → SaaReq → M Handled
handle_mem_alloc h req = do
  job ← deref h.job
  known ← find_memory_entry_job job req.data_part.mem_id
  elim known [
    | some _ ↦ refuse h req
    | none ↦ do
      made ←
          allocate_master_object_root h.jid job h.api_channel req.data_part.mem_size
            req.data_part.mem_id
      elim made [
        | none ↦ refuse h req
        | some entry ↦ do
          _ ← register_mem_entry_root entry
          e ← load_entry entry
          mr ← deref e.mr
          let req' = record req { data_part = record (req.data_part) { mr = mr } }
          _ ← respond_api h (with_status req' success)
          pure (h, ret_ok)
      ]
  ]

-- HandleMemMap, HandleMemPut, HandleMemGet and HandleMemUpdate, which are not implemented.
unfoldable pub handle_mem_other : LocalHandler → SaaReq → M Handled
handle_mem_other h req = refuse h req

-- One request of the loop of `Execute`: the dispatch, and the end after an unregistration.
unfoldable pub dispatch : (World → World) → ℕ → LocalHandler → SaaReq → SaaReqType → M LocalHandler
dispatch others rounds h req saa_unregister_pe = do
  r ← handle_unregister_pe h req
  elim r.1 [ ret_ok ↦ pure (record (r.0) { terminate = true }) | ret_err ↦ pure r.0 ]
dispatch others rounds h req saa_register_pe = do
  r ← handle_register_pe others rounds h req
  pure r.0
dispatch others rounds h req saa_register_comp = do r ← handle_register_comp h req; pure r.0
dispatch others rounds h req saa_configure_comp = do r ← handle_configure_comp h req; pure r.0
dispatch others rounds h req saa_launch_comp = do
  r ← handle_launch_comp others rounds h req
  pure r.0
dispatch others rounds h req saa_mem_alloc = do r ← handle_mem_alloc h req; pure r.0
dispatch others rounds h req saa_mem_map = do r ← handle_mem_other h req; pure r.0
dispatch others rounds h req saa_mem_put = do r ← handle_mem_other h req; pure r.0
dispatch others rounds h req saa_mem_get = do r ← handle_mem_other h req; pure r.0
dispatch others rounds h req saa_mem_update = do r ← handle_mem_other h req; pure r.0

unfoldable pub is_local : ReqType → Bool
is_local local = true
is_local remote = false

-- The loop of `Execute`, `requests` rounds at most, and the close of the channel behind it.
unfoldable pub execute_loop : (World → World) → ℕ → ℕ → LocalHandler → M (Unit {0})
execute_loop others rounds zero h = λ w. blocked
execute_loop others rounds (suc k) h = do
  got ← ch_recv_saa h.api_channel
  elim got [
    | none ↦ pure tt
    | some req ↦ elim (is_local req.head.type) [
      | false ↦ pure tt
      | true ↦ do
        h' ← dispatch others rounds h req req.data_part.type
        elim h'.terminate [ true ↦ pure tt | false ↦ execute_loop others rounds k h' ]
    ]
  ]

unfoldable pub execute : (World → World) → ℕ → ℕ → LocalHandler → M (Unit {0})
execute others rounds requests h = do
  execute_loop others rounds requests h
  _ ← ch_close h.api_channel
  pure tt
