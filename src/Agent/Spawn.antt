-- ===== src/Agent/Spawn.antt =====
-- The start of PEs: `create_pes` and HandlerSpawnPes of src/vivm/agent/agent_remote_handler.cpp.
-- What `fork` gives to the agent is read from `net.forks`: the child's process id, or `none` for an
-- error. The child only loads another program.
pub mod Arrival
use flex_gas.Agent.Remote.{AgentHandler, Served, accept_sched, refuse_sched}
use flex_gas.Container.Map.{bytes_key, find, nat_key}
use flex_gas.Container.TsMap.{insert_pair}
use flex_gas.Prelude.{
  Bool, List, Option, [], false, if◌then◌else◌, none, not, some, suc, true, zero, ℕ, ◌%◌, ◌&&◌, ◌+◌,
  ◌==◌, ◌∷◌,
}
use flex_gas.Sched.Jobs.{u32}
use flex_gas.Sched.Requests.{SagReq, sched_api_root}
use flex_gas.Sched.Types.{
  Comp, Device, DeviceType, Group, Job, ProspPe, Ptr, ivm_any, ivm_cpu, ivm_gpu,
}
use flex_gas.Sched.World.{
  M, Ret, World, blocked, deref, done, load_comp, load_device, load_group, load_job, load_notif,
  new_notif, next_result, pure, remaining, ret_err, ret_ok, ◌>>=◌, ◌>>◌,
}

unfoldable pub fork : M (Option ℕ)
fork w =
    done (next_result w.net.forks)
      (record w { net = record (w.net) { forks = remaining w.net.forks } })

-- The notification bytes before any PE has come, all PE_PENDING.
unfoldable pub pending : ℕ → List Bool
pending zero = []
pending (suc n) = false ∷ pending n

-- The entry for the process that becomes the PE with index `idx` of the request.
unfoldable pub prospective :
    SagReq → Device → Ptr → Job → Group → (comp : Ptr) → Comp → (notif idx pid : ℕ) → ProspPe
prospective req d device j g comp c notif idx pid = record {
  job = d.job;
  group = d.group;
  device = device;
  pid = pid;
  uid = j.uid;
  jid = d.jid;
  gid = d.gid;
  hid = sched_api_root;
  did = d.did;
  peid = (req.data_part.s_peid + idx) % u32;
  rec_level = g.rec_level;
  comp = comp;
  comp_desc_exec = c.ptr;
  notif = notif;
  notif_idx = idx;
}

unfoldable pub add_prospective : ProspPe → M (Unit {0})
add_prospective ppe w =
    done tt (record w { prosp_pe_tab = insert_pair (ppe.pid, ppe) w.prosp_pe_tab })

-- The loop of the forks, from index `idx` on. A fork that fails is passed over.
unfoldable pub fork_pes : SagReq → Ptr → Ptr → (notif todo idx : ℕ) → M (Unit {0})
fork_pes req device comp notif zero idx = pure tt
fork_pes req device comp notif (suc k) idx = do
  child ← fork
  elim child [
    | none ↦ pure tt
    | some pid ↦ do
      d ← load_device device
      j ← load_job d.job
      g ← load_group d.group
      c ← load_comp comp
      add_prospective (prospective req d device j g comp c notif idx pid)
  ]
  fork_pes req device comp notif k (idx + 1)

-- Whether the first `n` bytes are all PE_SPAWNED.
unfoldable pub all_spawned : ℕ → List Bool → Bool
all_spawned zero flags = true
all_spawned (suc n) [] = false
all_spawned (suc n) (b ∷ flags) = b && all_spawned n flags

-- The wait for the PEs: `true` when all have come, `false` after the last of its looks, 1000000000
-- in the source.
unfoldable pub await_spawned : (World → World) → (looks notif num_pes : ℕ) → M Bool
await_spawned others zero notif num_pes = pure false
await_spawned others (suc k) notif num_pes = do
  (λ w. done tt (others w))
  flags ← load_notif notif
  elim (all_spawned num_pes flags) [
    | true ↦ pure true
    | false ↦ await_spawned others k notif num_pes
  ]

-- create_pes, `retries` rounds of its `goto` at most.
unfoldable pub create_pes : (World → World) → (looks retries : ℕ) → SagReq → Ptr → M Ret
create_pes others looks zero req device = λ w. blocked
create_pes others looks (suc n) req device = do
  d ← load_device device
  g ← load_group d.group
  elim (find req.data_part.comp.comp_id g.comp_tab) [
    | none ↦ pure ret_err
    | some comp ↦ do
      _ ← load_job d.job
      notif ← new_notif (pending req.data_part.num_pes)
      fork_pes req device comp notif req.data_part.num_pes 0
      spawned ← await_spawned others looks notif req.data_part.num_pes
      elim spawned [ true ↦ pure ret_ok | false ↦ create_pes others looks n req device ]
  ]

unfoldable pub same_type : DeviceType → DeviceType → Bool
same_type ivm_cpu ivm_cpu = true
same_type ivm_gpu ivm_gpu = true
same_type ivm_any ivm_any = true
same_type _ _ = false

unfoldable pub handler_spawn_pes :
    (World → World) → (looks retries : ℕ) → AgentHandler → SagReq → M Served
handler_spawn_pes others looks retries h req = do
  device ← deref h.device
  d ← load_device device
  if not (same_type req.data_part.device_type_pes d.phy.type)
      then refuse_sched h req
      else if not (req.data_part.phy_dev_id_pes == d.phy.phy_dev_id)
      then refuse_sched h req
      else do
        r ← create_pes others looks retries req device
        elim r [ ret_err ↦ refuse_sched h req | ret_ok ↦ accept_sched h req ]
