-- ===== src/Sched/Jobs.antt =====
-- Jobs and computations: the create-and-add operations of src/vivm/sched/sched_helpers.h for them.
pub mod Table
use flex_gas.Container.Map.{bytes_key, erase, find, insert, nat_key}
use flex_gas.Prelude.{Bytes, [], false, none, some, ℕ, ◌%◌, ◌+◌}
use flex_gas.Sched.Find.{lock_job_tab, unlock_job_tab}
use flex_gas.Sched.Requests.{SaaReq, SagReq}
use flex_gas.Sched.Types.{Ptr, ivm_any}
use flex_gas.Sched.World.{
  M, Ret, done, get, job_cm_mtx, load_comp, load_job, lock, new_job, pure, ret_err, ret_ok,
  store_comp, store_job, unlock, ◌>>=◌, ◌>>◌,
}

-- job_id, group_id, device_id and pe_id are uint32_t.
abbrev pub u32 : ℕ
u32 = 0x100000000

unfoldable pub get_new_job_id : M ℕ
get_new_job_id w = done w.job_id_cnt (record w { job_id_cnt = (w.job_id_cnt + 1) % u32 })

-- The fields of a request that a job is made from.
pub record JobArgs : Type 0 where
  pub uid : ℕ
  pub pid : ℕ
  pub argc : ℕ
  pub argv : Bytes
  pub path : Bytes
  pub bin : Bytes

-- A `saa_req` cast from a `sag_req`: the type in the head says which of the two it is. The default
-- branch of the switch is for a type that is neither, which the enumeration excludes.
pub data AnyReq : Type 0 where
  from_api : SaaReq → AnyReq
  from_agent : SagReq → AnyReq

unfoldable pub job_args : AnyReq → JobArgs
job_args (from_api r) = record {
  uid = r.head.uid;
  pid = r.head.pid;
  argc = r.data_part.argc;
  argv = r.data_part.argv;
  path = r.data_part.path;
  bin = r.data_part.bin;
}
job_args (from_agent r) = record {
  uid = r.head.uid;
  pid = r.head.pid;
  argc = r.data_part.argc;
  argv = r.data_part.argv;
  path = r.data_part.path;
  bin = r.data_part.bin;
}

unfoldable pub create_new_job_id : AnyReq → ℕ → M Ptr
create_new_job_id req jid =
    let a = job_args req in
    new_job (record {
      jid = jid;
      uid = a.uid;
      pid = a.pid;
      gid_cnt = 0;
      argc = a.argc;
      argv = a.argv;
      path = a.path;
      bin = a.bin;
      handle = none;
      comp_tab = [];
      group_tab = [];
      mem_tab = [];
    })

unfoldable pub create_new_job : SaaReq → M Ptr
create_new_job req = do jid ← get_new_job_id; create_new_job_id (from_api req) jid

unfoldable pub register_job : Ptr → M Ret
register_job job = do
  lock_job_tab
  j ← load_job job
  (λ w. done tt (record w { job_tab = insert j.jid job w.job_tab }))
  unlock_job_tab
  pure ret_ok

unfoldable pub unregister_job : Ptr → M Ret
unregister_job job = do
  lock_job_tab
  j ← load_job job
  w ← get
  elim (find j.jid w.job_tab) [
    | none ↦ (do unlock_job_tab; pure ret_err)
    | some _ ↦ do
      (λ w. done tt (record w { job_tab = erase j.jid w.job_tab }))
      unlock_job_tab
      pure ret_ok
  ]

-- The new entry is not configured; where the name is taken the table keeps its old entry.
unfoldable pub add_new_computation_to_table : Ptr → Ptr → Bytes → ℕ → M Ret
add_new_computation_to_table job comp comp_id comp_fn_ptr = do
  c ← load_comp comp
  store_comp comp (record c {
    comp_id = comp_id;
    ptr = comp_fn_ptr;
    is_configured = false;
    config = record (c.config) { max_pes_num = 0; type = ivm_any };
  })
  _ ← load_job job
  lock (job_cm_mtx job)
  j ← load_job job
  store_job job (record j { comp_tab = insert comp_id comp j.comp_tab })
  _ ← load_job job
  unlock (job_cm_mtx job)
  pure ret_ok
