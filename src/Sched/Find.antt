-- ===== src/Sched/Find.antt =====
-- Search and lock operations of src/vivm/sched/sched_helpers.h. A search gives a pointer or NULL.
-- The lock functions follow their argument to the mutex inside it, so the object must live.
use flex_gas.Container.Map.{bytes_key, find, nat_key}
use flex_gas.Prelude.{Bool, Bytes, Option, if◌then◌else◌, none, not, some, ℕ, ◌==◌}
use flex_gas.Sched.Types.{Ptr}
use flex_gas.Sched.World.{
  M, device_pem_mtx, done, entry_mtx, group_mm_mtx, group_pem_mtx, job_cm_mtx, job_mm_mtx,
  job_pem_mtx, job_tab_mutex, load_device, load_entry, load_group, load_job, lock, pure, unlock,
  ◌>>=◌, ◌>>◌,
}

unfoldable pub find_job : ℕ → M (Option Ptr)
find_job jid w = done (find jid w.job_tab) w

unfoldable pub find_group : Ptr → ℕ → M (Option Ptr)
find_group job gid = do j ← load_job job; pure (find gid j.group_tab)

-- The overload that starts from the global identifier of the job.
unfoldable pub find_group_of_jid : ℕ → ℕ → M (Option Ptr)
find_group_of_jid jid gid = do
  job ← find_job jid
  elim job [ none ↦ pure none | some p ↦ find_group p gid ]

unfoldable pub find_device : Ptr → ℕ → M (Option Ptr)
find_device group did = do g ← load_group group; pure (find did g.device_tab)

unfoldable pub find_memory_entry_job : Ptr → Bytes → M (Option Ptr)
find_memory_entry_job job mem_id = do j ← load_job job; pure (find mem_id j.mem_tab)

unfoldable pub find_memory_entry_group : Ptr → Bytes → M (Option Ptr)
find_memory_entry_group group mem_id = do g ← load_group group; pure (find mem_id g.mem_tab)

-- IVM_MEM_GLOBAL is not zero, so `flags && IVM_MEM_GLOBAL` holds of every flags but 0.
abbrev pub is_global : ℕ → Bool
is_global flags = not (flags == 0)

unfoldable pub find_memory_entry : Ptr → Bytes → ℕ → M (Option Ptr)
find_memory_entry group mem_id flags =
    if is_global flags
    then (do g ← load_group group; find_memory_entry_job g.job mem_id)
    else find_memory_entry_group group mem_id

abbrev pub lock_job_tab : M (Unit {0})
lock_job_tab = lock job_tab_mutex

abbrev pub unlock_job_tab : M (Unit {0})
unlock_job_tab = unlock job_tab_mutex

abbrev pub lock_group_tab : Ptr → M (Unit {0})
lock_group_tab job = do _ ← load_job job; lock (job_pem_mtx job)

abbrev pub unlock_group_tab : Ptr → M (Unit {0})
unlock_group_tab job = do _ ← load_job job; unlock (job_pem_mtx job)

abbrev pub lock_device_tab : Ptr → M (Unit {0})
lock_device_tab group = do _ ← load_group group; lock (group_pem_mtx group)

abbrev pub unlock_device_tab : Ptr → M (Unit {0})
unlock_device_tab group = do _ ← load_group group; unlock (group_pem_mtx group)

abbrev pub lock_device_internal : Ptr → M (Unit {0})
lock_device_internal device = do _ ← load_device device; lock (device_pem_mtx device)

abbrev pub unlock_device_internal : Ptr → M (Unit {0})
unlock_device_internal device = do _ ← load_device device; unlock (device_pem_mtx device)

abbrev pub lock_mem_tab_job : Ptr → M (Unit {0})
lock_mem_tab_job job = do _ ← load_job job; lock (job_mm_mtx job)

abbrev pub unlock_mem_tab_job : Ptr → M (Unit {0})
unlock_mem_tab_job job = do _ ← load_job job; unlock (job_mm_mtx job)

abbrev pub lock_mem_tab_group : Ptr → M (Unit {0})
lock_mem_tab_group group = do _ ← load_group group; lock (group_mm_mtx group)

abbrev pub unlock_mem_tab_group : Ptr → M (Unit {0})
unlock_mem_tab_group group = do _ ← load_group group; unlock (group_mm_mtx group)

abbrev pub lock_mem_entry : Ptr → M (Unit {0})
lock_mem_entry entry = do _ ← load_entry entry; lock (entry_mtx entry)

abbrev pub unlock_mem_entry : Ptr → M (Unit {0})
unlock_mem_entry entry = do _ ← load_entry entry; unlock (entry_mtx entry)

-- The overloads that start from a job identifier do nothing for one that is not in the table.
unfoldable pub lock_group_tab_of_jid : ℕ → M (Unit {0})
lock_group_tab_of_jid jid = do
  job ← find_job jid
  elim job [ none ↦ pure tt | some p ↦ lock_group_tab p ]

unfoldable pub unlock_group_tab_of_jid : ℕ → M (Unit {0})
unlock_group_tab_of_jid jid = do
  job ← find_job jid
  elim job [ none ↦ pure tt | some p ↦ unlock_group_tab p ]

-- The search for a computation under the job's mutex: -1 leaves `*comp` alone. After the unlock
-- the source reads the entry that its iterator still stands at.
unfoldable pub get_computation_from_table : Ptr → Bytes → M (Option Ptr)
get_computation_from_table job comp_id = do
  _ ← load_job job
  lock (job_cm_mtx job)
  j ← load_job job
  _ ← load_job job
  unlock (job_cm_mtx job)
  pure (find comp_id j.comp_tab)
