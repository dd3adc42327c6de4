-- ===== src/Sched/Memory.antt =====
-- Memory entries and data objects of src/vivm/sched/sched_helpers.h.
pub mod Names
use flex_gas.Container.Map.{bytes_key, insert, nat_key}
use flex_gas.Prelude.{
  Bytes, Option, [], false, if◌then◌else◌, ltb, none, some, suc, take, true, zero, ℕ, ◌%◌, ◌++◌,
  ◌+◌, ◌-◌, ◌/◌, ◌∷◌,
}
use flex_gas.Sched.Find.{
  is_global, lock_mem_entry, lock_mem_tab_group, lock_mem_tab_job, unlock_mem_entry,
  unlock_mem_tab_group, unlock_mem_tab_job,
}
use flex_gas.Sched.Jobs.{u32}
use flex_gas.Sched.Requests.{mapped_object, sched_api_root, shm_object}
use flex_gas.Sched.Types.{CopyType, Mr, Ptr, mem_master, mem_mirror}
use flex_gas.Sched.World.{
  M, Ret, ch_region, deref, load_device, load_entry, load_group, load_job, new_entry, pure, ret_ok,
  store_entry, store_group, store_job, ◌>>=◌, ◌>>◌,
}

-- What `snprintf` leaves in a buffer of MAX_STR_LEN bytes.
abbrev pub clipped : Bytes → Bytes
clipped s = take 127 s

-- The decimal digits of a number below 10 ^ rounds.
unfoldable pub digits : ℕ → ℕ → Bytes
digits zero n = []
digits (suc k) n =
    let low = b'0' + n % 10 in
    elim (ltb n 10) [ true ↦ low ∷ [] | false ↦ digits k (n / 10) ++ low ∷ [] ]

-- `%d` of a uint32_t, which is read as an int.
unfoldable pub print_d : ℕ → Bytes
print_d n = if ltb n 0x80000000 then digits 10 n else b'-' ∷ digits 10 (u32 - n)

-- A dash and a number.
abbrev pub dashed : ℕ → Bytes
dashed n = b'-' ∷ print_d n

-- decorate_mem_id; the group is followed only where the object is local to it.
unfoldable pub decorate_mem_id : Bytes → Ptr → Option Ptr → ℕ → M Bytes
decorate_mem_id mem_id job group flags = do
  j ← load_job job
  if is_global flags then pure (clipped (mem_id ++ (dashed j.uid ++ dashed j.jid))) else do
    gp ← deref group
    g ← load_group gp
    pure (clipped (mem_id ++ (dashed j.uid ++ (dashed j.jid ++ dashed g.gid))))

unfoldable pub create_memory_entry :
    CopyType
    → (jid gid master_did : ℕ) (job : Ptr) (group master_device : Option Ptr) → Bytes
    → Option ℕ
    → Option Mr
    → M Ptr
create_memory_entry copy_type jid gid master_did job group master_device iden ptr mr =
    new_entry (record {
      iden = clipped iden;
      copy_type = copy_type;
      local_ptr = ptr;
      mr = mr;
      jid = jid;
      gid = gid;
      master_did = master_did;
      job = job;
      group = group;
      master_device = master_device;
      remote_device = [];
    })

unfoldable pub register_mem_entry_root : Ptr → M Ret
register_mem_entry_root entry = do
  e ← load_entry entry
  lock_mem_tab_job e.job
  j ← load_job e.job
  store_job e.job (record j { mem_tab = insert e.iden entry j.mem_tab })
  unlock_mem_tab_job e.job
  pure ret_ok

unfoldable pub register_mem_entry : Ptr → ℕ → M Ret
register_mem_entry entry flags = do
  e ← load_entry entry
  if is_global flags then register_mem_entry_root entry else do
    gp ← deref e.group
    lock_mem_tab_group gp
    g ← load_group gp
    store_group gp (record g { mem_tab = insert e.iden entry g.mem_tab })
    unlock_mem_tab_group gp
    pure ret_ok

unfoldable pub register_remote_dmr : Ptr → Option Ptr → Option Mr → M Ret
register_remote_dmr entry r_device r_mr = do
  lock_mem_entry entry
  e ← load_entry entry
  store_entry entry
      (record e { remote_device = e.remote_device ++ record { device = r_device; mr = r_mr } ∷ [] })
  unlock_mem_entry entry
  pure ret_ok

-- The entry, or `none` for a return of -1.
unfoldable pub allocate_master_object_root : ℕ → Ptr → (channel size : ℕ) → Bytes → M (Option Ptr)
allocate_master_object_root jid job channel size mem_id = do
  name ← decorate_mem_id mem_id job none 0x10
  r ← ch_region channel (shm_object name size)
  elim r [
    | none ↦ pure none
    | some mr ↦ do
      entry ←
          create_memory_entry mem_master jid sched_api_root sched_api_root job none none mem_id none
            (some mr)
      pure (some entry)
  ]

-- The object is registered with the local channel under its name, then with the device's channel
-- at the address that the first registration gave.
unfoldable pub register_twice : ℕ → Ptr → ℕ → Bytes → M (Option Mr)
register_twice channel device size name = do
  r ← ch_region channel (shm_object name size)
  elim r [
    | none ↦ pure none
    | some mr ↦ do d ← load_device device; ch_region d.request_ch (mapped_object mr.addr size)
  ]

unfoldable pub allocate_master_object :
    (jid gid did : ℕ) (job group device : Ptr) (channel size : ℕ) → Bytes → ℕ → M (Option Ptr)
allocate_master_object jid gid did job group device channel size mem_id flags = do
  name ← decorate_mem_id mem_id job (some group) flags
  r ← register_twice channel device size name
  elim r [
    | none ↦ pure none
    | some mr ↦ do
      entry ←
          create_memory_entry mem_master jid gid did job (some group) (some device) mem_id none
            (some mr)
      pure (some entry)
  ]

unfoldable pub allocate_mirror_object :
    (jid gid did : ℕ) (job group device : Ptr) (master_device : Option Ptr) (master_mr : Option Mr)
    (channel size : ℕ)
    → Bytes
    → ℕ
    → M (Option Ptr)
allocate_mirror_object jid gid did job group device master_device master_mr channel size mem_id
      flags =
    do
      name ← decorate_mem_id mem_id job (some group) flags
      r ← register_twice channel device size name
      elim r [
        | none ↦ pure none
        | some mr ↦ do
          entry ←
              create_memory_entry mem_mirror jid gid did job (some group) (some device) mem_id
                (some mr.addr) (some mr)
          _ ← register_remote_dmr entry master_device master_mr
          pure (some entry)
      ]
