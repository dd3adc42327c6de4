-- ===== src/Sched/Groups.antt =====
-- Groups: the create-and-add operations of src/vivm/sched/sched_helpers.h for them.
pub mod Table
use flex_gas.Container.Map.{bytes_key, erase, find, insert, nat_key}
use flex_gas.Prelude.{Bool, [], if◌then◌else◌, length, none, not, some, ℕ, ◌%◌, ◌+◌, ◌==◌}
use flex_gas.Sched.Find.{lock_group_tab, unlock_group_tab}
use flex_gas.Sched.Jobs.{u32}
use flex_gas.Sched.Types.{Ptr}
use flex_gas.Sched.World.{
  M, Ret, load_comp, load_group, load_job, new_group, pure, ret_err, ret_ok, store_job, ◌>>=◌, ◌>>◌,
}

unfoldable pub get_new_group_id : Ptr → M ℕ
get_new_group_id job = do
  j ← load_job job
  store_job job (record j { gid_cnt = (j.gid_cnt + 1) % u32 })
  pure j.gid_cnt

unfoldable pub create_new_group_id : Ptr → Ptr → ℕ → ℕ → M Ptr
create_new_group_id job comp gid rec_level = do
  j ← load_job job
  c ← load_comp comp
  new_group (record {
    jid = j.jid;
    gid = gid;
    uid = j.uid;
    pid = j.pid;
    did_cnt = 0;
    peid_cnt = 0;
    rec_level = rec_level;
    handle = none;
    comp_tab = insert c.comp_id comp [];
    device_tab = [];
    pe_tab = [];
    killed_pe_tab = [];
    job = job;
    mem_tab = [];
  })

unfoldable pub create_new_group : Ptr → Ptr → ℕ → M Ptr
create_new_group job comp rec_level = do
  gid ← get_new_group_id job
  create_new_group_id job comp gid rec_level

unfoldable pub register_group : Ptr → Ptr → M Ret
register_group job group = do
  g ← load_group group
  if not (g.job == job) then pure ret_err else do
    lock_group_tab job
    j ← load_job job
    store_job job (record j { group_tab = insert g.gid group j.group_tab })
    unlock_group_tab job
    pure ret_ok

unfoldable pub unregister_group : Ptr → Ptr → M Ret
unregister_group job group = do
  g ← load_group group
  if not (g.job == job) then pure ret_err else do
    lock_group_tab job
    j ← load_job job
    elim (find g.gid j.group_tab) [
      | none ↦ (do unlock_group_tab job; pure ret_err)
      | some _ ↦ do
        store_job job (record j { group_tab = erase g.gid j.group_tab })
        unlock_group_tab job
        pure ret_ok
    ]

unfoldable pub is_group_tab_empty : Ptr → M Bool
is_group_tab_empty job = do
  lock_group_tab job
  j ← load_job job
  unlock_group_tab job
  pure (length j.group_tab == 0)
