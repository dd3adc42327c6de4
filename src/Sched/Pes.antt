-- ===== src/Sched/Pes.antt =====
-- Process elements: the create-and-add operations of src/vivm/sched/sched_helpers.h for them.
pub mod Numbers
pub mod Tables
use flex_gas.Container.Map.{bytes_key, erase, find, insert, nat_key}
use flex_gas.Prelude.{
  Bool, List, [], false, if◌then◌else◌, ltb, none, not, some, suc, zero, ℕ, ◌%◌, ◌&&◌, ◌+◌, ◌-◌,
  ◌==◌, ◌∷◌,
}
use flex_gas.Sched.Find.{lock_device_tab, unlock_device_tab}
use flex_gas.Sched.Jobs.{u32}
use flex_gas.Sched.Types.{Group, Ptr}
use flex_gas.Sched.World.{
  M, Ret, World, done, fault, load_device, load_group, load_job, load_pe, new_pe, on_ok, pure,
  ret_err, ret_ok, store_group, ◌>>=◌, ◌>>◌,
}

unfoldable pub get_current_max_peid : Group → ℕ
get_current_max_peid g = if ltb 0 g.peid_cnt then g.peid_cnt - 1 else 0

unfoldable pub create_new_pe_id :
    (pid uid jid gid hid did peid : ℕ) (comp device group job : Ptr) → M Ptr
create_new_pe_id pid uid jid gid hid did peid comp device group job = new_pe (record {
  pid = pid;
  uid = uid;
  jid = jid;
  gid = gid;
  hid = hid;
  did = did;
  peid = peid;
  comp = comp;
  device = device;
  group = group;
  job = job;
  is_killed = false;
})

-- The first and the last of `num_pes` new identifiers.
unfoldable pub get_new_peids : Ptr → ℕ → M (ℕ × ℕ)
get_new_peids group num_pes = do
  lock_device_tab group
  g ← load_group group
  let cnt = (g.peid_cnt + num_pes) % u32
  store_group group (record g { peid_cnt = cnt })
  unlock_device_tab group
  pure (g.peid_cnt, (cnt + u32 - 1) % u32)

-- The three checks that `register_pes` and both functions for killed PEs begin with.
unfoldable pub belong_together : Ptr → Ptr → Ptr → M Bool
belong_together job group device = do
  g ← load_group group
  if not (g.job == job)
      then pure false
      else do d ← load_device device; pure ((d.group == group) && (d.job == job))

unfoldable pub register_pes_loop : Ptr → List Ptr → M Ret
register_pes_loop group [] = do unlock_device_tab group; pure ret_ok
register_pes_loop group (p ∷ ps) = do
  pe ← load_pe p
  g ← load_group group
  store_group group (record g { pe_tab = insert pe.peid p g.pe_tab })
  register_pes_loop group ps

unfoldable pub register_pes : Ptr → Ptr → Ptr → List Ptr → M Ret
register_pes job group device pes = do
  b ← belong_together job group device
  if not b then pure ret_err else do lock_device_tab group; register_pes_loop group pes

unfoldable pub unregister_pes_loop : Ptr → List Ptr → M Ret
unregister_pes_loop group [] = do unlock_device_tab group; pure ret_ok
unregister_pes_loop group (p ∷ ps) = do
  pe ← load_pe p
  g ← load_group group
  elim (find pe.peid g.pe_tab) [
    | none ↦ (do unlock_device_tab group; pure ret_err)
    | some _ ↦ do
      store_group group (record g { pe_tab = erase pe.peid g.pe_tab })
      unregister_pes_loop group ps
  ]

-- The overload for PE structures; `pes[0]` is read first, so the list may not be empty.
unfoldable pub unregister_pes : Ptr → Ptr → Ptr → List Ptr → M Ret
unregister_pes job group device [] = λ w. fault
unregister_pes job group device (p ∷ ps) = do
  pe ← load_pe p
  if not ((pe.job == job) && (pe.group == group) && (pe.device == device))
      then pure ret_err
      else do lock_device_tab group; unregister_pes_loop group (p ∷ ps)

-- The wait for another thread to register a PE, `rounds` looks at most. `others` is what the other
-- threads do to the state between two looks.
unfoldable pub await_pe : (World → World) → ℕ → Ptr → ℕ → M (Unit {0})
await_pe others zero group peid = pure tt
await_pe others (suc k) group peid = do
  (λ w. done tt (others w))
  lock_device_tab group
  g ← load_group group
  unlock_device_tab group
  elim (find peid g.pe_tab) [ some _ ↦ pure tt | none ↦ await_pe others k group peid ]

-- The three checks on an entry of the PE table, and its removal.
unfoldable pub drop_pe : Ptr → Ptr → Ptr → ℕ → Ptr → M Ret
drop_pe job group device peid p = do
  pe ← load_pe p
  pj ← load_job pe.job
  j ← load_job job
  if not ((pj.jid == j.jid) && (pe.group == group) && (pe.device == device))
      then (do unlock_device_tab group; pure ret_err)
      else do
        g ← load_group group
        store_group group (record g { pe_tab = erase peid g.pe_tab })
        pure ret_ok

-- One round of the loop: the PE is looked up, awaited where it is missing, looked up again.
unfoldable pub unregister_peid : (World → World) → ℕ → Ptr → Ptr → Ptr → ℕ → M Ret
unregister_peid others rounds job group device peid = do
  g ← load_group group
  elim (find peid g.pe_tab) [
    | some p ↦ drop_pe job group device peid p
    | none ↦ do
      unlock_device_tab group
      await_pe others rounds group peid
      lock_device_tab group
      g' ← load_group group
      elim (find peid g'.pe_tab) [
        | none ↦ (do unlock_device_tab group; pure ret_err)
        | some p ↦ drop_pe job group device peid p
      ]
  ]

unfoldable pub unregister_peids_loop : (World → World) → ℕ → Ptr → Ptr → Ptr → List ℕ → M Ret
unregister_peids_loop others rounds job group device [] = do unlock_device_tab group; pure ret_ok
unregister_peids_loop others rounds job group device (i ∷ is) = do
  r ← unregister_peid others rounds job group device i
  on_ok r (unregister_peids_loop others rounds job group device is)

-- The overload for PE identifiers. The source waits for 2000000000 rounds.
unfoldable pub unregister_peids : (World → World) → ℕ → Ptr → Ptr → Ptr → List ℕ → M Ret
unregister_peids others rounds job group device peids = do
  lock_device_tab group
  unregister_peids_loop others rounds job group device peids

unfoldable pub register_killed_pes_loop : Ptr → List Ptr → M Ret
register_killed_pes_loop group [] = do unlock_device_tab group; pure ret_ok
register_killed_pes_loop group (p ∷ ps) = do
  pe ← load_pe p
  g ← load_group group
  store_group group (record g { killed_pe_tab = insert pe.peid p g.killed_pe_tab })
  register_killed_pes_loop group ps

unfoldable pub register_killed_pes : Ptr → Ptr → Ptr → List Ptr → M Ret
register_killed_pes job group device pes = do
  b ← belong_together job group device
  if not b then pure ret_err else do lock_device_tab group; register_killed_pes_loop group pes

unfoldable pub unregister_killed_pes_loop : Ptr → List Ptr → M Ret
unregister_killed_pes_loop group [] = do unlock_device_tab group; pure ret_ok
unregister_killed_pes_loop group (p ∷ ps) = do
  pe ← load_pe p
  g ← load_group group
  elim (find pe.peid g.killed_pe_tab) [
    | none ↦ (do unlock_device_tab group; pure ret_err)
    | some q ↦ do
      e ← load_pe q
      if not ((pe.job == e.job) && (pe.group == e.group))
          then (do unlock_device_tab group; pure ret_err)
          else do
            store_group group (record g { killed_pe_tab = erase pe.peid g.killed_pe_tab })
            unregister_killed_pes_loop group ps
  ]

unfoldable pub unregister_killed_pes : Ptr → Ptr → Ptr → List Ptr → M Ret
unregister_killed_pes job group device pes = do
  b ← belong_together job group device
  if not b then pure ret_err else do lock_device_tab group; unregister_killed_pes_loop group pes
