-- ===== src/Sched/Local/Allocate.antt =====
-- Objects that a program allocates in its job.
use flex_gas.Container.Map.{bytes_key, find, insert, nat_key}
use flex_gas.Prelude.{Bytes, [], arith, none, some, ◌++◌, ◌+◌, ◌∷◌, ◌≡◌}
use flex_gas.Sched.Find.{find_memory_entry_job}
use flex_gas.Sched.Local.{LocalHandler, handle_mem_alloc, refuse, with_status}
use flex_gas.Sched.Local.Foreign.{refused}
use flex_gas.Sched.Memory.{
  allocate_master_object_root, clipped, create_memory_entry, dashed, decorate_mem_id,
  register_mem_entry_root,
}
use flex_gas.Sched.Requests.{SaaReq, saa, sched_api_root, shm_object}
use flex_gas.Sched.Types.{Job, MemEt, Mr, Ptr, mem_master, success}
use flex_gas.Sched.World.{World, after_send, done, ret_err, ret_ok, update}

-- The entry that an allocation makes.
abbrev pub allocated : LocalHandler → SaaReq → Ptr → Mr → MemEt
allocated h req job mr = record {
  iden = clipped req.data_part.mem_id;
  copy_type = mem_master;
  local_ptr = none;
  mr = some mr;
  jid = h.jid;
  gid = sched_api_root;
  master_did = sched_api_root;
  job = job;
  group = none;
  master_device = none;
  remote_device = [];
}

module _ (h : LocalHandler) (req : SaaReq) (job : Ptr) (j : Job) (w : World) (hj : h.job ≡ some job)
    (live : w.jobs job ≡ some j) (free : w.held ≡ []) where
  -- The shared name of the object.
  abbrev pub shm_name : Bytes
  shm_name = clipped (req.data_part.mem_id ++ (dashed j.uid ++ dashed j.jid))

  -- An allocation, on every branch: a name that the job has is refused without a change; a region
  -- that cannot be registered is refused, and no entry is made; else the entry of the new master
  -- copy is in the table of the job, and the answer carries its region.
  pub handle_mem_alloc_lem :
      handle_mem_alloc h req w ≡ (elim (find req.data_part.mem_id j.mem_tab) [
        | some _ ↦ done (h, ret_err) (refused h req w)
        | none ↦ elim w.net.regions [
          | [] ↦ done (h, ret_err) (refused h req w)
          | r ∷ rs ↦ (elim r [
            | none ↦
                done
                  (h, ret_err)
                  (refused h req (record w { net = record (w.net) { regions = rs } }))
            | some mr ↦
                done
                  (h, ret_ok)
                  (after_send h.api_channel
                    (saa (
                      with_status
                        (record req { data_part = record (req.data_part) { mr = mr } })
                        success))
                    (record w {
                      entries = update w.entries w.fresh (some (allocated h req job mr));
                      fresh = w.fresh + 1;
                      jobs = update w.jobs job (
                          some (record j {
                            mem_tab = insert (clipped req.data_part.mem_id) w.fresh j.mem_tab;
                          }));
                      net = record (w.net) { regions = rs };
                      sent =
                          w.sent
                          ++ (h.api_channel, shm_object shm_name req.data_part.mem_size) ∷ [];
                    }))
          ])
        ]
      ])
  unfolding handle_mem_alloc find_memory_entry_job allocate_master_object_root decorate_mem_id
      create_memory_entry register_mem_entry_root refuse
  handle_mem_alloc_lem = ground arith
