-- ===== src/Agent/Remote/Delete.antt =====
-- The end of a group on an agent.
use flex_gas.Agent.Remote.{AgentHandler, delete_group_of, delete_job_of}
use flex_gas.Container.Map.{bytes_key, erase, find, nat_key}
use flex_gas.Prelude.{[], arith, is_some, length, some, true, ◌<◌, ◌≡◌}
use flex_gas.Sched.Devices.{unregister_device}
use flex_gas.Sched.Groups.{is_group_tab_empty, unregister_group}
use flex_gas.Sched.Jobs.{unregister_job}
use flex_gas.Sched.Types.{Device, Group, Job, Ptr}
use flex_gas.Sched.World.{World, done, fault, ret_ok, update}

module _ (h : AgentHandler) (job group device : Ptr) (j : Job) (g : Group) (d : Device) (w : World)
    (hj : h.job ≡ some job) (hg : h.group ≡ some group) (hd : h.device ≡ some device)
    (lj : w.jobs job ≡ some j) (lg : w.groups group ≡ some g) (ld : w.devices device ≡ some d)
    (own : g.job ≡ job) (free : w.held ≡ []) where
  -- While another device stays in the group, delete_group only takes its own device out of it, and
  -- gives the mutex back.
  pub delete_group_of_shared :
      is_some (find d.did g.device_tab) ≡ true
      → 0 < length (erase d.did g.device_tab)
      → delete_group_of h w
        ≡ done ret_ok (record w {
          groups =
              update w.groups group (some (record g { device_tab = erase d.did g.device_tab }));
        })
  unfolding delete_group_of unregister_device
  delete_group_of_shared known more = ground arith

  -- When the last device leaves, delete_group deletes the group and then unlocks the mutex inside
  -- it: a use of freed memory, on every such path.
  pub delete_group_of_last :
      is_some (find d.did g.device_tab) ≡ true
      → erase d.did g.device_tab ≡ []
      → delete_group_of h w ≡ fault
  unfolding delete_group_of unregister_device unregister_group is_group_tab_empty delete_job_of
      unregister_job
  delete_group_of_last known last = ground arith
