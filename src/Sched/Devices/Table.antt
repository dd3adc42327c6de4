-- ===== src/Sched/Devices/Table.antt =====
-- What the device operations of src/vivm/sched/sched_helpers.h do.
use flex_gas.Container.Map.{bytes_key, erase, find, insert, nat_key}
use flex_gas.Prelude.{
  Bytes, List, Option, [], arith, if◌then◌else◌, inl, inr, is_some, none, some, ℕ, ◌+◌, ◌==◌, ◌∷◌,
  ◌≡◌, ◌≢◌, ◌⊎◌,
}
use flex_gas.Sched.Devices.{create_new_device_id, register_device, unregister_device}
use flex_gas.Sched.Find.{find_group, find_job}
use flex_gas.Sched.Types.{Device, DeviceType, Group, Job, Link, Ptr}
use flex_gas.Sched.World.{World, done, ret_err, ret_ok, update}

-- register_device and unregister_device on every branch: a device of the group is entered, unless
-- its identifier is taken; one of another group is refused without a change. An entered identifier
-- leaves the table, a missing one is reported without a change. The mutex is free again.
pub device_table_lem :
    (group device : Ptr) (g : Group) (d : Device) (w : World)
    → w.groups group ≡ some g
    → w.devices device ≡ some d
    → w.held ≡ []
    → (register_device group device w ≡ (
        if d.group == group
        then done ret_ok (record w {
          groups =
              update w.groups group
                (some (record g { device_tab = insert d.did device g.device_tab }));
        })
        else done ret_err w))
      × (unregister_device group device w ≡ (
          if is_some (find d.did g.device_tab)
          then done ret_ok (record w {
            groups =
                update w.groups group (some (record g { device_tab = erase d.did g.device_tab }));
          })
          else done ret_err w))
unfolding register_device unregister_device
device_table_lem group device g d w hg hd free = (ground arith, ground arith)

module _ (host service : Bytes) (link : Link) (dev_type : DeviceType) (phy_dev_id did group : ℕ)
    (g : Group) (w : World) (hg : w.groups group ≡ some g) where
  -- The device that is made, on an open channel.
  abbrev pub made_device : ℕ → Device
  made_device c = record {
    jid = g.jid;
    gid = g.gid;
    did = did;
    pid = g.pid;
    uid = g.uid;
    request_ch = c;
    phy = record {
      type = dev_type;
      host = host;
      service = service;
      link = link;
      phy_dev_id = phy_dev_id;
    };
    pe_tab = [];
    group = group;
    job = g.job;
  }

  -- A device is made only in a group that the tables reach: where the job of the group is unknown,
  -- or another group or none stands in its table under the identifier, there is no device and no
  -- change.
  pub create_new_device_id_refused :
      (find g.jid w.job_tab ≡ none)
        ⊎ ((sj : Ptr) × (j : Job) × (find g.jid w.job_tab ≡ some sj)
            × (w.jobs sj ≡ some j)
            × (find g.gid j.group_tab ≢ some group))
      → create_new_device_id host service link dev_type phy_dev_id group did w ≡ done none w
  unfolding create_new_device_id find_job find_group
  create_new_device_id_refused (inl e) = ground arith
  create_new_device_id_refused (inr (sj, j, hj, lj, other)) = ground arith

  -- In a group that the tables reach the device has the identifiers of the group and the open
  -- channel, and is not in any table yet.
  pub create_new_device_id_lem :
      (sj c : Ptr) (j : Job) (more : List (Option ℕ))
      → find g.jid w.job_tab ≡ some sj
      → w.jobs sj ≡ some j
      → find g.gid j.group_tab ≡ some group
      → w.net.opens ≡ some c ∷ more
      → create_new_device_id host service link dev_type phy_dev_id group did w
        ≡ done (some w.fresh) (record w {
          devices =
              update
                (update w.devices w.fresh (some (made_device 0)))
                w.fresh
                (some (made_device c));
          fresh = w.fresh + 1;
          net = record (w.net) { opens = more };
        })
  unfolding create_new_device_id find_job find_group
  create_new_device_id_lem sj c j more hj lj reached opens = ground arith
