-- ===== src/Sched/Devices.antt =====
-- Devices: the create-and-add operations of src/vivm/sched/sched_helpers.h for them.
pub mod Table
use flex_gas.Container.Map.{bytes_key, erase, find, insert, nat_key}
use flex_gas.Prelude.{Bytes, Option, [], if◌then◌else◌, none, not, some, ℕ, ◌%◌, ◌+◌, ◌==◌}
use flex_gas.Sched.Find.{find_group, find_job, lock_device_tab, unlock_device_tab}
use flex_gas.Sched.Jobs.{u32}
use flex_gas.Sched.Types.{Device, DeviceType, Link, Ptr}
use flex_gas.Sched.World.{
  M, Ret, ch_close, ch_open, delete_device, load_device, load_group, new_device, on_ok, pure,
  ret_err, ret_ok, store_device, store_group, ◌>>=◌, ◌>>◌,
}

unfoldable pub get_new_device_id : Ptr → M ℕ
get_new_device_id group = do
  g ← load_group group
  store_group group (record g { did_cnt = (g.did_cnt + 1) % u32 })
  pure g.did_cnt

-- Both links are compiled in, so the switch over the link has no default left. An object whose
-- channel does not open is neither returned nor freed.
unfoldable pub create_new_device_id :
    Bytes → Bytes → Link → DeviceType → ℕ → Ptr → ℕ → M (Option Ptr)
create_new_device_id host service link dev_type phy_dev_id group did = do
  g ← load_group group
  s_job ← find_job g.jid
  elim s_job [
    | none ↦ pure none
    | some sj ↦ do
      s_group ← find_group sj g.gid
      elim s_group [
        | none ↦ pure none
        | some sg ↦ if not (sg == group) then pure none else do
          let d : Device = record {
            jid = g.jid;
            gid = g.gid;
            did = did;
            pid = g.pid;
            uid = g.uid;
            request_ch = 0;
            phy = record {
              type = dev_type;
              host = host;
              service = service;
              link = link;
              phy_dev_id = phy_dev_id;
            };
            pe_tab = [];
            group = group;
            job = g.job;
          }
          device ← new_device d
          opened ← ch_open
          elim opened [
            | none ↦ pure none
            | some c ↦ (do store_device device (record d { request_ch = c }); pure (some device))
          ]
      ]
  ]

unfoldable pub register_device : Ptr → Ptr → M Ret
register_device group device = do
  d ← load_device device
  if not (d.group == group) then pure ret_err else do
    lock_device_tab group
    g ← load_group group
    store_group group (record g { device_tab = insert d.did device g.device_tab })
    unlock_device_tab group
    pure ret_ok

unfoldable pub unregister_device : Ptr → Ptr → M Ret
unregister_device group device = do
  lock_device_tab group
  g ← load_group group
  d ← load_device device
  elim (find d.did g.device_tab) [
    | none ↦ (do unlock_device_tab group; pure ret_err)
    | some _ ↦ do
      store_group group (record g { device_tab = erase d.did g.device_tab })
      unlock_device_tab group
      pure ret_ok
  ]

unfoldable pub destroy_device : Ptr → M Ret
destroy_device device = do
  d ← load_device device
  r ← ch_close d.request_ch
  on_ok r (do delete_device device; pure ret_ok)
