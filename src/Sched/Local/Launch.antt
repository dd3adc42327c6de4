-- ===== src/Sched/Local/Launch.antt =====
-- A launch that nobody can schedule.
use flex_gas.Container.Map.{bytes_key, find, insert, length-insert-pos, nat_key}
use flex_gas.Prelude.{[], arith, none, some, ℕ, ◌%◌, ◌+◌, ◌≡◌}
use flex_gas.Sched.Find.{get_computation_from_table}
use flex_gas.Sched.Groups.{create_new_group, create_new_group_id, get_new_group_id, register_group}
use flex_gas.Sched.Jobs.{u32}
use flex_gas.Sched.Local.{
  LocalHandler, handle_launch_comp, handle_unregister_pe, launch_group, refuse,
}
use flex_gas.Sched.Local.Foreign.{refused}
use flex_gas.Sched.Requests.{SaaReq}
use flex_gas.Sched.Types.{Comp, Group, Job, Ptr}
use flex_gas.Sched.World.{World, done, ret_err, update}

-- The state with the copy of the computation, the group, and both in the job.
abbrev pub launched : LocalHandler → SaaReq → Ptr → Job → Comp → World → World
launched h req job j c w =
    let counted : Job = record j { gid_cnt = (j.gid_cnt + 1) % u32 } in
    let group : Group = record {
      jid = j.jid;
      gid = j.gid_cnt;
      uid = j.uid;
      pid = j.pid;
      did_cnt = 0;
      peid_cnt = 0;
      rec_level = 0;
      handle = none;
      comp_tab = insert c.comp_id w.fresh [];
      device_tab = [];
      pe_tab = [];
      killed_pe_tab = [];
      job = job;
      mem_tab = [];
    } in
    record w {
      comps = update w.comps w.fresh (some (record c { config = req.data_part.comp_config }));
      groups = update w.groups (w.fresh + 1) (some group);
      jobs =
          update (update w.jobs job (some counted)) job
            (some (record counted { group_tab = insert j.gid_cnt (w.fresh + 1) j.group_tab }));
      fresh = w.fresh + 1 + 1;
    }

module _ (others : World → World) (rounds : ℕ) (h : LocalHandler) (req : SaaReq) (job p : Ptr)
    (j : Job) (c : Comp) (w : World) (own : req.head.jid ≡ h.jid) (hj : h.job ≡ some job)
    (live : w.jobs job ≡ some j) (known : find req.data_part.comp_id j.comp_tab ≡ some p)
    (hc : w.comps p ≡ some c) (unwatched : j.handle ≡ none) (free : w.held ≡ []) where
  launch_group_lem :
      launch_group job p req.data_part.comp_config 0 w
      ≡ done (some (w.fresh, w.fresh + 1)) (launched h req job j c w)
  unfolding launch_group create_new_group get_new_group_id create_new_group_id register_group
  launch_group_lem = ground arith

  -- Where no scheduling thread watches the job, the launch of a registered computation is answered
  -- with `failed`, but the group made for it stays in the job: whatever request of this program to
  -- unregister follows is refused, too.
  pub launch_blocks_exit :
      (req' : SaaReq)
      → req'.head.jid ≡ h.jid
      → let w' = refused h req (launched h req job j c w) in
        (handle_launch_comp others rounds h req w ≡ done (h, ret_err) w')
        × (handle_unregister_pe h req' w' ≡ done (h, ret_err) (refused h req' w'))
  unfolding handle_launch_comp get_computation_from_table refuse handle_unregister_pe
  launch_blocks_exit req' own' = (
    ground (arith, launch_group_lem),
    ground (arith, length-insert-pos j.gid_cnt (w.fresh + 1) j.group_tab),
  )
