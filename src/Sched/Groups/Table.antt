-- ===== src/Sched/Groups/Table.antt =====
-- What the group operations of src/vivm/sched/sched_helpers.h do to the group table of a job.
use flex_gas.Container.Map.{bytes_key, erase, find, insert, nat_key}
use flex_gas.Prelude.{[], arith, if◌then◌else◌, is_some, some, ◌&&◌, ◌==◌, ◌≡◌}
use flex_gas.Sched.Groups.{register_group, unregister_group}
use flex_gas.Sched.Types.{Group, Job, Ptr}
use flex_gas.Sched.World.{World, done, ret_err, ret_ok, update}

-- A group that belongs to the job is entered, and nothing else changes.
pub register_group_lem :
    (job group : Ptr) (j : Job) (g : Group) (w : World)
    → w.jobs job ≡ some j
    → w.groups group ≡ some g
    → g.job ≡ job
    → w.held ≡ []
    → register_group job group w
      ≡ done ret_ok (record w {
        jobs = update w.jobs job (some (record j { group_tab = insert g.gid group j.group_tab }));
      })
unfolding register_group
register_group_lem job group j g w hj hg own free = ground arith

-- A group of the job that is entered leaves the table; any other is answered with -1 and no change.
pub unregister_group_lem :
    (job group : Ptr) (j : Job) (g : Group) (w : World)
    → w.jobs job ≡ some j
    → w.groups group ≡ some g
    → w.held ≡ []
    → unregister_group job group w ≡ (
        if (g.job == job) && is_some (find g.gid j.group_tab)
        then done ret_ok (record w {
          jobs = update w.jobs job (some (record j { group_tab = erase g.gid j.group_tab }));
        })
        else done ret_err w)
unfolding unregister_group
unregister_group_lem job group j g w hj hg free = ground arith
