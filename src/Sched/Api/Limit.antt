-- ===== src/Sched/Api/Limit.antt =====
-- The limit on the PEs of a group in schedSpawnPes.
use flex_gas.Container.Map.{bytes_key, find, nat_key}
use flex_gas.Prelude.{[], arith, if◌then◌else◌, leb, none, some, ◌<◌, ◌≡◌}
use flex_gas.Sched.Api.Pes.{sched_spawn_pes, spawn_pes}
use flex_gas.Sched.Pes.{get_current_max_peid}
use flex_gas.Sched.Requests.{SagReq}
use flex_gas.Sched.Types.{Comp, Device, Group, Ptr}
use flex_gas.Sched.World.{World, done, ret_err, ret_ok}

-- For a computation that the group of the device runs, with a maximum above 0, schedSpawnPes turns
-- a spawn away, with a return of 0 and no change, where the highest identifier in use has reached
-- the maximum, and goes on to the agent otherwise. So the PE that makes one more than the maximum
-- is let through, and the next one is the first that is not.
pub sched_spawn_pes_limit :
    (blank : SagReq) (device comp num_pes cp : Ptr) (d : Device) (g : Group) (c cg : Comp)
    (w : World)
    → w.devices device ≡ some d
    → w.groups d.group ≡ some g
    → w.comps comp ≡ some c
    → find c.comp_id g.comp_tab ≡ some cp
    → w.comps cp ≡ some cg
    → 0 < cg.config.max_pes_num
    → sched_spawn_pes blank device comp num_pes w ≡ (
        if leb g.peid_cnt cg.config.max_pes_num
        then spawn_pes blank device comp num_pes w
        else done (ret_ok, []) w)
unfolding sched_spawn_pes get_current_max_peid
sched_spawn_pes_limit blank device comp num_pes cp d g c cg w hd hg hc known hcg some_max =
    ground arith

-- A computation that the group does not run is refused, and nothing changes.
pub sched_spawn_pes_unknown :
    (blank : SagReq) (device comp num_pes : Ptr) (d : Device) (g : Group) (c : Comp) (w : World)
    → w.devices device ≡ some d
    → w.groups d.group ≡ some g
    → w.comps comp ≡ some c
    → find c.comp_id g.comp_tab ≡ none
    → sched_spawn_pes blank device comp num_pes w ≡ done (ret_err, []) w
unfolding sched_spawn_pes
sched_spawn_pes_unknown blank device comp num_pes d g c w hd hg hc unknown = ground arith
