-- ===== src/Tests/Programs.antt =====
-- What a program and the scheduling library ask of the scheduler.
use flex_gas.Container.Map.{bytes_key, find, nat_key}
use flex_gas.Prelude.{arith, bytes_eq, refl, ◌≡◌}
use flex_gas.Sched.Api.Limit.{sched_spawn_pes_limit}
use flex_gas.Sched.Api.Pes.{sched_spawn_pes, spawn_pes}
use flex_gas.Sched.Local.{handle_launch_comp, handle_unregister_pe}
use flex_gas.Sched.Local.Foreign.{refused}
use flex_gas.Sched.Local.Launch.{launch_blocks_exit, launched}
use flex_gas.Sched.World.{done, ret_err}
use flex_gas.Tests.Data.{
  agent_request, api_request, idle, the_comp, the_device, the_group, the_job, the_local_handler,
  the_world,
}

sched_spawn_pes_limit_example :
    sched_spawn_pes (agent_request 7) 3 5 1 the_world ≡ spawn_pes (agent_request 7) 3 5 1 the_world
unfolding find bytes_eq
sched_spawn_pes_limit_example =
    sched_spawn_pes_limit (agent_request 7) 3 5 1 5 the_device the_group the_comp the_comp the_world
      refl refl refl refl refl (omega arith)

launch_blocks_exit_example :
    let req = api_request 7 in
    let w' =
      refused the_local_handler req (launched the_local_handler req 1 the_job the_comp the_world) in
    (handle_launch_comp idle 3 the_local_handler req the_world
      ≡ done (the_local_handler, ret_err) w')
    × (handle_unregister_pe the_local_handler req w'
        ≡ done (the_local_handler, ret_err) (refused the_local_handler req w'))
unfolding find bytes_eq
launch_blocks_exit_example =
    launch_blocks_exit idle 3 the_local_handler (api_request 7) 1 5 the_job the_comp the_world refl
      refl refl refl refl refl refl (api_request 7) refl
