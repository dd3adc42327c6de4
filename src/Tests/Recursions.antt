-- ===== src/Tests/Recursions.antt =====
-- The recursion scheduler.
use flex_gas.Container.Map.{bytes_key, find, insert, least, nat_key}
use flex_gas.Prelude.{List, [], arith, bytes_eq, length, refl, some, true, ◌∷◌, ◌≡◌, ◌≤◌}
use flex_gas.Recursion.Resources.{
  ExecResource, Found, Resource, created, denies, find_exec_res, find_loop, level_among, occupy,
  pos, release_exec_res, visit,
}
use flex_gas.Recursion.Resources.Grants.{AllConsistent}
use flex_gas.Recursion.Resources.Marks.{AllMarked, Ascending}
use flex_gas.Recursion.Resources.Release.{release-find_exec_res}
use flex_gas.Recursion.Resources.Search.{IsReady, find_exec_res-Returns}
use flex_gas.Recursion.Rounds.{spawn_pass}
use flex_gas.Recursion.Rounds.Group.{IsAtLimit, limit_counts_as_spawned, spawn_one}
use flex_gas.Sched.Api.{
  Ports, accepted, create_agent_request, is_success, request_agent_create_job_group_device,
  sched_create_device, service_of, submit_agent_request,
}
use flex_gas.Sched.Devices.{create_new_device_id, get_new_device_id, register_device}
use flex_gas.Sched.Find.{find_group, find_job}
use flex_gas.Sched.Types.{ivm_cpu}
use flex_gas.Sched.World.{Returns, Run, World, blocked, done, fault, update}
use flex_gas.Tests.Data.{
  agent_request, empty, fn_name, the_comp, the_device, the_group, the_job, the_world,
}

abbrev a_host : Resource
a_host = record { hostname = 97 ∷ []; type = ivm_cpu; num_occupants = pos 1; rec_levels = 0 ∷ [] }

abbrev b_host : Resource
b_host = record { hostname = 98 ∷ []; type = ivm_cpu; num_occupants = pos 1; rec_levels = 2 ∷ [] }

abbrev hosts : List Resource
hosts = a_host ∷ b_host ∷ []

hosts-AllConsistent : AllConsistent hosts
unfolding level_among
hosts-AllConsistent = (
  record { counted = refl; distinct = (refl, tt) },
  (record { counted = refl; distinct = (refl, tt) }, tt),
)

abbrev the_ports : Ports
the_ports = record { agent_rdma = 49 ∷ []; agent_inet = 50 ∷ [] }

the_group-IsReady : IsReady 2 the_group the_world
unfolding find least
the_group-IsReady = record {
  s_job = 1;
  j = the_job;
  own_job = the_job;
  name = fn_name;
  entry = 5;
  comp = the_comp;
  entered = refl;
  job_lives = refl;
  reached = refl;
  own_lives = refl;
  first_comp = refl;
  comp_lives = refl;
  unlocked = refl;
}

find_exec_res-Returns_example :
    Returns
      (λ out _.
        (found : Found) × (out ≡ some found)
        × AllConsistent found.0
        × (length found.1 ≤ 1)
        × AllMarked 0 0 hosts found.0 found.1
        × Ascending 0 found.1)
      (find_exec_res (agent_request 7) the_ports true 2 1 hosts the_world)
find_exec_res-Returns_example =
    find_exec_res-Returns (agent_request 7) the_ports 2 1 hosts the_group the_world
      hosts-AllConsistent refl the_group-IsReady

-- The search passes over the first host, whose level is that of the group, and takes the second.
abbrev granted_to : List ExecResource
granted_to = record { res = 1; device = 20 } ∷ []

abbrev b_taken : Resource
b_taken = record b_host { num_occupants = pos 2; rec_levels = 2 ∷ 0 ∷ [] }

abbrev state_of : {A : Type 0} → Run A → World
state_of (done a w) = w
state_of fault = the_world
state_of blocked = the_world

-- A later state, with the device made under 20.
abbrev world_at_20 : World
world_at_20 = record the_world { devices = update empty 20 (some (record the_device { did = 1 })) }

release-find_exec_res_example :
    Returns
      (λ out _. out ≡ hosts)
      (release_exec_res (agent_request 7) granted_to 2 (a_host ∷ b_taken ∷ []) world_at_20)
unfolding find_exec_res find_loop visit created denies level_among occupy sched_create_device
    create_new_device_id find find_job find_group get_new_device_id register_device insert
    submit_agent_request create_agent_request service_of request_agent_create_job_group_device least
    accepted is_success
release-find_exec_res_example =
    release-find_exec_res (agent_request 7) the_ports 2 1 hosts (a_host ∷ b_taken ∷ []) granted_to
      the_world (state_of (find_exec_res (agent_request 7) the_ports true 2 1 hosts the_world))
      world_at_20 the_group the_group hosts-AllConsistent refl refl refl refl
      ((record the_device { did = 1 }, the_job, the_group, refl, refl, refl), tt) refl

-- The group has given out the identifiers 0 to 2, where the maximum is 2.
abbrev limit_world : World
limit_world = record the_world {
  groups = update empty 2 (some (record the_group { peid_cnt = 3 }));
}

device-IsAtLimit : IsAtLimit 5 limit_world 3
unfolding find bytes_eq
device-IsAtLimit = record {
  d = the_device;
  g = record the_group { peid_cnt = 3 };
  c = the_comp;
  entry = 5;
  cg = the_comp;
  live = refl;
  group_lives = refl;
  comp_lives = refl;
  known = refl;
  entry_lives = refl;
  used = omega arith;
}

limit_counts_as_spawned_example :
    spawn_pass (spawn_one (agent_request 7) 5) 2 (3 ∷ 3 ∷ 3 ∷ []) 0 0 limit_world
    ≡ done (2, 2) limit_world
limit_counts_as_spawned_example =
    limit_counts_as_spawned (agent_request 7) 5 2 (3 ∷ 3 ∷ 3 ∷ []) 0 0 limit_world
      (device-IsAtLimit, (device-IsAtLimit, (device-IsAtLimit, tt))) (omega arith)
