-- ===== src/Tests/Sessions.antt =====
-- Whole connections, and objects of a program.
-- A program that comes, and leaves at once.
use flex_gas.Container.Map.{bytes_key, erase, find, insert, nat_key}
use flex_gas.Prelude.{Bytes, [], arith, bytes_eq, false, none, refl, some, ◌∷◌, ◌≡◌, ◌≢◌}
use flex_gas.Sched.Events.{job_event_start_comp}
use flex_gas.Sched.Jobs.Table.{fresh_job}
use flex_gas.Sched.Local.{LocalHandler, execute, handle_launch_comp, with_ids, with_status}
use flex_gas.Sched.Local.Schedule.{handle_launch_comp_lem, waiting}
use flex_gas.Sched.Local.Session.{execute_session}
use flex_gas.Sched.Memory.{dashed, decorate_mem_id, digits, print_d}
use flex_gas.Sched.Memory.Names.{decorate_mem_id-injective, decorate_mem_id_shared, suffix}
use flex_gas.Sched.Remote.{RemoteHandler, answered}
use flex_gas.Sched.Remote.Loop.{remote_loop}
use flex_gas.Sched.Remote.Session.{remote_session}
use flex_gas.Sched.Requests.{SaaReq, SagReq, saa, sag}
use flex_gas.Sched.Types.{
  Job, Tnotif, remote, saa_register_pe, saa_unregister_pe, sag_sched_register_agent,
  sag_sched_unregister_agent, success,
}
use flex_gas.Sched.World.{World, after_send, done, ret_ok, update}
use flex_gas.Tests.Data.{
  agent_request, api_request, empty, head_of, idle, the_comp, the_device, the_group, the_job,
  the_local_handler, the_net, the_world,
}

abbrev register_request : SaaReq
register_request = record (api_request 0) {
  data_part = record ((api_request 0).data_part) { type = saa_register_pe };
}

abbrev unregister_request : SaaReq
unregister_request = record (api_request 8) {
  data_part = record ((api_request 8).data_part) { type = saa_unregister_pe };
}

abbrev session_world : World
session_world = record the_world {
  net = record the_net { saa_requests = some register_request ∷ some unregister_request ∷ [] };
}

abbrev new_handler : LocalHandler
new_handler = record { api_channel = 13; terminate = false; jid = 0; job = none }

execute_session_example :
    execute idle 5 3 new_handler session_world
    ≡ done tt (record session_world {
      jobs = update the_world.jobs 20 (some (fresh_job register_request 8));
      fresh = 21;
      job_tab = (7, 1) ∷ (8, 20) ∷ [];
      job_id_cnt = 9;
      net = record the_net {
        saa_requests = [];
        sends = [];
        closes = [];
        closed = 13 ∷ [];
        heard = 13 ∷ 13 ∷ [];
      };
      sent =
          (13, saa (with_ids register_request success 8))
          ∷ (13, saa (with_status unregister_request success))
          ∷ [];
    })
unfolding find insert
execute_session_example =
    execute_session idle 5 1 new_handler register_request unregister_request [] session_world refl
      refl refl refl refl refl refl refl refl refl

abbrev agent_register : SagReq
agent_register = record (agent_request 7) {
  head = record (head_of 7) { type = remote };
  data_part = record ((agent_request 7).data_part) { type = sag_sched_register_agent };
}

abbrev agent_unregister : SagReq
agent_unregister = record agent_register {
  data_part = record ((agent_request 7).data_part) { type = sag_sched_unregister_agent };
}

abbrev agents_world : World
agents_world = record the_world {
  net = record the_net { sag_replies = some agent_register ∷ some agent_unregister ∷ [] };
}

abbrev agents_handler : RemoteHandler
agents_handler = record {
  agent_channel = 14;
  terminate = false;
  jid = 0;
  job = none;
  group = none;
  gid = 0;
  device = none;
  did = 0;
}

remote_session_example :
    remote_loop idle 5 2 agents_handler agents_world
    ≡ done tt (record agents_world {
      groups = update the_world.groups 2 (some (record the_group { device_tab = [] }));
      devices = update the_world.devices 3 none;
      net = record the_net {
        sag_replies = [];
        sends = [];
        closes = [];
        closed = 11 ∷ [];
        heard = 14 ∷ 14 ∷ [];
      };
      sent =
          (14, sag (answered agent_register success))
          ∷ (14, sag (answered agent_unregister success))
          ∷ [];
    })
unfolding find erase
remote_session_example =
    remote_session idle 5 0 agents_handler agent_register agent_unregister [] 1 2 3 the_job
      the_group the_device [] agents_world refl refl refl refl refl refl refl refl refl refl refl
      refl refl refl refl refl refl

abbrev x_name : Bytes
x_name = 120 ∷ []

abbrev y_name : Bytes
y_name = 121 ∷ []

decorate_mem_id-injective_example :
    decorate_mem_id x_name 1 (some 2) 0 the_world ≢ decorate_mem_id y_name 1 (some 2) 0 the_world
unfolding digits print_d suffix
decorate_mem_id-injective_example =
    decorate_mem_id-injective x_name y_name 1 2 0 the_job the_group the_world refl refl
      (omega arith) (omega arith) (λ same. ground (arith, same))

-- Job 7 of user 500 has the group 4; job 4 is one of a user 7.
abbrev neighbour : Job
neighbour = record the_job { jid = 4; uid = 7 }

abbrev neighbours : World
neighbours = record the_world { jobs = update the_world.jobs 30 (some neighbour) }

decorate_mem_id_shared_example :
    decorate_mem_id (120 ∷ []) 1 (some 2) 0 neighbours
    ≡ decorate_mem_id (120 ∷ dashed 500) 30 (some 2) 0x10 neighbours
decorate_mem_id_shared_example =
    decorate_mem_id_shared (120 ∷ []) 1 2 30 the_job neighbour the_group neighbours refl refl refl
      refl refl

-- A scheduling thread that listens to job 7, and acknowledges at once.
abbrev watched_job : Job
watched_job = record the_job { handle = some 6 }

abbrev start_handle : Tnotif
start_handle = record { mask = job_event_start_comp; queue = [] }

abbrev watched_world : World
watched_world = record the_world {
  jobs = update empty 1 (some watched_job);
  handles = update empty 6 (some start_handle);
}

abbrev acknowledging : World → World
acknowledging w = record w { acks = update w.acks 22 (some 1) }

abbrev acknowledged : World
acknowledged =
    acknowledging (
      waiting the_local_handler (api_request 7) 1 6 watched_job the_comp start_handle watched_world)

handle_launch_comp_lem_example :
    handle_launch_comp acknowledging 3 the_local_handler (api_request 7) watched_world
    ≡ done
        (the_local_handler, ret_ok)
        (after_send 13
          (saa (with_status (api_request 7) success))
          (record acknowledged { acks = update acknowledged.acks 22 none }))
unfolding find bytes_eq
handle_launch_comp_lem_example =
    handle_launch_comp_lem acknowledging 2 the_local_handler (api_request 7) 1 5 6 watched_job
      the_comp start_handle watched_world refl refl refl refl refl refl refl refl refl 0
      acknowledged refl refl
