-- ===== src/Tests/Spawns.antt =====
-- PEs that an agent starts.
use flex_gas.Agent.Local.{AgentLocalHandler, PeHandled, agent_register_pe}
use flex_gas.Agent.Local.Memory.{agent_mem_alloc}
use flex_gas.Agent.Local.Memory.Hidden.{agent_mem_alloc_hidden}
use flex_gas.Agent.Local.Register.{admitted, agent_register_pe_lem, pe_of, serving}
use flex_gas.Agent.Spawn.{create_pes}
use flex_gas.Agent.Spawn.Arrival.{create_pes-agent_register_pe, started}
use flex_gas.Container.Map.{bytes_key, find, insert, nat_key}
use flex_gas.Prelude.{List, [], arith, bytes_eq, false, none, refl, some, true, ℕ, ◌++◌, ◌∷◌, ◌≡◌}
use flex_gas.Sched.Local.{with_status}
use flex_gas.Sched.Requests.{Message, SaaReq, SagReq, saa, sched_api_root}
use flex_gas.Sched.Types.{Job, Mr, ProspPe, failed, success}
use flex_gas.Sched.World.{
  Returns, Run, World, after_send, blocked, done, fault, ret_err, ret_ok, update,
}
use flex_gas.Tests.Data.{
  agent_reply, agent_request, api_request, empty, head_of, the_comp, the_device, the_group, the_job,
  the_net, the_world,
}

abbrev spawn_one : SagReq
spawn_one = record (agent_request 7) {
  data_part = record ((agent_request 7).data_part) { s_peid = 2 };
}

abbrev pe_handler : AgentLocalHandler
pe_handler = record {
  api_channel = 16;
  terminate = false;
  ppe = none;
  pe = none;
  job = none;
  group = none;
  device = none;
}

abbrev pe_request : SaaReq
pe_request = record (api_request 7) { head = record (head_of 7) { pid = 900 } }

abbrev expected_pe : ProspPe
expected_pe = record {
  job = 1;
  group = 2;
  device = 3;
  pid = 900;
  uid = 500;
  jid = 7;
  gid = 4;
  hid = sched_api_root;
  did = 0;
  peid = 2;
  rec_level = 0;
  comp = 5;
  comp_desc_exec = 4096;
  notif = 40;
  notif_idx = 0;
}

abbrev expecting : World
expecting = record the_world { prosp_pe_tab = (900, expected_pe) ∷ [] }

agent_register_pe_lem_example :
    let w' =
      admitted pe_handler pe_request expected_pe
        (false ∷ [])
        the_device
        the_group
        (true ∷ [])
        expecting in
    (agent_register_pe pe_handler pe_request expecting
      ≡ done (serving pe_handler expected_pe 20, ret_ok) w')
    × (agent_register_pe pe_handler pe_request w'
        ≡ done (pe_handler, ret_err) (after_send 16 (saa (with_status pe_request failed)) w'))
unfolding find
agent_register_pe_lem_example =
    agent_register_pe_lem pe_handler pe_handler pe_request pe_request expected_pe (false ∷ [])
      (true ∷ []) the_device the_group expecting refl refl (omega arith) refl refl refl refl refl
      refl refl refl

-- The other threads are the handler of the PE.
abbrev state_behind : World → Run PeHandled → World
state_behind v (done a w) = w
state_behind v fault = v
state_behind v blocked = v

abbrev arriving : World → World
arriving v = state_behind v (agent_register_pe pe_handler pe_request v)

create_pes-agent_register_pe_example :
    (w' : World) × (create_pes arriving 6 2 spawn_one 3 the_world ≡ done ret_ok w')
    × (find 900 w'.prosp_pe_tab ≡ none)
    × (w'.groups 2 ≡ some (record the_group { pe_tab = (0, 10) ∷ (1, 9) ∷ (2, 21) ∷ [] }))
    × (w'.pes 21
        ≡ some (pe_of (started spawn_one the_device 3 the_job the_group 5 the_comp 20 900)))
unfolding find insert bytes_eq
create_pes-agent_register_pe_example =
    create_pes-agent_register_pe arriving 5 1 spawn_one 3 5 900 the_device the_job the_group
      the_comp pe_handler pe_request [] (true ∷ []) the_world refl refl refl refl refl refl refl
      (omega arith) refl refl refl refl refl (λ v h' v' e. rw e refl)

-- A job with a global object of one name, and a PE that allocates another.
abbrev owner_job : Job
owner_job = record the_job { mem_tab = (120 ∷ [], 50) ∷ [] }

abbrev shm_region : Mr
shm_region = record { addr = 4096; len = 64; key = 3 }

abbrev owner_world : World
owner_world = record the_world {
  jobs = update empty 1 (some owner_job);
  net = record the_net { regions = some shm_region ∷ some shm_region ∷ [] };
}

abbrev served_pe : AgentLocalHandler
served_pe = record pe_handler { job = some 1; group = some 2; device = some 3 }

abbrev global_request : SaaReq
global_request = record (api_request 7) {
  data_part = record ((api_request 7).data_part) {
    mem_id = 120 ∷ [];
    mem_flags = 16;
    mem_size = 64;
  };
}

agent_mem_alloc_hidden_example :
    Returns
      (λ r w'.
        (r ≡ (served_pe, ret_ok))
        × ((mr : Mr) × (log : List (ℕ × Message)) × (w'.sent
              ≡ log
                ++ (
                  served_pe.api_channel,
                  saa (
                      with_status
                        (record global_request {
                          data_part = record (global_request.data_part) { mr = mr };
                        })
                        success),
                )
                  ∷ []))
        × (w'.jobs 1
            ≡ some (record owner_job {
              mem_tab = insert global_request.data_part.mem_id 20 owner_job.mem_tab;
            }))
        × (find global_request.data_part.mem_id
              (insert global_request.data_part.mem_id 20 owner_job.mem_tab)
            ≡ some 50))
      (agent_mem_alloc (agent_request 7) served_pe global_request owner_world)
unfolding find bytes_eq
agent_mem_alloc_hidden_example =
    agent_mem_alloc_hidden (agent_request 7) agent_reply served_pe global_request 1 2 3 50 owner_job
      the_group the_device shm_region shm_region [] [] [] owner_world refl refl refl refl refl refl
      refl refl refl refl refl refl refl refl
