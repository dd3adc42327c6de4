-- ===== src/Tests/Agents.antt =====
-- The agent's own code, and the scheduler's answers to an agent.
use flex_gas.Agent.Remote.{delete_group_of, obtain_job}
use flex_gas.Agent.Remote.Delete.{delete_group_of_last}
use flex_gas.Agent.Remote.Obtain.{agent_job, obtain_job_twice}
use flex_gas.Agent.Window.{remote_addr, remote_addr_overrun, remote_addr_window, remote_addr_wraps}
use flex_gas.Container.Map.{bytes_key, erase, find, nat_key}
use flex_gas.Prelude.{[], arith, none, refl, some, ℕ, ◌+◌, ◌<◌, ◌≡◌, ◌≢◌, ◌≤◌}
use flex_gas.Sched.Types.{Mr, Ptr}
use flex_gas.Sched.World.{World, done, fault, update}
use flex_gas.Tests.Data.{
  agent_request, the_agent_handler, the_device, the_group, the_job, the_world,
}

abbrev a_local : Mr
a_local = record { addr = 1000; len = 64; key = 1 }

abbrev a_remote : Mr
a_remote = record { addr = 5000; len = 128; key = 2 }

remote_addr_window_example : (5000 ≤ 5010) × (5010 + 20 ≤ 5000 + 128) × (5010 + 1000 ≡ 5000 + 1010)
unfolding remote_addr
remote_addr_window_example =
    remote_addr_window a_local a_remote 1010 20 5010
      (record { local_fits = omega arith; remote_fits = omega arith; end_fits = omega arith }) refl

remote_addr_overrun_example :
    (remote_addr a_local a_remote 1000 128 ≡ some 5000) × (1000 + 64 < 1000 + 128)
remote_addr_overrun_example =
    remote_addr_overrun a_local a_remote
      (record { local_fits = omega arith; remote_fits = omega arith; end_fits = omega arith })
      (omega arith)

obtain_job_twice_example :
    (p : Ptr) × (w' : World) × (obtain_job (agent_request 8) the_world ≡ done p w')
    × (obtain_job (agent_request 8) w' ≡ done p w')
    × (find 8 w'.job_tab ≡ some p)
    × (w'.job_id_cnt ≡ 8)
    × (w'.held ≡ [])
    × ((q : Ptr) → find 8 the_world.job_tab ≡ some q → (p ≡ q) × (w' ≡ the_world))
    × (find 8 the_world.job_tab ≡ none
        → (w'.jobs ≡ update the_world.jobs p (some (agent_job (agent_request 8))))
          × ((jid : ℕ) → jid ≢ 8 → find jid w'.job_tab ≡ find jid the_world.job_tab))
obtain_job_twice_example = obtain_job_twice (agent_request 8) (agent_request 8) the_world refl refl

delete_group_of_last_example : delete_group_of the_agent_handler the_world ≡ fault
unfolding find erase
delete_group_of_last_example =
    delete_group_of_last the_agent_handler 1 2 3 the_job the_group the_device the_world refl refl
      refl refl refl refl refl refl refl refl

-- From the address 1010 of the region at 1000, a length of 2 ^ 64 - 10.
remote_addr_wraps_example :
    (remote_addr a_local a_remote 1010 0xfffffffffffffff6 ≡ some 5010)
    × (5000 + 128 < 5010 + 0xfffffffffffffff6)
remote_addr_wraps_example =
    remote_addr_wraps a_local a_remote 1010 0xfffffffffffffff6 (omega arith) (omega arith)
      (omega arith) (omega arith) (omega arith) (omega arith) (omega arith) (omega arith)
