-- ===== src/Tests/Tables.antt =====
-- The tables of jobs, groups, devices and PEs.
use flex_gas.Container.Map.{bytes_key, find, insert, nat_key}
use flex_gas.Prelude.{[], arith, refl, some, ℕ, ◌+◌, ◌<◌, ◌∷◌, ◌≡◌}
use flex_gas.Sched.Find.{find_job}
use flex_gas.Sched.Jobs.{create_new_job, register_job}
use flex_gas.Sched.Jobs.Table.{find_job-create_new_job, fresh_job}
use flex_gas.Sched.Pes.Numbers.{two_ranges, two_ranges_adjacent}
use flex_gas.Sched.World.{World, done, update, ◌>>=◌}
use flex_gas.Tests.Data.{api_request, the_group, the_world}

find_job-create_new_job_example :
    (create_new_job (api_request 0) >>= λ job. register_job job >>= λ _. find_job 8) the_world
    ≡ done (some 20) (record the_world {
      jobs = update the_world.jobs 20 (some (fresh_job (api_request 0) 8));
      fresh = 21;
      job_tab = (7, 1) ∷ (8, 20) ∷ [];
      job_id_cnt = 9;
    })
unfolding find insert
find_job-create_new_job_example = find_job-create_new_job (api_request 0) 8 the_world refl refl

two_ranges_adjacent_example :
    (a b : ℕ × ℕ) × (w' : World) × (two_ranges 2 3 4 the_world ≡ done (a, b) w')
    × (a.0 ≡ 2)
    × (a.1 < b.0)
    × (a.1 + 1 ≡ b.0)
    × (b.1 + 1 ≡ 9)
two_ranges_adjacent_example =
    two_ranges_adjacent 2 3 4 the_group the_world refl refl (omega arith) (omega arith)
      (omega arith)
