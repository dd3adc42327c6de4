-- ===== src/Tests/Events.antt =====
-- Events, handles and waits.
use flex_gas.Container.Map.{bytes_key, erase, find, nat_key}
use flex_gas.Prelude.{
  [], arith, if◌then◌else◌, ltb, none, refl, some, suc, zero, ℕ, ◌+◌, ◌<◌, ◌∷◌, ◌≡◌,
}
use flex_gas.Sched.Events.{destroy_event, poll_ack, sched_ack_event, wait_event_ack}
use flex_gas.Sched.Events.Delivery.{wait_event_ack-sched_ack_event}
use flex_gas.Sched.Events.Wait.{after_others, poll_ack_ends}
use flex_gas.Sched.Remote.{answered, handle_notify_pe_done}
use flex_gas.Sched.Remote.Exit.{exit_event, handle_notify_pe_done_lem}
use flex_gas.Sched.Requests.{sag}
use flex_gas.Sched.Types.{Event, sched_event_busy_wait, success}
use flex_gas.Sched.World.{World, after_send, done, ret_ok, update, ◌>>=◌}
use flex_gas.Tests.Data.{
  agent_request, idle, the_device, the_group, the_handle, the_job, the_pe, the_remote_handler,
  the_world,
}

abbrev exit_now : Event
exit_now = record (exit_event the_job the_group the_device 1 2 3 1) {
  ack_type = sched_event_busy_wait;
  ack = some 8;
}

-- Another thread that registers a job meanwhile.
abbrev counts_on : World → World
counts_on v = record v { job_id_cnt = v.job_id_cnt + 1 }

wait_event_ack-sched_ack_event_example :
    (sched_ack_event exit_now >>= λ _.
    wait_event_ack counts_on 1 exit_now >>= λ _. destroy_event exit_now)
      the_world
    ≡ done ret_ok (record the_world {
      acks = update (update the_world.acks 8 (some 1)) 8 none;
      job_id_cnt = 9;
    })
wait_event_ack-sched_ack_event_example =
    wait_event_ack-sched_ack_event counts_on 0 exit_now 8 0 the_world (λ v. refl) refl refl refl

-- The other threads acknowledge once the counter of jobs has reached 10.
abbrev acknowledging : World → World
acknowledging w = record w {
  job_id_cnt = w.job_id_cnt + 1;
  acks = update w.acks 8 (some (if ltb 8 w.job_id_cnt then 1 else 0));
}

poll_ack_ends_example :
    poll_ack acknowledging 5 8 the_world ≡ done ret_ok (after_others acknowledging 2 the_world)
poll_ack_ends_example =
    poll_ack_ends acknowledging 8 0 1 5 the_world (omega arith) (λ i lt. idle_at i lt) refl
  where
    idle_at : (i : ℕ) → i < 1 → (after_others acknowledging (suc i) the_world).acks 8 ≡ some 0
    idle_at zero lt = refl
    idle_at (suc i) lt = absurd (omega arith)

    free : (k : ℕ) → (after_others idle (suc k) the_world).held ≡ []
    free zero = refl
    free (suc k) = free k

handle_notify_pe_done_lem_example :
    handle_notify_pe_done idle 0 the_remote_handler (agent_request 7) the_world
    ≡ done
        (the_remote_handler, ret_ok)
        (after_send 14 (sag (answered (agent_request 7) success)) (record the_world {
          groups = update the_world.groups 2 (some (record the_group { pe_tab = (0, 10) ∷ [] }));
          handles = update the_world.handles 6 (
              some (record the_handle {
                queue = exit_event the_job the_group the_device 1 2 3 1 ∷ [];
              }));
        }))
unfolding find erase
handle_notify_pe_done_lem_example =
    handle_notify_pe_done_lem idle 0 the_remote_handler (agent_request 7) 1 2 3 9 6 the_job
      the_group the_device the_pe the_handle the_world refl refl refl refl refl refl refl refl refl
      refl refl refl refl refl refl
