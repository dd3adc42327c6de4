-- ===== src/Sched/Local/Schedule.antt =====
-- A launch that a scheduling thread takes up.
use Prim.Native.Nat.{bit_and}
use flex_gas.Container.Map.{bytes_key, find, nat_key}
use flex_gas.Prelude.{[], arith, none, some, suc, ℕ, ◌++◌, ◌+◌, ◌∷◌, ◌≡◌}
use flex_gas.Sched.Events.{
  create_new_job_event, destroy_event, job_event_start_comp, new_event_ack, poll_ack, queue_event,
  wait_event_ack,
}
use flex_gas.Sched.Find.{get_computation_from_table}
use flex_gas.Sched.Groups.{create_new_group, create_new_group_id, get_new_group_id, register_group}
use flex_gas.Sched.Local.{
  LocalHandler, accept, await_event, handle_launch_comp, launch_group, with_status,
}
use flex_gas.Sched.Local.Launch.{launched}
use flex_gas.Sched.Requests.{SaaReq, saa, sched_api_root}
use flex_gas.Sched.Types.{Comp, Event, Job, Ptr, Tnotif, sched_event_busy_wait, success}
use flex_gas.Sched.World.{World, after_send, done, succeeds, update}

-- The event of the launch, behind the group and the computation that were made for it.
abbrev pub start_event : Job → (job comp_group group ack : Ptr) → Event
start_event j job comp_group group ack = record {
  type = job_event_start_comp;
  uid = j.uid;
  pid = j.pid;
  jid = j.jid;
  gid = j.gid_cnt;
  hid = sched_api_root;
  did = sched_api_root;
  peid = sched_api_root;
  job = job;
  group = some group;
  device = none;
  comp = some comp_group;
  ack_type = sched_event_busy_wait;
  ack = some ack;
}

-- The state in which the handler waits: the group is in the job, and the event in the queue.
abbrev pub waiting :
    LocalHandler → SaaReq → (job handle : Ptr) → Job → Comp → Tnotif → World → World
waiting h req job handle j c tn w =
    let l : World = launched h req job j c w in
    record l {
      acks = update l.acks l.fresh (some 0);
      fresh = l.fresh + 1;
      handles = update l.handles handle (
          some (record tn {
            queue = tn.queue ++ start_event j job w.fresh (w.fresh + 1) l.fresh ∷ [];
          }));
    }

module _ (others : World → World) (rounds : ℕ) (h : LocalHandler) (req : SaaReq) (job p : Ptr)
    (handle : Ptr) (j : Job) (c : Comp) (tn : Tnotif) (w : World) (own : req.head.jid ≡ h.jid)
    (hj : h.job ≡ some job) (live : w.jobs job ≡ some j)
    (known : find req.data_part.comp_id j.comp_tab ≡ some p) (hc : w.comps p ≡ some c)
    (watched : j.handle ≡ some handle) (lives : w.handles handle ≡ some tn)
    (listens : bit_and tn.mask job_event_start_comp ≡ job_event_start_comp)
    (free : w.held ≡ []) where
  -- Where a scheduling thread listens to the job, the launch of a registered computation makes a
  -- group in the job that runs a copy of the computation with the configuration of the request,
  -- and queues the event of its start for the thread. When the other threads acknowledge the event
  -- before the handler looks, the handler gives its cell back and answers success.
  pub handle_launch_comp_lem :
      (v : ℕ) (seen : World)
      → others (waiting h req job handle j c tn w) ≡ seen
      → seen.acks (w.fresh + 1 + 1) ≡ some (suc v)
      → handle_launch_comp others (suc rounds) h req w
        ≡ done
            (h, succeeds seen.net.sends)
            (after_send h.api_channel
              (saa (with_status req success))
              (record seen { acks = update seen.acks (w.fresh + 1 + 1) none }))
  unfolding handle_launch_comp get_computation_from_table accept create_new_job_event new_event_ack
      queue_event await_event wait_event_ack poll_ack destroy_event launch_group create_new_group
      get_new_group_id create_new_group_id register_group
  handle_launch_comp_lem v seen ran acked = ground arith
