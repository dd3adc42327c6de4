-- ===== src/Sched/Remote/Exit.antt =====
-- The end of a PE, as its agent reports it.
use Prim.Native.Nat.{bit_and}
use flex_gas.Container.Map.{bytes_key, erase, find, nat_key}
use flex_gas.Prelude.{[], arith, none, some, ℕ, ◌++◌, ◌∙◌, ◌∷◌, ◌≡◌}
use flex_gas.Sched.Events.{create_new_group_event, group_event_pe_exit, queue_event}
use flex_gas.Sched.Pes.{unregister_peids}
use flex_gas.Sched.Pes.Tables.{unregister_peids_present, with_pe_tab}
use flex_gas.Sched.Remote.{
  RemoteHandler, accept_agent, answered, handle_notify_pe_done, notify_exit, patch_device,
}
use flex_gas.Sched.Requests.{SagReq, sag, sched_api_root}
use flex_gas.Sched.Types.{
  Device, Event, Group, Job, Pe, Ptr, Tnotif, sched_event_wait_none, success,
}
use flex_gas.Sched.World.{World, after_send, done, ret_ok, succeeds, update}

-- The event that the group's scheduling thread gets.
abbrev pub exit_event : Job → Group → Device → (job group device peid : ℕ) → Event
exit_event j g d job group device peid = record {
  type = group_event_pe_exit;
  uid = j.uid;
  pid = j.pid;
  jid = j.jid;
  gid = g.gid;
  hid = sched_api_root;
  did = d.did;
  peid = peid;
  job = job;
  group = some group;
  device = some device;
  comp = none;
  ack_type = sched_event_wait_none;
  ack = none;
}

-- The state with the event queued.
abbrev pub queued : World → Ptr → Tnotif → Event → World
queued w handle tn event = record w {
  handles = update w.handles handle (some (record tn { queue = tn.queue ++ event ∷ [] }));
}

notify_exit_lem :
    (h : RemoteHandler) (peid job group device handle : Ptr) (j : Job) (g : Group) (d : Device)
    (tn : Tnotif) (w : World)
    → h.job ≡ some job
    → h.group ≡ some group
    → h.device ≡ some device
    → w.jobs job ≡ some j
    → w.groups group ≡ some g
    → w.devices device ≡ some d
    → g.handle ≡ some handle
    → w.handles handle ≡ some tn
    → bit_and tn.mask group_event_pe_exit ≡ group_event_pe_exit
    → w.held ≡ []
    → notify_exit h peid w ≡ done tt (queued w handle tn (exit_event j g d job group device peid))
unfolding notify_exit create_new_group_event queue_event
notify_exit_lem h peid job group device handle j g d tn w hj hg hd lj lg ld hh ht listens free =
    ground arith

-- A PE of the handler's job, group and device is reported done: it leaves the PE table, the event
-- of its exit goes to the end of the queue of a handle that listens for it, the mutexes are free
-- again, and the agent is answered.
pub handle_notify_pe_done_lem :
    (others : World → World) (rounds : ℕ) (h : RemoteHandler) (req : SagReq)
    (job group device p handle : Ptr) (j : Job) (g : Group) (d : Device) (pe : Pe) (tn : Tnotif)
    (w : World)
    → h.job ≡ some job
    → h.group ≡ some group
    → h.device ≡ some device
    → w.jobs job ≡ some j
    → w.groups group ≡ some g
    → w.devices device ≡ some d
    → find req.head.peid g.pe_tab ≡ some p
    → w.pes p ≡ some pe
    → pe.job ≡ job
    → pe.group ≡ group
    → pe.device ≡ device
    → g.handle ≡ some handle
    → w.handles handle ≡ some tn
    → bit_and tn.mask group_event_pe_exit ≡ group_event_pe_exit
    → w.held ≡ []
    → handle_notify_pe_done others rounds h req w
      ≡ done
          (h, succeeds w.net.sends)
          (after_send h.agent_channel (sag (answered req success)) (record w {
            groups =
                update w.groups group (some (record g { pe_tab = erase req.head.peid g.pe_tab }));
            handles = update w.handles handle (
                some (record tn {
                  queue = tn.queue ++ exit_event j g d job group device req.head.peid ∷ [];
                }));
          }))
unfolding handle_notify_pe_done patch_device accept_agent
handle_notify_pe_done_lem others rounds h req job group device p handle j g d pe tn w hj hg hd lj lg
      ld hi hp pj pg pd hh ht listens free =
    let left : unregister_peids others rounds job group device (req.head.peid ∷ []) w
        ≡ done ret_ok (with_pe_tab w group g (erase req.head.peid g.pe_tab)) =
      unregister_peids_present others rounds job group device req.head.peid p g pe j j w lg hi hp
        (rw pj lj) lj free
      ∙ ground arith in
    let g' : Group = record g { pe_tab = erase req.head.peid g.pe_tab } in
    let told =
      notify_exit_lem h req.head.peid job group device handle j g' d tn
        (with_pe_tab w group g (erase req.head.peid g.pe_tab)) hj hg hd lj (ground arith) ld hh ht
        listens free in
    ground (arith, left, told)
