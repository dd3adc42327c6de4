-- ===== src/Sched/Remote/Session.antt =====
-- The life of a connection from an agent.
use flex_gas.Container.Map.{bytes_key, erase, find, nat_key}
use flex_gas.Prelude.{
  Bool, List, Option, [], arith, false, none, some, suc, true, ℕ, ◌++◌, ◌∷◌, ◌≡◌,
}
use flex_gas.Sched.Devices.{destroy_device, unregister_device}
use flex_gas.Sched.Find.{find_device, find_group, find_job}
use flex_gas.Sched.Remote.{
  RemoteHandler, accept_agent, answer_patch, answered, close_agent, handle_register_agent,
  handle_unregister_agent, patch_device, refuse_agent,
}
use flex_gas.Sched.Remote.Loop.{is_remote, remote_dispatch, remote_loop}
use flex_gas.Sched.Requests.{SagReq, sag}
use flex_gas.Sched.Types.{
  Device, Group, Job, Ptr, remote, sag_sched_register_agent, sag_sched_unregister_agent, success,
}
use flex_gas.Sched.World.{World, done, update}

-- While no mutex is held, an agent registers for a group of a known job and then unregisters its
-- device, both answers get through and chClose works: both requests are answered, the device leaves
-- the table of its group, its own channel is closed and it is freed, the requests behind are not
-- read, and two rounds of the loop are enough.
pub remote_session :
    (others : World → World) (rounds more_rounds : ℕ) (h : RemoteHandler) (reg unreg : SagReq)
    (more : List (Option SagReq)) (job group device : Ptr) (j : Job) (g : Group) (d : Device)
    (more_closes : List Bool) (w : World)
    → h.terminate ≡ false
    → h.device ≡ none
    → reg.head.type ≡ remote
    → unreg.head.type ≡ remote
    → reg.data_part.type ≡ sag_sched_register_agent
    → unreg.data_part.type ≡ sag_sched_unregister_agent
    → find reg.head.jid w.job_tab ≡ some job
    → w.jobs job ≡ some j
    → find reg.head.gid j.group_tab ≡ some group
    → w.groups group ≡ some g
    → find unreg.head.did g.device_tab ≡ some device
    → w.devices device ≡ some d
    → d.did ≡ unreg.head.did
    → w.net.sag_replies ≡ some reg ∷ some unreg ∷ more
    → w.net.sends ≡ true ∷ true ∷ []
    → w.net.closes ≡ true ∷ more_closes
    → w.held ≡ []
    → remote_loop others rounds (suc (suc more_rounds)) h w
      ≡ done tt (record w {
        groups =
            update w.groups group
              (some (record g { device_tab = erase unreg.head.did g.device_tab }));
        devices = update w.devices device none;
        net = record (w.net) {
          sag_replies = more;
          heard = (w.net.heard ++ h.agent_channel ∷ []) ++ h.agent_channel ∷ [];
          sends = [];
          closes = more_closes;
          closed = w.net.closed ++ d.request_ch ∷ [];
        };
        sent =
            (w.sent ++ (h.agent_channel, sag (answered reg success)) ∷ [])
            ++ (h.agent_channel, sag (answered unreg success)) ∷ [];
      })
unfolding remote_loop remote_dispatch is_remote handle_register_agent handle_unregister_agent
    patch_device answer_patch close_agent find_job find_group find_device unregister_device
    destroy_device accept_agent refuse_agent
remote_session others rounds more_rounds h reg unreg more job group device j g d more_closes w going
      unpatched rem_r rem_u kind_r kind_u known lj member lg there ld named queue sends closes
      free =
    ground arith
