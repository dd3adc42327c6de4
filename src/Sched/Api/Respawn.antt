-- ===== src/Sched/Api/Respawn.antt =====
-- Respawning a PE that was killed.
use flex_gas.Container.Map.{bytes_key, erase, find, insert, nat_key}
use flex_gas.Prelude.{Bool, List, Option, [], arith, some, true, ◌∷◌, ◌≡◌}
use flex_gas.Sched.Api.{accepted, create_agent_request, is_success, submit_agent_request}
use flex_gas.Sched.Api.Pes.{sched_respawn_pes, spawn_request}
use flex_gas.Sched.Pes.{
  belong_together, register_pes, register_pes_loop, unregister_killed_pes,
  unregister_killed_pes_loop,
}
use flex_gas.Sched.Requests.{SagReq}
use flex_gas.Sched.Types.{Comp, Device, Group, Pe, Ptr, success}
use flex_gas.Sched.World.{Returns, World, ret_ok}

-- A killed PE of the group of a device is respawned there, when the agent reports success: it goes
-- from the table of killed PEs back to the PE table of the group, and lives on the device. The
-- mutexes are free again.
pub sched_respawn_pes_lem :
    (blank reply : SagReq) (device p : Ptr) (d : Device) (g : Group) (pe : Pe) (c : Comp)
    (more : List Bool) (more_replies : List (Option SagReq)) (w : World)
    → w.devices device ≡ some d
    → w.groups d.group ≡ some g
    → g.job ≡ d.job
    → w.pes p ≡ some pe
    → w.comps pe.comp ≡ some c
    → find pe.peid g.killed_pe_tab ≡ some p
    → d.jid ≡ pe.jid
    → d.gid ≡ pe.gid
    → w.net.sends ≡ true ∷ more
    → w.net.sag_replies ≡ some reply ∷ more_replies
    → reply.head.status ≡ success
    → w.held ≡ []
    → Returns
        (λ r w'.
          (r ≡ ret_ok)
          × (w'.groups d.group
              ≡ some (record g {
                killed_pe_tab = erase pe.peid g.killed_pe_tab;
                pe_tab = insert pe.peid p g.pe_tab;
              }))
          × (w'.pes p ≡ some (record pe { device = device }))
          × (w'.held ≡ []))
        (sched_respawn_pes blank device p w)
unfolding sched_respawn_pes unregister_killed_pes unregister_killed_pes_loop belong_together
    spawn_request create_agent_request submit_agent_request accepted is_success register_pes
    register_pes_loop
sched_respawn_pes_lem blank reply device p d g pe c more more_replies w ld lg own lp lc killed jid
      gid sends replies well free =
    ground arith
