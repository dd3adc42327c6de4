-- ===== src/Sched/Api/Retire.antt =====
-- Killing a PE, behind the agent's reply.
use flex_gas.Container.Map.{bytes_key, erase, find, insert, nat_key}
use flex_gas.Prelude.{[], arith, is_some, none, some, true, ◌≡◌}
use flex_gas.Sched.Api.Pes.{notify_killed, retire_pe}
use flex_gas.Sched.Pes.{
  belong_together, register_killed_pes, register_killed_pes_loop, unregister_pes,
  unregister_pes_loop,
}
use flex_gas.Sched.Types.{Device, Group, Pe, Ptr}
use flex_gas.Sched.World.{World, done, ret_ok, update}

module _ (p : Ptr) (pe : Pe) (g : Group) (d : Device) (w : World) (lp : w.pes p ≡ some pe)
    (lg : w.groups pe.group ≡ some g) (ld : w.devices pe.device ≡ some d) (own_g : g.job ≡ pe.job)
    (own_d : d.group ≡ pe.group) (own_j : d.job ≡ pe.job)
    (known : is_some (find pe.peid g.pe_tab) ≡ true) (silent : g.handle ≡ none)
    (free : w.held ≡ []) where
  -- A killed PE goes from the PE table of its group to the table of killed ones, marked as killed,
  -- and the mutex is free again. (The group here has no scheduling thread to tell.)
  pub retire_pe_lem :
      retire_pe p w
      ≡ done ret_ok (record w {
        pes = update w.pes p (some (record pe { is_killed = true }));
        groups =
            update
              (update w.groups pe.group (some (record g { pe_tab = erase pe.peid g.pe_tab })))
              pe.group
              (some (record g {
                pe_tab = erase pe.peid g.pe_tab;
                killed_pe_tab = insert pe.peid p g.killed_pe_tab;
              }));
      })
  unfolding retire_pe unregister_pes unregister_pes_loop register_killed_pes belong_together
      register_killed_pes_loop notify_killed
  retire_pe_lem = ground arith
