-- ===== src/Sched/Api/Pes.antt =====
-- The PE calls of src/vivm/sched/sched_api.cpp: schedSpawnPes, schedKillPes, schedRespawnPes.
use flex_gas.Container.Map.{bytes_key, find, nat_key}
use flex_gas.Prelude.{
  List, [], if◌then◌else◌, leb, none, not, some, suc, true, zero, ℕ, ◌%◌, ◌&&◌, ◌+◌, ◌==◌, ◌∷◌,
}
use flex_gas.Sched.Api.{accepted, create_agent_request, submit_agent_request}
use flex_gas.Sched.Events.{create_new_group_event, group_event_pe_killed}
use flex_gas.Sched.Jobs.{u32}
use flex_gas.Sched.Pes.{
  create_new_pe_id, get_current_max_peid, get_new_peids, register_killed_pes, register_pes,
  unregister_killed_pes, unregister_pes,
}
use flex_gas.Sched.Requests.{SagReq, sched_api_root}
use flex_gas.Sched.Types.{Comp, Device, Pe, Ptr, sag_agent_kill_pes, sag_agent_spawn_pes}
use flex_gas.Sched.World.{
  M, Ret, load_comp, load_device, load_group, load_pe, on_ok, pure, ret_err, ret_ok, store_pe,
  ◌>>=◌, ◌>>◌,
}

-- The request of a spawn on a device, for the PEs from `s_peid` to `e_peid`.
unfoldable pub spawn_request : SagReq → Device → Comp → (num_pes s_peid e_peid : ℕ) → M SagReq
spawn_request blank d comp num_pes s_peid e_peid = do
  req ←
      create_agent_request blank sag_agent_spawn_pes d.pid d.uid d.jid d.gid sched_api_root d.did
        sched_api_root
  pure (record req {
    data_part = record (req.data_part) {
      comp = comp;
      num_pes = num_pes;
      device_type_pes = d.phy.type;
      phy_dev_id_pes = d.phy.phy_dev_id;
      hid = sched_api_root;
      s_peid = s_peid;
      e_peid = e_peid;
    };
  })

-- `count` PE structures, numbered from `peid`.
unfoldable pub make_pes : ℕ → Device → Ptr → Ptr → ℕ → M (List Ptr)
make_pes zero d device comp peid = pure []
make_pes (suc k) d device comp peid = do
  p ←
      create_new_pe_id sched_api_root d.uid d.jid d.gid sched_api_root d.did peid comp device
        d.group d.job
  ps ← make_pes k d device comp ((peid + 1) % u32)
  pure (p ∷ ps)

-- The part of schedSpawnPes behind the guards.
unfoldable pub spawn_pes : SagReq → Ptr → Ptr → ℕ → M (Ret × List Ptr)
spawn_pes blank device comp num_pes = do
  d ← load_device device
  c ← load_comp comp
  (s, e) ← get_new_peids d.group num_pes
  req ← spawn_request blank d c num_pes s e
  r ← submit_agent_request req device
  elim (accepted r) [
    | none ↦ pure (ret_err, [])
    | some reply ↦ do
      ps ← make_pes num_pes d device comp reply.data_part.s_peid
      r' ← register_pes d.job d.group device ps
      elim r' [ ret_err ↦ pure (ret_err, []) | ret_ok ↦ pure (ret_ok, ps) ]
  ]

-- schedSpawnPes, with the PEs that it made. A group that has reached its limit gets none and a
-- return of 0.
unfoldable pub sched_spawn_pes : SagReq → Ptr → Ptr → ℕ → M (Ret × List Ptr)
sched_spawn_pes blank device comp num_pes = do
  d ← load_device device
  g ← load_group d.group
  c ← load_comp comp
  elim (find c.comp_id g.comp_tab) [
    | none ↦ pure (ret_err, [])
    | some cp ↦ do
      cg ← load_comp cp
      if leb cg.config.max_pes_num (get_current_max_peid g)
          then pure (ret_ok, [])
          else spawn_pes blank device comp num_pes
  ]

unfoldable pub notify_killed : Pe → M (Unit {0})
notify_killed pe = do
  g ← load_group pe.group
  elim g.handle [
    | none ↦ pure tt
    | some h ↦ do
      _ ← create_new_group_event group_event_pe_killed pe.job pe.group pe.device pe.peid h
      pure tt
  ]

-- The part of schedKillPes behind the agent's reply.
unfoldable pub retire_pe : Ptr → M Ret
retire_pe p = do
  pe ← load_pe p
  store_pe p (record pe { is_killed = true })
  r ← unregister_pes pe.job pe.group pe.device (p ∷ [])
  on_ok r (do
    r' ← register_killed_pes pe.job pe.group pe.device (p ∷ [])
    on_ok r' (do notify_killed pe; pure ret_ok))

-- schedKillPes
unfoldable pub sched_kill_pes : SagReq → Ptr → M Ret
sched_kill_pes blank p = do
  pe ← load_pe p
  g ← load_group pe.group
  elim (find pe.peid g.pe_tab) [
    | none ↦ pure ret_ok
    | some _ ↦ do
      d ← load_device pe.device
      req ←
          create_agent_request blank sag_agent_kill_pes d.pid pe.uid pe.jid pe.gid sched_api_root
            pe.did pe.peid
      r ← submit_agent_request req pe.device
      elim (accepted r) [ none ↦ pure ret_err | some _ ↦ retire_pe p ]
  ]

-- schedRespawnPes
unfoldable pub sched_respawn_pes : SagReq → Ptr → Ptr → M Ret
sched_respawn_pes blank device p = do
  d ← load_device device
  r ← unregister_killed_pes d.job d.group device (p ∷ [])
  on_ok r (do
    pe ← load_pe p
    if not ((d.jid == pe.jid) && (d.gid == pe.gid)) then pure ret_err else do
      c ← load_comp pe.comp
      req ← spawn_request blank d c 1 pe.peid pe.peid
      reply ← submit_agent_request req device
      elim (accepted reply) [
        | none ↦ pure ret_err
        | some _ ↦ do
          store_pe p (record pe { device = device })
          register_pes d.job d.group device (p ∷ [])
      ])
