-- ===== src/Agent/Spawn/Arrival.antt =====
-- A PE that is started and arrives.
use flex_gas.Agent.Local.{AgentLocalHandler, agent_register_pe, set_spawned}
use flex_gas.Agent.Local.Register.{admitted, agent_register_pe_lem, pe_of, serving}
use flex_gas.Agent.Spawn.{
  add_prospective, all_spawned, await_spawned, create_pes, fork, fork_pes, pending, prospective,
}
use flex_gas.Container.Map.{bytes_key, find, find-erase, find-insert, insert, nat_key}
use flex_gas.Container.TsMap.{insert_pair}
use flex_gas.Prelude.{
  Bool, List, Option, [], arith, false, none, refl, some, suc, true, ℕ, ◌%◌, ◌+◌, ◌∙◌, ◌∷◌, ◌≡◌,
  ◌≢◌,
}
use flex_gas.Sched.Jobs.{u32}
use flex_gas.Sched.Requests.{SaaReq, SagReq, sched_api_root}
use flex_gas.Sched.Types.{Comp, Device, Group, Job, ProspPe, Ptr}
use flex_gas.Sched.World.{World, done, ret_ok, update}

-- The entry of the only PE of a request.
abbrev pub started :
    SagReq → Device → Ptr → Job → Group → (comp : Ptr) → Comp → (notif pid : ℕ) → ProspPe
started req d device j g comp c notif pid = prospective req d device j g comp c notif 0 pid

-- The state in which the agent waits for the only PE of a request.
abbrev pub awaiting : ProspPe → List (Option ℕ) → World → World
awaiting ppe more w = record w {
  notifs = update w.notifs w.fresh (some (false ∷ []));
  fresh = w.fresh + 1;
  net = record (w.net) { forks = more };
  prosp_pe_tab = insert ppe.pid ppe w.prosp_pe_tab;
}

-- create_pes for one PE, whose process is forked and registers with the agent while the thread
-- waits: it returns 0, and the PE is entered in the table of its group under the identifier that the
-- request gave it, with its process no longer expected.
pub create_pes-agent_register_pe :
    (others : World → World) (looks retries : ℕ) (req : SagReq) (device comp pid : Ptr) (d : Device)
    (j : Job) (g : Group) (c : Comp) (h : AgentLocalHandler) (reg : SaaReq)
    (more_forks : List (Option ℕ)) (more_sends : List Bool) (w : World)
    → req.data_part.num_pes ≡ 1
    → w.devices device ≡ some d
    → w.jobs d.job ≡ some j
    → w.groups d.group ≡ some g
    → g.job ≡ d.job
    → find req.data_part.comp.comp_id g.comp_tab ≡ some comp
    → w.comps comp ≡ some c
    → req.data_part.s_peid % u32 ≢ sched_api_root
    → w.net.forks ≡ some pid ∷ more_forks
    → w.net.sends ≡ true ∷ more_sends
    → find pid w.prosp_pe_tab ≡ none
    → w.held ≡ []
    → reg.head.pid ≡ pid
    → ((v : World) (h' : AgentLocalHandler) (v' : World)
        → agent_register_pe h reg v ≡ done (h', ret_ok) v'
        → others v ≡ v')
    → (w' : World) × (create_pes others (suc looks) (suc retries) req device w ≡ done ret_ok w')
      × (find pid w'.prosp_pe_tab ≡ none)
      × (w'.groups d.group
          ≡ some (record g { pe_tab = insert (req.data_part.s_peid % u32) (w.fresh + 1) g.pe_tab }))
      × (w'.pes (w.fresh + 1) ≡ some (pe_of (started req d device j g comp c w.fresh pid)))
unfolding create_pes fork_pes fork await_spawned all_spawned pending add_prospective prospective
    insert_pair set_spawned
create_pes-agent_register_pe others looks retries req device comp pid d j g c h reg more_forks
      more_sends w one ld lj lg own runs lc pe_id forks sends new free who register =
    let ppe : ProspPe = started req d device j g comp c w.fresh pid in
    let v : World = awaiting ppe more_forks w in
    let v' : World = admitted h reg ppe (false ∷ []) d g more_sends v in
    let arrived : agent_register_pe h reg v ≡ done (serving h ppe v.fresh, ret_ok) v' =
      (agent_register_pe_lem h h reg reg ppe (false ∷ []) more_sends d g v
        (rw who (find-insert pid pid ppe w.prosp_pe_tab ∙ ground arith)) refl (ground arith)
        (ground arith) ld lg own refl refl sends free).0 in
    let seen : others v ≡ v' = register v _ v' arrived in
    (
      v',
      ground arith,
      rw who (find-erase pid pid (insert pid ppe w.prosp_pe_tab) ∙ ground arith),
      ground arith,
      ground arith,
    )
