-- ===== src/Agent/Local/Register.antt =====
-- The registration of a PE with its agent.
use flex_gas.Agent.Local.{
  AgentLocalHandler, admit_pe, agent_register_pe, fetch_prospective, notify_spawned, refuse_pe,
  set_spawned, welcome,
}
use flex_gas.Container.Map.{bytes_key, erase, find, find-erase, insert, nat_key}
use flex_gas.Prelude.{Bool, List, [], arith, false, none, some, true, ◌++◌, ◌+◌, ◌∙◌, ◌∷◌, ◌≡◌, ◌≢◌}
use flex_gas.Sched.Local.{with_status}
use flex_gas.Sched.Pes.{belong_together, create_new_pe_id, register_pes, register_pes_loop}
use flex_gas.Sched.Requests.{SaaReq, saa, sched_api_root}
use flex_gas.Sched.Types.{Device, Group, Pe, ProspPe, Ptr, failed}
use flex_gas.Sched.World.{World, after_send, done, ret_err, ret_ok, update}

-- The PE structure of a process.
abbrev pub pe_of : ProspPe → Pe
pe_of ppe = record {
  pid = ppe.pid;
  uid = ppe.uid;
  jid = ppe.jid;
  gid = ppe.gid;
  hid = ppe.hid;
  did = ppe.did;
  peid = ppe.peid;
  comp = ppe.comp;
  device = ppe.device;
  group = ppe.group;
  job = ppe.job;
  is_killed = false;
}

-- The handler that serves the PE.
abbrev pub serving : AgentLocalHandler → ProspPe → Ptr → AgentLocalHandler
serving h ppe pe = record h {
  ppe = some ppe;
  pe = some pe;
  job = some ppe.job;
  group = some ppe.group;
  device = some ppe.device;
}

-- The state with the PE welcomed and in the table of its group.
abbrev pub admitted :
    AgentLocalHandler → SaaReq → ProspPe → List Bool → Device → Group → List Bool → World → World
admitted h req ppe flags d g more w = record w {
  prosp_pe_tab = erase req.head.pid w.prosp_pe_tab;
  notifs = update w.notifs ppe.notif (some (set_spawned ppe.notif_idx flags));
  net = record (w.net) { sends = more };
  sent = w.sent ++ (h.api_channel, saa (welcome req ppe d)) ∷ [];
  pes = update w.pes w.fresh (some (pe_of ppe));
  fresh = w.fresh + 1;
  groups =
      update w.groups ppe.group (some (record g { pe_tab = insert ppe.peid w.fresh g.pe_tab }));
}

-- A process that nobody expects is refused.
agent_register_pe_unknown :
    (h : AgentLocalHandler) (req : SaaReq) (w : World)
    → find req.head.pid w.prosp_pe_tab ≡ none
    → agent_register_pe h req w
      ≡ done (h, ret_err) (after_send h.api_channel (saa (with_status req failed)) w)
unfolding agent_register_pe fetch_prospective refuse_pe
agent_register_pe_unknown h req w unknown = ground arith

-- A process that the agent has started registers: it gets the identifiers that were set aside for
-- it, its byte tells the thread that waits, and its PE is entered in the table of its group. The
-- process is no longer expected: a second registration under its process identifier is refused,
-- and changes nothing but what is sent.
pub agent_register_pe_lem :
    (h h' : AgentLocalHandler) (req req' : SaaReq) (ppe : ProspPe) (flags more : List Bool)
    (d : Device) (g : Group) (w : World)
    → find req.head.pid w.prosp_pe_tab ≡ some ppe
    → req'.head.pid ≡ req.head.pid
    → ppe.peid ≢ sched_api_root
    → w.notifs ppe.notif ≡ some flags
    → w.devices ppe.device ≡ some d
    → w.groups ppe.group ≡ some g
    → g.job ≡ ppe.job
    → d.group ≡ ppe.group
    → d.job ≡ ppe.job
    → w.net.sends ≡ true ∷ more
    → w.held ≡ []
    → let w' = admitted h req ppe flags d g more w in
      (agent_register_pe h req w ≡ done (serving h ppe w.fresh, ret_ok) w')
      × (agent_register_pe h' req' w'
          ≡ done (h', ret_err) (after_send h'.api_channel (saa (with_status req' failed)) w'))
unfolding agent_register_pe fetch_prospective notify_spawned admit_pe create_new_pe_id register_pes
    belong_together register_pes_loop refuse_pe
agent_register_pe_lem h h' req req' ppe flags more d g w known same pe_id ln ld lg own dg dj sends
      free =
    let gone : find req'.head.pid (erase req.head.pid w.prosp_pe_tab) ≡ none =
      rw same (find-erase req.head.pid req.head.pid w.prosp_pe_tab ∙ ground arith) in
    (ground arith, agent_register_pe_unknown h' req' (admitted h req ppe flags d g more w) gone)
