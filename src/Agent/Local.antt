-- ===== src/Agent/Local.antt =====
-- AgentLocalHandler: src/vivm/agent/agent_local_handler.cpp, the requests of the PEs, without the
-- mapping of memory objects.
pub mod Memory
pub mod Register
use flex_gas.Agent.Remote.{submit_sched_request}
use flex_gas.Container.Map.{bytes_key, erase, find, nat_key}
use flex_gas.Prelude.{
  Bool, Bytes, List, Option, [], if◌then◌else◌, none, some, suc, take, true, zero, ℕ, ◌==◌, ◌∷◌,
}
use flex_gas.Sched.Api.{create_agent_request}
use flex_gas.Sched.Local.{with_status}
use flex_gas.Sched.Pes.{create_new_pe_id, register_pes}
use flex_gas.Sched.Requests.{SaaReq, SagReq, saa, sched_api_root}
use flex_gas.Sched.Types.{
  Device, ProspPe, Ptr, failed, sag_sched_launch_comp, sag_sched_notify_pe_done, success,
}
use flex_gas.Sched.World.{
  M, Ret, ch_send, deref, done, load_device, load_group, load_notif, load_pe, pure, ret_err, ret_ok,
  store_notif, ◌>>=◌, ◌>>◌,
}

pub record AgentLocalHandler : Type 0 where
  pub api_channel : ℕ
  pub terminate : Bool
  pub ppe : Option ProspPe
  pub pe : Option Ptr
  pub job : Option Ptr
  pub group : Option Ptr
  pub device : Option Ptr

abbrev pub PeHandled : Type 0
PeHandled = AgentLocalHandler × Ret

unfoldable pub refuse_pe : AgentLocalHandler → SaaReq → M PeHandled
refuse_pe h req = do _ ← ch_send h.api_channel (saa (with_status req failed)); pure (h, ret_err)

-- `ppe.notif[ppe.notif_idx] = PE_SPAWNED`
unfoldable pub set_spawned : ℕ → List Bool → List Bool
set_spawned i [] = []
set_spawned zero (b ∷ flags) = true ∷ flags
set_spawned (suc i) (b ∷ flags) = b ∷ set_spawned i flags

unfoldable pub notify_spawned : ProspPe → M (Unit {0})
notify_spawned ppe = do
  flags ← load_notif ppe.notif
  store_notif ppe.notif (set_spawned ppe.notif_idx flags)

-- The entry of a process, which leaves the table.
unfoldable pub fetch_prospective : ℕ → M (Option ProspPe)
fetch_prospective pid w = elim (find pid w.prosp_pe_tab) [
  | none ↦ done none w
  | some ppe ↦ done (some ppe) (record w { prosp_pe_tab = erase pid w.prosp_pe_tab })
]

-- The response to a PE that has come.
unfoldable pub welcome : SaaReq → ProspPe → Device → SaaReq
welcome req ppe d = record req {
  head = record (req.head) {
    status = success;
    jid = ppe.jid;
    gid = ppe.gid;
    hid = ppe.hid;
    did = ppe.did;
    peid = ppe.peid;
  };
  data_part = record (req.data_part) {
    comp_desc_exec = ppe.comp_desc_exec;
    rec_level = ppe.rec_level;
    device_type = d.phy.type;
    phy_dev_id = d.phy.phy_dev_id;
  };
}

-- The response to a process under the root's PE identifier, which has no device.
unfoldable pub welcome_root : SaaReq → ProspPe → SaaReq
welcome_root req ppe = record req {
  head = record (req.head) {
    status = success;
    jid = ppe.jid;
    gid = ppe.gid;
    hid = ppe.hid;
    did = ppe.did;
    peid = ppe.peid;
  };
  data_part = record (req.data_part) { comp_desc_exec = ppe.comp_desc_exec };
}

-- The part for a PE: the answer, the PE structure, its registration.
unfoldable pub admit_pe : AgentLocalHandler → SaaReq → ProspPe → M PeHandled
admit_pe h req ppe = do
  d ← load_device ppe.device
  r ← ch_send h.api_channel (saa (welcome req ppe d))
  elim r [
    | ret_err ↦ pure (h, ret_err)
    | ret_ok ↦ do
      pe ←
          create_new_pe_id ppe.pid ppe.uid ppe.jid ppe.gid ppe.hid ppe.did ppe.peid ppe.comp
            ppe.device ppe.group ppe.job
      r' ← register_pes ppe.job ppe.group ppe.device (pe ∷ [])
      elim r' [
        | ret_err ↦ pure (h, ret_err)
        | ret_ok ↦ pure (
          record h {
            ppe = some ppe;
            pe = some pe;
            job = some ppe.job;
            group = some ppe.group;
            device = some ppe.device;
          },
          ret_ok,
        )
      ]
  ]

unfoldable pub agent_register_pe : AgentLocalHandler → SaaReq → M PeHandled
agent_register_pe h req = do
  found ← fetch_prospective req.head.pid
  elim found [
    | none ↦ refuse_pe h req
    | some ppe ↦ do
      notify_spawned ppe
      if ppe.peid == sched_api_root
          then (do r ← ch_send h.api_channel (saa (welcome_root req ppe)); pure (h, r))
          else admit_pe h req ppe
  ]

-- HandleUnregisterPe, behind whose answer `handle_descendant_pe` waits for the process and, unless
-- the PE was killed, tells the scheduler.
unfoldable pub agent_unregister_pe : SagReq → AgentLocalHandler → SaaReq → M PeHandled
agent_unregister_pe blank h req = do
  _ ← ch_send h.api_channel (saa (with_status req success))
  p ← deref h.pe
  pe ← load_pe p
  if pe.is_killed then pure (record h { terminate = true }, ret_ok) else do
    ppe ← deref h.ppe
    sched_req ←
        create_agent_request blank sag_sched_notify_pe_done req.head.pid ppe.uid ppe.jid ppe.gid
          sched_api_root ppe.did ppe.peid
    reply ← submit_sched_request sched_req ppe.device
    elim reply [
      | none ↦ refuse_pe h (with_status req success)
      | some _ ↦ pure (record h { terminate = true }, ret_ok)
    ]

-- What `snprintf` leaves in a buffer of MED_STR_LEN bytes.
abbrev pub med_clipped : Bytes → Bytes
med_clipped s = take 63 s

-- HandleRegisterComp and HandleConfigureComp, which are not implemented.
unfoldable pub agent_comp_other : AgentLocalHandler → SaaReq → M PeHandled
agent_comp_other h req = do
  _ ← ch_send h.api_channel (saa (with_status req failed))
  pure (h, ret_ok)

-- HandleLaunchComp; the scheduler's answer is not looked at.
unfoldable pub agent_launch_comp : SagReq → AgentLocalHandler → SaaReq → M PeHandled
agent_launch_comp blank h req = do
  group ← deref h.group
  g ← load_group group
  sched_req ←
      create_agent_request blank sag_sched_launch_comp req.head.pid req.head.uid req.head.jid
        req.head.gid sched_api_root req.head.did req.head.peid
  device ← deref h.device
  _ ←
      submit_sched_request
        (record sched_req {
          data_part = record (sched_req.data_part) {
            comp_id = med_clipped req.data_part.comp_id;
            comp_config = req.data_part.comp_config;
            rec_level = g.rec_level;
          };
        })
        device
  _ ← ch_send h.api_channel (saa (with_status req success))
  pure (h, ret_ok)
