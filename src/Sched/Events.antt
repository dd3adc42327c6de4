-- ===== src/Sched/Events.antt =====
-- Events: the event operations of src/vivm/sched/sched_helpers.h, and the handle operations of
-- src/vivm/sched/sched_api.cpp that create, poll and acknowledge them.
pub mod Delivery
pub mod Handles
pub mod Wait
use Prim.Native.Nat.{bit_and}
use flex_gas.Prelude.{
  Option, [], false, if◌then◌else◌, none, not, some, suc, true, zero, ℕ, ◌++◌, ◌==◌, ◌∷◌,
}
use flex_gas.Sched.Find.{
  find_group, find_job, lock_group_tab, lock_job_tab, unlock_group_tab, unlock_job_tab,
}
use flex_gas.Sched.Requests.{sched_api_root}
use flex_gas.Sched.Types.{
  AckType, Event, Ptr, sched_event_busy_wait, sched_event_sleep_wait, sched_event_wait_none,
}
use flex_gas.Sched.World.{
  M, Ret, World, blocked, delete_ack, deref, done, handle_mutex, load_ack, load_device, load_group,
  load_handle, load_job, lock, new_ack, new_handle, pure, ret_err, ret_ok, store_ack, store_group,
  store_handle, store_job, unlock, ◌>>=◌, ◌>>◌,
}

abbrev pub sched_inst_sys : ℕ
sched_inst_sys = 0x10000000

abbrev pub sched_inst_job : ℕ
sched_inst_job = 0x20000000

abbrev pub sched_inst_group : ℕ
sched_inst_group = 0x40000000

abbrev pub sys_event_start_job : ℕ
sys_event_start_job = 0x10000001

abbrev pub job_event_start_comp : ℕ
job_event_start_comp = 0x20000001

abbrev pub group_event_pe_exit : ℕ
group_event_pe_exit = 0x40000002

abbrev pub group_event_pe_killed : ℕ
group_event_pe_killed = 0x40000008

-- An event is queued where the mask has every bit of its type, and dropped elsewhere.
unfoldable pub queue_event : Ptr → ℕ → Event → M (Unit {0})
queue_event handle type event = do
  _ ← load_handle handle
  lock (handle_mutex handle)
  tn ← load_handle handle
  if bit_and tn.mask type == type
      then store_handle handle (record tn { queue = tn.queue ++ event ∷ [] })
      else pure tt
  unlock (handle_mutex handle)

-- The cell of a busy wait.
unfoldable pub new_event_ack : AckType → M (Option Ptr)
new_event_ack sched_event_wait_none = pure none
new_event_ack sched_event_busy_wait = do p ← new_ack 0; pure (some p)
new_event_ack sched_event_sleep_wait = pure none

unfoldable pub create_new_sys_event : ℕ → Ptr → AckType → Ptr → M Event
create_new_sys_event type job ack_type handle = do
  j ← load_job job
  ack ← new_event_ack ack_type
  let event : Event = record {
    type = type;
    uid = j.uid;
    pid = j.pid;
    jid = j.jid;
    gid = sched_api_root;
    hid = sched_api_root;
    did = sched_api_root;
    peid = sched_api_root;
    job = job;
    group = none;
    device = none;
    comp = none;
    ack_type = ack_type;
    ack = ack;
  }
  queue_event handle type event
  pure event

unfoldable pub create_new_job_event : ℕ → Ptr → Ptr → Ptr → AckType → Ptr → M Event
create_new_job_event type job group comp ack_type handle = do
  j ← load_job job
  g ← load_group group
  ack ← new_event_ack ack_type
  let event : Event = record {
    type = type;
    uid = j.uid;
    pid = j.pid;
    jid = j.jid;
    gid = g.gid;
    hid = sched_api_root;
    did = sched_api_root;
    peid = sched_api_root;
    job = job;
    group = some group;
    device = none;
    comp = if type == job_event_start_comp then some comp else none;
    ack_type = ack_type;
    ack = ack;
  }
  queue_event handle type event
  pure event

unfoldable pub create_new_group_event : ℕ → Ptr → Ptr → Ptr → ℕ → Ptr → M Event
create_new_group_event type job group device peid handle = do
  j ← load_job job
  g ← load_group group
  d ← load_device device
  let event : Event = record {
    type = type;
    uid = j.uid;
    pid = j.pid;
    jid = j.jid;
    gid = g.gid;
    hid = sched_api_root;
    did = d.did;
    peid = peid;
    job = job;
    group = some group;
    device = some device;
    comp = none;
    ack_type = sched_event_wait_none;
    ack = none;
  }
  queue_event handle type event
  pure event

-- The polling loop of a busy wait, `rounds` looks at most: beyond them the thread still waits.
unfoldable pub poll_ack : (World → World) → ℕ → Ptr → M Ret
poll_ack others zero ack = λ w. blocked
poll_ack others (suc k) ack = do
  (λ w. done tt (others w))
  a ← load_ack ack
  elim (a == 0) [ true ↦ poll_ack others k ack | false ↦ pure ret_ok ]

-- A sleeping wait ends when the condition variable is signalled, which is up to the others.
unfoldable pub wait_event_ack : (World → World) → ℕ → Event → M Ret
wait_event_ack others rounds event = elim event.ack_type [
  | sched_event_wait_none ↦ pure ret_ok
  | sched_event_busy_wait ↦ (do ack ← deref event.ack; poll_ack others rounds ack)
  | sched_event_sleep_wait ↦ (do (λ w. done tt (others w)); pure ret_ok)
]

unfoldable pub destroy_event : Event → M Ret
destroy_event event = elim event.ack_type [
  | sched_event_wait_none ↦ pure ret_ok
  | sched_event_busy_wait ↦ (do ack ← deref event.ack; delete_ack ack; pure ret_ok)
  | sched_event_sleep_wait ↦ pure ret_ok
]

-- schedCreateSchedHandle; the mask of a new handle is zero.
unfoldable pub sched_create_sched_handle : M Ptr
sched_create_sched_handle = new_handle (record { mask = 0; queue = [] })

-- `mask & 0xff000000`
abbrev pub instance_of : ℕ → ℕ
instance_of mask = bit_and mask 0xff000000

unfoldable pub register_handle_sys : Ptr → ℕ → M Ret
register_handle_sys handle mask =
    if not (instance_of mask == sched_inst_sys) then pure ret_err else do
      (λ w. done tt (record w { sys_handle = some handle }))
      tn ← load_handle handle
      store_handle handle (record tn { mask = mask })
      pure ret_ok

unfoldable pub register_handle_job : Ptr → ℕ → ℕ → M Ret
register_handle_job handle jid mask =
    if not (instance_of mask == sched_inst_job) then pure ret_err else do
      lock_job_tab
      job ← find_job jid
      elim job [
        | none ↦ (do unlock_job_tab; pure ret_err)
        | some p ↦ do
          tn ← load_handle handle
          store_handle handle (record tn { mask = mask })
          j ← load_job p
          store_job p (record j { handle = some handle })
          unlock_job_tab
          pure ret_ok
      ]

unfoldable pub register_handle_group : Ptr → ℕ → ℕ → ℕ → M Ret
register_handle_group handle jid gid mask =
    if not (instance_of mask == sched_inst_group) then pure ret_err else do
      lock_job_tab
      job ← find_job jid
      elim job [
        | none ↦ (do unlock_job_tab; pure ret_err)
        | some p ↦ do
          lock_group_tab p
          group ← find_group p gid
          elim group [
            | none ↦ (do unlock_group_tab p; unlock_job_tab; pure ret_err)
            | some q ↦ do
              tn ← load_handle handle
              store_handle handle (record tn { mask = mask })
              g ← load_group q
              store_group q (record g { handle = some handle })
              unlock_group_tab p
              unlock_job_tab
              pure ret_ok
          ]
      ]

-- schedRegisterHandle
unfoldable pub sched_register_handle : Ptr → ℕ → ℕ → ℕ → ℕ → M Ret
sched_register_handle handle inst jid gid mask =
    if inst == sched_inst_sys
    then register_handle_sys handle mask
    else if inst == sched_inst_job
    then register_handle_job handle jid mask
    else if inst == sched_inst_group
    then register_handle_group handle jid gid mask
    else pure ret_err

-- The head of a queue is taken; an empty queue has no head to read.
unfoldable pub take_event : Ptr → M (Option Event)
take_event handle = do
  tn ← load_handle handle
  elim tn.queue [
    | [] ↦ pure none
    | e ∷ es ↦ (do store_handle handle (record tn { queue = es }); pure (some e))
  ]

-- schedWaitEvent. `pthread_cond_wait` gives the mutex up, and `others` run before it is taken
-- again; the queue is then read without a second test, which faults where it is still empty.
unfoldable pub sched_wait_event : (World → World) → Ptr → M (Ret × Event)
sched_wait_event others handle = do
  _ ← load_handle handle
  lock (handle_mutex handle)
  e ← take_event handle
  elim e [
    | some ev ↦ (do unlock (handle_mutex handle); pure (ret_ok, ev))
    | none ↦ do
      unlock (handle_mutex handle)
      (λ w. done tt (others w))
      lock (handle_mutex handle)
      e' ← take_event handle
      ev ← deref e'
      unlock (handle_mutex handle)
      pure (ret_ok, ev)
  ]

-- schedPollEvent: -1 leaves `*event` alone.
unfoldable pub sched_poll_event : Ptr → M (Option Event)
sched_poll_event handle = do
  _ ← load_handle handle
  lock (handle_mutex handle)
  e ← take_event handle
  unlock (handle_mutex handle)
  pure e

-- schedAckEvent
unfoldable pub sched_ack_event : Event → M Ret
sched_ack_event event = elim event.ack_type [
  | sched_event_wait_none ↦ pure ret_ok
  | sched_event_busy_wait ↦ do ack ← deref event.ack; _ ← load_ack ack; store_ack ack 1; pure ret_ok
  | sched_event_sleep_wait ↦ pure ret_ok
]
