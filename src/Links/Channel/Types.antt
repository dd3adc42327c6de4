-- ===== src/Links/Channel/Types.antt =====
-- The structures of src/ch/channel.h, and the calls of the link managers that the layer makes.
use flex_gas.Agent.Window.{u64}
use flex_gas.Links.Runs.{Ret, Run, deref, pure, ret_err, ret_ok}
use flex_gas.Links.Sockets.{update}
use flex_gas.Prelude.{Bool, Bytes, Option, if◌then◌else◌, ltb, none, some, ℕ, ◌%◌, ◌+◌, ◌-◌}

-- ch_link
pub data ChLink : Type 0 where
  link_rdma link_inet link_shm : ChLink

-- The context is the member of the union that belongs to the link.
pub record Channel : Type 0 where
  pub link : ChLink
  pub ctx : ℕ

-- Of the types of an event, the layer sets only this one when it starts an operation.
pub data ChEventType : Type 0 where
  ch_pending : ChEventType

-- `wc` says whether a request of the RDMA link was made for the event.
pub record ChEvent : Type 0 where
  pub type : ChEventType
  pub channel : Channel
  pub id : ℕ
  pub wc : Bool

pub data MrType : Type 0 where
  mr_local mr_remote : MrType

-- The bits of `link_ena` are three Booleans; `local_mr` is the region of the verbs library.
pub record ChMr : Type 0 where
  pub type : MrType
  pub rdma_ena : Bool
  pub inet_ena : Bool
  pub shm_ena : Bool
  pub addr : ℕ
  pub length : ℕ
  pub handle : ℕ
  pub lkey : ℕ
  pub rkey : ℕ
  pub local_mr : Option ℕ
  pub name : Bytes
  pub fd : ℕ

-- What lmRdmaRegisterMemory and lmShmAlloc give.
pub record IbvMr : Type 0 where
  pub pointer : ℕ
  pub handle : ℕ
  pub lkey : ℕ
  pub rkey : ℕ

pub record Segment : Type 0 where
  pub addr : ℕ
  pub name : Bytes
  pub fd : ℕ

-- The calls of the link managers on a state S of theirs. Blocking and asynchronous calls take the
-- context, the identifier, the address and the length; a remote one also the remote address. A
-- channel's message is the bytes at an address or a region (`Payload`).
pub data Payload : Type 0 where
  at_addr : ℕ → Payload
  region : ChMr → Payload

pub record LinkCalls (S : Type 0) : Type 0 where
  pub rdma_send : (ctx id : ℕ) → Payload → (length : ℕ) → Run S Ret
  pub inet_send : (ctx id : ℕ) → Payload → (length : ℕ) → Run S Ret
  pub shm_send : (ctx id : ℕ) → Payload → (length : ℕ) → Run S Ret
  pub rdma_recv : (ctx id addr length : ℕ) → Run S Ret
  pub inet_recv : (ctx id addr length : ℕ) → Run S Ret
  pub shm_recv : (ctx id addr length : ℕ) → Run S Ret
  pub rdma_recv_mr : (ctx id : ℕ) → Run S (Option ChMr)
  pub inet_recv_mr : (ctx id : ℕ) → Run S (Option ChMr)
  pub shm_recv_mr : (ctx id : ℕ) → Run S (Option ChMr)
  pub rdma_send_async : (ctx id addr length : ℕ) → Run S Ret
  pub inet_send_async : (ctx id addr length : ℕ) → Run S Ret
  pub shm_send_async : (ctx id addr length : ℕ) → Run S Ret
  pub rdma_recv_async : (ctx id addr length : ℕ) → Run S Ret
  pub inet_recv_async : (ctx id addr length : ℕ) → Run S Ret
  pub shm_recv_async : (ctx id addr length : ℕ) → Run S Ret
  pub rdma_register : (ctx addr length : ℕ) → Run S (Option IbvMr)
  pub inet_register : (ctx addr length : ℕ) → Run S Ret
  pub shm_alloc : (name : ℕ) (length : ℕ) (clean : Bool) → Run S (Option Segment)
  pub shm_free : ChMr → Run S Ret
  pub shm_acquire : (name : Bytes) (length : ℕ) → Run S (Option (Segment × ℕ))
  pub shm_release : ChMr → Run S Ret
  pub rdma_remote_read :
      (ctx id addr : ℕ) → Option ℕ → (rem_addr : ℕ) → ChMr → (length : ℕ) → Run S Ret
  pub inet_remote_read : (ctx id addr rem_addr length : ℕ) → Run S Ret
  pub rdma_remote_write :
      (ctx id addr : ℕ) → Option ℕ → (rem_addr : ℕ) → ChMr → (length : ℕ) → Run S Ret
  pub inet_remote_write : (ctx id addr rem_addr length : ℕ) → Run S Ret

-- The state of the layer beside that of the links: the counter of identifiers, and the regions and
-- events under their pointers.
pub record Layer (S : Type 0) : Type 0 where
  pub links : S
  pub id_cnt : ℕ
  pub mrs : ℕ → Option ChMr
  pub events : ℕ → Option ChEvent
  pub fresh : ℕ

-- GenerateChEventId
unfoldable pub generate_id : {S : Type 0} → Run (Layer S) ℕ
generate_id h = pure h.id_cnt (record h { id_cnt = (h.id_cnt + 1) % u64 })

-- `int reqId = GenerateChEventId()`, passed on as a uint64_t: the low 32 bits, with their sign.
unfoldable pub int_id : ℕ → ℕ
int_id id =
    if ltb (id % 0x100000000) 0x80000000
    then id % 0x100000000
    else id % 0x100000000 + (u64 - 0x100000000)

-- A call of a link.
abbrev on_links_result : {S A : Type 0} → Layer S → Option (A × S) → Option (A × Layer S)
on_links_result h none = none
on_links_result h (some (a, s)) = some (a, record h { links = s })

abbrev pub on_links : {S A : Type 0} → Run S A → Run (Layer S) A
on_links m h = on_links_result h (m h.links)

abbrev pub load_mr : {S : Type 0} → ℕ → Run (Layer S) ChMr
load_mr p h = deref (h.mrs p) h

abbrev pub store_mr : {S : Type 0} → ℕ → ChMr → Run (Layer S) (Unit {0})
store_mr p r h = pure tt (record h { mrs = update h.mrs p (some r) })

-- The result of a call that starts an operation: -1, or 0 with the new event.
abbrev pub Started : Type 0
Started = Option ℕ

abbrev pub new_event : {S : Type 0} → ChEvent → Run (Layer S) Started
new_event e h =
    pure (some h.fresh)
      (record h { events = update h.events h.fresh (some e); fresh = h.fresh + 1 })

abbrev pub started : {S : Type 0} → Ret → ChEvent → Run (Layer S) Started
started ret_ok e = new_event e
started ret_err e = pure none
