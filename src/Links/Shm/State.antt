-- ===== src/Links/Shm/State.antt =====
-- The structures of src/lm/lmshm.h, and the state of a process that uses the link.
use flex_gas.Links.Memory.{Memory, le_bytes, of_bytes, read_bytes}
use flex_gas.Links.Runs.{Ret, Run, deref, pure, ret_err, ret_ok, ◌>>=◌}
use flex_gas.Links.Sockets.{Socket, update}
use flex_gas.Prelude.{Bool, Bytes, List, Option, [], false, some, true, ℕ, ◌++◌, ◌∷◌}

abbrev pub Ptr : Type 0
Ptr = ℕ

-- shm_request_type
pub data ShmRequestType : Type 0 where
  shm_send shm_recv : ShmRequestType

unfoldable pub shm_type_code : ShmRequestType → ℕ
shm_type_code shm_send = 0
shm_type_code shm_recv = 1

-- shm_request_status
pub data ShmRequestStatus : Type 0 where
  shm_pending recv_wait_hdr recv_wait_bdy shm_success shm_fail shm_length_error : ShmRequestStatus

unfoldable pub shm_status_code : ShmRequestStatus → ℕ
shm_status_code shm_pending = 0
shm_status_code recv_wait_hdr = 1
shm_status_code recv_wait_bdy = 2
shm_status_code shm_success = 3
shm_status_code shm_fail = 4
shm_status_code shm_length_error = 5

-- The buffer `hdrbuf` holds the bytes of a `Header`.
pub record ShmRequest : Type 0 where
  pub req_id : ℕ
  pub context : Ptr
  pub type : ShmRequestType
  pub status : ShmRequestStatus
  pub addr : ℕ
  pub length : ℕ
  pub acc_length : ℕ
  pub hdrbuf : Memory
  pub acc_buf_length : ℕ

-- The name is a C string; `fd` and `addr` belong to this process.
pub record ShmMr : Type 0 where
  pub name : Bytes
  pub fd : ℕ
  pub addr : ℕ
  pub length : ℕ

-- What the next calls that handle segments give: `none` for -1, or MAP_FAILED.
pub record Calls : Type 0 where
  pub opens : List (Option ℕ)
  pub maps : List (Option ℕ)
  pub truncates : List Bool
  pub unmaps : List Bool
  pub unlinks : List Bool

pub record Process : Type 0 where
  pub mem : Memory
  pub requests : Ptr → Option ShmRequest
  pub regions : Ptr → Option ShmMr
  pub contexts : Ptr → Option ℕ
  pub fresh : Ptr
  pub req_queue : List Ptr
  pub sockets : ℕ → Socket
  pub ioctls : List Bool
  pub calls : Calls

abbrev pub M : Type 0 → Type 0
M = Run Process

abbrev pub load_request : Ptr → M ShmRequest
load_request p h = deref (h.requests p) h

abbrev pub store_request : Ptr → ShmRequest → M (Unit {0})
store_request p r h = pure tt (record h { requests = update h.requests p (some r) })

-- The descriptor of a request's context.
abbrev pub fd_of : ShmRequest → M ℕ
fd_of r h = deref (h.contexts r.context) h

-- A call that gives 0 or -1; it succeeds where nothing else is said.
abbrev pub succeeds : List Bool → Ret
succeeds [] = ret_ok
succeeds (true ∷ rs) = ret_ok
succeeds (false ∷ rs) = ret_err

-- `if (r) return r;` before the rest.
abbrev pub test_z : M Ret → M Ret → M Ret
test_z m k = do rc ← m; elim rc [ ret_ok ↦ k | ret_err ↦ pure ret_err ]

-- sizeof(Header)
abbrev pub shm_header_size : ℕ
shm_header_size = 24

-- The bytes of a Header.
unfoldable pub shm_header : ShmRequest → List ℕ
unfolding shm_type_code shm_status_code
shm_header r =
    le_bytes 8 r.req_id
    ++ (le_bytes 4 (shm_type_code r.type)
        ++ (le_bytes 4 (shm_status_code r.status) ++ le_bytes 8 r.length))

-- hdr->length
unfoldable pub hdr_length : Memory → ℕ
hdr_length p = of_bytes (read_bytes p 16 8)
