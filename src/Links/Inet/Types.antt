-- ===== src/Links/Inet/Types.antt =====
-- The structures of src/lm/lminet.h and src/lm/lminet_handler.h. A pointer to a request or a context
pub mod Header
use flex_gas.Links.Memory.{Memory, le_bytes, of_bytes, read_bytes}
use flex_gas.Prelude.{Bool, List, Option, if◌then◌else◌, none, some, ℕ, ◌++◌, ◌==◌}

-- is a number under which it lives on its heap.

abbrev pub Ptr : Type 0
Ptr = ℕ

-- inet_request_type
pub data InetRequestType : Type 0 where
  send recv rem_rd rem_wr rem_rd_rpy rem_wr_rpy rem_rd_notf rem_wr_notf : InetRequestType

unfoldable pub type_code : InetRequestType → ℕ
type_code send = 0
type_code recv = 1
type_code rem_rd = 2
type_code rem_wr = 3
type_code rem_rd_rpy = 4
type_code rem_wr_rpy = 5
type_code rem_rd_notf = 6
type_code rem_wr_notf = 7

-- The type that a number stands for, if any.
unfoldable pub type_of_code : ℕ → Option InetRequestType
type_of_code c =
    if c == 0
    then some send
    else if c == 1
    then some recv
    else if c == 2
    then some rem_rd
    else if c == 3
    then some rem_wr
    else if c == 4
    then some rem_rd_rpy
    else if c == 5
    then some rem_wr_rpy
    else if c == 6
    then some rem_rd_notf
    else if c == 7
    then some rem_wr_notf
    else none

-- inet_request_status
pub data InetRequestStatus : Type 0 where
  pending success fail length_error : InetRequestStatus

unfoldable pub status_code : InetRequestStatus → ℕ
status_code pending = 0x10
status_code success = 0x11
status_code fail = 0x12
status_code length_error = 0x13

pub record InetRequest : Type 0 where
  pub req_id : ℕ
  pub context : Ptr
  pub type : InetRequestType
  pub status : InetRequestStatus
  pub addr : ℕ
  pub rem_addr : ℕ
  pub length : ℕ

pub record InetMr : Type 0 where
  pub context : Ptr
  pub addr : ℕ
  pub length : ℕ

pub data RequestState : Type 0 where
  free header body auto : RequestState

-- The buffer `preq` holds the bytes of an `inet_request`.
pub record RequestRec : Type 0 where
  pub req : Option Ptr
  pub preq : Memory
  pub fd : ℕ
  pub state : RequestState
  pub rbytes : ℕ

-- `events` says whether EPOLLIN is among the events of `epEv`; EPOLLRDHUP always is. The number
-- `fd` is the key in the table and `epEv.data.fd`.
pub record InetConnection : Type 0 where
  pub fd : ℕ
  pub events : Bool
  pub lreq : RequestRec
  pub rreq : RequestRec

-- sizeof(inet_request)
abbrev pub header_size : ℕ
header_size = 48

-- The layout of a request in memory: the source has no function for it, and sends the structure as
-- it lies there.
unfoldable pub encode : InetRequest → List ℕ
unfolding type_code status_code
encode r =
    le_bytes 8 r.req_id
    ++ (le_bytes 8 r.context
        ++ (le_bytes 4 (type_code r.type)
            ++ (le_bytes 4 (status_code r.status)
                ++ (le_bytes 8 r.addr ++ (le_bytes 8 r.rem_addr ++ le_bytes 8 r.length)))))

-- The fields preq.type, preq.rem_addr and preq.length of a structure that lies in a buffer.
unfoldable pub preq_type : Memory → Option InetRequestType
unfolding type_of_code
preq_type p = type_of_code (of_bytes (read_bytes p 16 4))

unfoldable pub preq_rem_addr : Memory → ℕ
preq_rem_addr p = of_bytes (read_bytes p 32 8)

unfoldable pub preq_length : Memory → ℕ
preq_length p = of_bytes (read_bytes p 40 8)
