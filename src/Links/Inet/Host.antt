-- ===== src/Links/Inet/Host.antt =====
-- The state of one process with the handler of src/lm/lminet_handler.h, the runs over it, and the
-- calls of the system.
use flex_gas.Links.Inet.Types.{InetConnection, InetMr, InetRequest, InetRequestStatus, Ptr}
use flex_gas.Links.Memory.{Memory, drop, min, write_bytes}
use flex_gas.Links.Runs.{Ret, Run, deref, get, pure, put, ret_err, ret_ok, ◌>>=◌, ◌>>◌}
use flex_gas.Links.Sockets.{Socket, granted, next_result, remaining, update}
use flex_gas.Prelude.{Bool, List, Option, [], false, length, none, some, take, true, ℕ, ◌++◌, ◌∷◌}

-- One entry of the array that epoll_wait fills.
pub record EpollEvent : Type 0 where
  pub fd : ℕ
  pub rdhup : Bool
  pub pollout : Bool
  pub pollin : Bool

pub record Host : Type 0 where
  pub is_initialized : Bool
  pub mem : Memory
  pub requests : Ptr → Option InetRequest
  pub regions : Ptr → Option InetMr
  pub contexts : Ptr → Option ℕ
  pub fresh : Ptr
  pub req_queue : List Ptr
  pub comp_queue : List Ptr
  pub fd_queue : List ℕ
  pub conn_tab : List InetConnection
  pub sockets : ℕ → Socket
  pub ctls : List Bool
  pub waits : List (Option (List EpollEvent))

-- A run gives a value and a state, or `none` where a NULL or dangling pointer is followed.
abbrev pub M : Type 0 → Type 0
M = Run Host

abbrev pub load_request : Ptr → M InetRequest
load_request p h = deref (h.requests p) h

abbrev pub store_request : Ptr → InetRequest → M (Unit {0})
store_request p r h = pure tt (record h { requests = update h.requests p (some r) })

abbrev pub delete_request : Ptr → M (Unit {0})
delete_request p h = pure tt (record h { requests = update h.requests p none })

-- req->status = s
abbrev pub set_status : Ptr → InetRequestStatus → M (Unit {0})
set_status p s = do r ← load_request p; store_request p (record r { status = s })

abbrev pub push_comp : Ptr → M (Unit {0})
push_comp p h = pure tt (record h { comp_queue = h.comp_queue ++ p ∷ [] })

-- send of a buffer. The result is what the source adds to `rbytes`, nothing for -1.
unfoldable pub sock_send : ℕ → List ℕ → M ℕ
sock_send fd buf h =
    let s = h.sockets fd in
    let n = granted (next_result s.sends) (length buf) in
    pure n (record h {
      sockets =
          update h.sockets fd (record s { sends = remaining s.sends; out = s.out ++ take n buf });
    })

-- recv of at most so many bytes: those that it takes, none for -1.
unfoldable pub sock_recv : ℕ → ℕ → M (List ℕ)
sock_recv fd len h =
    let s = h.sockets fd in
    let n = granted (next_result s.recvs) (min len (length s.inb)) in
    pure (take n s.inb) (record h {
      sockets = update h.sockets fd (record s { recvs = remaining s.recvs; inb = drop n s.inb });
    })

-- recv into memory
unfoldable pub recv_at : ℕ → ℕ → ℕ → M ℕ
unfolding sock_recv
recv_at fd a len = do
  got ← sock_recv fd len
  h ← get
  put (record h { mem = write_bytes h.mem a got })
  pure (length got)

-- epoll_ctl, which succeeds where nothing else is said
abbrev pub succeeds : List Bool → Ret
succeeds [] = ret_ok
succeeds (true ∷ rs) = ret_ok
succeeds (false ∷ rs) = ret_err

abbrev pub epoll_ctl : M Ret
epoll_ctl h = pure (succeeds h.ctls) (record h { ctls = remaining h.ctls })

abbrev pub epoll_wait : M (Option (List EpollEvent))
epoll_wait h = pure (next_result h.waits) (record h { waits = remaining h.waits })
