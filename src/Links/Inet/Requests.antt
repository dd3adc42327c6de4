-- ===== src/Links/Inet/Requests.antt =====
-- What the handler of src/lm/lminet_handler.cpp does for the requests of its own process.
pub mod Sending
pub mod Pieces
pub mod Steps
use flex_gas.Links.Inet.Host.{M, epoll_ctl, load_request, push_comp, recv_at, set_status, sock_send}
use flex_gas.Links.Inet.Queues.{is_free}
use flex_gas.Links.Inet.Types.{
  InetConnection, InetRequestType, RequestState, auto, body, encode, free, header, header_size,
  recv, rem_rd, rem_rd_notf, rem_rd_rpy, rem_wr, rem_wr_notf, rem_wr_rpy, send, success,
}
use flex_gas.Links.Memory.{drop, read_bytes, sub64}
use flex_gas.Links.Runs.{deref, get, pure, ◌>>=◌, ◌>>◌}
use flex_gas.Prelude.{false, if◌then◌else◌, leb, none, some, take, true, ℕ, ◌+◌}

abbrev pub with_lreq : InetConnection → RequestState → ℕ → InetConnection
with_lreq c s n = record c { lreq = record (c.lreq) { state = s; rbytes = n } }

-- The request is done: its status, the completion queue, and the connection without it.
unfoldable pub complete_lreq : InetConnection → M InetConnection
complete_lreq c = do
  p ← deref c.lreq.req
  set_status p success
  push_comp p
  pure (record c { lreq = record (c.lreq) { req = none; state = free; rbytes = 0 } })

-- Sends what is left of the header; behind its end the connection goes on to a next state.
unfoldable pub send_header : RequestState → InetConnection → M InetConnection
unfolding sock_send
send_header then_state c = do
  p ← deref c.lreq.req
  r ← load_request p
  n ← sock_send c.lreq.fd (take (sub64 header_size c.lreq.rbytes) (drop c.lreq.rbytes (encode r)))
  let sent = c.lreq.rbytes + n
  pure (if leb header_size sent then with_lreq c then_state 0 else with_lreq c header sent)

-- Sends what is left of the data, and completes the request at its end.
unfoldable pub send_body : InetConnection → M InetConnection
unfolding sock_send
send_body c = do
  p ← deref c.lreq.req
  r ← load_request p
  h ← get
  n ← sock_send c.lreq.fd (read_bytes h.mem (r.addr + c.lreq.rbytes) (sub64 r.length c.lreq.rbytes))
  let sent = c.lreq.rbytes + n
  elim (leb r.length sent) [
    | true ↦ complete_lreq (with_lreq c body sent)
    | false ↦ pure (with_lreq c body sent)
  ]

unfoldable pub handle_request_send : InetConnection → M InetConnection
unfolding send_header send_body
handle_request_send c = elim c.lreq.state [
  | free ↦ pure c
  | header ↦ send_header body c
  | body ↦ send_body c
  | auto ↦ pure c
]

unfoldable pub handle_request_recv : InetConnection → M InetConnection
handle_request_recv c = elim c.lreq.state [
  | free ↦ pure c
  | header ↦ pure (with_lreq c body c.lreq.rbytes)
  | body ↦ pure c
  | auto ↦ pure c
]

-- Behind the header of a remote read, EPOLLIN is taken out of the events of the descriptor.
unfoldable pub mute : InetConnection → M InetConnection
mute c = elim c.lreq.state [
  | free ↦ pure c
  | header ↦ pure c
  | body ↦ pure c
  | auto ↦ do _ ← epoll_ctl; pure (record c { events = false })
]

-- Receives what is left of the data of a remote read; at its end EPOLLIN comes back.
unfoldable pub recv_reply : InetConnection → M InetConnection
unfolding recv_at
recv_reply c = do
  p ← deref c.lreq.req
  r ← load_request p
  n ← recv_at c.lreq.fd (r.addr + c.lreq.rbytes) (sub64 r.length c.lreq.rbytes)
  let got = c.lreq.rbytes + n
  elim (leb r.length got) [
    | true ↦ do _ ← epoll_ctl; complete_lreq (record (with_lreq c auto got) { events = true })
    | false ↦ pure (with_lreq c auto got)
  ]

unfoldable pub handle_request_rem_rd : InetConnection → M InetConnection
unfolding send_header mute recv_reply
handle_request_rem_rd c = elim c.lreq.state [
  | free ↦ pure c
  | header ↦ send_header auto c >>= mute
  | body ↦ pure c
  | auto ↦ recv_reply c
]

unfoldable pub handle_request_rem_wr : InetConnection → M InetConnection
unfolding send_header send_body
handle_request_rem_wr c = elim c.lreq.state [
  | free ↦ pure c
  | header ↦ send_header body c
  | body ↦ send_body c
  | auto ↦ pure c
]

unfoldable pub dispatch_request : InetRequestType → InetConnection → M InetConnection
unfolding handle_request_send handle_request_recv handle_request_rem_rd handle_request_rem_wr
dispatch_request send c = handle_request_send c
dispatch_request recv c = handle_request_recv c
dispatch_request rem_rd c = handle_request_rem_rd c
dispatch_request rem_wr c = handle_request_rem_wr c
dispatch_request rem_rd_rpy c = pure c
dispatch_request rem_wr_rpy c = pure c
dispatch_request rem_rd_notf c = pure c
dispatch_request rem_wr_notf c = pure c

-- One connection in the loop of _HandleRequests.
unfoldable pub handle_request : InetConnection → M InetConnection
unfolding is_free dispatch_request
handle_request c = elim (is_free c.lreq.state) [
  | true ↦ pure c
  | false ↦ elim c.lreq.req [
    | none ↦ pure c
    | some p ↦ do r ← load_request p; dispatch_request r.type c
  ]
]
