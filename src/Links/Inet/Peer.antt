-- ===== src/Links/Inet/Peer.antt =====
-- What the handler of src/lm/lminet_handler.cpp does for the requests of the peer.
pub mod Receiving
pub mod Targets
pub mod Headers
pub mod Delivery
use flex_gas.Links.Inet.Host.{M, load_request, recv_at, sock_recv, sock_send}
use flex_gas.Links.Inet.Requests.{complete_lreq}
use flex_gas.Links.Inet.Types.{
  InetConnection, InetRequestType, RequestState, auto, body, free, header, header_size, preq_length,
  preq_rem_addr, preq_type, recv, rem_rd, rem_rd_notf, rem_rd_rpy, rem_wr, rem_wr_notf, rem_wr_rpy,
  send,
}
use flex_gas.Links.Memory.{read_bytes, sub64, write_bytes}
use flex_gas.Links.Runs.{deref, get, pure, ◌>>=◌, ◌>>◌}
use flex_gas.Prelude.{
  Bool, Option, false, if◌then◌else◌, leb, length, ltb, none, some, true, ℕ, ◌&&◌, ◌+◌,
}

abbrev pub with_rreq : InetConnection → RequestState → ℕ → InetConnection
with_rreq c s n = record c { rreq = record (c.rreq) { state = s; rbytes = n } }

-- The state behind the header of a peer's request.
unfoldable pub after_header : Option InetRequestType → RequestState
after_header none = free
after_header (some send) = body
after_header (some recv) = free
after_header (some rem_rd) = auto
after_header (some rem_wr) = body
after_header (some rem_rd_rpy) = free
after_header (some rem_wr_rpy) = free
after_header (some rem_rd_notf) = free
after_header (some rem_wr_notf) = free

-- Receives what is left of the header, in the states Free and Header alike.
unfoldable pub recv_header : InetConnection → M InetConnection
unfolding sock_recv after_header
recv_header c = do
  got ← sock_recv c.rreq.fd (sub64 header_size c.rreq.rbytes)
  let n = c.rreq.rbytes + length got
  let preq = write_bytes c.rreq.preq c.rreq.rbytes got
  pure (record c {
    rreq = record (c.rreq) {
      preq = preq;
      state = if ltb n header_size then header else after_header (preq_type preq);
      rbytes = if ltb n header_size then n else 0;
    };
  })

-- The data of a peer's send, which goes where the posted receive says.
unfoldable pub recv_message : ℕ → InetConnection → M InetConnection
unfolding recv_at
recv_message length c = do
  p ← deref c.lreq.req
  r ← load_request p
  n ← recv_at c.rreq.fd (r.addr + c.rreq.rbytes) (sub64 length c.rreq.rbytes)
  let got = c.rreq.rbytes + n
  elim (leb length got) [
    | true ↦ complete_lreq (with_rreq c free 0)
    | false ↦ pure (with_rreq c body got)
  ]

unfoldable pub is_body : RequestState → Bool
is_body free = false
is_body header = false
is_body body = true
is_body auto = false

unfoldable pub is_recv : InetRequestType → Bool
is_recv send = false
is_recv recv = true
is_recv rem_rd = false
is_recv rem_wr = false
is_recv rem_rd_rpy = false
is_recv rem_wr_rpy = false
is_recv rem_rd_notf = false
is_recv rem_wr_notf = false

-- A send waits until its receive is posted.
unfoldable pub accept_message : ℕ → InetConnection → M InetConnection
unfolding recv_message is_body is_recv
accept_message length c = elim c.lreq.req [
  | none ↦ pure c
  | some p ↦ do
    r ← load_request p
    elim (is_recv r.type && is_body c.lreq.state) [ true ↦ recv_message length c | false ↦ pure c ]
]

-- The data of a peer's remote write, which goes where the peer says.
unfoldable pub recv_write : ℕ → InetConnection → M InetConnection
unfolding recv_at
recv_write length c = do
  n ← recv_at c.rreq.fd (preq_rem_addr c.rreq.preq + c.rreq.rbytes) (sub64 length c.rreq.rbytes)
  let got = c.rreq.rbytes + n
  pure (if leb length got then with_rreq c free 0 else with_rreq c body got)

unfoldable pub recv_data : Option InetRequestType → InetConnection → M InetConnection
unfolding accept_message recv_write
recv_data none c = pure (with_rreq c free 0)
recv_data (some send) c = accept_message (preq_length c.rreq.preq) c
recv_data (some recv) c = pure (with_rreq c free 0)
recv_data (some rem_rd) c = pure (with_rreq c free 0)
recv_data (some rem_wr) c = recv_write (preq_length c.rreq.preq) c
recv_data (some rem_rd_rpy) c = pure (with_rreq c free 0)
recv_data (some rem_wr_rpy) c = pure (with_rreq c free 0)
recv_data (some rem_rd_notf) c = pure (with_rreq c free 0)
recv_data (some rem_wr_notf) c = pure (with_rreq c free 0)

unfoldable pub handle_connection_in : InetConnection → M InetConnection
unfolding recv_header recv_data
handle_connection_in c = elim c.rreq.state [
  | free ↦ recv_header c
  | header ↦ recv_header c
  | body ↦ recv_data (preq_type c.rreq.preq) c
  | auto ↦ pure c
]

-- Sends what is left of the data that the peer reads.
unfoldable pub handle_connection_out : InetConnection → M InetConnection
unfolding sock_send
handle_connection_out c = do
  h ← get
  let len = preq_length c.rreq.preq
  let from = preq_rem_addr c.rreq.preq + c.rreq.rbytes
  n ← sock_send c.rreq.fd (read_bytes h.mem from (sub64 len c.rreq.rbytes))
  let sent = c.rreq.rbytes + n
  pure (if leb len sent then with_rreq c free 0 else with_rreq c c.rreq.state sent)
