-- ===== src/Links/Inet/Rounds.antt =====
-- The rounds of InetHandler::HandlerRun in src/lm/lminet_handler.cpp.
use flex_gas.Links.Inet.Host.{EpollEvent, Host, M, epoll_ctl, epoll_wait}
use flex_gas.Links.Inet.Peer.{handle_connection_in, handle_connection_out}
use flex_gas.Links.Inet.Queues.{
  erase_connection, find_connection, retrieve_fd_from_queue, retrieve_req_from_queue,
  set_connection,
}
use flex_gas.Links.Inet.Requests.{handle_request}
use flex_gas.Links.Inet.Types.{InetConnection, RequestState, auto, body, free, header}
use flex_gas.Links.Runs.{Ret, get, pure, put, ret_err, ret_ok, ◌>>=◌, ◌>>◌}
use flex_gas.Prelude.{
  Bool, List, [], false, if◌then◌else◌, none, some, suc, true, zero, ℕ, ◌||◌, ◌∷◌,
}

-- The loop of _HandleRequests over the table.
unfoldable pub handle_requests_loop : List InetConnection → M (List InetConnection)
handle_requests_loop [] = pure []
handle_requests_loop (c ∷ cs) = do
  c' ← handle_request c
  cs' ← handle_requests_loop cs
  pure (c' ∷ cs')

abbrev set_table : List InetConnection → M (Unit {0})
set_table cs h = pure tt (record h { conn_tab = cs })

unfoldable pub handle_requests : M Ret
unfolding handle_requests_loop
handle_requests = do h ← get; cs ← handle_requests_loop h.conn_tab; set_table cs; pure ret_ok

unfoldable pub is_auto : RequestState → Bool
is_auto free = false
is_auto header = false
is_auto body = false
is_auto auto = true

unfoldable pub answer_reads : List InetConnection → M (List InetConnection)
unfolding is_auto
answer_reads [] = pure []
answer_reads (c ∷ cs) = do
  c' ← elim (is_auto c.rreq.state) [ true ↦ handle_connection_out c | false ↦ pure c ]
  cs' ← answer_reads cs
  pure (c' ∷ cs')

-- The peer has closed the connection.
unfoldable pub drop_connection : ℕ → M Ret
unfolding find_connection erase_connection
drop_connection fd h = elim (find_connection fd h.conn_tab) [
  | none ↦ pure ret_err h
  | some c ↦ (do set_table (erase_connection fd h.conn_tab); epoll_ctl) h
]

unfoldable pub serve_peer : ℕ → M Ret
unfolding find_connection set_connection
serve_peer fd h = elim (find_connection fd h.conn_tab) [
  | none ↦ pure ret_err h
  | some c ↦
      (do
        c' ← handle_connection_in c
        h' ← get
        set_table (set_connection c' h'.conn_tab)
        pure ret_ok)
        h
]

unfoldable pub handle_event : EpollEvent → M Ret
unfolding drop_connection serve_peer
handle_event e =
    if e.rdhup
    then drop_connection e.fd
    else if e.pollout || e.pollin
    then serve_peer e.fd
    else pure ret_ok

unfoldable pub handle_events : List EpollEvent → M Ret
unfolding handle_event
handle_events [] = pure ret_ok
handle_events (e ∷ es) = do
  rc ← handle_event e
  elim rc [ ret_ok ↦ handle_events es | ret_err ↦ pure ret_err ]

unfoldable pub handle_connections : M Ret
unfolding answer_reads handle_events
handle_connections = do
  h ← get
  cs ← answer_reads h.conn_tab
  set_table cs
  ready ← epoll_wait
  elim ready [ none ↦ pure ret_err | some es ↦ handle_events es ]

-- One round; the source drops the results.
unfoldable pub handler_round : M (Unit {0})
unfolding retrieve_fd_from_queue retrieve_req_from_queue handle_requests handle_connections
handler_round = do
  _ ← retrieve_fd_from_queue
  retrieve_req_from_queue
  _ ← handle_requests
  _ ← handle_connections
  pure tt

-- The handler runs for so many rounds; `others` is what the other threads do behind each.
unfoldable pub handler_run : (Host → Host) → ℕ → M (Unit {0})
handler_run others zero = pure tt
handler_run others (suc rounds) = do
  handler_round
  h ← get
  put (others h)
  handler_run others rounds
