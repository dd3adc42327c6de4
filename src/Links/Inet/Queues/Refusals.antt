-- ===== src/Links/Inet/Queues/Refusals.antt =====
-- What becomes of a request whose connection is busy.
use flex_gas.Links.Inet.Host.{Host}
use flex_gas.Links.Inet.Queues.{
  enter_request, find_connection, is_free, place_request, refuse_busy, set_connection,
}
use flex_gas.Links.Inet.Types.{InetConnection, InetRequest, Ptr, fail, header}
use flex_gas.Links.Sockets.{update}
use flex_gas.Prelude.{[], arith, false, some, true, ℕ, ◌++◌, ◌∷◌, ◌≡◌}

-- A request for a connection that has another one under way is refused, and the pointer of the other
-- one goes to the completion queue.
pub place_busy :
    (p other : Ptr) (r : InetRequest) (fd : ℕ) (c : InetConnection) (h : Host)
    → h.requests p ≡ some r
    → h.contexts r.context ≡ some fd
    → find_connection fd h.conn_tab ≡ some c
    → c.lreq.req ≡ some other
    → is_free c.lreq.state ≡ false
    → place_request p h
      ≡ some (
        false,
        record h {
          requests = update h.requests p (some (record r { status = fail }));
          comp_queue = h.comp_queue ++ other ∷ [];
        },
      )
unfolding place_request refuse_busy
place_busy p other r fd c h live known there under_way busy = ground arith

-- Where the connection is free, the request is entered into it and stands at its header; the other
-- connections, the queues and the requests are as they were.
pub free_connection_takes :
    (p : Ptr) (r : InetRequest) (fd : ℕ) (c : InetConnection) (h : Host)
    → h.requests p ≡ some r
    → h.contexts r.context ≡ some fd
    → find_connection fd h.conn_tab ≡ some c
    → is_free c.lreq.state ≡ true
    → place_request p h
      ≡ some (
        true,
        record h {
          conn_tab =
              set_connection
                (record c { lreq = record (c.lreq) { req = some p; state = header; rbytes = 0 } })
                h.conn_tab;
        },
      )
unfolding place_request enter_request
free_connection_takes p r fd c h live known there idle = ground arith
