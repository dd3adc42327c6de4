-- ===== src/Links/Inet/Peer/Targets.antt =====
-- The two targets of the data of a peer.
use flex_gas.Links.Inet.Host.{Host, recv_at, sock_recv}
use flex_gas.Links.Inet.Peer.{
  accept_message, handle_connection_in, is_body, is_recv, recv_data, recv_message, recv_write,
  with_rreq,
}
use flex_gas.Links.Inet.Peer.Receiving.{HasHeader, Target, after_recv, taken}
use flex_gas.Links.Inet.Requests.{complete_lreq}
use flex_gas.Links.Inet.Types.{
  InetConnection, InetRequest, Ptr, body, free, recv, rem_wr, send, success,
}
use flex_gas.Links.Memory.{sub64}
use flex_gas.Links.Sockets.{update}
use flex_gas.Prelude.{
  List, [], arith, false, leb, length, none, refl, some, true, ◌++◌, ◌+◌, ◌∙◌, ◌∷◌, ◌≡◌,
}

-- A receive s is posted under the pointer q.
pub record Posted (q : Ptr) (s : InetRequest) (c : InetConnection) (h : Host) : Type 0 where
  pub its_pointer : c.lreq.req ≡ some q
  pub live : h.requests q ≡ some s
  pub asks : s.type ≡ recv
  pub waits : c.lreq.state ≡ body

-- The receive is complete.
pub record Received (q : Ptr) (s : InetRequest) (c : InetConnection) (h : Host) : Type 0 where
  pub gone : c.lreq.req ≡ none
  pub at_rest : c.lreq.state ≡ free
  pub succeeded : h.requests q ≡ some (record s { status = success })
  pub queued : (earlier : List Ptr) × (h.comp_queue ≡ earlier ++ q ∷ [])

module _ (r : InetRequest) (q : Ptr) (s : InetRequest) (kind : r.type ≡ send) (c : InetConnection)
    (h : Host) (ready : Posted q s c h) (hdr : HasHeader r c) where
  takes_message : handle_connection_in c h ≡ recv_message r.length c h
  unfolding handle_connection_in recv_data accept_message is_body is_recv
  takes_message = ground arith

  message_part :
      leb r.length (c.rreq.rbytes + length (taken c.rreq.fd (sub64 r.length c.rreq.rbytes) h))
        ≡ false
      → recv_message r.length c h
        ≡ some (
          with_rreq c body
              (c.rreq.rbytes + length (taken c.rreq.fd (sub64 r.length c.rreq.rbytes) h)),
          after_recv c.rreq.fd (s.addr + c.rreq.rbytes) (sub64 r.length c.rreq.rbytes) h,
        )
  unfolding recv_message recv_at sock_recv
  message_part more = ground arith

  message_end :
      leb r.length (c.rreq.rbytes + length (taken c.rreq.fd (sub64 r.length c.rreq.rbytes) h))
        ≡ true
      → recv_message r.length c h
        ≡ some (
          record c {
            lreq = record (c.lreq) { req = none; state = free; rbytes = 0 };
            rreq = record (c.rreq) { state = free; rbytes = 0 };
          },
          record (after_recv c.rreq.fd (s.addr + c.rreq.rbytes) (sub64 r.length c.rreq.rbytes) h) {
            requests = update h.requests q (some (record s { status = success }));
            comp_queue = h.comp_queue ++ q ∷ [];
          },
        )
  unfolding recv_message recv_at sock_recv complete_lreq
  message_end whole = ground arith

-- The data of a send go where the posted receive says, and complete it.
pub message_target :
    (r : InetRequest) (q : Ptr) (s : InetRequest)
    → r.type ≡ send
    → Target r s.addr (Posted q s) (Received q s)
message_target r q s kind = record {
  stays_open = λ c h rr ss ready. record {
    its_pointer = ready.its_pointer;
    live = ready.live;
    asks = ready.asks;
    waits = ready.waits;
  };
  takes_part = λ c h ready hdr more. (
    takes_message r q s kind c h ready hdr ∙ message_part r q s kind c h ready hdr more,
    record {
      its_pointer = ready.its_pointer;
      live = ready.live;
      asks = ready.asks;
      waits = ready.waits;
    },
  );
  takes_end = λ c h ready hdr whole. (
    record c {
      lreq = record (c.lreq) { req = none; state = free; rbytes = 0 };
      rreq = record (c.rreq) { state = free; rbytes = 0 };
    },
    record (after_recv c.rreq.fd (s.addr + c.rreq.rbytes) (sub64 r.length c.rreq.rbytes) h) {
      requests = update h.requests q (some (record s { status = success }));
      comp_queue = h.comp_queue ++ q ∷ [];
    },
    takes_message r q s kind c h ready hdr ∙ message_end r q s kind c h ready hdr whole,
    record { gone = refl; at_rest = refl; succeeded = ground arith; queued = (h.comp_queue, refl) },
    refl,
    refl,
    refl,
  );
  stays_closed = λ c h rr ss end. record {
    gone = end.gone;
    at_rest = end.at_rest;
    succeeded = end.succeeded;
    queued = end.queued;
  };
}

abbrev pub Anything : InetConnection → Host → Type 0
Anything c h = Unit {0}

module _ (r : InetRequest) (kind : r.type ≡ rem_wr) (c : InetConnection) (h : Host)
    (hdr : HasHeader r c) where
  takes_write : handle_connection_in c h ≡ recv_write r.length c h
  unfolding handle_connection_in recv_data
  takes_write = ground arith

  write_part :
      leb r.length (c.rreq.rbytes + length (taken c.rreq.fd (sub64 r.length c.rreq.rbytes) h))
        ≡ false
      → recv_write r.length c h
        ≡ some (
          with_rreq c body
              (c.rreq.rbytes + length (taken c.rreq.fd (sub64 r.length c.rreq.rbytes) h)),
          after_recv c.rreq.fd (r.rem_addr + c.rreq.rbytes) (sub64 r.length c.rreq.rbytes) h,
        )
  unfolding recv_write recv_at sock_recv
  write_part more = ground arith

  write_end :
      leb r.length (c.rreq.rbytes + length (taken c.rreq.fd (sub64 r.length c.rreq.rbytes) h))
        ≡ true
      → recv_write r.length c h
        ≡ some (
          with_rreq c free 0,
          after_recv c.rreq.fd (r.rem_addr + c.rreq.rbytes) (sub64 r.length c.rreq.rbytes) h,
        )
  unfolding recv_write recv_at sock_recv
  write_end whole = ground arith

-- The data of a remote write go where the peer says.
pub write_target : (r : InetRequest) → r.type ≡ rem_wr → Target r r.rem_addr Anything Anything
write_target r kind = record {
  stays_open = λ c h rr ss _. tt;
  takes_part = λ c h _ hdr more. (takes_write r kind c h hdr ∙ write_part r kind c h hdr more, tt);
  takes_end = λ c h _ hdr whole. (
    with_rreq c free 0,
    after_recv c.rreq.fd (r.rem_addr + c.rreq.rbytes) (sub64 r.length c.rreq.rbytes) h,
    takes_write r kind c h hdr ∙ write_end r kind c h hdr whole,
    tt,
    refl,
    refl,
    refl,
  );
  stays_closed = λ c h rr ss _. tt;
}
