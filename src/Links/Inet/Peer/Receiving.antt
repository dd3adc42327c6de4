-- ===== src/Links/Inet/Peer/Receiving.antt =====
-- A request of the peer on its way through the handler, for a send and for a remote write alike.
use flex_gas.Links.Inet.Host.{Host}
use flex_gas.Links.Inet.Peer.{handle_connection_in, with_rreq}
use flex_gas.Links.Inet.Types.{
  InetConnection, InetRequest, RequestRec, RequestState, body, encode, free, header, header_size,
  preq_length, preq_rem_addr, preq_type,
}
use flex_gas.Links.Memory.{Memory, drop, min, sub64, write_bytes}
use flex_gas.Links.Sockets.{Socket, granted, next_result, remaining, update}
use flex_gas.Prelude.{
  List, false, leb, length, some, suc, take, true, ℕ, ◌++◌, ◌+◌, ◌<◌, ◌≡◌, ◌≤◌, ◌⊎◌,
}

-- What a call of recv for so many bytes takes.
abbrev pub taken : ℕ → ℕ → Host → List ℕ
taken fd len h =
    let s = h.sockets fd in take (granted (next_result s.recvs) (min len (length s.inb))) s.inb

-- The state behind that call, where the bytes go to an address.
abbrev pub after_recv : ℕ → ℕ → ℕ → Host → Host
after_recv fd a len h =
    let s = h.sockets fd in
    let n = granted (next_result s.recvs) (min len (length s.inb)) in
    record h {
      mem = write_bytes h.mem a (take n s.inb);
      sockets = update h.sockets fd (record s { recvs = remaining s.recvs; inb = drop n s.inb });
    }

-- The same, where they go to the buffer of the header.
abbrev pub after_header_recv : ℕ → ℕ → Host → Host
after_header_recv fd len h =
    let s = h.sockets fd in
    let n = granted (next_result s.recvs) (min len (length s.inb)) in
    record h {
      sockets = update h.sockets fd (record s { recvs = remaining s.recvs; inb = drop n s.inb });
    }

-- The buffer of the connection holds the header of r.
pub record HasHeader (r : InetRequest) (c : InetConnection) : Type 0 where
  pub at_body : c.rreq.state ≡ body
  pub its_type : preq_type c.rreq.preq ≡ some r.type
  pub its_length : preq_length c.rreq.preq ≡ r.length
  pub its_rem_addr : preq_rem_addr c.rreq.preq ≡ r.rem_addr

-- Where the data of the peer's request r goes: to `dst`, while the connection is `Open`; it is
-- `Closed` once all has come. These are the laws that the handler's code for a kind of request
-- must meet.
pub record Target (r : InetRequest) (dst : ℕ) (Open Closed : InetConnection → Host → Type 0)
    : Type 1 where
  pub stays_open :
      (c : InetConnection) (h : Host) (rr : RequestRec) (ss : ℕ → Socket)
      → Open c h
      → Open (record c { rreq = rr }) (record h { sockets = ss })
  pub takes_part :
      (c : InetConnection) (h : Host)
      → Open c h
      → HasHeader r c
      → leb r.length (c.rreq.rbytes + length (taken c.rreq.fd (sub64 r.length c.rreq.rbytes) h))
        ≡ false
      → (handle_connection_in c h
          ≡ some (
            with_rreq c body
                (c.rreq.rbytes + length (taken c.rreq.fd (sub64 r.length c.rreq.rbytes) h)),
            after_recv c.rreq.fd (dst + c.rreq.rbytes) (sub64 r.length c.rreq.rbytes) h,
          ))
        × Open
            (with_rreq c body
              (c.rreq.rbytes + length (taken c.rreq.fd (sub64 r.length c.rreq.rbytes) h)))
            (after_recv c.rreq.fd (dst + c.rreq.rbytes) (sub64 r.length c.rreq.rbytes) h)
  pub takes_end :
      (c : InetConnection) (h : Host)
      → Open c h
      → HasHeader r c
      → leb r.length (c.rreq.rbytes + length (taken c.rreq.fd (sub64 r.length c.rreq.rbytes) h))
        ≡ true
      → (c' : InetConnection) × (h' : Host) × (handle_connection_in c h ≡ some (c', h'))
        × Closed c' h'
        × (c'.rreq ≡ record (c.rreq) { state = free; rbytes = 0 })
        × (h'.mem
            ≡ (after_recv c.rreq.fd (dst + c.rreq.rbytes) (sub64 r.length c.rreq.rbytes) h).mem)
        × (h'.sockets
            ≡ (after_recv c.rreq.fd (dst + c.rreq.rbytes) (sub64 r.length c.rreq.rbytes) h).sockets)
  pub stays_closed :
      (c : InetConnection) (h : Host) (rr : RequestRec) (ss : ℕ → Socket)
      → Closed c h
      → Closed (record c { rreq = rr }) (record h { sockets = ss })

-- The states in which a header comes in.
abbrev pub AtHeader : RequestState → Type 0
AtHeader s = (s ≡ free) ⊎ (s ≡ header)

module _ (r : InetRequest) (msg : List ℕ) (dst : ℕ) (Open Closed : InetConnection → Host → Type 0)
    (before : Memory) where
  -- The bytes `got` of the request r with the data `msg` have come in; `before` is the memory at
  -- the start.
  pub data Receiving (c : InetConnection) (h : Host) (got : List ℕ) : Type 0 where
    header_in :
        Open c h
        → AtHeader c.rreq.state
        → c.rreq.rbytes ≡ length got
        → length got < header_size
        → (old : Memory) × (c.rreq.preq ≡ write_bytes old 0 got)
        → h.mem ≡ before
        → Receiving c h got
    data_in :
        Open c h
        → HasHeader r c
        → (part : List ℕ) → got ≡ encode r ++ part
        → c.rreq.rbytes ≡ length part
        → length part ≤ r.length
        → h.mem ≡ write_bytes before dst part
        → Receiving c h got
    all_in :
        Closed c h
        → AtHeader c.rreq.state
        → c.rreq.rbytes ≡ 0
        → got ≡ encode r ++ msg
        → h.mem ≡ write_bytes before dst msg
        → Receiving c h got

  -- What one call of the handler takes from the socket.
  pub record Taken (c c' : InetConnection) (h h' : Host) (got more : List ℕ) : Type 0 where
    pub goes_on : Receiving c' h' (got ++ more)
    pub in_order : (h.sockets c.rreq.fd).inb ≡ more ++ (h'.sockets c.rreq.fd).inb
    pub same_fd : c'.rreq.fd ≡ c.rreq.fd
    pub uses : (h'.sockets c.rreq.fd).recvs ≡ remaining (h.sockets c.rreq.fd).recvs
    pub shrinks :
        (k : ℕ)
        → next_result (h.sockets c.rreq.fd).recvs ≡ some (suc k)
        → length got + length (h.sockets c.rreq.fd).inb ≡ header_size + r.length
        → (Closed c' h' × (h'.mem ≡ write_bytes before dst msg))
          ⊎ (length (h'.sockets c.rreq.fd).inb < length (h.sockets c.rreq.fd).inb)
