-- ===== src/Links/Inet/Requests/Sending.antt =====
-- A send or a remote write on its way through the handler: what is left to hand to the socket.
use flex_gas.Links.Inet.Host.{Host}
use flex_gas.Links.Inet.Types.{
  InetConnection, InetRequest, InetRequestType, Ptr, RequestState, auto, body, encode, free, header,
  header_size, rem_wr, send, success,
}
use flex_gas.Links.Memory.{drop, read_bytes}
use flex_gas.Links.Sockets.{Socket, granted, next_result, remaining}
use flex_gas.Prelude.{
  List, Option, [], arith, length, none, some, suc, ℕ, ◌++◌, ◌+◌, ◌-◌, ◌<◌, ◌∷◌, ◌≡◌, ◌≤◌, ◌⊎◌,
}

-- The two kinds of request that send a header and then data.
abbrev pub SendsData : InetRequestType → Type 0
SendsData t = (t ≡ send) ⊎ (t ≡ rem_wr)

-- The bytes `rest` of the request r are still to be handed to the socket.
pub data Sending (p : Ptr) (r : InetRequest) (c : InetConnection) (h : Host) (rest : List ℕ)
    : Type 0 where
  in_header :
      c.lreq.req ≡ some p
      → h.requests p ≡ some r
      → c.lreq.state ≡ header
      → c.lreq.rbytes < header_size
      → rest ≡ drop c.lreq.rbytes (encode r) ++ read_bytes h.mem r.addr r.length
      → Sending p r c h rest
  in_body :
      c.lreq.req ≡ some p
      → h.requests p ≡ some r
      → c.lreq.state ≡ body
      → c.lreq.rbytes ≤ r.length
      → rest ≡ read_bytes h.mem (r.addr + c.lreq.rbytes) (r.length - c.lreq.rbytes)
      → Sending p r c h rest
  finished :
      c.lreq.req ≡ none
      → c.lreq.state ≡ free
      → h.requests p ≡ some (record r { status = success })
      → (earlier : List Ptr) × (h.comp_queue ≡ earlier ++ p ∷ [])
      → rest ≡ []
      → Sending p r c h rest

pub granted-le : (o : Option ℕ) (n : ℕ) → granted o n ≤ n
granted-le none n = omega arith
granted-le (some k) n = ground arith

-- How far a request is from its end, data apart.
abbrev pub phase : RequestState → ℕ
phase free = 0
phase header = 2
phase body = 1
phase auto = 0

-- What a call of the handler does for the request: it hands bytes to the socket and leaves the
-- memory alone.
pub record Sent (p : Ptr) (r : InetRequest) (c c' : InetConnection) (h h' : Host)
    (rest sent rest' : List ℕ) : Type 0 where
  pub goes_on : Sending p r c' h' rest'
  pub in_order : rest ≡ sent ++ rest'
  pub handed : (h'.sockets c.lreq.fd).out ≡ (h.sockets c.lreq.fd).out ++ sent
  pub same_fd : c'.lreq.fd ≡ c.lreq.fd
  pub same_mem : h'.mem ≡ h.mem
  pub uses :
      0 < phase c.lreq.state → (h'.sockets c.lreq.fd).sends ≡ remaining (h.sockets c.lreq.fd).sends
  pub shrinks :
      (k : ℕ)
      → next_result (h.sockets c.lreq.fd).sends ≡ some (suc k)
      → 0 < phase c.lreq.state
      → phase c'.lreq.state + length rest' < phase c.lreq.state + length rest

-- What stands in the sockets does not matter.
pub Sending-sockets :
    (p : Ptr) (r : InetRequest) (c : InetConnection) (h : Host) (rest : List ℕ) (ss : ℕ → Socket)
    → Sending p r c h rest
    → Sending p r c (record h { sockets = ss }) rest
Sending-sockets p r c h rest ss (in_header posted live at below e) =
    in_header posted live at below e
Sending-sockets p r c h rest ss (in_body posted live at below e) = in_body posted live at below e
Sending-sockets p r c h rest ss (finished gone at ended there e) = finished gone at ended there e
