-- ===== src/Links/Inet/Transfer/Ends.antt =====
-- A transfer comes to its end where the sockets go on moving bytes.
use mathlib.Core.List.{append-nil}
use flex_gas.Links.Inet.Host.{Host, M}
use flex_gas.Links.Inet.Peer.{handle_connection_in}
use flex_gas.Links.Inet.Peer.Delivery.{Receiving-step}
use flex_gas.Links.Inet.Peer.Receiving.{Receiving, Target, header_in}
use flex_gas.Links.Inet.Peer.Targets.{Posted, Received, message_target}
use flex_gas.Links.Inet.Requests.{handle_request}
use flex_gas.Links.Inet.Requests.Sending.{Sending, SendsData, finished, in_body, in_header, phase}
use flex_gas.Links.Inet.Requests.Steps.{Sending-step}
use flex_gas.Links.Inet.Types.{
  InetConnection, InetRequest, Ptr, encode, free, header_size, send, success,
}
use flex_gas.Links.Inet.Types.Header.{FitsHeader, length-encode}
use flex_gas.Links.Memory.{Memory, write_bytes}
use flex_gas.Links.Runs.{pure, ◌>>=◌}
use flex_gas.Links.Sockets.{Ready}
use flex_gas.Prelude.{
  List, [], ap, append_assoc, arith, inl, inr, length, length-append, none, refl, some, subst, suc,
  sym, zero, ℕ, ◌++◌, ◌+◌, ◌<◌, ◌∙◌, ◌∷◌, ◌≡◌, ◌≤◌, ◌⊎◌,
}

-- The same connection in so many rounds of the handler.
pub send_rounds : ℕ → InetConnection → M InetConnection
send_rounds zero c = pure c
send_rounds (suc n) c = do c' ← handle_request c; send_rounds n c'

pub recv_rounds : ℕ → InetConnection → M InetConnection
recv_rounds zero c = pure c
recv_rounds (suc n) c = do c' ← handle_connection_in c; recv_rounds n c'

send_rounds-suc :
    (n : ℕ) (c c1 : InetConnection) (h h1 : Host) {x : InetConnection × Host}
    → handle_request c h ≡ some (c1, h1)
    → send_rounds n c1 h1 ≡ some x
    → send_rounds (suc n) c h ≡ some x
unfolding send_rounds
send_rounds-suc n c c1 h h1 ran more = rw ran more

recv_rounds-suc :
    (n : ℕ) (c c1 : InetConnection) (h h1 : Host) {x : InetConnection × Host}
    → handle_connection_in c h ≡ some (c1, h1)
    → recv_rounds n c1 h1 ≡ some x
    → recv_rounds (suc n) c h ≡ some x
unfolding recv_rounds
recv_rounds-suc n c c1 h h1 ran more = rw ran more

-- The request p is done, and all of its bytes have been handed to the socket.
pub record SentWhole (p : Ptr) (r : InetRequest) (c c' : InetConnection) (h h' : Host)
    (rest : List ℕ) : Type 0 where
  pub gone : c'.lreq.req ≡ none
  pub succeeded : h'.requests p ≡ some (record r { status = success })
  pub queued : (earlier : List Ptr) × (h'.comp_queue ≡ earlier ++ p ∷ [])
  pub handed : (h'.sockets c.lreq.fd).out ≡ (h.sockets c.lreq.fd).out ++ rest

busy_or_done :
    (p : Ptr) (r : InetRequest) (c : InetConnection) (h : Host) (rest : List ℕ)
    → Sending p r c h rest
    → (0 < phase c.lreq.state) ⊎ SentWhole p r c c h h rest
busy_or_done p r c h rest (in_header posted live at below e) = inl (rw at (omega arith))
busy_or_done p r c h rest (in_body posted live at below e) = inl (rw at (omega arith))
busy_or_done p r c h rest (finished gone at ended there e) = inr (record {
  gone = gone;
  succeeded = ended;
  queued = there;
  handed =
      sym (append-nil (h.sockets c.lreq.fd).out) ∙ ap (λ l. (h.sockets c.lreq.fd).out ++ l) (sym e);
})

-- A send or a remote write is complete within as many rounds as it has bytes left, and two, if the
-- socket takes something in each: the whole of the header and the data has then been handed to the
-- socket in order, behind what was there, and the request stands at the end of the completion queue.
pub send_ends :
    (n : ℕ) (p : Ptr) (r : InetRequest) (c : InetConnection) (h : Host) (rest : List ℕ)
    → FitsHeader r
    → SendsData r.type
    → Sending p r c h rest
    → phase c.lreq.state + length rest ≤ n
    → Ready n (h.sockets c.lreq.fd).sends
    → (k : ℕ) × (k ≤ n)
      × (c' : InetConnection) × (h' : Host) × (send_rounds k c h ≡ some (c', h'))
      × SentWhole p r c c' h h' rest
unfolding send_rounds
send_ends zero p r c h rest fits kind now enough ready = elim (busy_or_done p r c h rest now) [
  | inr end ↦ (0, omega arith, c, h, refl, end)
  | inl busy ↦ absurd (omega arith)
]
send_ends (suc n) p r c h rest fits kind now enough ready = elim (busy_or_done p r c h rest now) [
  | inr end ↦ (0, omega arith, c, h, refl, end)
  | inl busy ↦
      let (c1, h1, sent, rest1, ran, did) = Sending-step p r c h rest fits kind now in
      let less : phase c1.lreq.state + length rest1 < phase c.lreq.state + length rest =
        did.shrinks ready.0.0 ready.0.1 busy in
      let ready1 : Ready n (h1.sockets c1.lreq.fd).sends =
        subst (Ready n) (sym (ap (λ f. (h1.sockets f).sends) did.same_fd ∙ did.uses busy))
          ready.1 in
      let (k, le, c', h', ran', end) =
        send_ends n p r c1 h1 rest1 fits kind did.goes_on (omega arith) ready1 in
      (
        suc k,
        omega arith,
        c',
        h',
        send_rounds-suc k c c1 h h1 ran ran',
        record {
          gone = end.gone;
          succeeded = end.succeeded;
          queued = end.queued;
          handed =
              ap (λ f. (h'.sockets f).out) (sym did.same_fd)
              ∙ end.handed
              ∙ ap (λ l. l ++ rest1) (ap (λ f. (h1.sockets f).out) did.same_fd ∙ did.handed)
              ∙ append_assoc (h.sockets c.lreq.fd).out sent rest1
              ∙ ap (λ l. (h.sockets c.lreq.fd).out ++ l) (sym did.in_order);
        },
      )
]

module _ (r : InetRequest) (msg : List ℕ) (dst : ℕ) (Open Closed : InetConnection → Host → Type 0)
    (before : Memory) (target : Target r dst Open Closed) (fits : FitsHeader r)
    (kind : SendsData r.type) (sized : length msg ≡ r.length) where
  -- A request of the peer whose bytes have all arrived is complete within as many calls as there
  -- are bytes left, and one, if each takes something: what was posted for it is closed, and all its
  -- data are in memory at their address.
  pub receive_ends :
      (n : ℕ) (c : InetConnection) (h : Host) (got : List ℕ)
      → Receiving r msg dst Open Closed before c h got
      → got ++ (h.sockets c.rreq.fd).inb ≡ encode r ++ msg
      → length (h.sockets c.rreq.fd).inb < n
      → Ready n (h.sockets c.rreq.fd).recvs
      → (k : ℕ) × (k ≤ n)
        × (c' : InetConnection) × (h' : Host) × (recv_rounds k c h ≡ some (c', h'))
        × Closed c' h'
        × (h'.mem ≡ write_bytes before dst msg)
  unfolding recv_rounds
  receive_ends zero c h got now stream enough ready = absurd (omega arith)
  receive_ends (suc n) c h got now stream enough ready =
      let (c1, h1, more, ran, did) =
        Receiving-step r msg dst Open Closed before target fits kind sized c h got []
          (ap (λ l. got ++ l) (append-nil (h.sockets c.rreq.fd).inb) ∙ stream) now in
      elim (did.shrinks ready.0.0 ready.0.1 (
        omega (
          arith,
          ap length stream,
          length-append {0} got (h.sockets c.rreq.fd).inb,
          length-append {0} (encode r) msg,
          length-encode r,
        ))) [
          | inl (closed, there) ↦
              (1, omega arith, c1, h1, recv_rounds-suc 0 c c1 h h1 ran refl, closed, there)
          | inr less ↦
              let inb1 : (h1.sockets c1.rreq.fd).inb ≡ (h1.sockets c.rreq.fd).inb =
                ap (λ f. (h1.sockets f).inb) did.same_fd in
              let stream1 : (got ++ more) ++ (h1.sockets c1.rreq.fd).inb ≡ encode r ++ msg =
                ap (λ l. (got ++ more) ++ l) inb1
                ∙ append_assoc got more (h1.sockets c.rreq.fd).inb
                ∙ ap (λ l. got ++ l) (sym did.in_order)
                ∙ stream in
              let ready1 : Ready n (h1.sockets c1.rreq.fd).recvs =
                subst (Ready n) (sym (ap (λ f. (h1.sockets f).recvs) did.same_fd ∙ did.uses))
                  ready.1 in
              let (k, le, c', h', ran', end, there) =
                receive_ends n c1 h1 (got ++ more) did.goes_on stream1
                  (omega (arith, ap length inb1)) ready1 in
              (suc k, omega arith, c', h', recv_rounds-suc k c c1 h h1 ran ran', end, there)
        ]

-- The whole of a send has arrived at a connection that rests, and its receive is posted: within one
-- call for each byte and one more, each of which takes something, the receive is complete and the
-- message stands at its address, with every other byte of the memory as it was.
pub receive_message_ends :
    (q : Ptr) (r s : InetRequest) (msg : List ℕ) (c : InetConnection) (h : Host)
    → FitsHeader r
    → r.type ≡ send
    → length msg ≡ r.length
    → Posted q s c h
    → c.rreq.state ≡ free
    → c.rreq.rbytes ≡ 0
    → (h.sockets c.rreq.fd).inb ≡ encode r ++ msg
    → Ready (header_size + r.length + 1) (h.sockets c.rreq.fd).recvs
    → (k : ℕ) × (k ≤ header_size + r.length + 1)
      × (c' : InetConnection) × (h' : Host) × (recv_rounds k c h ≡ some (c', h'))
      × Received q s c' h'
      × (h'.mem ≡ write_bytes h.mem s.addr msg)
receive_message_ends q r s msg c h fits kind sized posted at_rest none_yet arrived ready =
    receive_ends r msg s.addr (Posted q s) (Received q s) h.mem (message_target r q s kind) fits
      (inl kind) sized (header_size + r.length + 1) c h []
      (header_in posted (inl at_rest) none_yet (omega arith)
        (c.rreq.preq, unfold write_bytes in refl) (unfold write_bytes in refl))
      arrived (omega (arith, ap length arrived, length-append {0} (encode r) msg, length-encode r))
      ready
