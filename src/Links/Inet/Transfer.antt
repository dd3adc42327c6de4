-- ===== src/Links/Inet/Transfer.antt =====
-- A transfer between two hosts of src/lm/lminet_handler.cpp: the handler of the one sends, the
-- network carries, the handler of the other receives, in any order and in pieces of any size.
pub mod Outcome
pub mod Refinement
pub mod Ends
use flex_gas.Links.Inet.Host.{Host}
use flex_gas.Links.Inet.Peer.{handle_connection_in}
use flex_gas.Links.Inet.Peer.Delivery.{Receiving-step}
use flex_gas.Links.Inet.Peer.Receiving.{Receiving, Target, all_in, data_in, header_in}
use flex_gas.Links.Inet.Requests.{handle_request}
use flex_gas.Links.Inet.Requests.Sending.{Sending, Sending-sockets, SendsData, in_header}
use flex_gas.Links.Inet.Requests.Steps.{Sending-step}
use flex_gas.Links.Inet.Types.{InetConnection, InetRequest, Ptr, encode, free, header}
use flex_gas.Links.Inet.Types.Header.{FitsHeader}
use flex_gas.Links.Memory.{drop, length-read_bytes, read_bytes, write_bytes}
use flex_gas.Links.Sockets.{Socket, update}
use flex_gas.Prelude.{
  List, [], ap, append_assoc, arith, inl, refl, some, some-injective, subst, sym, ℕ, ◌++◌, ◌∙◌, ◌≡◌,
}

-- The two ends of one connection.
pub record System : Type 0 where
  pub near : InetConnection
  pub near_host : Host
  pub far : InetConnection
  pub far_host : Host

-- The socket of a host with another list of bytes to be carried, or of bytes that have arrived.
abbrev pub with_out : ℕ → List ℕ → Host → Host
with_out fd bs h = record h { sockets = update h.sockets fd (record (h.sockets fd) { out = bs }) }

abbrev pub with_inb : ℕ → List ℕ → Host → Host
with_inb fd bs h = record h { sockets = update h.sockets fd (record (h.sockets fd) { inb = bs }) }

abbrev pub out_of : System → List ℕ
out_of s = (s.near_host.sockets s.near.lreq.fd).out

abbrev pub inb_of : System → List ℕ
inb_of s = (s.far_host.sockets s.far.rreq.fd).inb

pub data Step (s : System) : System → Type 0 where
  near_sends :
      (c : InetConnection) (h : Host)
      → handle_request s.near s.near_host ≡ some (c, h)
      → Step s (record s { near = c; near_host = h })
  net_carries :
      (xs ys : List ℕ)
      → out_of s ≡ xs ++ ys
      → Step s (record s {
        near_host = with_out s.near.lreq.fd ys s.near_host;
        far_host = with_inb s.far.rreq.fd (inb_of s ++ xs) s.far_host;
      })
  far_receives :
      (c : InetConnection) (h : Host)
      → handle_connection_in s.far s.far_host ≡ some (c, h)
      → Step s (record s { far = c; far_host = h })

pub data Reach (s : System) : System → Type 0 where
  here : Reach s s
  then_step : {t u : System} → Reach s t → Step t u → Reach s u

-- The request r is posted on the one side under p, and nothing of it has moved yet.
pub record Start (p : Ptr) (r : InetRequest) (Open : InetConnection → Host → Type 0) (s : System)
    : Type 0 where
  pub posted : s.near.lreq.req ≡ some p
  pub live : s.near_host.requests p ≡ some r
  pub begins : s.near.lreq.state ≡ header
  pub none_sent : s.near.lreq.rbytes ≡ 0
  pub none_out : out_of s ≡ []
  pub open_far : Open s.far s.far_host
  pub far_free : s.far.rreq.state ≡ free
  pub none_received : s.far.rreq.rbytes ≡ 0
  pub none_in : inb_of s ≡ []

abbrev pub message : InetRequest → System → List ℕ
message r s = read_bytes s.near_host.mem r.addr r.length

-- Bytes that the network carries keep their place in the stream.
moved :
    (inb out rest xs ys : List ℕ)
    → out ≡ xs ++ ys
    → (inb ++ xs) ++ (ys ++ rest) ≡ inb ++ (out ++ rest)
moved inb out rest xs ys e =
    append_assoc inb xs (ys ++ rest)
    ∙ ap (λ l. inb ++ l) (sym (append_assoc xs ys rest) ∙ ap (λ l. l ++ rest) (sym e))

module _ (p : Ptr) (r : InetRequest) (dst : ℕ) (Open Closed : InetConnection → Host → Type 0)
    (s0 : System) where
  -- Every byte of the stream is either received, or arrived, or under way, or still to be sent.
  pub record Flow (s : System) (got rest : List ℕ) : Type 0 where
    pub sending : Sending p r s.near s.near_host rest
    pub receiving : Receiving r (message r s0) dst Open Closed s0.far_host.mem s.far s.far_host got
    pub stream : got ++ (inb_of s ++ (out_of s ++ rest)) ≡ encode r ++ message r s0

  pub Start-Flow : Start p r Open s0 → Flow s0 [] (encode r ++ message r s0)
  Start-Flow st = record {
    sending =
        in_header st.posted st.live st.begins (omega arith)
          (ap (λ n. drop n (encode r) ++ message r s0) (sym st.none_sent));
    receiving =
        header_in st.open_far (inl st.far_free) st.none_received (omega arith)
          (s0.far.rreq.preq, unfold write_bytes in refl) (unfold write_bytes in refl);
    stream = ground arith;
  }

  module _ (target : Target r dst Open Closed) (fits : FitsHeader r) (kind : SendsData r.type) where
    Receiving-sockets :
        (c : InetConnection) (h : Host) (got : List ℕ) (ss : ℕ → Socket)
        → Receiving r (message r s0) dst Open Closed s0.far_host.mem c h got
        → Receiving r
            (message r s0)
            dst
            Open
            Closed
            s0.far_host.mem
            c
            (record h { sockets = ss })
            got
    Receiving-sockets c h got ss (header_in open_now at counted below old same) =
        header_in (target.stays_open c h c.rreq ss open_now) at counted below old same
    Receiving-sockets c h got ss (data_in open_now hdr part got_now counted below same) =
        data_in (target.stays_open c h c.rreq ss open_now) hdr part got_now counted below same
    Receiving-sockets c h got ss (all_in closed at none_yet got_now same) =
        all_in (target.stays_closed c h c.rreq ss closed) at none_yet got_now same

    abbrev Flows : System → Type 0
    Flows t = (got rest : List ℕ) × Flow t got rest

    Flow-sends :
        (s : System) (got rest : List ℕ) (c : InetConnection) (h : Host)
        → Flow s got rest
        → handle_request s.near s.near_host ≡ some (c, h)
        → Flows (record s { near = c; near_host = h })
    Flow-sends s got rest c h flow ran =
        let (c1, h1, sent, rest', ran1, did) =
          Sending-step p r s.near s.near_host rest fits kind flow.sending in
        let out_now : (h1.sockets c1.lreq.fd).out ≡ out_of s ++ sent =
          ap (λ f. (h1.sockets f).out) did.same_fd ∙ did.handed in
        subst (λ (q : InetConnection × Host). Flows (record s { near = q.0; near_host = q.1 }))
          (some-injective _ _ (sym ran1 ∙ ran))
          (
            got,
            rest',
            record {
              sending = did.goes_on;
              receiving = flow.receiving;
              stream =
                  ap (λ l. got ++ (inb_of s ++ (l ++ rest'))) out_now
                  ∙ ap (λ l. got ++ (inb_of s ++ l))
                      (append_assoc (out_of s) sent rest'
                        ∙ ap (λ l. out_of s ++ l) (sym did.in_order))
                  ∙ flow.stream;
            },
          )

    Flow-receives :
        (s : System) (got rest : List ℕ) (c : InetConnection) (h : Host)
        → Flow s got rest
        → handle_connection_in s.far s.far_host ≡ some (c, h)
        → Flows (record s { far = c; far_host = h })
    Flow-receives s got rest c h flow ran =
        let (c1, h1, more, ran1, did) =
          Receiving-step r (message r s0) dst Open Closed s0.far_host.mem target fits kind
            (length-read_bytes s0.near_host.mem r.addr r.length) s.far s.far_host got
            (out_of s ++ rest) flow.stream flow.receiving in
        let inb_now : inb_of s ≡ more ++ (h1.sockets c1.rreq.fd).inb =
          did.in_order ∙ ap (λ f. more ++ (h1.sockets f).inb) (sym did.same_fd) in
        subst (λ (q : InetConnection × Host). Flows (record s { far = q.0; far_host = q.1 }))
          (some-injective _ _ (sym ran1 ∙ ran))
          (
            got ++ more,
            rest,
            record {
              sending = flow.sending;
              receiving = did.goes_on;
              stream =
                  append_assoc got more ((h1.sockets c1.rreq.fd).inb ++ (out_of s ++ rest))
                  ∙ ap (λ l. got ++ l)
                      (sym (append_assoc more (h1.sockets c1.rreq.fd).inb (out_of s ++ rest))
                        ∙ ap (λ l. l ++ (out_of s ++ rest)) (sym inb_now))
                  ∙ flow.stream;
            },
          )

    Flow-carries :
        (s : System) (got rest xs ys : List ℕ)
        → Flow s got rest
        → out_of s ≡ xs ++ ys
        → Flows (record s {
          near_host = with_out s.near.lreq.fd ys s.near_host;
          far_host = with_inb s.far.rreq.fd (inb_of s ++ xs) s.far_host;
        })
    Flow-carries s got rest xs ys flow e = (
      got,
      rest,
      record {
        sending = Sending-sockets p r s.near s.near_host rest _ flow.sending;
        receiving = Receiving-sockets s.far s.far_host got _ flow.receiving;
        stream =
            ap (λ l. got ++ l) (ground arith ∙ moved (inb_of s) (out_of s) rest xs ys e)
            ∙ flow.stream;
      },
    )

    pub Flow-Step : {s t : System} → Flows s → Step s t → Flows t
    Flow-Step {s} (got, rest, flow) (near_sends c h ran) = Flow-sends s got rest c h flow ran
    Flow-Step {s} (got, rest, flow) (net_carries xs ys e) = Flow-carries s got rest xs ys flow e
    Flow-Step {s} (got, rest, flow) (far_receives c h ran) = Flow-receives s got rest c h flow ran

    pub Flow-Reach : {t : System} → Start p r Open s0 → Reach s0 t → Flows t
    Flow-Reach st here = ([], _, Start-Flow st)
    Flow-Reach st (then_step reach step) = Flow-Step (Flow-Reach st reach) step
