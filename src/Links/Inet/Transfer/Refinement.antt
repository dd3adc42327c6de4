-- ===== src/Links/Inet/Transfer/Refinement.antt =====
-- A send and its receive as one atomic delivery.
use flex_gas.Links.Inet.Host.{Host, recv_at, sock_recv}
use flex_gas.Links.Inet.Peer.{
  accept_message, handle_connection_in, recv_data, recv_header, recv_write,
}
use flex_gas.Links.Inet.Peer.Receiving.{Receiving, all_in, data_in, header_in}
use flex_gas.Links.Inet.Peer.Targets.{Posted, Received, message_target}
use flex_gas.Links.Inet.Transfer.{
  Flow-Reach, Reach, Start, Step, System, far_receives, message, near_sends, net_carries, then_step,
}
use flex_gas.Links.Inet.Types.{InetConnection, InetRequest, InetRequestType, Ptr, preq_type, send}
use flex_gas.Links.Inet.Types.Header.{FitsHeader}
use flex_gas.Links.Memory.{
  Memory, length-read_bytes, read_bytes, read_bytes-write_bytes, write_bytes, write_bytes_outside,
}
use flex_gas.Prelude.{
  List, Option, ap, arith, inl, inr, length, none, refl, some, subst, sym, ℕ, ◌+◌, ◌<◌, ◌∙◌, ◌≡◌,
  ◌≤◌, ◌⊎◌,
}

-- What the receiving program can tell: nothing yet, or the memory that it finds when its receive is
-- done.
pub data Outcome : Type 0 where
  undelivered : Outcome
  delivered : Memory → Outcome

pub outcome : System → Outcome
outcome s = elim s.far.lreq.req [ none ↦ delivered s.far_host.mem | some _ ↦ undelivered ]

-- The one step of the specification: the message stands at its address.
pub record Delivers (before : Memory) (dst : ℕ) (msg : List ℕ) (o o' : Outcome) : Type 0 where
  pub was_open : o ≡ undelivered
  pub all_there : o' ≡ delivered (write_bytes before dst msg)

outcome_known :
    (r : InetRequest) (q : Ptr) (s : InetRequest) (msg : List ℕ) (before : Memory) (t : System)
    (got : List ℕ)
    → Receiving r msg s.addr (Posted q s) (Received q s) before t.far t.far_host got
    → (outcome t ≡ undelivered) ⊎ (outcome t ≡ delivered (write_bytes before s.addr msg))
unfolding outcome
outcome_known r q s msg before t got (header_in ready at counted below old same) =
    inl (rw (ready.its_pointer) refl)
outcome_known r q s msg before t got (data_in ready hdr part got_now counted below same) =
    inl (rw (ready.its_pointer) refl)
outcome_known r q s msg before t got (all_in closed at none_yet got_now same) =
    inr (rw (closed.gone) (ap delivered same))

Received-cases :
    (r : InetRequest) (q : Ptr) (s : InetRequest) (msg : List ℕ) (before : Memory)
    (c : InetConnection) (h : Host) (got : List ℕ)
    → length msg ≡ r.length
    → Receiving r msg s.addr (Posted q s) (Received q s) before c h got
    → c.lreq.req ≡ none
    → Received q s c h
      × (read_bytes h.mem s.addr r.length ≡ msg)
      × ((b : ℕ) → (b < s.addr) ⊎ (s.addr + r.length ≤ b) → h.mem b ≡ before b)
Received-cases r q s msg before c h got sized (header_in ready at counted below old same) gone =
    absurd (ground (arith, ready.its_pointer))
Received-cases r q s msg before c h got sized (data_in ready hdr part got_now counted below same)
      gone =
    absurd (ground (arith, ready.its_pointer))
Received-cases r q s msg before c h got sized (all_in closed at none_yet got_now same) gone = (
  closed,
  ap (λ m. read_bytes m s.addr r.length) same
      ∙ ap (read_bytes (write_bytes before s.addr msg) s.addr) (sym sized)
      ∙ read_bytes-write_bytes before s.addr msg,
  λ b out.
      ap (λ m. m b) same
      ∙ write_bytes_outside before s.addr msg b
          (subst (λ n. (b < s.addr) ⊎ (s.addr + n ≤ b)) (sym sized) out),
)

-- Without a posted receive the handler posts none.
recv_data-none :
    (k : Option InetRequestType) (c : InetConnection) (h : Host) (c' : InetConnection) (h' : Host)
    → c.lreq.req ≡ none
    → recv_data k c h ≡ some (c', h')
    → c'.lreq.req ≡ none
unfolding recv_data accept_message recv_write recv_at sock_recv
recv_data-none none c h c' h' gone ran = ground arith
recv_data-none (some k) c h c' h' gone ran = ground arith

handle_connection_in-none :
    (c : InetConnection) (h : Host) (c' : InetConnection) (h' : Host)
    → c.lreq.req ≡ none
    → handle_connection_in c h ≡ some (c', h')
    → c'.lreq.req ≡ none
unfolding handle_connection_in recv_header sock_recv
handle_connection_in-none c h c' h' gone ran =
    ground (arith, recv_data-none (preq_type c.rreq.preq) c h c' h' gone)

stays_done : {t u : System} → Step t u → t.far.lreq.req ≡ none → u.far.lreq.req ≡ none
stays_done (near_sends c h ran) gone = gone
stays_done (net_carries xs ys e) gone = gone
stays_done {t} (far_receives c h ran) gone = handle_connection_in-none t.far t.far_host c h gone ran

module _ (p q : Ptr) (r s : InetRequest) (s0 t : System) (fits : FitsHeader r)
    (kind : r.type ≡ send) (st : Start p r (Posted q s) s0) where
  known :
      (x : System)
      → Reach s0 x
      → (outcome x ≡ undelivered)
        ⊎ (outcome x ≡ delivered (write_bytes s0.far_host.mem s.addr (message r s0)))
  known x reach =
      let (got, rest, flow) =
        Flow-Reach p r s.addr (Posted q s) (Received q s) s0 (message_target r q s kind) fits
          (inl kind) st reach in
      outcome_known r q s (message r s0) s0.far_host.mem x got flow.receiving

  -- Each step that the two handlers and the network make, wherever they have got to, is for the
  -- receiving program either no step at all or the one step in which the whole message is there at
  -- the address of the posted receive and nothing else in its memory has changed.
  pub Step-refines :
      (u : System)
      → Reach s0 t
      → Step t u
      → (outcome u ≡ outcome t)
        ⊎ Delivers s0.far_host.mem s.addr (message r s0) (outcome t) (outcome u)
  unfolding outcome
  Step-refines u reach step = elim (known t reach) [
    | inl open_t ↦ elim (known u (then_step reach step)) [
      | inl open_u ↦ inl (open_u ∙ sym open_t)
      | inr done_u ↦ inr (record { was_open = open_t; all_there = done_u })
    ]
    | inr done_t ↦ elim (known u (then_step reach step)) [
      | inl open_u ↦ absurd (ground (arith, stays_done step))
      | inr done_u ↦ inl (done_u ∙ sym done_t)
    ]
  ]

  -- Where the receive has left its connection, its request has succeeded and is the last one of the
  -- completion queue, the bytes at its address are the message, and every other byte is as it was.
  pub received_lem :
      Reach s0 t
      → t.far.lreq.req ≡ none
      → Received q s t.far t.far_host
        × (read_bytes t.far_host.mem s.addr r.length ≡ message r s0)
        × ((b : ℕ) → (b < s.addr) ⊎ (s.addr + r.length ≤ b) → t.far_host.mem b ≡ s0.far_host.mem b)
  received_lem reach gone =
      let (got, rest, flow) =
        Flow-Reach p r s.addr (Posted q s) (Received q s) s0 (message_target r q s kind) fits
          (inl kind) st reach in
      Received-cases r q s (message r s0) s0.far_host.mem t.far t.far_host got
        (length-read_bytes s0.near_host.mem r.addr r.length) flow.receiving gone
