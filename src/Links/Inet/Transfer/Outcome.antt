-- ===== src/Links/Inet/Transfer/Outcome.antt =====
-- What a transfer comes to: the memory of the receiving host in every state that the two hosts and
-- the network can reach.
use mathlib.Core.List.{append-nil}
use flex_gas.Links.Inet.Host.{Host}
use flex_gas.Links.Inet.Peer.Receiving.{Receiving, all_in, data_in, header_in}
use flex_gas.Links.Inet.Peer.Targets.{Anything, write_target}
use flex_gas.Links.Inet.Requests.Sending.{Sending, finished, in_body, in_header}
use flex_gas.Links.Inet.Transfer.{Flow, Flow-Reach, Reach, Start, System, inb_of, message, out_of}
use flex_gas.Links.Inet.Types.{InetConnection, InetRequest, Ptr, encode, rem_wr}
use flex_gas.Links.Inet.Types.Header.{FitsHeader, length-encode}
use flex_gas.Links.Memory.{split_prefix, write_bytes}
use flex_gas.Prelude.{
  List, [], ap, append_assoc, arith, inr, length, length-append, none, refl, sym, ℕ, ◌++◌, ◌∙◌, ◌≡◌,
}

module _ (p : Ptr) (r : InetRequest) (dst : ℕ) (Open Closed : InetConnection → Host → Type 0)
    (s0 t : System) (got rest : List ℕ) (flow : Flow p r dst Open Closed s0 t got rest) where
  -- Behind a header that is in comes a start of the message.
  part_of_message :
      (part : List ℕ)
      → got ≡ encode r ++ part
      → message r s0 ≡ part ++ (inb_of t ++ (out_of t ++ rest))
  part_of_message part e =
      sym
        (split_prefix (encode r) (part ++ (inb_of t ++ (out_of t ++ rest))) (encode r)
          (message r s0) refl
          (sym (append_assoc (encode r) part (inb_of t ++ (out_of t ++ rest)))
            ∙ ap (λ l. l ++ (inb_of t ++ (out_of t ++ rest))) (sym e)
            ∙ flow.stream)).1

  prefix_written :
      Receiving r (message r s0) dst Open Closed s0.far_host.mem t.far t.far_host got
      → (part tail : List ℕ) × (message r s0 ≡ part ++ tail)
        × (t.far_host.mem ≡ write_bytes s0.far_host.mem dst part)
  prefix_written (header_in open_now at counted below old same) =
      ([], message r s0, refl, unfold write_bytes in same)
  prefix_written (data_in open_now hdr part got_now counted below same) =
      (part, _, part_of_message part got_now, same)
  prefix_written (all_in closed at none_yet got_now same) =
      (message r s0, [], sym (append-nil (message r s0)), same)

  drained :
      rest ≡ []
      → out_of t ≡ []
      → inb_of t ≡ []
      → Receiving r (message r s0) dst Open Closed s0.far_host.mem t.far t.far_host got
      → t.far_host.mem ≡ write_bytes s0.far_host.mem dst (message r s0)
  drained e f g (header_in open_now at counted below old same) = absurd (
      omega (
        arith,
        ap length flow.stream,
        ap length e,
        ap length f,
        ap length g,
        length-encode r,
        length-append {0} got (inb_of t ++ (out_of t ++ rest)),
        length-append {0} (inb_of t) (out_of t ++ rest),
        length-append {0} (out_of t) rest,
        length-append {0} (encode r) (message r s0),
      ))
  drained e f g (data_in open_now hdr part got_now counted below same) =
      same
      ∙ ap (write_bytes s0.far_host.mem dst) (
          sym (
            part_of_message part got_now
            ∙ ap (λ l. part ++ l) (ap (λ l. l ++ (out_of t ++ rest)) g ∙ ap (λ l. l ++ rest) f ∙ e)
            ∙ append-nil part))
  drained e f g (all_in closed at none_yet got_now same) = same

-- A request that has left the connection has nothing left to send.
nothing_left :
    (p : Ptr) (r : InetRequest) (c : InetConnection) (h : Host) (rest : List ℕ)
    → Sending p r c h rest
    → c.lreq.req ≡ none
    → rest ≡ []
nothing_left p r c h rest (in_header posted live at below e) gone = cc
nothing_left p r c h rest (in_body posted live at below e) gone = cc
nothing_left p r c h rest (finished _ at ended there e) gone = e

module _ (p : Ptr) (r : InetRequest) (s0 t : System) (fits : FitsHeader r)
    (reach : Reach s0 t) where
  -- A remote write, however it is cut into pieces and whatever order the handlers and the network
  -- run in: at every moment the memory of the peer is as it was, but for a start of the message
  -- that stands at the remote address.
  pub remote_write_prefix :
      r.type ≡ rem_wr
      → Start p r Anything s0
      → (part tail : List ℕ) × (message r s0 ≡ part ++ tail)
        × (t.far_host.mem ≡ write_bytes s0.far_host.mem r.rem_addr part)
  remote_write_prefix kind st =
      let (got, rest, flow) =
        Flow-Reach p r r.rem_addr Anything Anything s0 (write_target r kind) fits (inr kind) st
          reach in
      prefix_written p r r.rem_addr Anything Anything s0 t got rest flow flow.receiving

  -- Once the request has left the connection of the writer and no byte is under way, the whole
  -- message stands at the remote address, and the rest of the memory is as it was.
  pub remote_write_lem :
      r.type ≡ rem_wr
      → Start p r Anything s0
      → t.near.lreq.req ≡ none
      → out_of t ≡ []
      → inb_of t ≡ []
      → t.far_host.mem ≡ write_bytes s0.far_host.mem r.rem_addr (message r s0)
  remote_write_lem kind st gone no_out no_in =
      let (got, rest, flow) =
        Flow-Reach p r r.rem_addr Anything Anything s0 (write_target r kind) fits (inr kind) st
          reach in
      drained p r r.rem_addr Anything Anything s0 t got rest flow
        (nothing_left p r t.near t.near_host rest flow.sending gone) no_out no_in flow.receiving
