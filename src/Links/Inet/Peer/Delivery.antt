-- ===== src/Links/Inet/Peer/Delivery.antt =====
-- One call of the handler for a request of the peer.
use mathlib.Core.List.{append-nil}
use flex_gas.Links.Inet.Host.{Host}
use flex_gas.Links.Inet.Peer.{handle_connection_in, with_rreq}
use flex_gas.Links.Inet.Peer.Headers.{
  header_call, header_part, leb→le, length-taken, stream_on, with_header,
}
use flex_gas.Links.Inet.Peer.Receiving.{
  AtHeader, HasHeader, Receiving, Taken, Target, after_header_recv, after_recv, all_in, data_in,
  header_in, taken,
}
use flex_gas.Links.Inet.Requests.Sending.{SendsData}
use flex_gas.Links.Inet.Types.{InetConnection, InetRequest, body, encode, header, header_size}
use flex_gas.Links.Inet.Types.Header.{FitsHeader, length-encode}
use flex_gas.Links.Memory.{
  Memory, drop, length-drop, length-zero, min, split_prefix, sub64, sub64_lem, take-drop,
  write_bytes, write_bytes-append,
}
use flex_gas.Links.Sockets.{Socket, granted, next_result}
use flex_gas.Prelude.{
  Bool-cases, List, [], ap, append_assoc, arith, inl, inr, leb, length, length-append, refl, some,
  sym, ℕ, ◌++◌, ◌+◌, ◌∙◌, ◌≡◌, ◌≤◌,
}

module _ (r : InetRequest) (msg : List ℕ) (dst : ℕ) (Open Closed : InetConnection → Host → Type 0)
    (before : Memory) (target : Target r dst Open Closed) (fits : FitsHeader r)
    (kind : SendsData r.type) (sized : length msg ≡ r.length) (c : InetConnection) (h : Host)
    (got later : List ℕ)
    (stream : got ++ ((h.sockets c.rreq.fd).inb ++ later) ≡ encode r ++ msg) where
  -- Behind the header, the stream goes on with the data.
  tail_of :
      (xs ys zs : List ℕ)
      → got ++ xs ≡ encode r ++ zs
      → (h.sockets c.rreq.fd).inb ≡ xs ++ ys
      → zs ++ (ys ++ later) ≡ msg
  tail_of xs ys zs grown e =
      (split_prefix (encode r) (zs ++ (ys ++ later)) (encode r) msg refl (
        sym (append_assoc (encode r) zs (ys ++ later))
        ∙ ap (λ l. l ++ (ys ++ later)) (sym grown)
        ∙ stream_on r msg dst Open Closed before target fits kind sized c h got later stream xs ys
            e)).1

  data_call :
      Open c h
      → HasHeader r c
      → (part : List ℕ) → got ≡ encode r ++ part
      → c.rreq.rbytes ≡ length part
      → length part ≤ r.length
      → h.mem ≡ write_bytes before dst part
      → (c' : InetConnection) × (h' : Host) × (more : List ℕ) × (handle_connection_in c h
          ≡ some (c', h'))
        × Taken r msg dst Open Closed before c c' h h' got more
  data_call open_now hdr part got_now counted below same =
      let fd : ℕ = c.rreq.fd in
      let len : ℕ = sub64 r.length c.rreq.rbytes in
      let s : Socket = h.sockets fd in
      let n : ℕ = granted (next_result s.recvs) (min len (length s.inb)) in
      let xs : List ℕ = taken fd len h in
      let left : List ℕ = drop n s.inb in
      let grown : got ++ xs ≡ encode r ++ (part ++ xs) =
        ap (λ l. l ++ xs) got_now ∙ append_assoc (encode r) part xs in
      let written : write_bytes h.mem (dst + c.rreq.rbytes) xs
          ≡ write_bytes before dst (part ++ xs) =
        ap (λ k. write_bytes h.mem (dst + k) xs) counted
        ∙ ap (λ m. write_bytes m (dst + length part) xs) same
        ∙ sym (write_bytes-append before dst part xs) in
      let bounded : length (part ++ xs) ≤ r.length = omega (
        arith,
        length-append {0} part xs,
        length-taken fd len h,
        sub64_lem r.length c.rreq.rbytes,
      ) in
      elim (Bool-cases (leb r.length (c.rreq.rbytes + length xs))) [
        | inr unfinished ↦
            let (ran, still) = target.takes_part c h open_now hdr unfinished in
            (
              with_rreq c body (c.rreq.rbytes + length xs),
              after_recv fd (dst + c.rreq.rbytes) len h,
              xs,
              ran,
              record {
                goes_on =
                    data_in still
                      (record {
                        at_body = refl;
                        its_type = hdr.its_type;
                        its_length = hdr.its_length;
                        its_rem_addr = hdr.its_rem_addr;
                      })
                      (part ++ xs) grown (omega (arith, length-append {0} part xs)) bounded written;
                in_order = sym (take-drop n s.inb) ∙ ap (λ l. xs ++ l) (ground arith);
                same_fd = refl;
                uses = ground arith;
                shrinks = λ k ready all_in_now. inr (
                    ground (
                      arith,
                      length-drop n s.inb,
                      sub64_lem r.length c.rreq.rbytes,
                      length-append {0} (encode r) part,
                      length-encode r,
                      ap length got_now,
                    ));
              },
            )
        | inl whole ↦
            let (c', h', ran, closed, rested, mem', sockets') =
              target.takes_end c h open_now hdr whole in
            let data_here : part ++ xs ≡ msg =
              (split_prefix (part ++ xs) (left ++ later) msg []
                (omega (arith, length-append {0} part xs, leb→le _ _ whole))
                (tail_of xs left (part ++ xs) grown (sym (take-drop n s.inb))
                  ∙ sym (append-nil msg))).0 in
            (
              c',
              h',
              xs,
              ran,
              record {
                goes_on =
                    all_in closed (inl (ap (λ q. q.state) rested)) (ap (λ q. q.rbytes) rested)
                      (grown ∙ ap (λ l. encode r ++ l) data_here)
                      (mem' ∙ written ∙ ap (write_bytes before dst) data_here);
                in_order =
                    sym (take-drop n s.inb)
                    ∙ ap (λ l. xs ++ l) (sym (ap (λ k. (k fd).inb) sockets' ∙ ground arith));
                same_fd = ap (λ q. q.fd) rested;
                uses = ap (λ k. (k fd).recvs) sockets' ∙ ground arith;
                shrinks = λ k ready all_in_now.
                    inl (closed, mem' ∙ written ∙ ap (write_bytes before dst) data_here);
              },
            )
      ]

  -- Once all is there, a call takes nothing that belongs to another request.
  idle_call :
      Closed c h
      → AtHeader c.rreq.state
      → c.rreq.rbytes ≡ 0
      → got ≡ encode r ++ msg
      → h.mem ≡ write_bytes before dst msg
      → (c' : InetConnection) × (h' : Host) × (more : List ℕ) × (handle_connection_in c h
          ≡ some (c', h'))
        × Taken r msg dst Open Closed before c c' h h' got more
  idle_call closed at none_yet got_now same =
      let fd : ℕ = c.rreq.fd in
      let len : ℕ = sub64 header_size c.rreq.rbytes in
      let dry : (h.sockets fd).inb ≡ [] = length-zero (h.sockets fd).inb (
        omega (
          arith,
          ap length stream,
          ap length got_now,
          length-append {0} got ((h.sockets fd).inb ++ later),
          length-append {0} (h.sockets fd).inb later,
        )) in
      let none_taken : taken fd len h ≡ [] = ground arith in
      (
        with_header c (write_bytes c.rreq.preq c.rreq.rbytes []) header (c.rreq.rbytes + 0),
        after_header_recv fd len h,
        [],
        header_part r c h [] at none_taken (ground arith),
        record {
          goes_on =
              all_in (target.stays_closed c h _ _ closed) (inr refl) (omega arith)
                (append-nil got ∙ got_now) same;
          in_order = ground arith;
          same_fd = refl;
          uses = ground arith;
          shrinks = λ k ready all_in_now. inl (target.stays_closed c h _ _ closed, same);
        },
      )

  -- One call of the handler, whatever the socket has: there is no fault, and what is taken is the
  -- next part of the stream.
  pub Receiving-step :
      Receiving r msg dst Open Closed before c h got
      → (c' : InetConnection) × (h' : Host) × (more : List ℕ) × (handle_connection_in c h
          ≡ some (c', h'))
        × Taken r msg dst Open Closed before c c' h h' got more
  Receiving-step (header_in open_now at counted below old same) =
      header_call r msg dst Open Closed before target fits kind sized c h got later stream open_now
        at counted below old same
  Receiving-step (data_in open_now hdr part got_now counted below same) =
      data_call open_now hdr part got_now counted below same
  Receiving-step (all_in closed at none_yet got_now same) =
      idle_call closed at none_yet got_now same
