-- ===== src/Links/Inet/Peer/Headers.antt =====
-- The header of a request of the peer as it comes in.
use mathlib.Core.List.{append-nil}
use flex_gas.Links.Inet.Host.{Host, sock_recv}
use flex_gas.Links.Inet.Peer.{after_header, handle_connection_in, recv_header}
use flex_gas.Links.Inet.Peer.Receiving.{
  AtHeader, Taken, Target, after_header_recv, data_in, header_in, taken,
}
use flex_gas.Links.Inet.Requests.Sending.{SendsData, granted-le}
use flex_gas.Links.Inet.Types.{
  InetConnection, InetRequest, RequestState, body, encode, header, header_size, preq_length,
  preq_rem_addr, preq_type,
}
use flex_gas.Links.Inet.Types.Header.{FitsHeader, length-encode, preq-encode}
use flex_gas.Links.Memory.{
  Memory, drop, length-drop, length-take, min, split_prefix, sub64, sub64_lem, take-drop,
  write_bytes, write_bytes-append,
}
use flex_gas.Links.Sockets.{Socket, granted, next_result}
use flex_gas.Prelude.{
  Bool-cases, List, [], ap, append_assoc, arith, false, inl, inr, leb, length, length-append, ltb,
  ltb→lt, refl, some, sym, true, ℕ, ◌++◌, ◌+◌, ◌<◌, ◌∙◌, ◌≡◌, ◌≤◌,
}

abbrev pub with_header : InetConnection → Memory → RequestState → ℕ → InetConnection
with_header c preq s n = record c { rreq = record (c.rreq) { preq = preq; state = s; rbytes = n } }

pub length-taken : (fd len : ℕ) (h : Host) → length (taken fd len h) ≤ len
length-taken fd len h = ground (
  arith,
  length-take (granted (next_result (h.sockets fd).recvs) (min len (length (h.sockets fd).inb)))
      (h.sockets fd).inb,
  granted-le (next_result (h.sockets fd).recvs) (min len (length (h.sockets fd).inb)),
)

ltb-ge : (a b : ℕ) → ltb a b ≡ false → b ≤ a
ltb-ge a b e = ground arith

pub leb→le : (a b : ℕ) → leb a b ≡ true → a ≤ b
leb→le a b e = ground arith

module _ (r : InetRequest) (c : InetConnection) (h : Host) (xs : List ℕ)
    (at : AtHeader c.rreq.state)
    (its : taken c.rreq.fd (sub64 header_size c.rreq.rbytes) h ≡ xs) where
  pub header_part :
      ltb (c.rreq.rbytes + length xs) header_size ≡ true
      → handle_connection_in c h
        ≡ some (
          with_header c
              (write_bytes c.rreq.preq c.rreq.rbytes xs)
              header
              (c.rreq.rbytes + length xs),
          after_header_recv c.rreq.fd (sub64 header_size c.rreq.rbytes) h,
        )
  unfolding handle_connection_in recv_header sock_recv
  header_part more = ground arith

  header_end :
      SendsData r.type
      → ltb (c.rreq.rbytes + length xs) header_size ≡ false
      → preq_type (write_bytes c.rreq.preq c.rreq.rbytes xs) ≡ some r.type
      → handle_connection_in c h
        ≡ some (
          with_header c (write_bytes c.rreq.preq c.rreq.rbytes xs) body 0,
          after_header_recv c.rreq.fd (sub64 header_size c.rreq.rbytes) h,
        )
  unfolding handle_connection_in recv_header sock_recv after_header
  header_end kind whole known = ground arith

module _ (r : InetRequest) (msg : List ℕ) (dst : ℕ) (Open Closed : InetConnection → Host → Type 0)
    (before : Memory) (target : Target r dst Open Closed) (fits : FitsHeader r)
    (kind : SendsData r.type) (sized : length msg ≡ r.length) (c : InetConnection) (h : Host)
    (got later : List ℕ)
    (stream : got ++ ((h.sockets c.rreq.fd).inb ++ later) ≡ encode r ++ msg) where
  -- Where the call takes xs, what is left of the stream follows on them.
  pub stream_on :
      (xs ys : List ℕ)
      → (h.sockets c.rreq.fd).inb ≡ xs ++ ys
      → (got ++ xs) ++ (ys ++ later) ≡ encode r ++ msg
  stream_on xs ys e =
      append_assoc got xs (ys ++ later)
      ∙ ap (λ l. got ++ l) (sym (append_assoc xs ys later) ∙ ap (λ l. l ++ later) (sym e))
      ∙ stream

  pub header_call :
      Open c h
      → AtHeader c.rreq.state
      → c.rreq.rbytes ≡ length got
      → length got < header_size
      → (old : Memory) × (c.rreq.preq ≡ write_bytes old 0 got)
      → h.mem ≡ before
      → (c' : InetConnection) × (h' : Host) × (more : List ℕ) × (handle_connection_in c h
          ≡ some (c', h'))
        × Taken r msg dst Open Closed before c c' h h' got more
  header_call open_now at counted below (old, buffer) same =
      let fd : ℕ = c.rreq.fd in
      let len : ℕ = sub64 header_size c.rreq.rbytes in
      let s : Socket = h.sockets fd in
      let n : ℕ = granted (next_result s.recvs) (min len (length s.inb)) in
      let xs : List ℕ = taken fd len h in
      let left : List ℕ = drop n s.inb in
      let whole_buffer : write_bytes c.rreq.preq c.rreq.rbytes xs ≡ write_bytes old 0 (got ++ xs) =
        ap (λ k. write_bytes c.rreq.preq k xs) counted
        ∙ ap (λ m. write_bytes m (length got) xs) buffer
        ∙ ap (λ k. write_bytes (write_bytes old 0 got) k xs) (omega arith)
        ∙ sym (write_bytes-append old 0 got xs) in
      elim (Bool-cases (ltb (c.rreq.rbytes + length xs) header_size)) [
        | inl part ↦ (
          with_header c (write_bytes c.rreq.preq c.rreq.rbytes xs) header
              (c.rreq.rbytes + length xs),
          after_header_recv fd len h,
          xs,
          header_part r c h xs at refl part,
          record {
            goes_on =
                header_in (target.stays_open c h _ _ open_now) (inr refl)
                  (omega (arith, length-append {0} got xs))
                  (omega (arith, length-append {0} got xs, ltb→lt _ _ part)) (old, whole_buffer)
                  same;
            in_order = sym (take-drop n s.inb) ∙ ap (λ l. xs ++ l) (ground arith);
            same_fd = refl;
            uses = ground arith;
            shrinks = λ k ready all_in_now.
                inr (ground (arith, length-drop n s.inb, sub64_lem header_size c.rreq.rbytes));
          },
        )
        | inr whole ↦
            let whole_header : got ++ xs ≡ encode r =
              (split_prefix (got ++ xs) (left ++ later) (encode r) msg
                (omega (
                  arith,
                  length-append {0} got xs,
                  length-encode r,
                  length-taken fd len h,
                  sub64_lem header_size c.rreq.rbytes,
                  ltb-ge _ _ whole,
                ))
                (stream_on xs left (sym (take-drop n s.inb)))).0 in
            let known : write_bytes c.rreq.preq c.rreq.rbytes xs ≡ write_bytes old 0 (encode r) =
              whole_buffer ∙ ap (write_bytes old 0) whole_header in
            (
              with_header c (write_bytes c.rreq.preq c.rreq.rbytes xs) body 0,
              after_header_recv fd len h,
              xs,
              header_end r c h xs at refl kind whole
                  (ap preq_type known ∙ (preq-encode old r fits).0),
              record {
                goes_on =
                    data_in (target.stays_open c h _ _ open_now)
                      (record {
                        at_body = refl;
                        its_type = ap preq_type known ∙ (preq-encode old r fits).0;
                        its_length = ap preq_length known ∙ (preq-encode old r fits).2;
                        its_rem_addr = ap preq_rem_addr known ∙ (preq-encode old r fits).1;
                      })
                      [] (whole_header ∙ sym (append-nil (encode r))) refl (omega arith)
                      unfold write_bytes in same;
                in_order = sym (take-drop n s.inb) ∙ ap (λ l. xs ++ l) (ground arith);
                same_fd = refl;
                uses = ground arith;
                shrinks = λ k ready all_in_now.
                    inr (ground (arith, length-drop n s.inb, sub64_lem header_size c.rreq.rbytes));
              },
            )
      ]
