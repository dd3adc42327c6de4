-- ===== src/Links/Inet/Requests/Pieces.antt =====
-- What one call of the handler hands to the socket, from the header and from the data.
use mathlib.Core.List.{append-nil}
use flex_gas.Links.Inet.Host.{Host, sock_send}
use flex_gas.Links.Inet.Requests.{complete_lreq, send_body, send_header, with_lreq}
use flex_gas.Links.Inet.Requests.Sending.{Sent, finished, in_body, in_header}
use flex_gas.Links.Inet.Types.{
  InetConnection, InetRequest, Ptr, body, encode, free, header, header_size, success,
}
use flex_gas.Links.Inet.Types.Header.{FitsHeader, length-encode}
use flex_gas.Links.Memory.{
  cut, cut_bytes, drop, length-drop, length-read_bytes, read_bytes, sub64, sub64_lem, take_all,
}
use flex_gas.Links.Sockets.{granted, next_result, remaining, update}
use flex_gas.Prelude.{
  Bool-cases, List, [], ap, append_assoc, arith, inl, inr, leb, length, length-append, none, refl,
  some, sym, take, ℕ, ◌++◌, ◌+◌, ◌-◌, ◌<◌, ◌∙◌, ◌∷◌, ◌≡◌, ◌≤◌,
}

-- The state behind a call of send.
abbrev after_send : ℕ → List ℕ → Host → Host
after_send fd buf h =
    let s = h.sockets fd in
    let n = granted (next_result s.sends) (length buf) in
    record h {
      sockets =
          update h.sockets fd (record s { sends = remaining s.sends; out = s.out ++ take n buf });
    }

module _ (p : Ptr) (r : InetRequest) (c : InetConnection) (h : Host) (fits : FitsHeader r)
    (posted : c.lreq.req ≡ some p) (live : h.requests p ≡ some r) where
  header_buffer :
      c.lreq.rbytes < header_size
      → take (sub64 header_size c.lreq.rbytes) (drop c.lreq.rbytes (encode r))
        ≡ drop c.lreq.rbytes (encode r)
  header_buffer below = take_all (sub64 header_size c.lreq.rbytes) (drop c.lreq.rbytes (encode r)) (
      omega (
        arith,
        length-drop c.lreq.rbytes (encode r),
        length-encode r,
        sub64_lem header_size c.lreq.rbytes,
      ))

  pub header_step :
      c.lreq.state ≡ header
      → c.lreq.rbytes < header_size
      → (c' : InetConnection) × (h' : Host) × (sent rest' : List ℕ) × (send_header body c h
          ≡ some (c', h'))
        × Sent p r c c' h h'
            (drop c.lreq.rbytes (encode r) ++ read_bytes h.mem r.addr r.length)
            sent
            rest'
  unfolding send_header sock_send
  header_step at below =
      let buf : List ℕ = drop c.lreq.rbytes (encode r) in
      let n : ℕ = granted (next_result (h.sockets c.lreq.fd).sends) (length buf) in
      let data_left : List ℕ = read_bytes h.mem r.addr r.length in
      elim (Bool-cases (leb header_size (c.lreq.rbytes + n))) [
        | inl whole ↦ (
          with_lreq c body 0,
          after_send c.lreq.fd buf h,
          take n buf,
          data_left,
          ground (arith, header_buffer below),
          record {
            goes_on = in_body posted live refl (omega arith) (ground arith);
            in_order =
                ap (λ l. l ++ data_left)
                  (sym (
                    take_all n buf
                      (ground (arith, length-drop c.lreq.rbytes (encode r), length-encode r))));
            handed = ground arith;
            same_fd = refl;
            same_mem = refl;
            uses = λ busy. ground arith;
            shrinks = λ k ready busy. ground (arith, length-append {0} buf data_left);
          },
        )
        | inr more ↦ (
          with_lreq c header (c.lreq.rbytes + n),
          after_send c.lreq.fd buf h,
          take n buf,
          drop (c.lreq.rbytes + n) (encode r) ++ data_left,
          ground (arith, header_buffer below),
          record {
            goes_on = in_header posted live refl (ground arith) refl;
            in_order =
                ap (λ l. l ++ data_left) (cut n c.lreq.rbytes (encode r))
                ∙ append_assoc (take n buf) (drop (c.lreq.rbytes + n) (encode r)) data_left;
            handed = ground arith;
            same_fd = refl;
            same_mem = refl;
            uses = λ busy. ground arith;
            shrinks = λ k ready busy. ground (
              arith,
              length-append {0} buf data_left,
              length-append {0} (drop (c.lreq.rbytes + n) (encode r)) data_left,
              length-drop (c.lreq.rbytes + n) (encode r),
              length-drop c.lreq.rbytes (encode r),
              length-encode r,
            );
          },
        )
      ]

  pub body_step :
      c.lreq.state ≡ body
      → c.lreq.rbytes ≤ r.length
      → (c' : InetConnection) × (h' : Host) × (sent rest' : List ℕ) × (send_body c h
          ≡ some (c', h'))
        × Sent p r c c' h h'
            (read_bytes h.mem (r.addr + c.lreq.rbytes) (r.length - c.lreq.rbytes))
            sent
            rest'
  unfolding send_body sock_send complete_lreq
  body_step at below =
      let from : ℕ = r.addr + c.lreq.rbytes in
      let left : ℕ = r.length - c.lreq.rbytes in
      let buf : List ℕ = read_bytes h.mem from left in
      let n : ℕ = granted (next_result (h.sockets c.lreq.fd).sends) (length buf) in
      let exact : sub64 r.length c.lreq.rbytes ≡ left =
        sub64_lem r.length c.lreq.rbytes fits.length_fits below in
      elim (Bool-cases (leb r.length (c.lreq.rbytes + n))) [
        | inl whole ↦ (
          record c { lreq = record (c.lreq) { req = none; state = free; rbytes = 0 } },
          record (after_send c.lreq.fd buf h) {
            requests = update h.requests p (some (record r { status = success }));
            comp_queue = h.comp_queue ++ p ∷ [];
          },
          take n buf,
          [],
          ground arith,
          record {
            goes_on = finished refl refl (ground arith) (h.comp_queue, refl) refl;
            in_order =
                sym (append-nil buf)
                ∙ ap (λ l. l ++ [])
                    (sym (take_all n buf (ground (arith, length-read_bytes h.mem from left))));
            handed = ground arith;
            same_fd = refl;
            same_mem = refl;
            uses = λ busy. ground arith;
            shrinks = λ k ready busy. ground arith;
          },
        )
        | inr more ↦ (
          with_lreq c body (c.lreq.rbytes + n),
          after_send c.lreq.fd buf h,
          take n buf,
          read_bytes h.mem (r.addr + (c.lreq.rbytes + n)) (r.length - (c.lreq.rbytes + n)),
          ground arith,
          record {
            goes_on = in_body posted live refl (ground arith) refl;
            in_order =
                cut_bytes h.mem from left n (ground (arith, length-read_bytes h.mem from left))
                ∙ ap (λ l. take n buf ++ l)
                    (ap (λ a. read_bytes h.mem a (left - n)) (omega arith)
                      ∙ ap (read_bytes h.mem (r.addr + (c.lreq.rbytes + n))) (omega arith));
            handed = ground arith;
            same_fd = refl;
            same_mem = refl;
            uses = λ busy. ground arith;
            shrinks = λ k ready busy. ground (
              arith,
              length-read_bytes h.mem from left,
              length-read_bytes h.mem (r.addr + (c.lreq.rbytes + n))
                  (r.length - (c.lreq.rbytes + n)),
            );
          },
        )
      ]
