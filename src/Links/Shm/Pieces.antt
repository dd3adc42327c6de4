-- ===== src/Links/Shm/Pieces.antt =====
-- One look of src/lm/lmshm_sendrecv.cpp at a message that comes in pieces.
use mathlib.Core.List.{append-nil}
use flex_gas.Agent.Window.{u64}
use flex_gas.Links.Memory.{
  Memory, drop, length-drop, length-take, min, of_bytes, of_bytes-le_bytes, read_bytes-field,
  split_prefix, sub64, sub64_lem, take-drop, write_bytes, write_bytes-append,
}
use flex_gas.Links.Runs.{ret_err}
use flex_gas.Links.Shm.Completions.{all_received, shm_get_comp}
use flex_gas.Links.Shm.Delivery.{Queued-update, Receives, after_take, look_bdy, look_hdr}
use flex_gas.Links.Shm.State.{
  Process, Ptr, ShmRequest, hdr_length, recv_wait_bdy, recv_wait_hdr, shm_header, shm_header_size,
  shm_length_error, shm_success,
}
use flex_gas.Links.Sockets.{next_result, remaining, update}
use flex_gas.Prelude.{
  Bool-cases, List, [], ap, append_assoc, arith, false, if◌then◌else◌, inl, inr, length,
  length-append, refl, some, suc, sym, take, ℕ, ◌++◌, ◌+◌, ◌-◌, ◌<◌, ◌==◌, ◌∙◌, ◌≡◌, ◌≤◌,
}

pub length-shm_header : (r : ShmRequest) → length (shm_header r) ≡ shm_header_size
unfolding shm_header
length-shm_header r = refl

hdr_length-shm_header :
    (m : Memory) (r : ShmRequest)
    → r.length < u64
    → hdr_length (write_bytes m 0 (shm_header r)) ≡ r.length
unfolding hdr_length
hdr_length-shm_header m r fits =
    ap of_bytes (read_bytes-field m 0 16 8 (shm_header r) (rw (length-shm_header r) (omega arith)))
    ∙ unfold shm_header in of_bytes-le_bytes 8 r.length (omega arith)

module _ (p : Ptr) (fd id dst want : ℕ) (qs : List Ptr) (snd : ShmRequest) (msg : List ℕ)
    (before : Memory) where
  -- The bytes `got` of the message have been received; `before` is the memory at the start.
  pub data InFlight (h : Process) (got : List ℕ) : Type 0 where
    at_hdr :
        (r : ShmRequest)
        → Receives p fd id dst want qs r h
        → r.status ≡ recv_wait_hdr
        → r.acc_length ≡ 0
        → r.acc_buf_length ≡ length got
        → length got < shm_header_size
        → (old : Memory) × (r.hdrbuf ≡ write_bytes old 0 got)
        → h.mem ≡ before
        → InFlight h got
    at_bdy :
        (r : ShmRequest) (part : List ℕ)
        → Receives p fd id dst want qs r h
        → r.status ≡ recv_wait_bdy
        → hdr_length r.hdrbuf ≡ snd.length
        → got ≡ shm_header snd ++ part
        → r.acc_length ≡ length part
        → length part ≤ snd.length
        → h.mem ≡ write_bytes before dst part
        → InFlight h got

  -- The receive is done: the message stands at its address, nothing else of the memory has changed,
  -- and the status says whether its length is the one asked for.
  pub record Done (h : Process) : Type 0 where
    pub written : h.mem ≡ write_bytes before dst msg
    pub left : h.req_queue ≡ qs
    pub verdict :
        (r : ShmRequest) × (h.requests p ≡ some r)
        × (r.status ≡ (if snd.length == want then shm_success else shm_length_error))

  -- One look that takes bytes.
  pub record Took (h h' : Process) (got bs : List ℕ) : Type 0 where
    pub still : InFlight h' (got ++ bs)
    pub in_order : (h.sockets fd).inb ≡ bs ++ (h'.sockets fd).inb
    pub uses : (h'.sockets fd).recvs ≡ remaining (h.sockets fd).recvs
    pub shrinks : length (h'.sockets fd).inb < length (h.sockets fd).inb

  module _ (fits : snd.length < u64) (sized : length msg ≡ snd.length) (h : Process) (got : List ℕ)
      (stream : got ++ (h.sockets fd).inb ≡ shm_header snd ++ msg) (k : ℕ)
      (ready : next_result (h.sockets fd).recvs ≡ some (suc k)) where
    pub stream_on :
        (xs ys : List ℕ) → (h.sockets fd).inb ≡ xs ++ ys → (got ++ xs) ++ ys ≡ shm_header snd ++ msg
    stream_on xs ys e = append_assoc got xs ys ∙ ap (λ l. got ++ l) (sym e) ∙ stream

    pub hdr_look :
        (r : ShmRequest)
        → Receives p fd id dst want qs r h
        → r.status ≡ recv_wait_hdr
        → r.acc_length ≡ 0
        → r.acc_buf_length ≡ length got
        → length got < shm_header_size
        → (old : Memory) × (r.hdrbuf ≡ write_bytes old 0 got)
        → h.mem ≡ before
        → (h' : Process) × (bs : List ℕ) × (shm_get_comp p h ≡ some (ret_err, h'))
          × Took h h' got bs
    hdr_look r now at none_yet counted below (old, buffer) same =
        let len : ℕ = sub64 shm_header_size r.acc_buf_length in
        let inb : List ℕ = (h.sockets fd).inb in
        let n : ℕ = min (suc k) (min len (length inb)) in
        let bs : List ℕ = take n inb in
        let left : List ℕ = drop n inb in
        let some_in : 0 < length inb = omega (
          arith,
          ap length stream,
          length-append {0} got inb,
          length-append {0} (shm_header snd) msg,
          length-shm_header snd,
        ) in
        let exact : len ≡ shm_header_size - length got =
          ap (sub64 shm_header_size) counted
          ∙ sub64_lem shm_header_size (length got) (omega arith) (omega arith) in
        let taken_length : length bs ≡ n = length-take n inb (ground arith) in
        let nothing : all_received r ≡ false = unfold all_received in ground arith in
        let whole_buffer : write_bytes r.hdrbuf r.acc_buf_length bs
            ≡ write_bytes old 0 (got ++ bs) =
          ap (λ k. write_bytes r.hdrbuf k bs) counted
          ∙ ap (λ m. write_bytes m (length got) bs) buffer
          ∙ ap (λ k. write_bytes (write_bytes old 0 got) k bs) (omega arith)
          ∙ sym (write_bytes-append old 0 got bs) in
        let grown : length (got ++ bs) ≡ r.acc_buf_length + length bs =
          omega (arith, length-append {0} got bs) in
        let r1 : ShmRequest = record r {
          hdrbuf = write_bytes r.hdrbuf r.acc_buf_length bs;
          acc_buf_length = r.acc_buf_length + length bs;
          status =
              if (r.acc_buf_length + length bs) == shm_header_size
              then recv_wait_bdy
              else recv_wait_hdr;
        } in
        let h1 : Process = record (after_take fd (suc k) len h) {
          requests = update h.requests p (some r1);
        } in
        let now1 : Receives p fd id dst want qs r1 h1 = record {
          live = ground arith;
          is_recv = now.is_recv;
          known = now.known;
          at_dst = now.at_dst;
          wants = now.wants;
          named = now.named;
          queued = Queued-update p id qs r r1 h h1 now.live now.named refl refl now.queued;
          healthy = refl;
        } in
        (
          h1,
          bs,
          look_hdr p fd id dst want qs r h now nothing (ground arith) (suc k) ready bs at refl,
          record {
            still = elim (Bool-cases ((r.acc_buf_length + length bs) == shm_header_size)) [
              | inl whole ↦
                  let whole_header : got ++ bs ≡ shm_header snd =
                    (split_prefix (got ++ bs) left (shm_header snd) msg
                      (ground (arith, length-shm_header snd, grown))
                      (stream_on bs left (sym (take-drop n inb)))).0 in
                  at_bdy r1 [] now1 (ground arith)
                    (ap hdr_length (whole_buffer ∙ ap (write_bytes old 0) whole_header)
                      ∙ hdr_length-shm_header old snd fits)
                    (whole_header ∙ sym (append-nil (shm_header snd))) none_yet (omega arith)
                    (same ∙ unfold write_bytes in refl)
              | inr more ↦
                  at_hdr r1 now1 (ground arith) none_yet (sym grown) (ground (arith, grown))
                    (old, whole_buffer) same
            ];
            in_order = sym (take-drop n inb) ∙ ap (λ l. bs ++ l) (ground arith);
            uses = ground arith;
            shrinks = ground (arith, length-drop n inb);
          },
        )

    pub bdy_look :
        (r : ShmRequest) (part : List ℕ)
        → Receives p fd id dst want qs r h
        → r.status ≡ recv_wait_bdy
        → hdr_length r.hdrbuf ≡ snd.length
        → got ≡ shm_header snd ++ part
        → r.acc_length ≡ length part
        → length part < snd.length
        → h.mem ≡ write_bytes before dst part
        → (h' : Process) × (bs : List ℕ) × (shm_get_comp p h ≡ some (ret_err, h'))
          × Took h h' got bs
    bdy_look r part now at says got_now counted below same =
        let len : ℕ = sub64 (hdr_length r.hdrbuf) r.acc_length in
        let inb : List ℕ = (h.sockets fd).inb in
        let n : ℕ = min (suc k) (min len (length inb)) in
        let bs : List ℕ = take n inb in
        let left : List ℕ = drop n inb in
        let some_in : 0 < length inb = omega (
          arith,
          ap length stream,
          ap length got_now,
          length-append {0} got inb,
          length-append {0} (shm_header snd) msg,
          length-append {0} (shm_header snd) part,
        ) in
        let exact : len ≡ snd.length - length part =
          ap (λ l. sub64 l r.acc_length) says
          ∙ ap (sub64 snd.length) counted
          ∙ sub64_lem snd.length (length part) fits (omega arith) in
        let taken_length : length bs ≡ n = length-take n inb (ground arith) in
        let unfinished : all_received r ≡ false = unfold all_received in ground arith in
        let grown : length (part ++ bs) ≡ r.acc_length + length bs =
          omega (arith, length-append {0} part bs) in
        let at_place : write_bytes h.mem (r.addr + r.acc_length) bs
            ≡ write_bytes before dst (part ++ bs) =
          ap (λ a. write_bytes h.mem (a + r.acc_length) bs) now.at_dst
          ∙ ap (λ k. write_bytes h.mem (dst + k) bs) counted
          ∙ ap (λ m. write_bytes m (dst + length part) bs) same
          ∙ sym (write_bytes-append before dst part bs) in
        let r1 : ShmRequest = record r { acc_length = r.acc_length + length bs } in
        let h1 : Process = record (after_take fd (suc k) len h) {
          mem = write_bytes h.mem (r.addr + r.acc_length) bs;
          requests = update h.requests p (some r1);
        } in
        let now1 : Receives p fd id dst want qs r1 h1 = record {
          live = ground arith;
          is_recv = now.is_recv;
          known = now.known;
          at_dst = now.at_dst;
          wants = now.wants;
          named = now.named;
          queued = Queued-update p id qs r r1 h h1 now.live now.named refl refl now.queued;
          healthy = refl;
        } in
        (
          h1,
          bs,
          look_bdy p fd id dst want qs r h now unfinished (ground arith) (suc k) ready bs at refl,
          record {
            still =
                at_bdy r1 (part ++ bs) now1 at says
                  (ap (λ l. l ++ bs) got_now ∙ append_assoc (shm_header snd) part bs) (sym grown)
                  (ground (arith, grown)) at_place;
            in_order = sym (take-drop n inb) ∙ ap (λ l. bs ++ l) (ground arith);
            uses = ground arith;
            shrinks = ground (arith, length-drop n inb);
          },
        )
