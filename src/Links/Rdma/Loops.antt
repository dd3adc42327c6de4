-- ===== src/Links/Rdma/Loops.antt =====
-- The two loops of src/lm/lmib_sendrecv.cpp over a socket.
use flex_gas.Links.Memory.{
  Memory, drop, length-read_bytes, length-take, min, read_bytes, split_prefix, sub64, sub64_lem,
  take-drop, write_bytes, write_bytes-append,
}
use flex_gas.Links.Rdma.{Rdma, below_int, lm_rdma_send_unbuffered, recv_loop, send_loop}
use flex_gas.Links.Runs.{ret_ok}
use flex_gas.Links.Sockets.{Ready, next_result, remaining}
use flex_gas.Prelude.{
  Bool-cases, List, ap, append_assoc, arith, if◌then◌else◌, inl, inr, length, length-append, ltb,
  none, refl, some, subst, suc, sym, take, true, zero, ℕ, ◌++◌, ◌+◌, ◌-◌, ◌<◌, ◌∙◌, ◌≡◌, ◌≤◌,
}

send_step :
    (rounds addr len n k : ℕ) (h : Rdma)
    → next_result h.socket.sends ≡ some k
    → send_loop (suc rounds) addr len n h ≡ (
        let m = min k (length (read_bytes h.mem (addr + n) (sub64 len n))) in
        let h' = record h {
          socket = record (h.socket) {
            sends = remaining h.socket.sends;
            out = h.socket.out ++ take m (read_bytes h.mem (addr + n) (sub64 len n));
          };
        } in
        if below_int m len then send_loop rounds addr len (n + m) h' else some (some ret_ok, h'))
unfolding send_loop
send_step rounds addr len n k h ready = ground arith

below_int_lem : (n len : ℕ) → len < 0x80000000 → below_int n len ≡ ltb n len
unfolding below_int
below_int_lem n len small = ground arith

-- With a part sent, no call sends as much as the whole.
goes_on_sending :
    (rounds addr len n : ℕ) (h : Rdma)
    → 0 < n
    → n ≤ len
    → len < 0x80000000
    → Ready rounds h.socket.sends
    → (h' : Rdma) × (send_loop rounds addr len n h ≡ some (none, h'))
goes_on_sending zero addr len n h some_sent within small ready = (h, unfold send_loop in refl)
goes_on_sending (suc rounds) addr len n h some_sent within small ready =
    let buf : List ℕ = read_bytes h.mem (addr + n) (sub64 len n) in
    let m : ℕ = min (suc ready.0.0) (length buf) in
    let size : length buf ≡ len - n =
      length-read_bytes h.mem (addr + n) (sub64 len n) ∙ sub64_lem len n (omega arith) within in
    let less : below_int m len ≡ true = below_int_lem m len small ∙ ground arith in
    let h1 : Rdma = record h {
      socket = record (h.socket) {
        sends = remaining h.socket.sends;
        out = h.socket.out ++ take m buf;
      };
    } in
    let (h2, ran) =
      goes_on_sending rounds addr len (n + m) h1 (omega arith) (ground arith) small ready.1 in
    (h2, send_step rounds addr len n (suc ready.0.0) h ready.0.1 ∙ rw less ran)

active_send :
    (rounds addr len : ℕ) (h : Rdma)
    → h.is_active ≡ true
    → lm_rdma_send_unbuffered rounds addr len h ≡ send_loop rounds addr len 0 h
unfolding lm_rdma_send_unbuffered
active_send rounds addr len h up = ground arith

-- A blocking send of less than 2 ^ 31 bytes over the RDMA link, on an active context, whose first
-- call of send takes a part of the data, but not all, never ends while the later calls take what
-- they are given: for every number of rounds the loop still runs, also when all the data have long
-- been sent.
pub partial_send_hangs :
    (rounds addr len k : ℕ) (h : Rdma)
    → h.is_active ≡ true
    → next_result h.socket.sends ≡ some k
    → 0 < k
    → k < len
    → len < 0x80000000
    → Ready rounds (remaining h.socket.sends)
    → (h' : Rdma) × (lm_rdma_send_unbuffered (suc rounds) addr len h ≡ some (none, h'))
partial_send_hangs rounds addr len k h up first some_sent part small ready =
    let buf : List ℕ = read_bytes h.mem (addr + 0) (sub64 len 0) in
    let m : ℕ = min k (length buf) in
    let size : length buf ≡ len =
      omega (arith, length-read_bytes h.mem (addr + 0) (sub64 len 0), sub64_lem len 0) in
    let less : below_int m len ≡ true = below_int_lem m len small ∙ ground arith in
    let h1 : Rdma = record h {
      socket = record (h.socket) {
        sends = remaining h.socket.sends;
        out = h.socket.out ++ take m buf;
      };
    } in
    let (h2, ran) =
      goes_on_sending rounds addr len (0 + m) h1 (ground arith) (ground arith) small ready in
    (
      h2,
      active_send (suc rounds) addr len h up ∙ send_step rounds addr len 0 k h first ∙ rw less ran,
    )

recv_step :
    (rounds addr len n k : ℕ) (h : Rdma) (bs : List ℕ)
    → next_result h.socket.recvs ≡ some k
    → take (min k (min (sub64 len n) (length h.socket.inb))) h.socket.inb ≡ bs
    → recv_loop (suc rounds) addr len n h ≡ (
        let h' = record h {
          mem = write_bytes h.mem (addr + n) bs;
          socket = record (h.socket) {
            recvs = remaining h.socket.recvs;
            inb = drop (min k (min (sub64 len n) (length h.socket.inb))) h.socket.inb;
          };
        } in
        if below_int (n + length bs) len
        then recv_loop rounds addr len (n + length bs) h'
        else some (some ret_ok, h'))
unfolding recv_loop
recv_step rounds addr len n k h bs ready its = ground arith

-- A blocking receive of less than 2 ^ 31 bytes whose data have arrived ends within one call for
-- each byte that is missing, if each call takes something: the data stand at the address, nothing
-- else of the memory has changed, and what follows them is still in the socket.
pub recv_loop_ends :
    (rounds addr : ℕ) (msg after part : List ℕ) (before : Memory) (h : Rdma)
    → length msg < 0x80000000
    → part ++ h.socket.inb ≡ msg ++ after
    → length part < length msg
    → h.mem ≡ write_bytes before addr part
    → length msg ≤ length part + rounds
    → Ready rounds h.socket.recvs
    → (h' : Rdma) × (recv_loop rounds addr (length msg) (length part) h ≡ some (some ret_ok, h'))
      × (h'.mem ≡ write_bytes before addr msg)
      × (h'.socket.inb ≡ after)
recv_loop_ends zero addr msg after part before h small stream less same enough ready =
    absurd (omega arith)
recv_loop_ends (suc rounds) addr msg after part before h small stream less same enough ready =
    let len : ℕ = length msg in
    let inb : List ℕ = h.socket.inb in
    let k : ℕ = ready.0.0 in
    let m : ℕ = min (suc k) (min (sub64 len (length part)) (length inb)) in
    let bs : List ℕ = take m inb in
    let left : List ℕ = drop m inb in
    let exact : sub64 len (length part) ≡ len - length part =
      sub64_lem len (length part) (omega arith) (omega arith) in
    let enough_in : len - length part ≤ length inb =
      omega (arith, ap length stream, length-append {0} part inb, length-append {0} msg after) in
    let taken_length : length bs ≡ m = length-take m inb (ground arith) in
    let grown : length (part ++ bs) ≡ length part + length bs = length-append part bs in
    let stream1 : (part ++ bs) ++ left ≡ msg ++ after =
      append_assoc part bs left ∙ ap (λ l. part ++ l) (take-drop m inb) ∙ stream in
    let same1 : write_bytes h.mem (addr + length part) bs ≡ write_bytes before addr (part ++ bs) =
      ap (λ x. write_bytes x (addr + length part) bs) same
      ∙ sym (write_bytes-append before addr part bs) in
    let h1 : Rdma = record h {
      mem = write_bytes h.mem (addr + length part) bs;
      socket = record (h.socket) { recvs = remaining h.socket.recvs; inb = left };
    } in
    let step = recv_step rounds addr len (length part) (suc k) h bs ready.0.1 refl in
    let test = below_int_lem (length part + length bs) len small in
    elim (Bool-cases (ltb (length part + length bs) len)) [
      | inl more ↦
          let (h2, ran, there, rest_in) =
            recv_loop_ends rounds addr msg after (part ++ bs) before h1 small stream1
              (ground (arith, grown)) same1 (ground (arith, grown)) ready.1 in
          (
            h2,
            step
                ∙ rw (test ∙ more) (
                    subst (λ n. recv_loop rounds addr len n h1 ≡ some (some ret_ok, h2)) grown ran),
            there,
            rest_in,
          )
      | inr whole ↦
          let (is_msg, is_after) =
            split_prefix (part ++ bs) left msg after (ground (arith, grown)) stream1 in
          (h1, step ∙ rw (test ∙ whole) refl, same1 ∙ ap (write_bytes before addr) is_msg, is_after)
    ]
