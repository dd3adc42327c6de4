-- ===== src/Links/Shm/Waiting.antt =====
-- A wait of src/lm/lmshm_sendrecv.cpp for a message that arrives in pieces of any size.
use mathlib.Core.List.{append-nil}
use flex_gas.Agent.Window.{u64}
use flex_gas.Links.Memory.{Memory, split_prefix, write_bytes}
use flex_gas.Links.Runs.{Ret, ret_err, ret_ok}
use flex_gas.Links.Shm.Completions.{all_received, recv_status, shm_get_comp, shm_wait_loop}
use flex_gas.Links.Shm.Delivery.{Receives, look_done}
use flex_gas.Links.Shm.Pieces.{Done, InFlight, at_bdy, at_hdr, bdy_look, hdr_look}
use flex_gas.Links.Shm.State.{Process, Ptr, ShmRequest, hdr_length, shm_header}
use flex_gas.Links.Sockets.{Ready, update}
use flex_gas.Prelude.{
  Bool-cases, List, Option, [], ap, append_assoc, arith, inl, inr, length, ltb, refl, some, subst,
  suc, sym, true, zero, ℕ, ◌++◌, ◌<◌, ◌∙◌, ◌≡◌,
}

module _ (p : Ptr) (fd id dst want : ℕ) (qs : List Ptr) (snd : ShmRequest) (msg : List ℕ)
    (before : Memory) where
  -- Behind the header, what has come is a start of the message.
  rest_of_message :
      (got part later : List ℕ)
      → got ≡ shm_header snd ++ part
      → got ++ later ≡ shm_header snd ++ msg
      → part ++ later ≡ msg
  rest_of_message got part later e stream =
      (split_prefix (shm_header snd) (part ++ later) (shm_header snd) msg refl
        (sym (append_assoc (shm_header snd) part later) ∙ ap (λ l. l ++ later) (sym e) ∙ stream)).1

  -- The look that finds all the data.
  last_look :
      (h : Process) (got part : List ℕ) (r : ShmRequest)
      → length msg ≡ snd.length
      → 0 < length msg
      → got ++ (h.sockets fd).inb ≡ shm_header snd ++ msg
      → Receives p fd id dst want qs r h
      → hdr_length r.hdrbuf ≡ snd.length
      → got ≡ shm_header snd ++ part
      → r.acc_length ≡ length part
      → length part ≡ snd.length
      → h.mem ≡ write_bytes before dst part
      → (h' : Process) × (shm_get_comp p h ≡ some (ret_ok, h'))
        × Done p fd id dst want qs snd msg before h'
  last_look h got part r sized some_data stream now says got_now counted whole same =
      let all_there : all_received r ≡ true = unfold all_received in ground arith in
      let is_message : part ≡ msg =
        (split_prefix part (h.sockets fd).inb msg [] (omega arith)
          (rest_of_message got part (h.sockets fd).inb got_now stream ∙ sym (append-nil msg))).0 in
      (
        record h {
          requests = update h.requests p (some (record r { status = recv_status r }));
          req_queue = qs;
        },
        look_done p fd id dst want qs r h now all_there,
        record {
          written = same ∙ ap (write_bytes before dst) is_message;
          left = refl;
          verdict = (
            record r { status = recv_status r },
            ground arith,
            unfold recv_status in ground (arith, now.wants),
          );
        },
      )

shm_wait_loop-err :
    (n : ℕ) (p : Ptr) (h h1 : Process) {x : Option Ret × Process}
    → shm_get_comp p h ≡ some (ret_err, h1)
    → shm_wait_loop (λ h. h) n p h1 ≡ some x
    → shm_wait_loop (λ h. h) (suc n) p h ≡ some x
unfolding shm_wait_loop
shm_wait_loop-err n p h h1 ran more = rw ran more

shm_wait_loop-ok :
    (n : ℕ) (p : Ptr) (h h1 : Process)
    → shm_get_comp p h ≡ some (ret_ok, h1)
    → shm_wait_loop (λ h. h) (suc n) p h ≡ some (some ret_ok, h1)
unfolding shm_wait_loop
shm_wait_loop-ok n p h h1 ran = rw ran refl

-- A wait for a receive that stands anywhere in the queue of requests, behind others with other
-- identifiers, whose message, with some data in it, has arrived as the last one on its socket. It
-- ends within one look for each byte that is still in the socket, and one more, where each call of
-- recv moves something, no call of ioctl fails, and nothing else changes the process between the
-- looks. The message then stands at the address of the receive, and nothing else of the memory has
-- changed; the request alone has left the queue, with the status success if the message has the
-- length that was asked for, and else LengthError.
pub wait_receives :
    (n : ℕ) (p : Ptr) (fd id dst want : ℕ) (qs : List Ptr) (snd : ShmRequest) (msg : List ℕ)
    (before : Memory) (h : Process) (got : List ℕ)
    → snd.length < u64
    → length msg ≡ snd.length
    → 0 < length msg
    → InFlight p fd id dst want qs snd msg before h got
    → got ++ (h.sockets fd).inb ≡ shm_header snd ++ msg
    → length (h.sockets fd).inb < n
    → Ready n (h.sockets fd).recvs
    → (h' : Process) × (shm_wait_loop (λ h. h) n p h ≡ some (some ret_ok, h'))
      × Done p fd id dst want qs snd msg before h'
wait_receives zero p fd id dst want qs snd msg before h got fits sized some_data now stream enough
      ready =
    absurd (omega arith)
wait_receives (suc n) p fd id dst want qs snd msg before h got fits sized some_data
      (at_hdr r now at none_yet counted below old same) stream enough ready =
    let (h1, bs, ran, took) =
      hdr_look p fd id dst want qs snd msg before fits sized h got stream ready.0.0 ready.0.1 r now
        at none_yet counted below old same in
    let stream1 : (got ++ bs) ++ (h1.sockets fd).inb ≡ shm_header snd ++ msg =
      append_assoc got bs (h1.sockets fd).inb ∙ ap (λ l. got ++ l) (sym took.in_order) ∙ stream in
    let (h2, ran2, end) =
      wait_receives n p fd id dst want qs snd msg before h1 (got ++ bs) fits sized some_data
        took.still stream1 (omega (arith, took.shrinks))
        (subst (Ready n) (sym took.uses) ready.1) in
    (h2, shm_wait_loop-err n p h h1 ran ran2, end)
wait_receives (suc n) p fd id dst want qs snd msg before h got fits sized some_data
      (at_bdy r part now at says got_now counted below same) stream enough ready =
    elim (Bool-cases (ltb (length part) snd.length)) [
      | inl more ↦
          let (h1, bs, ran, took) =
            bdy_look p fd id dst want qs snd msg before fits sized h got stream ready.0.0 ready.0.1
              r part now at says got_now counted (ground arith) same in
          let stream1 : (got ++ bs) ++ (h1.sockets fd).inb ≡ shm_header snd ++ msg =
            append_assoc got bs (h1.sockets fd).inb
            ∙ ap (λ l. got ++ l) (sym took.in_order)
            ∙ stream in
          let (h2, ran2, end) =
            wait_receives n p fd id dst want qs snd msg before h1 (got ++ bs) fits sized some_data
              took.still stream1 (omega (arith, took.shrinks))
              (subst (Ready n) (sym took.uses) ready.1) in
          (h2, shm_wait_loop-err n p h h1 ran ran2, end)
      | inr whole ↦
          let (h1, ran, end) =
            last_look p fd id dst want qs snd msg before h got part r sized some_data stream now
              says got_now counted (ground arith) same in
          (h1, shm_wait_loop-ok n p h h1 ran, end)
    ]
