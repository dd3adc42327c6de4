-- ===== src/Links/Shm/Failures.antt =====
-- What the waits of src/lm/lmshm_sendrecv.cpp make of a message without data and of a failure.
use flex_gas.Links.Runs.{ret_err, ret_ok}
use flex_gas.Links.Shm.Calls.{pending_bytes, shm_sock_recv}
use flex_gas.Links.Shm.Completions.{all_received, shm_get_comp, shm_wait_loop}
use flex_gas.Links.Shm.Delivery.{Queued-remove, Queued-update, Receives}
use flex_gas.Links.Shm.State.{
  Process, Ptr, ShmRequest, hdr_length, recv_wait_bdy, recv_wait_hdr, shm_fail,
}
use flex_gas.Links.Shm.Transfers.{
  recv_bdy, recv_hdr, recv_piece, remove_entry, remove_req_queue_entry, shm_submit_recv,
}
use flex_gas.Links.Sockets.{next_result, remaining, update}
use flex_gas.Prelude.{
  List, [], ap, arith, false, length, none, refl, some, suc, sym, zero, ℕ, ◌<◌, ◌∙◌, ◌≡◌, ◌⊎◌,
}

module _ (p : Ptr) (fd id dst want : ℕ) (qs : List Ptr) (r : ShmRequest) (h : Process)
    (now : Receives p fd id dst want qs r h) where
  empty_look :
      hdr_length r.hdrbuf ≡ 0
      → (h.sockets fd).inb ≡ []
      → shm_get_comp p h ≡ some (ret_err, record h { ioctls = [] })
  unfolding shm_get_comp shm_submit_recv pending_bytes all_received
  empty_look none_said dry = ground arith

  -- Where a receive has the whole header of a message without data, and no more bytes have arrived,
  -- a wait for it does not end, however often it looks, and changes nothing.
  pub empty_message_waits :
      (n : ℕ)
      → hdr_length r.hdrbuf ≡ 0
      → (h.sockets fd).inb ≡ []
      → shm_wait_loop (λ h. h) n p h ≡ some (none, h)
  unfolding shm_wait_loop
  empty_message_waits zero none_said dry = refl
  empty_message_waits (suc n) none_said dry =
      rw
        (empty_look none_said dry
          ∙ ap (λ l. some (ret_err, record h { ioctls = l })) (sym now.healthy))
        (empty_message_waits n none_said dry)

  -- Where recv fails on a receive that is not complete, the status of the request says so, but the
  -- wait ends with success.
  pub failed_receive_unseen :
      (others : Process → Process) (n : ℕ)
      → all_received r ≡ false
      → (r.status ≡ recv_wait_hdr) ⊎ (r.status ≡ recv_wait_bdy)
      → 0 < length (h.sockets fd).inb
      → next_result (h.sockets fd).recvs ≡ none
      → (h' : Process) × (shm_wait_loop others (suc n) p h ≡ some (some ret_ok, h'))
        × (h'.requests p ≡ some (record r { status = shm_fail }))
        × (h'.req_queue ≡ qs)
        × (h'.mem ≡ h.mem)
  unfolding shm_wait_loop shm_get_comp shm_submit_recv pending_bytes recv_piece recv_hdr recv_bdy
      shm_sock_recv remove_req_queue_entry
  failed_receive_unseen others n part at some_in broken =
      let r1 : ShmRequest = record r { status = shm_fail } in
      let h1 : Process = record h {
        ioctls = [];
        requests = update h.requests p (some r1);
        sockets =
            update h.sockets fd (record (h.sockets fd) { recvs = remaining (h.sockets fd).recvs });
      } in
      let gone : remove_entry id h1.req_queue h1 ≡ some (qs, h1) =
        Queued-remove p id qs r1 h1 (ground arith) now.named
          (Queued-update p id qs r r1 h h1 now.live now.named refl refl now.queued) in
      (record h1 { req_queue = qs }, ground arith, ground arith, ground arith, ground arith)
