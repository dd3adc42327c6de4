-- ===== src/Links/Shm/Transfers.antt =====
-- The calls of src/lm/lmshm_sendrecv.cpp.
use flex_gas.Agent.Window.{u64}
use flex_gas.Links.Memory.{read_bytes, sub64, write_bytes}
use flex_gas.Links.Runs.{Ret, get, pure, put, ret_err, ret_ok, ◌>>=◌, ◌>>◌}
use flex_gas.Links.Shm.Calls.{pending_bytes, shm_sock_recv, shm_sock_send}
use flex_gas.Links.Shm.State.{
  M, Ptr, ShmRequest, ShmRequestStatus, fd_of, hdr_length, load_request, recv_wait_bdy,
  recv_wait_hdr, shm_fail, shm_header, shm_header_size, shm_length_error, shm_pending, shm_recv,
  shm_send, shm_success, store_request, test_z,
}
use flex_gas.Prelude.{
  List, Option, [], false, if◌then◌else◌, length, ltb, none, some, true, ℕ, ◌++◌, ◌+◌, ◌-◌, ◌==◌,
  ◌∷◌,
}

-- RemoveReqQueueEntry takes the first entry with the identifier; without one the source erases the
-- end of the vector, which is a fault.
unfoldable pub remove_entry : ℕ → List Ptr → M (List Ptr)
remove_entry id [] h = none
remove_entry id (p ∷ ps) h = elim (h.requests p) [
  | none ↦ none
  | some r ↦ elim (r.req_id == id) [
    | true ↦ pure ps h
    | false ↦ (do rest ← remove_entry id ps; pure (p ∷ rest)) h
  ]
]

unfoldable pub remove_req_queue_entry : Ptr → M (Unit {0})
unfolding remove_entry
remove_req_queue_entry p = do
  r ← load_request p
  h ← get
  q ← remove_entry r.req_id h.req_queue
  h' ← get
  put (record h' { req_queue = q })

-- What a count from a call is in a size_t.
abbrev as_size : Option ℕ → ℕ
as_size none = u64 - 1
as_size (some n) = n

-- The header, then the data; a call that moves less ends it.
unfoldable pub shm_submit_send : Ptr → M Ret
shm_submit_send p = do
  r ← load_request p
  fd ← fd_of r
  n ← shm_sock_send fd (shm_header r)
  store_request p
      (record r { hdrbuf = write_bytes r.hdrbuf 0 (shm_header r); acc_buf_length = as_size n })
  elim (as_size n == shm_header_size) [
    | false ↦ pure ret_err
    | true ↦ do
      h ← get
      k ← shm_sock_send fd (read_bytes h.mem r.addr r.length)
      s ← load_request p
      store_request p (record s { acc_length = as_size k })
      pure (if as_size k == r.length then ret_ok else ret_err)
  ]

-- A piece of the header.
unfoldable pub recv_hdr : Ptr → ShmRequest → ℕ → M Ret
recv_hdr p r fd = do
  got ← shm_sock_recv fd (sub64 shm_header_size r.acc_buf_length)
  elim got [
    | none ↦ pure ret_err
    | some bs ↦ do
      let n = r.acc_buf_length + length bs
      store_request p (record r {
        hdrbuf = write_bytes r.hdrbuf r.acc_buf_length bs;
        acc_buf_length = n;
        status = if n == shm_header_size then recv_wait_bdy else r.status;
      })
      pure ret_ok
  ]

-- A piece of the data.
unfoldable pub recv_bdy : Ptr → ShmRequest → ℕ → M Ret
recv_bdy p r fd = do
  got ← shm_sock_recv fd (sub64 (hdr_length r.hdrbuf) r.acc_length)
  elim got [
    | none ↦ pure ret_err
    | some bs ↦ do
      h ← get
      put (record h { mem = write_bytes h.mem (r.addr + r.acc_length) bs })
      store_request p (record r { acc_length = r.acc_length + length bs })
      pure ret_ok
  ]

unfoldable pub recv_piece : Ptr → ShmRequest → ℕ → M Ret
unfolding recv_hdr recv_bdy
recv_piece p r fd = elim r.status [
  | shm_pending ↦ pure ret_err
  | recv_wait_hdr ↦ recv_hdr p r fd
  | recv_wait_bdy ↦ recv_bdy p r fd
  | shm_success ↦ pure ret_err
  | shm_fail ↦ pure ret_err
  | shm_length_error ↦ pure ret_err
]

-- Without bytes the source sleeps, and succeeds.
unfoldable pub shm_submit_recv : Ptr → M Ret
unfolding pending_bytes recv_piece
shm_submit_recv p = do
  r ← load_request p
  fd ← fd_of r
  len ← pending_bytes fd
  elim len [
    | none ↦ pure ret_err
    | some n ↦ elim (ltb 0 n) [ true ↦ recv_piece p r fd | false ↦ pure ret_ok ]
  ]

abbrev queue_request : Ptr → M Ret
queue_request p h = pure ret_ok (record h { req_queue = h.req_queue ++ p ∷ [] })

abbrev prepared : ShmRequest → ShmRequestStatus → ShmRequest
prepared r s = record r { status = s; hdrbuf = λ _. 0; acc_buf_length = 0 }

unfoldable pub shm_submit_request : Ptr → M Ret
unfolding shm_submit_send shm_submit_recv
shm_submit_request p = do
  r ← load_request p
  elim r.type [
    | shm_send ↦ do
      store_request p (prepared r shm_pending)
      test_z (shm_submit_send p) (queue_request p)
    | shm_recv ↦ do
      store_request p (prepared r recv_wait_hdr)
      test_z (shm_submit_recv p) (queue_request p)
  ]
