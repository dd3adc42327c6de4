-- ===== src/Links/Shm/Completions.antt =====
-- The completion of requests in src/lm/lmshm_sendrecv.cpp.
use flex_gas.Links.Runs.{Ret, get, pure, put, ret_err, ret_ok, ◌>>=◌, ◌>>◌}
use flex_gas.Links.Shm.State.{
  M, Process, Ptr, ShmRequest, ShmRequestStatus, hdr_length, load_request, shm_fail,
  shm_length_error, shm_recv, shm_send, shm_success, store_request,
}
use flex_gas.Links.Shm.Transfers.{remove_req_queue_entry, shm_submit_recv}
use flex_gas.Links.Sockets.{update}
use flex_gas.Prelude.{
  Bool, List, Option, [], false, if◌then◌else◌, ltb, none, some, suc, true, zero, ℕ, ◌&&◌, ◌==◌,
  ◌∷◌,
}

-- The status of a receive whose data are all there.
unfoldable pub recv_status : ShmRequest → ShmRequestStatus
recv_status r = if hdr_length r.hdrbuf == r.length then shm_success else shm_length_error

-- A message without data never counts as received.
unfoldable pub all_received : ShmRequest → Bool
all_received r =
    (r.acc_length == hdr_length r.hdrbuf) && (ltb 0 r.acc_length && ltb 0 (hdr_length r.hdrbuf))

abbrev finish : Ptr → ShmRequest → ShmRequestStatus → M Ret
finish p r s = do store_request p (record r { status = s }); remove_req_queue_entry p; pure ret_ok

-- The result is -1 while the request is under way.
unfoldable pub shm_get_comp : Ptr → M Ret
unfolding remove_req_queue_entry recv_status all_received shm_submit_recv
shm_get_comp p = do
  r ← load_request p
  elim r.type [
    | shm_send ↦ finish p r (if r.acc_length == r.length then shm_success else shm_fail)
    | shm_recv ↦ elim (all_received r) [
      | true ↦ finish p r (recv_status r)
      | false ↦ do
        rc ← shm_submit_recv p
        s ← load_request p
        elim rc [ ret_err ↦ finish p s shm_fail | ret_ok ↦ pure ret_err ]
    ]
  ]

-- The request with an identifier in the queue.
unfoldable pub find_request : ℕ → List Ptr → M (Option Ptr)
find_request id [] h = pure none h
find_request id (p ∷ ps) h = elim (h.requests p) [
  | none ↦ none
  | some r ↦ elim (r.req_id == id) [ true ↦ pure (some p) h | false ↦ find_request id ps h ]
]

-- The second value is what is stored through `comp`, if anything.
unfoldable pub lm_shm_get_comp : ℕ → M (Ret × Option Ptr)
unfolding find_request shm_get_comp
lm_shm_get_comp id = do
  h ← get
  found ← find_request id h.req_queue
  elim found [ none ↦ pure (ret_err, none) | some p ↦ do rc ← shm_get_comp p; pure (rc, some p) ]

-- The loop of lmShmWaitComp: `others` is what happens between two looks. The result is `none` while
-- the wait lasts.
unfoldable pub shm_wait_loop : (Process → Process) → ℕ → Ptr → M (Option Ret)
unfolding shm_get_comp
shm_wait_loop others zero p = pure none
shm_wait_loop others (suc rounds) p = do
  rc ← shm_get_comp p
  elim rc [
    | ret_ok ↦ pure (some ret_ok)
    | ret_err ↦ do h ← get; put (others h); shm_wait_loop others rounds p
  ]

-- The source stores nothing through `comp`.
unfoldable pub lm_shm_wait_comp : (Process → Process) → (rounds id : ℕ) → M (Option Ret)
unfolding find_request shm_wait_loop
lm_shm_wait_comp others rounds id = do
  h ← get
  found ← find_request id h.req_queue
  elim found [ none ↦ pure (some ret_err) | some p ↦ shm_wait_loop others rounds p ]

unfoldable pub lm_shm_release_comp : Ptr → M Ret
lm_shm_release_comp p h = pure ret_ok (record h { requests = update h.requests p none })
