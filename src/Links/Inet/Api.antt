-- ===== src/Links/Inet/Api.antt =====
-- The calls of src/lm/lminet_sendrecv.cpp.
pub mod Completion
pub mod Lost
use flex_gas.Links.Inet.Host.{Host, M, delete_request, load_request}
use flex_gas.Links.Inet.Queues.{pop_head, push_tail, submit_request}
use flex_gas.Links.Inet.Types.{
  InetRequest, InetRequestType, Ptr, pending, recv, rem_rd, rem_wr, send, status_code, success,
  type_code,
}
use flex_gas.Links.Runs.{Ret, deref, get, pure, put, ret_err, ret_ok, ◌>>=◌, ◌>>◌}
use flex_gas.Links.Sockets.{update}
use flex_gas.Prelude.{
  Bool, List, Option, false, if◌then◌else◌, length, none, not, some, suc, true, zero, ℕ, ◌&&◌, ◌+◌,
  ◌==◌,
}

-- How a wait for a completion ends: with a return code and what it stores through `comp`, or not at
-- all within the rounds that are watched.
pub data Wait : Type 0 where
  returned : Ret → Option Ptr → Wait
  waiting : Wait

-- The tests at the head of the calls that post a request.
unfoldable pub checked : Option Ptr → (Ptr → M Ret) → M Ret
checked context k h =
    if not h.is_initialized
    then pure ret_err h
    else elim context [ none ↦ pure ret_err h | some c ↦ k c h ]

abbrev new_request : InetRequest → M Ptr
new_request r h =
    pure h.fresh (record h { requests = update h.requests h.fresh (some r); fresh = h.fresh + 1 })

abbrev post : InetRequest → M Ret
post r = do p ← new_request r; _ ← submit_request (some p); pure ret_ok

unfoldable pub lm_inet_send_async : Option Ptr → (req_id addr length : ℕ) → M Ret
unfolding checked submit_request
lm_inet_send_async context req_id addr length = checked context (λ c. post (record {
  req_id = req_id;
  context = c;
  type = send;
  status = pending;
  addr = addr;
  rem_addr = 0;
  length = length;
}))

unfoldable pub lm_inet_recv_async : Option Ptr → (req_id addr length : ℕ) → M Ret
unfolding checked submit_request
lm_inet_recv_async context req_id addr length = checked context (λ c. post (record {
  req_id = req_id;
  context = c;
  type = recv;
  status = pending;
  addr = addr;
  rem_addr = 0;
  length = length;
}))

unfoldable pub lm_inet_remote_write_async : Option Ptr → (req_id addr rem_addr length : ℕ) → M Ret
unfolding checked submit_request
lm_inet_remote_write_async context req_id addr rem_addr length = checked context (λ c.
    post (record {
      req_id = req_id;
      context = c;
      type = rem_wr;
      status = pending;
      addr = addr;
      rem_addr = rem_addr;
      length = length;
    }))

unfoldable pub lm_inet_remote_read_async : Option Ptr → (req_id addr rem_addr length : ℕ) → M Ret
unfolding checked submit_request
lm_inet_remote_read_async context req_id addr rem_addr length = checked context (λ c. post (record {
  req_id = req_id;
  context = c;
  type = rem_rd;
  status = pending;
  addr = addr;
  rem_addr = rem_addr;
  length = length;
}))

unfoldable pub lm_inet_register_memory : (context : Ptr) (addr length : ℕ) → M (Ret × Option Ptr)
lm_inet_register_memory context addr length h =
    if not h.is_initialized
    then pure (ret_err, none) h
    else pure (ret_ok, some h.fresh)
        (record h {
          regions =
              update h.regions h.fresh
                (some (record { context = context; addr = addr; length = length }));
          fresh = h.fresh + 1;
        })

-- Takes the head of the completion queue where it belongs to this request, else puts it behind the
-- others.
unfoldable pub take_comp : ℕ → Ptr → List Ptr → M (Option Ptr)
unfolding push_tail
take_comp req_id p ps h = elim (h.requests p) [
  | none ↦ none
  | some r ↦
      if r.req_id == req_id
      then pure (some p) (record h { comp_queue = ps })
      else pure none (record h { comp_queue = push_tail p ps })
]

-- With an empty queue the call succeeds and leaves `comp` as it was.
unfoldable pub lm_inet_get_comp : ℕ → M (Ret × Option Ptr)
unfolding pop_head take_comp
lm_inet_get_comp req_id h =
    if not h.is_initialized then pure (ret_err, none) h else elim (pop_head h.comp_queue) [
      | none ↦ pure (ret_ok, none) h
      | some (p, ps) ↦
          (do
            found ← take_comp req_id p ps
            pure (elim found [ none ↦ (ret_err, none) | some q ↦ (ret_ok, some q) ]))
            h
    ]

-- One look of lmInetWaitComp.
unfoldable pub look_comp : ℕ → M (Option Ptr)
unfolding pop_head take_comp
look_comp req_id h = elim (pop_head h.comp_queue) [
  | none ↦ pure none h
  | some (p, ps) ↦ take_comp req_id p ps h
]

-- The loop of lmInetWaitComp; `others` is what the handler does between two looks.
unfoldable pub wait_loop : (Host → Host) → (rounds req_id : ℕ) → M Wait
unfolding look_comp
wait_loop others zero req_id = pure waiting
wait_loop others (suc rounds) req_id = do
  found ← look_comp req_id
  elim found [
    | some p ↦ pure (returned ret_ok (some p))
    | none ↦ do h ← get; put (others h); wait_loop others rounds req_id
  ]

unfoldable pub lm_inet_wait_comp : (Host → Host) → (rounds req_id : ℕ) → M Wait
unfolding wait_loop
lm_inet_wait_comp others rounds req_id h =
    if not h.is_initialized
    then pure (returned ret_err none) h
    else wait_loop others rounds req_id h

unfoldable pub lm_inet_release_comp : Ptr → M Ret
lm_inet_release_comp p h =
    if not h.is_initialized then pure ret_err h else (do delete_request p; pure ret_ok) h

unfoldable pub is_done : InetRequestType → InetRequest → Bool
unfolding type_code status_code
is_done type r = type_code r.type == type_code type && status_code r.status == status_code success

-- The second half of the blocking calls: the wait, the tests on the completion, its release. The
-- result is `none` while the wait lasts.
unfoldable pub await_comp : (Host → Host) → (rounds req_id : ℕ) → InetRequestType → M (Option Ret)
unfolding lm_inet_wait_comp lm_inet_release_comp is_done
await_comp others rounds req_id type = do
  end ← lm_inet_wait_comp others rounds req_id
  elim end [
    | waiting ↦ pure none
    | returned ret_err _ ↦ pure (some ret_err)
    | returned ret_ok comp ↦ do
      p ← deref comp
      r ← load_request p
      elim (is_done type r) [
        | false ↦ pure (some ret_err)
        | true ↦ do rc ← lm_inet_release_comp p; pure (some rc)
      ]
  ]

-- `if (rc != 0) return -1;` behind the post.
abbrev on_posted : Ret → M (Option Ret) → M (Option Ret)
on_posted ret_ok k = k
on_posted ret_err k = pure (some ret_err)

unfoldable pub lm_inet_send :
    (Host → Host) → ℕ → Option Ptr → (req_id addr length : ℕ) → M (Option Ret)
unfolding lm_inet_send_async await_comp
lm_inet_send others rounds context req_id addr length = do
  rc ← lm_inet_send_async context req_id addr length
  h ← get
  put (others h)
  on_posted rc (await_comp others rounds req_id send)

unfoldable pub lm_inet_recv :
    (Host → Host) → ℕ → Option Ptr → (req_id addr length : ℕ) → M (Option Ret)
unfolding lm_inet_recv_async await_comp
lm_inet_recv others rounds context req_id addr length = do
  rc ← lm_inet_recv_async context req_id addr length
  h ← get
  put (others h)
  on_posted rc (await_comp others rounds req_id recv)

unfoldable pub lm_inet_remote_write :
    (Host → Host) → ℕ → Option Ptr → (req_id addr rem_addr length : ℕ) → M (Option Ret)
unfolding lm_inet_remote_write_async await_comp
lm_inet_remote_write others rounds context req_id addr rem_addr length = do
  rc ← lm_inet_remote_write_async context req_id addr rem_addr length
  h ← get
  put (others h)
  on_posted rc (await_comp others rounds req_id rem_wr)

unfoldable pub lm_inet_remote_read :
    (Host → Host) → ℕ → Option Ptr → (req_id addr rem_addr length : ℕ) → M (Option Ret)
unfolding lm_inet_remote_read_async await_comp
lm_inet_remote_read others rounds context req_id addr rem_addr length = do
  rc ← lm_inet_remote_read_async context req_id addr rem_addr length
  h ← get
  put (others h)
  on_posted rc (await_comp others rounds req_id rem_rd)
