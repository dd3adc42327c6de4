-- ===== src/Links/Shm/Api.antt =====
-- The calls of src/lm/lmshm_sendrecv.cpp that post a request.
use flex_gas.Links.Runs.{Ret, pure, ret_err, ret_ok, ◌>>=◌}
use flex_gas.Links.Shm.Completions.{lm_shm_wait_comp}
use flex_gas.Links.Shm.State.{M, Process, Ptr, ShmRequestType, shm_pending, shm_recv, shm_send}
use flex_gas.Links.Shm.Transfers.{shm_submit_request}
use flex_gas.Links.Sockets.{update}
use flex_gas.Prelude.{Option, some, ℕ, ◌+◌}

abbrev new_request : ShmRequestType → Ptr → (id addr length : ℕ) → M Ptr
new_request type context id addr len h = pure h.fresh (record h {
  requests = update h.requests h.fresh (
      some (record {
        req_id = id;
        context = context;
        type = type;
        status = shm_pending;
        addr = addr;
        length = len;
        acc_length = 0;
        hdrbuf = λ _. 0;
        acc_buf_length = 0;
      }));
  fresh = h.fresh + 1;
})

unfoldable pub lm_shm_send_async : Ptr → (id addr length : ℕ) → M Ret
unfolding shm_submit_request
lm_shm_send_async context id addr len = do
  p ← new_request shm_send context id addr len
  shm_submit_request p

unfoldable pub lm_shm_recv_async : Ptr → (id addr length : ℕ) → M Ret
unfolding shm_submit_request
lm_shm_recv_async context id addr len = do
  p ← new_request shm_recv context id addr len
  shm_submit_request p

-- The blocking calls wait, and do not look at the status.
unfoldable pub lm_shm_send : (Process → Process) → ℕ → Ptr → (id addr length : ℕ) → M (Option Ret)
unfolding shm_submit_request lm_shm_wait_comp
lm_shm_send others rounds context id addr len = do
  p ← new_request shm_send context id addr len
  rc ← shm_submit_request p
  elim rc [ ret_err ↦ pure (some ret_err) | ret_ok ↦ lm_shm_wait_comp others rounds id ]

unfoldable pub lm_shm_recv : (Process → Process) → ℕ → Ptr → (id addr length : ℕ) → M (Option Ret)
unfolding shm_submit_request lm_shm_wait_comp
lm_shm_recv others rounds context id addr len = do
  p ← new_request shm_recv context id addr len
  rc ← shm_submit_request p
  elim rc [ ret_err ↦ pure (some ret_err) | ret_ok ↦ lm_shm_wait_comp others rounds id ]
