-- ===== src/Links/Shm/Calls.antt =====
-- The calls of the system that src/lm/lmshm_sendrecv.cpp makes on a socket.
use flex_gas.Links.Memory.{drop, min}
use flex_gas.Links.Runs.{pure, ret_err, ret_ok}
use flex_gas.Links.Shm.State.{M, succeeds}
use flex_gas.Links.Sockets.{granted, next_result, remaining, update}
use flex_gas.Prelude.{List, Option, length, none, some, take, ℕ, ◌++◌}

-- send with MSG_WAITALL: it may still fail, or be cut short.
unfoldable pub shm_sock_send : ℕ → List ℕ → M (Option ℕ)
shm_sock_send fd buf h =
    let s = h.sockets fd in
    let n = granted (next_result s.sends) (length buf) in
    pure (elim (next_result s.sends) [ none ↦ none | some _ ↦ some n ])
      (record h {
        sockets =
            update h.sockets fd (record s { sends = remaining s.sends; out = s.out ++ take n buf });
      })

-- recv with MSG_DONTWAIT: the bytes that it takes, or `none` for -1.
unfoldable pub shm_sock_recv : ℕ → ℕ → M (Option (List ℕ))
shm_sock_recv fd len h =
    let s = h.sockets fd in
    let n = granted (next_result s.recvs) (min len (length s.inb)) in
    pure (elim (next_result s.recvs) [ none ↦ none | some _ ↦ some (take n s.inb) ])
      (record h {
        sockets = update h.sockets fd (record s { recvs = remaining s.recvs; inb = drop n s.inb });
      })

-- ioctl with FIONREAD: how many bytes have arrived.
unfoldable pub pending_bytes : ℕ → M (Option ℕ)
pending_bytes fd h =
    pure (elim (succeeds h.ioctls) [ ret_err ↦ none | ret_ok ↦ some (length (h.sockets fd).inb) ])
      (record h { ioctls = remaining h.ioctls })
