-- ===== src/Agent/Window.antt =====
-- The address arithmetic of `remote_write` and `remote_read` in src/vivm/agent/agent_threads.h,
-- which is the same in both. Addresses and lengths are uint64_t.
use flex_gas.Prelude.{
  Option, arith, if◌then◌else◌, ltb, none, some, ℕ, ◌%◌, ◌+◌, ◌-◌, ◌<◌, ◌||◌, ◌↔◌, ◌≡◌, ◌≤◌, ◌⊎◌,
}
use flex_gas.Sched.Types.{Mr}

abbrev pub u64 : ℕ
u64 = 0x10000000000000000

-- The remote address for a local one, or `none` where the function returns -1 before the transfer.
unfoldable pub remote_addr : Mr → Mr → (l_addr len : ℕ) → Option ℕ
remote_addr l_mr r_mr l_addr len =
    let l_end = (l_mr.addr + l_mr.len) % u64 in
    let offset = (l_addr + u64 - l_mr.addr) % u64 in
    if ltb l_addr l_mr.addr || ltb l_end l_addr
    then none
    else if ltb r_mr.len ((offset + len) % u64)
    then none
    else some ((r_mr.addr + offset) % u64)

-- Both regions lie in the address space, and so does the end of the transfer.
pub record InSpace (l_mr r_mr : Mr) (l_addr len : ℕ) : Type 0 where
  pub local_fits : l_mr.addr + l_mr.len < u64
  pub remote_fits : r_mr.addr + r_mr.len < u64
  pub end_fits : l_addr + len < u64

-- Where neither region wraps around the address space, and the end of the transfer does not either,
-- a transfer that is let through stays inside the remote region, at the same offset as in the local
-- one.
pub remote_addr_window :
    (l_mr r_mr : Mr) (l_addr len r_addr : ℕ)
    → InSpace l_mr r_mr l_addr len
    → remote_addr l_mr r_mr l_addr len ≡ some r_addr
    → (r_mr.addr ≤ r_addr)
      × (r_addr + len ≤ r_mr.addr + r_mr.len)
      × (r_addr + l_mr.addr ≡ r_mr.addr + l_addr)
unfolding remote_addr
remote_addr_window l_mr r_mr l_addr len r_addr fits h = ground arith

-- Under the same conditions a transfer is refused exactly where it starts outside the local region
-- or would end outside the remote one.
pub remote_addr_refused :
    (l_mr r_mr : Mr) (l_addr len : ℕ)
    → InSpace l_mr r_mr l_addr len
    → remote_addr l_mr r_mr l_addr len ≡ none
      ↔ (l_addr < l_mr.addr)
        ⊎ (l_mr.addr + l_mr.len < l_addr)
        ⊎ (l_mr.addr + r_mr.len < l_addr + len)
unfolding remote_addr
remote_addr_refused l_mr r_mr l_addr len fits = ground arith

-- Between regions of one length a transfer that is let through stays inside the local region too.
pub remote_addr_inside :
    (l_mr r_mr : Mr) (l_addr len r_addr : ℕ)
    → InSpace l_mr r_mr l_addr len
    → l_mr.len ≡ r_mr.len
    → remote_addr l_mr r_mr l_addr len ≡ some r_addr
    → (l_mr.addr ≤ l_addr) × (l_addr + len ≤ l_mr.addr + l_mr.len)
unfolding remote_addr
remote_addr_inside l_mr r_mr l_addr len r_addr fits same h = ground arith

-- The check knows nothing of the end of the local range: wherever the remote region is the longer
-- one, some transfer is let through that reads or writes behind the local region.
pub remote_addr_overrun :
    (l_mr r_mr : Mr)
    → InSpace l_mr r_mr l_mr.addr r_mr.len
    → l_mr.len < r_mr.len
    → (remote_addr l_mr r_mr l_mr.addr r_mr.len ≡ some r_mr.addr)
      × (l_mr.addr + l_mr.len < l_mr.addr + r_mr.len)
unfolding remote_addr
remote_addr_overrun l_mr r_mr fits longer = (ground arith, omega arith)

-- Where neither region wraps around the address space, nor the remote address of the start does: a
-- length so long that the sum with the offset wraps around, to what the remote region has room for,
-- is let through, from any address in the local region but its first. The transfer ends behind the
-- remote region.
pub remote_addr_wraps :
    (l_mr r_mr : Mr) (l_addr len : ℕ)
    → l_mr.addr + l_mr.len < u64
    → r_mr.addr + r_mr.len < u64
    → l_mr.addr < l_addr
    → l_addr ≤ l_mr.addr + l_mr.len
    → len < u64
    → u64 + l_mr.addr ≤ l_addr + len
    → r_mr.addr + (l_addr - l_mr.addr) < u64
    → l_addr + len ≤ u64 + l_mr.addr + r_mr.len
    → (remote_addr l_mr r_mr l_addr len ≡ some (r_mr.addr + (l_addr - l_mr.addr)))
      × (r_mr.addr + r_mr.len < (r_mr.addr + (l_addr - l_mr.addr)) + len)
unfolding remote_addr
remote_addr_wraps l_mr r_mr l_addr len l_fits r_fits inside in_region len_fits wraps at room =
    (ground arith, omega arith)
