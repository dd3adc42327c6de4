-- ===== src/Links/Channel/Remote.antt =====
-- Remote reads and writes in src/ch/channel_remote.cpp.
use flex_gas.Agent.Window.{u64}
use flex_gas.Links.Channel.Types.{
  ChMr, Channel, Layer, LinkCalls, Started, ch_pending, generate_id, link_inet, link_rdma, link_shm,
  on_links, started,
}
use flex_gas.Links.Runs.{Run, pure, ◌>>=◌}
use flex_gas.Prelude.{Bool, false, if◌then◌else◌, ltb, none, not, true, ℕ, ◌%◌, ◌+◌, ◌||◌}

-- The two tests on the remote address, in uint64_t.
unfoldable pub outside : ChMr → (rem_addr length : ℕ) → Bool
outside rem a len =
    let end = (rem.addr + rem.length) % u64 in
    (ltb a rem.addr || ltb end a) || ltb end ((a + len) % u64)

module _ {S : Type 0} (lm : LinkCalls S) where
  remote_read_async_link_rdma :
      Channel → ChMr → ℕ → ChMr → (rem_addr length : ℕ) → Run (Layer S) Started
  unfolding outside
  remote_read_async_link_rdma c mr a rem rem_a len =
      if not rem.rdma_ena || outside rem rem_a len then pure none else (do
        id ← generate_id
        rc ← on_links (lm.rdma_remote_read c.ctx id a mr.local_mr rem_a rem len)
        started rc (record { type = ch_pending; channel = c; id = id; wc = true }))

  remote_read_async_link_inet : Channel → ℕ → ChMr → (rem_addr length : ℕ) → Run (Layer S) Started
  unfolding outside
  remote_read_async_link_inet c a rem rem_a len =
      if not rem.inet_ena || outside rem rem_a len then pure none else (do
        id ← generate_id
        rc ← on_links (lm.inet_remote_read c.ctx id a rem_a len)
        started rc (record { type = ch_pending; channel = c; id = id; wc = false }))

  unfoldable pub ch_remote_read_async :
      Channel → ChMr → ℕ → ChMr → (rem_addr length : ℕ) → Run (Layer S) Started
  unfolding remote_read_async_link_rdma remote_read_async_link_inet
  ch_remote_read_async c mr a rem rem_a len = elim c.link [
    | link_rdma ↦ remote_read_async_link_rdma c mr a rem rem_a len
    | link_inet ↦ remote_read_async_link_inet c a rem rem_a len
    | link_shm ↦ pure none
  ]

  remote_write_async_link_rdma :
      Channel → ChMr → ℕ → ChMr → (rem_addr length : ℕ) → Run (Layer S) Started
  unfolding outside
  remote_write_async_link_rdma c mr a rem rem_a len =
      if not rem.rdma_ena || outside rem rem_a len then pure none else (do
        id ← generate_id
        rc ← on_links (lm.rdma_remote_write c.ctx id a mr.local_mr rem_a rem len)
        started rc (record { type = ch_pending; channel = c; id = id; wc = true }))

  remote_write_async_link_inet : Channel → ℕ → ChMr → (rem_addr length : ℕ) → Run (Layer S) Started
  unfolding outside
  remote_write_async_link_inet c a rem rem_a len =
      if not rem.inet_ena || outside rem rem_a len then pure none else (do
        id ← generate_id
        rc ← on_links (lm.inet_remote_write c.ctx id a rem_a len)
        started rc (record { type = ch_pending; channel = c; id = id; wc = false }))

  unfoldable pub ch_remote_write_async :
      Channel → ChMr → ℕ → ChMr → (rem_addr length : ℕ) → Run (Layer S) Started
  unfolding remote_write_async_link_rdma remote_write_async_link_inet
  ch_remote_write_async c mr a rem rem_a len = elim c.link [
    | link_rdma ↦ remote_write_async_link_rdma c mr a rem rem_a len
    | link_inet ↦ remote_write_async_link_inet c a rem rem_a len
    | link_shm ↦ pure none
  ]
