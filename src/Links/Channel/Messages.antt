-- ===== src/Links/Channel/Messages.antt =====
-- The calls of src/ch/channel_sendrecv.cpp.
use flex_gas.Links.Channel.Regions.{ch_register_memory}
use flex_gas.Links.Channel.Types.{
  ChMr, Channel, Layer, LinkCalls, Payload, Started, ch_pending, generate_id, int_id, link_inet,
  link_rdma, link_shm, load_mr, mr_remote, on_links, region, started,
}
use flex_gas.Links.Runs.{Ret, Run, pure, ret_err, ◌>>=◌}
use flex_gas.Links.Sockets.{update}
use flex_gas.Prelude.{Bool, Option, false, none, some, true, ℕ, ◌+◌}

module _ {S : Type 0} (lm : LinkCalls S) where
  send_link_rdma : Channel → Payload → ℕ → Run (Layer S) Ret
  send_link_rdma c a len = do id ← generate_id; on_links (lm.rdma_send c.ctx (int_id id) a len)

  send_link_inet : Channel → Payload → ℕ → Run (Layer S) Ret
  send_link_inet c a len = do id ← generate_id; on_links (lm.inet_send c.ctx (int_id id) a len)

  send_link_shm : Channel → Payload → ℕ → Run (Layer S) Ret
  send_link_shm c a len = do id ← generate_id; on_links (lm.shm_send c.ctx (int_id id) a len)

  unfoldable pub ch_send : Channel → Payload → ℕ → Run (Layer S) Ret
  unfolding send_link_rdma send_link_inet send_link_shm
  ch_send c a len = elim c.link [
    | link_rdma ↦ send_link_rdma c a len
    | link_inet ↦ send_link_inet c a len
    | link_shm ↦ send_link_shm c a len
  ]

  send_async_link_rdma : Channel → (addr length : ℕ) → Run (Layer S) Started
  send_async_link_rdma c a len = do
    id ← generate_id
    rc ← on_links (lm.rdma_send_async c.ctx id a len)
    started rc (record { type = ch_pending; channel = c; id = id; wc = true })

  send_async_link_inet : Channel → (addr length : ℕ) → Run (Layer S) Started
  send_async_link_inet c a len = do
    id ← generate_id
    rc ← on_links (lm.inet_send_async c.ctx id a len)
    started rc (record { type = ch_pending; channel = c; id = id; wc = false })

  send_async_link_shm : Channel → (addr length : ℕ) → Run (Layer S) Started
  send_async_link_shm c a len = do
    id ← generate_id
    rc ← on_links (lm.shm_send_async c.ctx id a len)
    started rc (record { type = ch_pending; channel = c; id = id; wc = false })

  unfoldable pub ch_send_async : Channel → (addr length : ℕ) → Run (Layer S) Started
  unfolding send_async_link_rdma send_async_link_inet send_async_link_shm
  ch_send_async c a len = elim c.link [
    | link_rdma ↦ send_async_link_rdma c a len
    | link_inet ↦ send_async_link_inet c a len
    | link_shm ↦ send_async_link_shm c a len
  ]

  recv_link_rdma : Channel → (addr length : ℕ) → Run (Layer S) Ret
  recv_link_rdma c a len = do id ← generate_id; on_links (lm.rdma_recv c.ctx (int_id id) a len)

  recv_link_inet : Channel → (addr length : ℕ) → Run (Layer S) Ret
  recv_link_inet c a len = do id ← generate_id; on_links (lm.inet_recv c.ctx (int_id id) a len)

  recv_link_shm : Channel → (addr length : ℕ) → Run (Layer S) Ret
  recv_link_shm c a len = do id ← generate_id; on_links (lm.shm_recv c.ctx (int_id id) a len)

  unfoldable pub ch_recv : Channel → (addr length : ℕ) → Run (Layer S) Ret
  unfolding recv_link_rdma recv_link_inet recv_link_shm
  ch_recv c a len = elim c.link [
    | link_rdma ↦ recv_link_rdma c a len
    | link_inet ↦ recv_link_inet c a len
    | link_shm ↦ recv_link_shm c a len
  ]

  recv_async_link_rdma : Channel → (addr length : ℕ) → Run (Layer S) Started
  recv_async_link_rdma c a len = do
    id ← generate_id
    rc ← on_links (lm.rdma_recv_async c.ctx (int_id id) a len)
    started rc (record { type = ch_pending; channel = c; id = int_id id; wc = true })

  recv_async_link_inet : Channel → (addr length : ℕ) → Run (Layer S) Started
  recv_async_link_inet c a len = do
    id ← generate_id
    rc ← on_links (lm.inet_recv_async c.ctx (int_id id) a len)
    started rc (record { type = ch_pending; channel = c; id = int_id id; wc = false })

  recv_async_link_shm : Channel → (addr length : ℕ) → Run (Layer S) Started
  recv_async_link_shm c a len = do
    id ← generate_id
    rc ← on_links (lm.shm_recv_async c.ctx (int_id id) a len)
    started rc (record { type = ch_pending; channel = c; id = int_id id; wc = false })

  unfoldable pub ch_recv_async : Channel → (addr length : ℕ) → Run (Layer S) Started
  unfolding recv_async_link_rdma recv_async_link_inet recv_async_link_shm
  ch_recv_async c a len = elim c.link [
    | link_rdma ↦ recv_async_link_rdma c a len
    | link_inet ↦ recv_async_link_inet c a len
    | link_shm ↦ recv_async_link_shm c a len
  ]

-- sizeof(ch_mr_t), with the RDMA link compiled in.
abbrev pub mr_size : ℕ
mr_size = 456

module _ {S : Type 0} (lm : LinkCalls S) where
  send_region : Channel → ℕ → Run (Layer S) Ret
  send_region c mr = do r ← load_mr mr; ch_send lm c (region r) mr_size

  -- A region without the channel's link gets it first, except for the shared-memory link.
  enabled_then_send : Channel → ℕ → Bool → Run (Layer S) Ret
  unfolding send_region
  enabled_then_send c mr true = send_region c mr
  enabled_then_send c mr false = do
    r ← load_mr mr
    got ←
        ch_register_memory lm c r.addr r.length (some mr)
          (record { shm_fclean = false; add_link_ena = true })
    elim got [ none ↦ pure ret_err | some p ↦ send_region c p ]

  unfoldable pub ch_send_mr : Channel → ℕ → Run (Layer S) Ret
  unfolding enabled_then_send send_region
  ch_send_mr c mr = do
    r ← load_mr mr
    elim c.link [
      | link_rdma ↦ enabled_then_send c mr r.rdma_ena
      | link_inet ↦ enabled_then_send c mr r.inet_ena
      | link_shm ↦ elim r.shm_ena [ true ↦ send_region c mr | false ↦ pure ret_err ]
    ]

  -- chRecv of a region.
  recv_region : Channel → Run (Layer S) (Option ChMr)
  recv_region c = do
    id ← generate_id
    elim c.link [
      | link_rdma ↦ on_links (lm.rdma_recv_mr c.ctx (int_id id))
      | link_inet ↦ on_links (lm.inet_recv_mr c.ctx (int_id id))
      | link_shm ↦ on_links (lm.shm_recv_mr c.ctx (int_id id))
    ]

  -- The pointer of the new region, which is remote whatever was sent, or `none` for -1.
  unfoldable pub ch_recv_mr : Channel → Run (Layer S) (Option ℕ)
  unfolding recv_region
  ch_recv_mr c = do
    got ← recv_region c
    elim got [
      | none ↦ pure none
      | some r ↦ λ h. pure (some h.fresh) (record h {
        mrs = update h.mrs h.fresh (some (record r { type = mr_remote }));
        fresh = h.fresh + 1;
      })
    ]
