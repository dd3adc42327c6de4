-- ===== src/Links/Channel/Regions/Failures.antt =====
-- What a failed registration leaves behind.
use flex_gas.Links.Channel.Messages.{ch_send, ch_send_mr, mr_size}
use flex_gas.Links.Channel.Regions.{ch_register_memory}
use flex_gas.Links.Channel.Types.{ChMr, Channel, Layer, LinkCalls, link_rdma, mr_local, region}
use flex_gas.Links.Sockets.{update}
use flex_gas.Prelude.{arith, false, none, some, true, ℕ, ◌≡◌}

-- The RDMA link is to be added to a local region, but fails to register it: chRegisterMemory gives
-- -1, but the region says from then on that it is enabled for this link. Another try to send the
-- region does not register it either, and hands it to the peer.
pub failed_registration_enables :
    {S : Type 0} (lm : LinkCalls S) (c : Channel) (p : ℕ) (r : ChMr) (h : Layer S) (s : S)
    → c.link ≡ link_rdma
    → h.mrs p ≡ some r
    → r.type ≡ mr_local
    → lm.rdma_register c.ctx r.addr r.length h.links ≡ some (none, s)
    → (h' : Layer S) × (ch_register_memory lm c r.addr r.length
          (some p)
          (record { shm_fclean = false; add_link_ena = true })
          h
        ≡ some (none, h'))
      × (ch_send_mr lm c p h'
          ≡ ch_send lm c (region (record r { type = mr_local; rdma_ena = true })) mr_size h')
unfolding ch_register_memory ch_send_mr
failed_registration_enables lm c p r h s kind live is_mine no_region = (
  record h {
    links = s;
    mrs = update h.mrs p (some (record r { type = mr_local; rdma_ena = true }));
  },
  ground arith,
  ground arith,
)
