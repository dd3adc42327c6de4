-- ===== src/Links/Channel/Windows.antt =====
-- What the tests of src/ch/channel_remote.cpp let through.
use flex_gas.Agent.Window.{u64}
use flex_gas.Links.Channel.Remote.{ch_remote_write_async, outside}
use flex_gas.Links.Channel.Types.{
  ChMr, Channel, Layer, LinkCalls, ch_pending, generate_id, link_inet, on_links, started,
}
use flex_gas.Links.Runs.{◌>>=◌}
use flex_gas.Prelude.{arith, false, none, some, true, ℕ, ◌+◌, ◌<◌, ◌≡◌, ◌≤◌, ◌⊎◌}

-- The region and the end of the transfer lie in the address space.
pub record Fits (rem : ChMr) (rem_a len : ℕ) : Type 0 where
  pub region_fits : rem.addr + rem.length < u64
  pub end_fits : rem_a + len < u64

module _ {S : Type 0} (lm : LinkCalls S) (c : Channel) (mr rem : ChMr) (a rem_a len : ℕ)
    (h : Layer S) where
  -- chRemoteWriteAsync over the socket link, where neither the end of the region nor that of the
  -- transfer wraps around the address space: an operation starts exactly where the region is
  -- enabled for the link, the whole of the transfer lies in it, and the link takes the request,
  -- with the address and length as they were given, under the next identifier, which the new event
  -- carries. It is refused, and nothing changes, where the region is not enabled or the transfer
  -- leaves it.
  pub ch_remote_write_async_lem :
      c.link ≡ link_inet
      → Fits rem rem_a len
      → ((rem.inet_ena ≡ true) × (rem.addr ≤ rem_a) × (rem_a + len ≤ rem.addr + rem.length)
          → ch_remote_write_async lm c mr a rem rem_a len h
            ≡ (do
              id ← generate_id
              rc ← on_links (lm.inet_remote_write c.ctx id a rem_a len)
              started rc (record { type = ch_pending; channel = c; id = id; wc = false }))
                h)
        × ((rem.inet_ena ≡ false) ⊎ (rem_a < rem.addr) ⊎ (rem.addr + rem.length < rem_a + len)
            → ch_remote_write_async lm c mr a rem rem_a len h ≡ some (none, h))
  unfolding ch_remote_write_async outside
  ch_remote_write_async_lem kind fits = (λ ok. ground arith, λ bad. ground arith)

  -- A remote write over the socket link to a region that is enabled for it and does not wrap: a
  -- length that wraps the end of the transfer around the address space passes the tests, and from
  -- any address in the region such an operation is handed to the link.
  pub wrapped_length_passes :
      c.link ≡ link_inet
      → rem.inet_ena ≡ true
      → rem.addr + rem.length < u64
      → rem.addr ≤ rem_a
      → rem_a ≤ rem.addr + rem.length
      → len < u64
      → u64 ≤ rem_a + len
      → ch_remote_write_async lm c mr a rem rem_a len h
        ≡ (do
          id ← generate_id
          rc ← on_links (lm.inet_remote_write c.ctx id a rem_a len)
          started rc (record { type = ch_pending; channel = c; id = id; wc = false }))
            h
  unfolding ch_remote_write_async outside
  wrapped_length_passes kind ena fits from to len_fits wraps = ground arith
