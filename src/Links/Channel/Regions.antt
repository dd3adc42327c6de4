-- ===== src/Links/Channel/Regions.antt =====
-- Memory regions in src/ch/channel_remote.cpp.
pub mod Failures
use flex_gas.Links.Channel.Types.{
  ChMr, Channel, Layer, LinkCalls, MrType, link_inet, link_rdma, link_shm, load_mr, mr_local,
  mr_remote, on_links, store_mr,
}
use flex_gas.Links.Runs.{Ret, Run, deref, pure, ret_err, ret_ok, ◌>>=◌, ◌>>◌}
use flex_gas.Links.Sockets.{update}
use flex_gas.Prelude.{Bool, Option, [], false, if◌then◌else◌, none, some, true, ℕ, ◌+◌, ◌||◌}

-- The flags CH_SHM_FCLEAN and CH_ADD_LINK_ENA.
pub record Flags : Type 0 where
  pub shm_fclean : Bool
  pub add_link_ena : Bool

-- A region as `new` makes it: all zero, which is local and without links.
abbrev blank_mr : ChMr
blank_mr = record {
  type = mr_local;
  rdma_ena = false;
  inet_ena = false;
  shm_ena = false;
  addr = 0;
  length = 0;
  handle = 0;
  lkey = 0;
  rkey = 0;
  local_mr = none;
  name = [];
  fd = 0;
}

abbrev is_local : MrType → Bool
is_local mr_local = true
is_local mr_remote = false

abbrev new_mr : {S : Type 0} → Run (Layer S) ℕ
new_mr h =
    pure h.fresh (record h { mrs = update h.mrs h.fresh (some blank_mr); fresh = h.fresh + 1 })

-- The region to fill: the one that is given where a link is added to it, which must be local, else
-- a new one. `none` is -1.
unfoldable pub region_for : {S : Type 0} → Option ℕ → Flags → Run (Layer S) (Option ℕ)
region_for mr flags = elim flags.add_link_ena [
  | false ↦ do p ← new_mr; pure (some p)
  | true ↦ do p ← deref mr; r ← load_mr p; pure (if is_local r.type then some p else none)
]

module _ {S : Type 0} (lm : LinkCalls S) where
  register_memory_link_rdma :
      Channel → (addr length : ℕ) → Option ℕ → Flags → Run (Layer S) (Option ℕ)
  unfolding region_for
  register_memory_link_rdma c a len mr flags = do
    found ← region_for mr flags
    elim found [
      | none ↦ pure none
      | some p ↦ do
        r ← load_mr p
        store_mr p (record r { type = mr_local; rdma_ena = true })
        got ← on_links (lm.rdma_register c.ctx a len)
        elim got [
          | none ↦ pure none
          | some v ↦ do
            s ← load_mr p
            store_mr p (record s {
              addr = a;
              length = len;
              handle = v.handle;
              lkey = v.lkey;
              rkey = v.rkey;
              local_mr = some v.pointer;
            })
            pure (some p)
        ]
    ]

  register_memory_link_inet :
      Channel → (addr length : ℕ) → Option ℕ → Flags → Run (Layer S) (Option ℕ)
  unfolding region_for
  register_memory_link_inet c a len mr flags = do
    found ← region_for mr flags
    elim found [
      | none ↦ pure none
      | some p ↦ do
        r ← load_mr p
        store_mr p (record r { type = mr_local; inet_ena = true })
        rc ← on_links (lm.inet_register c.ctx a len)
        elim rc [
          | ret_err ↦ pure none
          | ret_ok ↦ do
            s ← load_mr p
            store_mr p (record s { addr = a; length = len })
            pure (some p)
        ]
    ]

  -- The address is the pointer of the name. Any flag asks for a clean segment.
  register_memory_link_shm :
      Channel → (addr length : ℕ) → Option ℕ → Flags → Run (Layer S) (Option ℕ)
  unfolding region_for
  register_memory_link_shm c a len mr flags = do
    found ← region_for mr flags
    elim found [
      | none ↦ pure none
      | some p ↦ do
        r ← load_mr p
        store_mr p (record r { type = mr_local; shm_ena = true })
        got ← on_links (lm.shm_alloc a len (flags.shm_fclean || flags.add_link_ena))
        elim got [
          | none ↦ pure none
          | some v ↦ do
            s ← load_mr p
            store_mr p (record s { addr = v.addr; length = len; name = v.name; fd = v.fd })
            pure (some p)
        ]
    ]

  unfoldable pub ch_register_memory :
      Channel → (addr length : ℕ) → Option ℕ → Flags → Run (Layer S) (Option ℕ)
  unfolding register_memory_link_rdma register_memory_link_inet register_memory_link_shm
  ch_register_memory c a len mr flags = elim c.link [
    | link_rdma ↦ register_memory_link_rdma c a len mr flags
    | link_inet ↦ register_memory_link_inet c a len mr flags
    | link_shm ↦ register_memory_link_shm c a len mr flags
  ]

  unfoldable pub ch_unregister_memory : Channel → ℕ → Run (Layer S) Ret
  ch_unregister_memory c mr = elim c.link [
    | link_rdma ↦ pure ret_err
    | link_inet ↦ pure ret_err
    | link_shm ↦ do r ← load_mr mr; on_links (lm.shm_free r)
  ]

  -- The address and the length, or `none` for -1.
  unfoldable pub ch_map_memory : Channel → ℕ → Run (Layer S) (Option (ℕ × ℕ))
  ch_map_memory c mr = elim c.link [
    | link_rdma ↦ pure none
    | link_inet ↦ pure none
    | link_shm ↦ do
      r ← load_mr mr
      got ← on_links (lm.shm_acquire r.name r.length)
      elim got [
        | none ↦ pure none
        | some (v, len) ↦ do
          store_mr mr (record r { addr = v.addr; length = len; fd = v.fd })
          pure (some (v.addr, len))
      ]
  ]

  unfoldable pub ch_unmap_memory : Channel → ℕ → Run (Layer S) Ret
  ch_unmap_memory c mr = elim c.link [
    | link_rdma ↦ pure ret_err
    | link_inet ↦ pure ret_err
    | link_shm ↦ do r ← load_mr mr; on_links (lm.shm_release r)
  ]
