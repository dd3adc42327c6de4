-- ===== src/Tests/Channels.antt =====
-- The channel layer over link managers whose state counts the calls; the RDMA link registers
-- nothing.
use flex_gas.Links.Channel.Messages.{ch_send, ch_send_mr}
use flex_gas.Links.Channel.Regions.{ch_register_memory}
use flex_gas.Links.Channel.Regions.Failures.{failed_registration_enables}
use flex_gas.Links.Channel.Remote.{ch_remote_write_async}
use flex_gas.Links.Channel.Types.{
  ChMr, Channel, Layer, LinkCalls, ch_pending, generate_id, link_inet, link_rdma, mr_local,
  on_links, region, started,
}
use flex_gas.Links.Channel.Windows.{Fits, ch_remote_write_async_lem, wrapped_length_passes}
use flex_gas.Links.Runs.{Run, ret_ok, ◌>>=◌}
use flex_gas.Prelude.{
  [], arith, false, if◌then◌else◌, none, refl, some, true, ℕ, ◌+◌, ◌<◌, ◌==◌, ◌≡◌, ◌≤◌, ◌⊎◌,
}

abbrev counts : {A : Type 0} → A → Run ℕ A
counts a n = some (a, n + 1)

abbrev counting : LinkCalls ℕ
counting = record {
  rdma_send = λ _ _ _ _. counts ret_ok;
  inet_send = λ _ _ _ _. counts ret_ok;
  shm_send = λ _ _ _ _. counts ret_ok;
  rdma_recv = λ _ _ _ _. counts ret_ok;
  inet_recv = λ _ _ _ _. counts ret_ok;
  shm_recv = λ _ _ _ _. counts ret_ok;
  rdma_recv_mr = λ _ _. counts none;
  inet_recv_mr = λ _ _. counts none;
  shm_recv_mr = λ _ _. counts none;
  rdma_send_async = λ _ _ _ _. counts ret_ok;
  inet_send_async = λ _ _ _ _. counts ret_ok;
  shm_send_async = λ _ _ _ _. counts ret_ok;
  rdma_recv_async = λ _ _ _ _. counts ret_ok;
  inet_recv_async = λ _ _ _ _. counts ret_ok;
  shm_recv_async = λ _ _ _ _. counts ret_ok;
  rdma_register = λ _ _ _. counts none;
  inet_register = λ _ _ _. counts ret_ok;
  shm_alloc = λ _ _ _. counts none;
  shm_free = λ _. counts ret_ok;
  shm_acquire = λ _ _. counts none;
  shm_release = λ _. counts ret_ok;
  rdma_remote_read = λ _ _ _ _ _ _ _. counts ret_ok;
  inet_remote_read = λ _ _ _ _ _. counts ret_ok;
  rdma_remote_write = λ _ _ _ _ _ _ _. counts ret_ok;
  inet_remote_write = λ _ _ _ _ _. counts ret_ok;
}

abbrev a_region : ChMr
a_region = record {
  type = mr_local;
  rdma_ena = false;
  inet_ena = true;
  shm_ena = false;
  addr = 1000;
  length = 64;
  handle = 0;
  lkey = 0;
  rkey = 0;
  local_mr = none;
  name = [];
  fd = 0;
}

abbrev a_layer : Layer ℕ
a_layer = record {
  links = 0;
  id_cnt = 15;
  mrs = λ p. if p == 4 then some a_region else none;
  events = λ _. none;
  fresh = 50;
}

abbrev over_inet : Channel
over_inet = record { link = link_inet; ctx = 2 }

abbrev over_rdma : Channel
over_rdma = record { link = link_rdma; ctx = 2 }

a_window : Fits a_region 1010 20
a_window = record { region_fits = omega arith; end_fits = omega arith }

ch_remote_write_async_lem_example :
    ((true ≡ true) × (1000 ≤ 1010) × (1010 + 20 ≤ 1000 + 64)
      → ch_remote_write_async counting over_inet a_region 7 a_region 1010 20 a_layer
        ≡ (do
          id ← generate_id
          rc ← on_links (counting.inet_remote_write 2 id 7 1010 20)
          started rc (record { type = ch_pending; channel = over_inet; id = id; wc = false }))
            a_layer)
    × ((true ≡ false) ⊎ (1010 < 1000) ⊎ (1000 + 64 < 1010 + 20)
        → ch_remote_write_async counting over_inet a_region 7 a_region 1010 20 a_layer
          ≡ some (none, a_layer))
ch_remote_write_async_lem_example =
    ch_remote_write_async_lem counting over_inet a_region a_region 7 1010 20 a_layer refl a_window

wrapped_length_passes_example :
    ch_remote_write_async counting over_inet a_region 7 a_region 1010 0xfffffffffffffff0 a_layer
    ≡ (do
      id ← generate_id
      rc ← on_links (counting.inet_remote_write 2 id 7 1010 0xfffffffffffffff0)
      started rc (record { type = ch_pending; channel = over_inet; id = id; wc = false }))
        a_layer
wrapped_length_passes_example =
    wrapped_length_passes counting over_inet a_region a_region 7 1010 0xfffffffffffffff0 a_layer
      refl refl (omega arith) (omega arith) (omega arith) (omega arith) (omega arith)

failed_registration_enables_example :
    (h' : Layer ℕ) × (ch_register_memory counting over_rdma 1000 64
        (some 4)
        (record { shm_fclean = false; add_link_ena = true })
        a_layer
      ≡ some (none, h'))
    × (ch_send_mr counting over_rdma 4 h'
        ≡ ch_send counting over_rdma
            (region (record a_region { type = mr_local; rdma_ena = true }))
            456
            h')
failed_registration_enables_example =
    failed_registration_enables counting over_rdma 4 a_region a_layer 1 refl refl refl refl
