-- ===== src/Tests/Rdmas.antt =====
-- A context of the RDMA link over a socket.
use flex_gas.Links.Memory.{write_bytes}
use flex_gas.Links.Rdma.{
  Rdma, RdmaRequest, Wc, find_wc, lm_rdma_get_comp, lm_rdma_send_unbuffered, recv_loop, recv_queue,
}
use flex_gas.Links.Rdma.Loops.{partial_send_hangs, recv_loop_ends}
use flex_gas.Links.Rdma.Stash.{get_comp-get_comp}
use flex_gas.Links.Runs.{ret_ok}
use flex_gas.Links.Sockets.{Ready}
use flex_gas.Prelude.{List, Option, [], arith, none, refl, some, suc, true, zero, ℕ, ◌%◌, ◌∷◌, ◌≡◌}

abbrev ten_each : ℕ → List (Option ℕ)
ten_each zero = []
ten_each (suc n) = some 10 ∷ ten_each n

ten_each-Ready : (n : ℕ) → Ready n (ten_each n)
ten_each-Ready zero = tt
ten_each-Ready (suc n) = ((9, refl), ten_each-Ready n)

abbrev a_completion : Wc
a_completion = record { wr_id = 8; succeeded = true }

-- Of 16 bytes the first call takes 10; three bytes have arrived, and another one behind them.
abbrev a_context : Rdma
a_context = record {
  is_active = true;
  mem = λ a. a % 256;
  socket = record {
    sends = some 10 ∷ ten_each 500;
    recvs = ten_each 3;
    out = [];
    inb = 1 ∷ 2 ∷ 3 ∷ 4 ∷ [];
  };
  agains = [];
  swq = [];
  rwq = [];
  send_polls = [];
  recv_polls = some a_completion ∷ [];
  posts = [];
  posted = [];
  regs = [];
  deregs = [];
}

partial_send_hangs_example :
    (h' : Rdma) × (lm_rdma_send_unbuffered (suc 500) 0 16 a_context ≡ some (none, h'))
partial_send_hangs_example =
    partial_send_hangs 500 0 16 10 a_context refl refl (omega arith) (omega arith) (omega arith)
      (ten_each-Ready 500)

nothing_written : a_context.mem ≡ write_bytes a_context.mem 100 []
unfolding write_bytes
nothing_written = refl

recv_loop_ends_example :
    (h' : Rdma) × (recv_loop 3 100 3 0 a_context ≡ some (some ret_ok, h'))
    × (h'.mem ≡ write_bytes a_context.mem 100 (1 ∷ 2 ∷ 3 ∷ []))
    × (h'.socket.inb ≡ 4 ∷ [])
recv_loop_ends_example =
    recv_loop_ends 3 100 (1 ∷ 2 ∷ 3 ∷ []) (4 ∷ []) [] a_context.mem a_context (omega arith) refl
      (omega arith) nothing_written (omega arith) (ten_each-Ready 3)

abbrev request_of : ℕ → RdmaRequest
request_of id = record { req_id = id; queue_type = recv_queue; wc = none }

nothing_aside : (id : ℕ) → find_wc id [] ≡ none
unfolding find_wc
nothing_aside id = refl

eight_ne_seven : ◌≡◌ {A = ℕ} 8 7 → ⊥
eight_ne_seven e = absurd (omega arith)

get_comp-get_comp_example :
    (h' : Rdma) × (lm_rdma_get_comp (request_of 7) a_context ≡ some (none, h'))
    × (lm_rdma_get_comp (request_of 8) h'
        ≡ some (
          some (record (request_of 8) { wc = some a_completion }),
          record a_context { recv_polls = [] },
        ))
get_comp-get_comp_example =
    get_comp-get_comp recv_queue (request_of 7) (request_of 8) a_completion [] a_context refl refl
      refl (nothing_aside 7) (nothing_aside 8) refl refl eight_ne_seven
