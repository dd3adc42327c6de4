-- ===== src/Links/Rdma.antt =====
-- The RDMA link: src/lm/lmib_sendrecv.cpp. Its blocking calls go over a socket, the others post to
-- the verbs library, whose results are taken from lists in the state.
pub mod Loops
pub mod Stash
use flex_gas.Links.Memory.{Memory, drop, min, read_bytes, sub64, write_bytes}
use flex_gas.Links.Runs.{Ret, Run, get, pure, put, ret_err, ret_ok, ◌>>=◌, ◌>>◌}
use flex_gas.Links.Sockets.{Socket, granted, next_result, remaining}
use flex_gas.Prelude.{
  Bool, List, Option, [], false, if◌then◌else◌, length, ltb, none, some, suc, take, true, zero, ℕ,
  ◌%◌, ◌&&◌, ◌++◌, ◌+◌, ◌==◌, ◌∷◌,
}
use flex_gas.Recursion.Rounds.{again}
use flex_gas.Sched.Local.Foreign.{refused}

-- What the code reads of an ibv_wc.
pub record Wc : Type 0 where
  pub wr_id : ℕ
  pub succeeded : Bool

pub data QueueType : Type 0 where
  send_queue recv_queue : QueueType

pub record RdmaRequest : Type 0 where
  pub req_id : ℕ
  pub queue_type : QueueType
  pub wc : Option Wc

-- A work request with its one scatter/gather element, as it is posted; a completion is always asked
-- for, and the opcode of one that is sent is IBV_WR_SEND.
pub record WorkRequest : Type 0 where
  pub queue_type : QueueType
  pub wr_id : ℕ
  pub addr : ℕ
  pub num_bytes : ℕ
  pub lkey : ℕ

-- A context with its process. `polls` are the results of ibv_poll_cq, `none` for an empty queue,
-- `posts` and `deregs` whether a call succeeds, `regs` the lkey of the region of ibv_reg_mr, `none` for NULL;
-- `agains` says of each failing recv whether errno is EAGAIN.
pub record Rdma : Type 0 where
  pub is_active : Bool
  pub mem : Memory
  pub socket : Socket
  pub agains : List Bool
  pub swq : List Wc
  pub rwq : List Wc
  pub send_polls : List (Option Wc)
  pub recv_polls : List (Option Wc)
  pub posts : List Bool
  pub posted : List WorkRequest
  pub regs : List (Option ℕ)
  pub deregs : List Bool

abbrev M : Type 0 → Type 0
M = Run Rdma

-- TEST_ACTIVE
abbrev test_active : {A : Type 0} → A → M A → M A
test_active refused k h = if h.is_active then k h else pure refused h

abbrev is_next : List Bool → Bool
is_next [] = false
is_next (b ∷ bs) = b

-- ibv_post_send and ibv_post_recv
abbrev post_call : WorkRequest → M Ret
post_call wr h =
    if is_next h.posts
    then pure ret_ok (record h { posts = remaining h.posts; posted = h.posted ++ wr ∷ [] })
    else pure ret_err (record h { posts = remaining h.posts })

-- The length of an element is a uint32_t.
unfoldable pub rdma_post_send : (id addr lkey length : ℕ) → M Ret
rdma_post_send id a key len = post_call (record {
  queue_type = send_queue;
  wr_id = id;
  addr = a;
  num_bytes = len % 0x100000000;
  lkey = key;
})

unfoldable pub rdma_post_recv : (id addr lkey length : ℕ) → M Ret
rdma_post_recv id a key len = post_call (record {
  queue_type = recv_queue;
  wr_id = id;
  addr = a;
  num_bytes = len % 0x100000000;
  lkey = key;
})

abbrev reg_call : M (Option ℕ)
reg_call h = pure (next_result h.regs) (record h { regs = remaining h.regs })

abbrev dereg_call : M Bool
dereg_call h = pure (is_next h.deregs) (record h { deregs = remaining h.deregs })

-- n < (int) length, for an n that is not negative.
unfoldable pub below_int : ℕ → ℕ → Bool
below_int n len = ltb (len % 0x100000000) 0x80000000 && ltb n (len % 0x100000000)

abbrev taken_bytes : Option ℕ → ℕ → List ℕ → Option (List ℕ)
taken_bytes none len inb = none
taken_bytes (some k) len inb = some (take (min k (min len (length inb))) inb)

-- recv: the bytes, or `none` for -1.
abbrev recv_call : ℕ → M (Option (List ℕ))
recv_call len h =
    let s = h.socket in
    pure (taken_bytes (next_result s.recvs) len s.inb) (record h {
      socket = record s {
        recvs = remaining s.recvs;
        inb = drop (granted (next_result s.recvs) (min len (length s.inb))) s.inb;
      };
    })

abbrev sent_count : Option ℕ → ℕ → Option ℕ
sent_count none len = none
sent_count (some k) len = some (min k len)

-- send: the number of bytes, or `none` for -1.
abbrev send_call : List ℕ → M (Option ℕ)
send_call buf h =
    let s = h.socket in
    pure (sent_count (next_result s.sends) (length buf)) (record h {
      socket = record s {
        sends = remaining s.sends;
        out = s.out ++ take (granted (next_result s.sends) (length buf)) buf;
      };
    })

abbrev next_again : M Bool
next_again h = pure (is_next h.agains) (record h { agains = remaining h.agains })

-- The loop of lmRdmaRecvUnbuffered; the result is `none` while it lasts.
unfoldable pub recv_loop : (rounds addr length recv_bytes : ℕ) → M (Option Ret)
recv_loop zero addr len n = pure none
recv_loop (suc rounds) addr len n = do
  got ← recv_call (sub64 len n)
  elim got [
    | none ↦ do
      again ← next_again
      elim again [
        | false ↦ pure (some ret_err)
        | true ↦ elim (below_int n len) [
          | true ↦ recv_loop rounds addr len n
          | false ↦ pure (some ret_ok)
        ]
      ]
    | some bs ↦ do
      h ← get
      put (record h { mem = write_bytes h.mem (addr + n) bs })
      elim (below_int (n + length bs) len) [
        | true ↦ recv_loop rounds addr len (n + length bs)
        | false ↦ pure (some ret_ok)
      ]
  ]

unfoldable pub lm_rdma_recv_unbuffered : (rounds addr length : ℕ) → M (Option Ret)
lm_rdma_recv_unbuffered rounds addr len = test_active (some ret_err) (recv_loop rounds addr len 0)

-- The loop of lmRdmaSendUnbuffered, which tests what the last call sent, not what all have.
unfoldable pub send_loop : (rounds addr length sent_bytes : ℕ) → M (Option Ret)
send_loop zero addr len n = pure none
send_loop (suc rounds) addr len n = do
  h ← get
  sent ← send_call (read_bytes h.mem (addr + n) (sub64 len n))
  elim sent [
    | none ↦ pure (some ret_err)
    | some k ↦ elim (below_int k len) [
      | true ↦ send_loop rounds addr len (n + k)
      | false ↦ pure (some ret_ok)
    ]
  ]

unfoldable pub lm_rdma_send_unbuffered : (rounds addr length : ℕ) → M (Option Ret)
lm_rdma_send_unbuffered rounds addr len = test_active (some ret_err) (send_loop rounds addr len 0)

-- The request of an asynchronous call, `none` where it fails.
unfoldable pub lm_rdma_recv_unbuffered_async : (id addr length : ℕ) → M (Option RdmaRequest)
unfolding rdma_post_recv
lm_rdma_recv_unbuffered_async id a len = test_active none (do
  mr ← reg_call
  elim mr [
    | none ↦ pure none
    | some key ↦ do
      rc ← rdma_post_recv id a key len
      pure (elim rc [
        | ret_err ↦ none
        | ret_ok ↦ some (record { req_id = id; queue_type = recv_queue; wc = none })
      ])
  ])

unfoldable pub lm_rdma_send_unbuffered_async : (id addr length : ℕ) → M (Option RdmaRequest)
unfolding rdma_post_send
lm_rdma_send_unbuffered_async id a len = test_active none (do
  mr ← reg_call
  elim mr [
    | none ↦ pure none
    | some key ↦ do
      rc ← rdma_post_send id a key len
      pure (elim rc [
        | ret_err ↦ none
        | ret_ok ↦ some (record { req_id = id; queue_type = send_queue; wc = none })
      ])
  ])

-- The entry of a request among the completions that were put aside.
unfoldable pub find_wc : ℕ → List Wc → Option Wc
find_wc id [] = none
find_wc id (c ∷ cs) = if c.wr_id == id then some c else find_wc id cs

unfoldable pub erase_wc : ℕ → List Wc → List Wc
erase_wc id [] = []
erase_wc id (c ∷ cs) = if c.wr_id == id then cs else c ∷ erase_wc id cs

abbrev queue_of : QueueType → Rdma → List Wc
queue_of send_queue h = h.swq
queue_of recv_queue h = h.rwq

abbrev with_queue : QueueType → List Wc → Rdma → Rdma
with_queue send_queue cs h = record h { swq = cs }
with_queue recv_queue cs h = record h { rwq = cs }

abbrev polls_of : QueueType → Rdma → List (Option Wc)
polls_of send_queue h = h.send_polls
polls_of recv_queue h = h.recv_polls

abbrev polled : QueueType → Rdma → Rdma
polled send_queue h = record h { send_polls = remaining h.send_polls }
polled recv_queue h = record h { recv_polls = remaining h.recv_polls }

-- The request with its completion, or `none` for -1. A completion of another request is put aside.
unfoldable pub lm_rdma_get_comp : RdmaRequest → M (Option RdmaRequest)
unfolding find_wc erase_wc
lm_rdma_get_comp r = test_active none (λ h. elim (find_wc r.req_id (queue_of r.queue_type h)) [
  | some c ↦
      pure (some (record r { wc = some c }))
        (with_queue r.queue_type (erase_wc r.req_id (queue_of r.queue_type h)) h)
  | none ↦ elim (next_result (polls_of r.queue_type h)) [
    | none ↦ pure none (polled r.queue_type h)
    | some c ↦ elim (c.wr_id == r.req_id) [
      | true ↦ pure (some (record r { wc = some c })) (polled r.queue_type h)
      | false ↦
          pure none
            (with_queue r.queue_type (queue_of r.queue_type h ++ c ∷ []) (polled r.queue_type h))
    ]
  ]
])

-- The loop of lmRdmaWaitComp, `none` while it lasts.
unfoldable pub lm_rdma_wait_comp : ℕ → RdmaRequest → M (Option RdmaRequest)
unfolding lm_rdma_get_comp
lm_rdma_wait_comp zero r = pure none
lm_rdma_wait_comp (suc rounds) r = do
  found ← lm_rdma_get_comp r
  elim found [ some q ↦ pure (some q) | none ↦ lm_rdma_wait_comp rounds r ]
