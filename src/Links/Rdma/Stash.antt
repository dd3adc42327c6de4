-- ===== src/Links/Rdma/Stash.antt =====
-- Completions that are put aside in src/lm/lmib_sendrecv.cpp.
use flex_gas.Links.Rdma.{
  QueueType, Rdma, RdmaRequest, Wc, erase_wc, find_wc, lm_rdma_get_comp, recv_queue, send_queue,
}
use flex_gas.Prelude.{List, Option, [], arith, none, some, true, ℕ, ◌++◌, ◌∷◌, ◌≡◌, ◌≢◌}

find_wc-append :
    (id : ℕ) (cs : List Wc) (c : Wc)
    → find_wc id cs ≡ none
    → c.wr_id ≡ id
    → find_wc id (cs ++ c ∷ []) ≡ some c
unfolding find_wc
find_wc-append id [] c fresh same = ground arith
find_wc-append id (d ∷ cs) c fresh same = ground (arith, find_wc-append id cs c)

erase_wc-append :
    (id : ℕ) (cs : List Wc) (c : Wc)
    → find_wc id cs ≡ none
    → c.wr_id ≡ id
    → erase_wc id (cs ++ c ∷ []) ≡ cs
unfolding find_wc erase_wc
erase_wc-append id [] c fresh same = ground arith
erase_wc-append id (d ∷ cs) c fresh same = ground (arith, erase_wc-append id cs c)

-- The completions that are put aside for the requests of a kind, and those that polling will give.
abbrev aside : QueueType → Rdma → List Wc
aside send_queue h = h.swq
aside recv_queue h = h.rwq

abbrev arrivals : QueueType → Rdma → List (Option Wc)
arrivals send_queue h = h.send_polls
arrivals recv_queue h = h.recv_polls

abbrev without_first : QueueType → List (Option Wc) → Rdma → Rdma
without_first send_queue more h = record h { send_polls = more }
without_first recv_queue more h = record h { recv_polls = more }

-- On an active context, for two requests of one kind, sends or receives, neither of which has its
-- completion put aside: a look for the completion of the one that finds that of the other gives -1
-- and loses nothing. The next look for the other request has it, without polling again, and leaves
-- what was put aside for both kinds as it was before.
pub get_comp-get_comp :
    (kind : QueueType) (r q : RdmaRequest) (c : Wc) (more : List (Option Wc)) (h : Rdma)
    → h.is_active ≡ true
    → r.queue_type ≡ kind
    → q.queue_type ≡ kind
    → find_wc r.req_id (aside kind h) ≡ none
    → find_wc q.req_id (aside kind h) ≡ none
    → arrivals kind h ≡ some c ∷ more
    → c.wr_id ≡ q.req_id
    → q.req_id ≢ r.req_id
    → (h' : Rdma) × (lm_rdma_get_comp r h ≡ some (none, h'))
      × (lm_rdma_get_comp q h' ≡ some (some (record q { wc = some c }), without_first kind more h))
unfolding lm_rdma_get_comp
get_comp-get_comp send_queue r q c more h up kind_r kind_q none_r none_q polls its other = (
  record h { send_polls = more; swq = h.swq ++ c ∷ [] },
  ground arith,
  ground (
    arith,
    find_wc-append q.req_id h.swq c none_q its,
    erase_wc-append q.req_id h.swq c none_q its,
  ),
)
get_comp-get_comp recv_queue r q c more h up kind_r kind_q none_r none_q polls its other = (
  record h { recv_polls = more; rwq = h.rwq ++ c ∷ [] },
  ground arith,
  ground (
    arith,
    find_wc-append q.req_id h.rwq c none_q its,
    erase_wc-append q.req_id h.rwq c none_q its,
  ),
)
