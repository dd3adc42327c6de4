-- ===== src/Links/Shm/Delivery.antt =====
-- A receive over the socket of the shared-memory link, from its first piece to its completion.
use flex_gas.Links.Memory.{drop, min, sub64, write_bytes}
use flex_gas.Links.Runs.{ret_err, ret_ok}
use flex_gas.Links.Shm.Calls.{pending_bytes, shm_sock_recv}
use flex_gas.Links.Shm.Completions.{all_received, recv_status, shm_get_comp}
use flex_gas.Links.Shm.State.{
  Process, Ptr, ShmRequest, hdr_length, recv_wait_bdy, recv_wait_hdr, shm_header_size, shm_recv,
}
use flex_gas.Links.Shm.Transfers.{
  recv_bdy, recv_hdr, recv_piece, remove_entry, remove_req_queue_entry, shm_submit_recv,
}
use flex_gas.Links.Sockets.{next_result, remaining, update}
use flex_gas.Prelude.{
  List, Option, [], ap, arith, false, if◌then◌else◌, length, ltb, refl, some, sym, take, true, ℕ,
  ◌++◌, ◌+◌, ◌==◌, ◌∙◌, ◌∷◌, ◌≡◌,
}

-- The requests before p in the queue have other identifiers.
abbrev pub OthersAhead : ℕ → List Ptr → (Ptr → Option ShmRequest) → Type 0
OthersAhead id [] requests = Unit {0}
OthersAhead id (q ∷ qs) requests =
    ((s : ShmRequest) × (requests q ≡ some s) × ((s.req_id == id) ≡ false))
    × OthersAhead id qs requests

-- Request p, with this identifier, stands in the queue, whose other requests are `qs`.
pub record Queued (p : Ptr) (id : ℕ) (qs : List Ptr) (h : Process) : Type 0 where
  pub front : List Ptr
  pub back : List Ptr
  pub place : h.req_queue ≡ front ++ p ∷ back
  pub others : qs ≡ front ++ back
  pub ahead : OthersAhead id front h.requests

-- A request keeps its identifier, so it takes the place of none ahead of it.
OthersAhead-update :
    (p : Ptr) (id : ℕ) (qs : List Ptr) (r r1 : ShmRequest) (requests : Ptr → Option ShmRequest)
    → requests p ≡ some r
    → r.req_id ≡ id
    → OthersAhead id qs requests
    → OthersAhead id qs (update requests p (some r1))
OthersAhead-update p id [] r r1 requests live named ahead = tt
OthersAhead-update p id (q ∷ qs) r r1 requests live named ((s, at_q, other), ahead) =
    ((s, ground arith, other), OthersAhead-update p id qs r r1 requests live named ahead)

pub Queued-update :
    (p : Ptr) (id : ℕ) (qs : List Ptr) (r r1 : ShmRequest) (h h1 : Process)
    → h.requests p ≡ some r
    → r.req_id ≡ id
    → h1.req_queue ≡ h.req_queue
    → h1.requests ≡ update h.requests p (some r1)
    → Queued p id qs h
    → Queued p id qs h1
Queued-update p id qs r r1 h h1 live named same stored q = record {
  front = q.front;
  back = q.back;
  place = same ∙ q.place;
  others = q.others;
  ahead = rw stored (OthersAhead-update p id q.front r r1 h.requests live named q.ahead);
}

remove_entry-append :
    (p : Ptr) (id : ℕ) (front back : List Ptr) (r : ShmRequest) (h : Process)
    → h.requests p ≡ some r
    → r.req_id ≡ id
    → OthersAhead id front h.requests
    → remove_entry id (front ++ p ∷ back) h ≡ some (front ++ back, h)
unfolding remove_entry
remove_entry-append p id [] back r h live named ahead = ground arith
remove_entry-append p id (q ∷ front) back r h live named ((s, at_q, other), ahead) =
    rw (at_q, other, remove_entry-append p id front back r h live named ahead) refl

-- The request leaves the queue, and no other does.
pub Queued-remove :
    (p : Ptr) (id : ℕ) (qs : List Ptr) (r : ShmRequest) (h : Process)
    → h.requests p ≡ some r
    → r.req_id ≡ id
    → Queued p id qs h
    → remove_entry id h.req_queue h ≡ some (qs, h)
Queued-remove p id qs r h live named q =
    ap (λ l. remove_entry id l h) q.place
    ∙ remove_entry-append p id q.front q.back r h live named q.ahead
    ∙ ap (λ l. some (l, h)) (sym q.others)

-- A receive under p of a message that another process sent as `snd`; `want` is the length that was
-- asked for.
pub record Receives (p : Ptr) (fd id dst want : ℕ) (qs : List Ptr) (r : ShmRequest) (h : Process)
    : Type 0 where
  pub live : h.requests p ≡ some r
  pub is_recv : r.type ≡ shm_recv
  pub known : h.contexts r.context ≡ some fd
  pub at_dst : r.addr ≡ dst
  pub wants : r.length ≡ want
  pub named : r.req_id ≡ id
  pub queued : Queued p id qs h
  pub healthy : h.ioctls ≡ []

-- The state behind a call of recv for so many bytes, of which the kernel has k ready.
abbrev pub after_take : ℕ → ℕ → ℕ → Process → Process
after_take fd k len h =
    let s = h.sockets fd in
    record h {
      ioctls = [];
      sockets = update h.sockets fd (record s {
        recvs = remaining s.recvs;
        inb = drop (min k (min len (length s.inb))) s.inb;
      });
    }

-- One look at a receive that is not complete, where bytes have arrived.
module _ (p : Ptr) (fd id dst want : ℕ) (qs : List Ptr) (r : ShmRequest) (h : Process)
    (now : Receives p fd id dst want qs r h) (part : all_received r ≡ false)
    (arrived : ltb 0 (length (h.sockets fd).inb) ≡ true) (k : ℕ)
    (ready : next_result (h.sockets fd).recvs ≡ some k) where
  pub look_hdr :
      (bs : List ℕ)
      → r.status ≡ recv_wait_hdr
      → take
          (min k (min (sub64 shm_header_size r.acc_buf_length) (length (h.sockets fd).inb)))
          (h.sockets fd).inb
        ≡ bs
      → shm_get_comp p h
        ≡ some (
          ret_err,
          record (after_take fd k (sub64 shm_header_size r.acc_buf_length) h) {
            requests = update h.requests p (
                some (record r {
                  hdrbuf = write_bytes r.hdrbuf r.acc_buf_length bs;
                  acc_buf_length = r.acc_buf_length + length bs;
                  status =
                      if (r.acc_buf_length + length bs) == shm_header_size
                      then recv_wait_bdy
                      else recv_wait_hdr;
                }));
          },
        )
  unfolding shm_get_comp shm_submit_recv pending_bytes recv_piece recv_hdr shm_sock_recv
  look_hdr bs at its = ground arith

  pub look_bdy :
      (bs : List ℕ)
      → r.status ≡ recv_wait_bdy
      → take
          (min k (min (sub64 (hdr_length r.hdrbuf) r.acc_length) (length (h.sockets fd).inb)))
          (h.sockets fd).inb
        ≡ bs
      → shm_get_comp p h
        ≡ some (
          ret_err,
          record (after_take fd k (sub64 (hdr_length r.hdrbuf) r.acc_length) h) {
            mem = write_bytes h.mem (r.addr + r.acc_length) bs;
            requests =
                update h.requests p (some (record r { acc_length = r.acc_length + length bs }));
          },
        )
  unfolding shm_get_comp shm_submit_recv pending_bytes recv_piece recv_bdy shm_sock_recv
  look_bdy bs at its = ground arith

pub look_done :
    (p : Ptr) (fd id dst want : ℕ) (qs : List Ptr) (r : ShmRequest) (h : Process)
    → Receives p fd id dst want qs r h
    → all_received r ≡ true
    → shm_get_comp p h
      ≡ some (
        ret_ok,
        record h {
          requests = update h.requests p (some (record r { status = recv_status r }));
          req_queue = qs;
        },
      )
unfolding shm_get_comp remove_req_queue_entry
look_done p fd id dst want qs r h now whole =
    let r1 : ShmRequest = record r { status = recv_status r } in
    let h1 : Process = record h { requests = update h.requests p (some r1) } in
    let q : Queued p id qs h1 =
      Queued-update p id qs r r1 h h1 now.live now.named refl refl now.queued in
    let gone : remove_entry id h1.req_queue h1 ≡ some (qs, h1) =
      Queued-remove p id qs r1 h1 (ground arith) now.named q in
    ground arith
