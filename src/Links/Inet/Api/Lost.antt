-- ===== src/Links/Inet/Api/Lost.antt =====
-- A request of lminet_handler.cpp that is refused, and the wait of lminet_sendrecv.cpp for it.
use flex_gas.Links.Inet.Api.{look_comp, take_comp, wait_loop, waiting}
use flex_gas.Links.Inet.Api.Completion.{Others, adding, look_miss}
use flex_gas.Links.Inet.Host.{Host}
use flex_gas.Links.Inet.Queues.{find_connection, is_free, place_request, pop_head}
use flex_gas.Links.Inet.Queues.Refusals.{place_busy}
use flex_gas.Links.Inet.Types.{InetConnection, InetRequest, Ptr, fail}
use flex_gas.Links.Sockets.{update}
use flex_gas.Prelude.{
  List, [], ap, arith, false, none, refl, some, suc, zero, ℕ, ◌++◌, ◌∷◌, ◌≡◌, ◌≢◌,
}

Others-append :
    (h : Host) (id : ℕ) (ps qs : List Ptr)
    → Others h id ps
    → Others h id qs
    → Others h id (ps ++ qs)
Others-append h id [] qs os more = more
Others-append h id (p ∷ ps) qs os more = (os.0, Others-append h id ps qs os.1 more)

-- A request keeps its identifier, so it stays none of the others.
Others-update :
    (h h' : Host) (p : Ptr) (id : ℕ) (r r1 : InetRequest) (ps : List Ptr)
    → h.requests p ≡ some r
    → r.req_id ≡ id
    → h'.requests ≡ update h.requests p (some r1)
    → Others h id ps
    → Others h' id ps
Others-update h h' p id r r1 [] live named stored os = tt
Others-update h h' p id r r1 (q ∷ ps) live named stored ((s, at_q, other), os) =
    ((s, rw stored (ground arith), other), Others-update h h' p id r r1 ps live named stored os)

look_empty : (h : Host) (id : ℕ) → h.comp_queue ≡ [] → look_comp id h ≡ some (none, h)
unfolding look_comp pop_head take_comp
look_empty h id e = ground arith

-- A wait goes on while all completions are those of other requests.
wait_loop_lasts :
    (new : Host → List Ptr) (id rounds : ℕ) (queue : List Ptr) (h : Host)
    → h.comp_queue ≡ queue
    → Others h id queue
    → ((v : Host) → Others h id (new v))
    → (h' : Host) × (wait_loop (adding new) rounds id h ≡ some (waiting, h'))
unfolding wait_loop
wait_loop_lasts new id zero queue h e os adds = (h, refl)
wait_loop_lasts new id (suc rounds) [] h e os adds =
    let h1 : Host = adding new h in
    let (h', ran) =
      wait_loop_lasts new id rounds (new h) h1 (ap (λ q. q ++ new h) e) (adds h) adds in
    (h', rw (look_empty h id e) ran)
wait_loop_lasts new id (suc rounds) (q ∷ qs) h e (o, os) adds =
    let h0 : Host = record h { comp_queue = qs ++ q ∷ [] } in
    let (h', ran) =
      wait_loop_lasts new id rounds ((qs ++ q ∷ []) ++ new h0) (adding new h0) refl
        (Others-append h id (qs ++ q ∷ []) (new h0) (Others-append h id qs (q ∷ []) os (o, tt))
          (adds h0))
        adds in
    (h', rw (look_miss h q qs o.0 id e o.1 o.2) ran)

-- A request for a connection that has another one under way is marked as failed, but the completion
-- queue gets the pointer of the one under way, which stays as it is: pending, if it was. The queue of
-- requests and the connections are as they were. Where no completion that stands in the queue or
-- that the handler adds later is one of a request with the identifier of the new one, and the one
-- under way has another identifier too, a wait for the new one never ends, however often it looks.
pub busy_request_lost :
    (new : Host → List Ptr) (rounds : ℕ) (p other : Ptr) (r o : InetRequest) (fd : ℕ)
    (c : InetConnection) (h : Host)
    → h.requests p ≡ some r
    → h.contexts r.context ≡ some fd
    → find_connection fd h.conn_tab ≡ some c
    → c.lreq.req ≡ some other
    → is_free c.lreq.state ≡ false
    → h.requests other ≡ some o
    → o.req_id ≢ r.req_id
    → Others h r.req_id h.comp_queue
    → ((v : Host) → Others h r.req_id (new v))
    → (h' h'' : Host) × (place_request p h ≡ some (false, h'))
      × (h'.requests p ≡ some (record r { status = fail }))
      × (h'.requests other ≡ some o)
      × (h'.comp_queue ≡ h.comp_queue ++ other ∷ [])
      × (h'.req_queue ≡ h.req_queue)
      × (h'.conn_tab ≡ h.conn_tab)
      × (wait_loop (adding new) rounds r.req_id h' ≡ some (waiting, h''))
busy_request_lost new rounds p other r o fd c h live known there under_way busy other_lives differs
      os adds =
    let r1 : InetRequest = record r { status = fail } in
    let h1 : Host = record h {
      requests = update h.requests p (some r1);
      comp_queue = h.comp_queue ++ other ∷ [];
    } in
    let keep : (ps : List Ptr) → Others h r.req_id ps → Others h1 r.req_id ps =
      λ ps. Others-update h h1 p r.req_id r r1 ps live refl refl in
    let (h2, ran) =
      wait_loop_lasts new r.req_id rounds h1.comp_queue h1 refl
        (keep h1.comp_queue
          (Others-append h r.req_id h.comp_queue (other ∷ []) os ((o, other_lives, differs), tt)))
        (λ v. keep (new v) (adds v)) in
    (
      h1,
      h2,
      place_busy p other r fd c h live known there under_way busy,
      ground arith,
      ground arith,
      refl,
      refl,
      refl,
      ran,
    )
