-- ===== src/Links/Inet/Api/Completion.antt =====
-- Taking completions from the queue.
use mathlib.Core.List.Sublist
use mathlib.Core.List.{Sublist, append-nil, sublist-append_right}
use flex_gas.Container.Map.{kept}
use flex_gas.Links.Inet.Api.{lm_inet_get_comp, look_comp, returned, take_comp, wait_loop}
use flex_gas.Links.Inet.Host.{Host}
use flex_gas.Links.Inet.Queues.{pop_head, push_tail}
use flex_gas.Links.Inet.Types.{InetRequest, Ptr}
use flex_gas.Links.Runs.{ret_err, ret_ok}
use flex_gas.Prelude.{
  List, [], ap, append_assoc, arith, length, none, refl, some, suc, sym, true, zero, ℕ, ◌++◌, ◌<◌,
  ◌∙◌, ◌∷◌, ◌≡◌, ◌≢◌,
}

-- The entries of the queue are requests with other identifiers.
abbrev pub Others : Host → ℕ → List Ptr → Type 0
Others h id [] = Unit {0}
Others h id (p ∷ ps) =
    ((r : InetRequest) × (h.requests p ≡ some r) × (r.req_id ≢ id)) × Others h id ps

look_hit :
    (h : Host) (p : Ptr) (ps : List Ptr) (r : InetRequest) (id : ℕ)
    → h.comp_queue ≡ p ∷ ps
    → h.requests p ≡ some r
    → r.req_id ≡ id
    → look_comp id h ≡ some (some p, record h { comp_queue = ps })
unfolding look_comp pop_head take_comp
look_hit h p ps r id e live same = rw e (ground arith)

pub look_miss :
    (h : Host) (p : Ptr) (ps : List Ptr) (r : InetRequest) (id : ℕ)
    → h.comp_queue ≡ p ∷ ps
    → h.requests p ≡ some r
    → r.req_id ≢ id
    → look_comp id h ≡ some (none, record h { comp_queue = ps ++ p ∷ [] })
unfolding look_comp pop_head take_comp push_tail
look_miss h p ps r id e live other = rw e (ground arith)

-- The handler only adds to the completion queue, whatever it adds and whenever.
abbrev pub adding : (Host → List Ptr) → Host → Host
adding new h = record h { comp_queue = h.comp_queue ++ new h }

-- A wait for a request whose completion stands in the queue ends after as many looks as entries of
-- other requests stand before it, and one more, whatever completions the handler adds meanwhile. It
-- takes this completion; those that stood behind it come first in the queue then, and those that
-- stood before it follow in their order, with what the handler has added between them.
pub wait_loop_ends :
    (new : Host → List Ptr) (before : List Ptr) (p : Ptr) (after : List Ptr) (r : InetRequest)
    (id rounds : ℕ) (h : Host)
    → h.comp_queue ≡ before ++ p ∷ after
    → Others h id before
    → h.requests p ≡ some r
    → r.req_id ≡ id
    → length before < rounds
    → (more : List Ptr) × (wait_loop (adding new) rounds id h
        ≡ some (returned ret_ok (some p), record h { comp_queue = after ++ more }))
      × Sublist before more
unfolding wait_loop
wait_loop_ends new before p after r id zero h e others live same enough = absurd (omega arith)
wait_loop_ends new [] p after r id (suc rounds) h e others live same enough =
    ([], rw (look_hit h p after r id e live same) (rw (append-nil after) refl), Sublist.refl [])
wait_loop_ends new (b ∷ before) p after r id (suc rounds) h e others live same enough =
    let h0 : Host = record h { comp_queue = (before ++ p ∷ after) ++ b ∷ [] } in
    let added : List Ptr = new h0 in
    let h1 : Host = adding new h0 in
    let placed : ((before ++ p ∷ after) ++ b ∷ []) ++ added
        ≡ before ++ (p ∷ ((after ++ b ∷ []) ++ added)) =
      append_assoc (before ++ p ∷ after) (b ∷ []) added
      ∙ append_assoc before (p ∷ after) (b ∷ added)
      ∙ ap (λ l. before ++ (p ∷ l)) (sym (append_assoc after (b ∷ []) added)) in
    let (more, ran, kept) =
      wait_loop_ends new before p ((after ++ b ∷ []) ++ added) r id rounds h1 placed others.1 live
        same (omega arith) in
    let tail : ((after ++ b ∷ []) ++ added) ++ more ≡ after ++ (b ∷ (added ++ more)) =
      append_assoc (after ++ b ∷ []) added more ∙ append_assoc after (b ∷ []) (added ++ more) in
    let all_ran : wait_loop (adding new) rounds id h1
        ≡ some
            (returned ret_ok (some p), record h { comp_queue = after ++ (b ∷ (added ++ more)) }) =
      ran ∙ ap (λ q. some (returned ret_ok (some p), record h { comp_queue = q })) tail in
    (
      b ∷ (added ++ more),
      rw (look_miss h b (before ++ p ∷ after) (others.0.0) id e (others.0.1) (others.0.2)) all_ran,
      Sublist.cons-cons b (Sublist.trans kept (sublist-append_right added more)),
    )

-- What lmInetGetComp does at once: with an empty queue it succeeds and gives nothing, with the
-- completion of the request at the head it takes that, and with another one there it fails and puts
-- that one behind the others.
pub lm_inet_get_comp_lem :
    (h : Host) (p : Ptr) (ps : List Ptr) (r : InetRequest) (id : ℕ)
    → h.is_initialized ≡ true
    → (h.comp_queue ≡ [] → lm_inet_get_comp id h ≡ some ((ret_ok, none), h))
      × (h.comp_queue ≡ p ∷ ps
          → h.requests p ≡ some r
          → r.req_id ≡ id
          → lm_inet_get_comp id h ≡ some ((ret_ok, some p), record h { comp_queue = ps }))
      × (h.comp_queue ≡ p ∷ ps
          → h.requests p ≡ some r
          → r.req_id ≢ id
          → lm_inet_get_comp id h ≡ some ((ret_err, none), record h { comp_queue = ps ++ p ∷ [] }))
unfolding lm_inet_get_comp pop_head take_comp push_tail
lm_inet_get_comp_lem h p ps r id up = (
  λ e. rw e (ground arith),
  λ e live same. rw e (ground arith),
  λ e live other. rw e (ground arith),
)
