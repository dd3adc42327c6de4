-- ===== src/Tests/InetCalls.antt =====
-- The calls of the socket link on full queues and on a connection that is busy.
use mathlib.Core.List.{Sublist}
use flex_gas.Links.Inet.Api.{returned, wait_loop, waiting}
use flex_gas.Links.Inet.Api.Completion.{Others, adding, wait_loop_ends}
use flex_gas.Links.Inet.Api.Lost.{busy_request_lost}
use flex_gas.Links.Inet.Host.{Host}
use flex_gas.Links.Inet.Queues.{find_connection, is_free, place_request}
use flex_gas.Links.Inet.Types.{InetRequest, Ptr, body, fail}
use flex_gas.Links.Runs.{ret_ok}
use flex_gas.Prelude.{
  List, Option, [], arith, false, if◌then◌else◌, none, refl, some, ℕ, ◌==◌, ◌∷◌, ◌≡◌,
}
use flex_gas.Tests.InetHosts.{a_host, message_request, posted_receive, with_request}

-- A host with two completions: that of request 1 stands behind one of request 9.
abbrev two_requests : Ptr → Option InetRequest
two_requests q =
    if q == 5 then some message_request else if q == 6 then some posted_receive else none

abbrev two_done : Host
two_done = record (a_host message_request 5 []) {
  requests = two_requests;
  comp_queue = 6 ∷ 5 ∷ 7 ∷ [];
}

nine_ne_one : ◌≡◌ {A = ℕ} 9 1 → ⊥
nine_ne_one e = absurd (omega arith)

wait_loop_ends_example :
    (more : List Ptr) × (wait_loop (adding (λ _. 8 ∷ [])) 2 1 two_done
      ≡ some (returned ret_ok (some 5), record two_done { comp_queue = 7 ∷ more }))
    × Sublist (6 ∷ []) more
wait_loop_ends_example =
    wait_loop_ends (λ _. 8 ∷ []) (6 ∷ []) 5 (7 ∷ []) message_request 1 2 two_done refl
      ((posted_receive, refl, nine_ne_one), tt) refl refl (omega arith)

-- A host whose connection 3 is busy with request 6 while 5 is posted.
abbrev busy_host : Host
busy_host = record two_done { conn_tab = with_request 6 body ∷ []; comp_queue = 6 ∷ [] }

no_completion : (id : ℕ) (v : Host) → Others busy_host id []
no_completion id v = tt

busy_request_lost_example :
    (h' h'' : Host) × (place_request 5 busy_host ≡ some (false, h'))
    × (h'.requests 5 ≡ some (record message_request { status = fail }))
    × (h'.requests 6 ≡ some posted_receive)
    × (h'.comp_queue ≡ 6 ∷ 6 ∷ [])
    × (h'.req_queue ≡ [])
    × (h'.conn_tab ≡ with_request 6 body ∷ [])
    × (wait_loop (adding (λ _. [])) 1000 1 h' ≡ some (waiting, h''))
unfolding find_connection is_free
busy_request_lost_example =
    busy_request_lost (λ _. []) 1000 5 6 message_request posted_receive 3 (with_request 6 body)
      busy_host refl refl refl refl refl refl nine_ne_one ((posted_receive, refl, nine_ne_one), tt)
      (no_completion 1)
