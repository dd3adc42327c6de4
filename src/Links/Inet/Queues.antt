-- ===== src/Links/Inet/Queues.antt =====
-- The queues of src/lm/lminet_handler.h, and how the handler of lminet_handler.cpp takes file
-- descriptors and requests from them.
pub mod Refusals
use flex_gas.Links.Inet.Host.{M, epoll_ctl, load_request, push_comp, set_status}
use flex_gas.Links.Inet.Types.{
  InetConnection, Ptr, RequestRec, RequestState, auto, body, fail, free, header,
}
use flex_gas.Links.Runs.{Ret, deref, get, pure, put, ret_err, ret_ok, ◌>>=◌, ◌>>◌}
use flex_gas.Prelude.{
  Bool, List, Option, [], false, if◌then◌else◌, leb, ltb, none, some, true, ℕ, ◌++◌, ◌==◌, ◌∷◌,
}

-- A pop gives -1 (`none`) on an empty queue.
unfoldable pub push_tail {ℓ} : {A : Type ℓ} → A → List A → List A
push_tail a q = q ++ a ∷ []

unfoldable pub pop_head {ℓ} : {A : Type ℓ} → List A → Option (A × List A)
pop_head [] = none
pop_head (a ∷ q) = some (a, q)

unfoldable pub register_file_descriptor : ℕ → M Ret
unfolding push_tail
register_file_descriptor fd h =
    if leb fd 2
    then pure ret_err h
    else pure ret_ok (record h { fd_queue = push_tail fd h.fd_queue })

unfoldable pub submit_request : Option Ptr → M Ret
unfolding push_tail
submit_request none = pure ret_err
submit_request (some p) = λ h. pure ret_ok (record h { req_queue = push_tail p h.req_queue })

unfoldable pub new_record : ℕ → RequestRec
new_record fd = record { req = none; preq = λ _. 0; fd = fd; state = free; rbytes = 0 }

unfoldable pub new_connection : ℕ → InetConnection
unfolding new_record
new_connection fd = record { fd = fd; events = true; lreq = new_record fd; rreq = new_record fd }

-- The table is a std::map: an insert keeps the order of the keys, and changes nothing under a key
-- that is there.
unfoldable pub insert_connection : InetConnection → List InetConnection → List InetConnection
insert_connection c [] = c ∷ []
insert_connection c (d ∷ ds) =
    let later = insert_connection c ds in
    if ltb c.fd d.fd then c ∷ d ∷ ds else if c.fd == d.fd then d ∷ ds else d ∷ later

unfoldable pub find_connection : ℕ → List InetConnection → Option InetConnection
find_connection fd [] = none
find_connection fd (d ∷ ds) = if d.fd == fd then some d else find_connection fd ds

-- The connection of a key as it is after a change through its pointer.
unfoldable pub set_connection : InetConnection → List InetConnection → List InetConnection
set_connection c [] = []
set_connection c (d ∷ ds) = (if d.fd == c.fd then c else d) ∷ set_connection c ds

unfoldable pub erase_connection : ℕ → List InetConnection → List InetConnection
erase_connection fd [] = []
erase_connection fd (d ∷ ds) = if d.fd == fd then ds else d ∷ erase_connection fd ds

-- The loop of _RetrieveFdFromQueue over the queue: one round for each descriptor.
unfoldable pub retrieve_fds : List ℕ → M Ret
unfolding new_connection insert_connection
retrieve_fds [] h = pure ret_ok h
retrieve_fds (fd ∷ fds) h =
    (do
      put (record h { fd_queue = fds; conn_tab = insert_connection (new_connection fd) h.conn_tab })
      rc ← epoll_ctl
      elim rc [ ret_ok ↦ retrieve_fds fds | ret_err ↦ pure ret_err ])
      h

unfoldable pub retrieve_fd_from_queue : M Ret
unfolding retrieve_fds
retrieve_fd_from_queue h = retrieve_fds h.fd_queue h

unfoldable pub is_free : RequestState → Bool
is_free free = true
is_free header = false
is_free body = false
is_free auto = false

-- Enters the request into its connection; the handler starts with its header.
unfoldable pub enter_request : Ptr → InetConnection → M (Unit {0})
unfolding set_connection
enter_request p c h =
    put
      (record h {
        conn_tab =
            set_connection
              (record c { lreq = record (c.lreq) { req = some p; state = header; rbytes = 0 } })
              h.conn_tab;
      })
      h

-- The request fails with -1 on its descriptor: another one is under way. The source then puts the
-- pointer of that other one on the completion queue.
unfoldable pub refuse_busy : Ptr → InetConnection → M (Unit {0})
refuse_busy p c = do set_status p fail; other ← deref c.lreq.req; push_comp other

unfoldable pub refuse_unknown : Ptr → M (Unit {0})
refuse_unknown p = do set_status p fail; push_comp p

-- Where the table has no connection, after one more look into the queue of descriptors. The result
-- says whether the loop goes on.
unfoldable pub place_late : Ptr → ℕ → M Bool
unfolding retrieve_fd_from_queue find_connection enter_request refuse_unknown
place_late p fd = do
  _ ← retrieve_fd_from_queue
  h ← get
  elim (find_connection fd h.conn_tab) [
    | none ↦ do refuse_unknown p; pure false
    | some c ↦ do enter_request p c; pure true
  ]

unfoldable pub place_request : Ptr → M Bool
unfolding place_late find_connection is_free refuse_busy enter_request
place_request p = do
  r ← load_request p
  h ← get
  fd ← deref (h.contexts r.context)
  elim (find_connection fd h.conn_tab) [
    | none ↦ place_late p fd
    | some c ↦ elim (is_free c.lreq.state) [
      | true ↦ do enter_request p c; pure true
      | false ↦ do refuse_busy p c; pure false
    ]
  ]

-- The loop of _RetrieveReqFromQueue over the queue.
unfoldable pub retrieve_reqs : List Ptr → M (Unit {0})
unfolding place_request
retrieve_reqs [] h = pure tt h
retrieve_reqs (p ∷ ps) h =
    (do
      put (record h { req_queue = ps })
      more ← place_request p
      elim more [ true ↦ retrieve_reqs ps | false ↦ pure tt ])
      h

unfoldable pub retrieve_req_from_queue : M (Unit {0})
unfolding retrieve_reqs
retrieve_req_from_queue h = retrieve_reqs h.req_queue h
