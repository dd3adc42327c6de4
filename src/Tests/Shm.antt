-- ===== src/Tests/Shm.antt =====
-- A receive 5 on the descriptor 3 of the shared-memory link, for a message of two bytes of which all
-- has arrived, and a segment.
use flex_gas.Links.Memory.{read_bytes, write_bytes}
use flex_gas.Links.Runs.{ret_ok}
use flex_gas.Links.Shm.Completions.{all_received, shm_wait_loop}
use flex_gas.Links.Shm.Delivery.{Receives}
use flex_gas.Links.Shm.Failures.{empty_message_waits, failed_receive_unseen}
use flex_gas.Links.Shm.Pieces.{Done, InFlight, at_hdr}
use flex_gas.Links.Shm.State.{
  Process, ShmRequest, hdr_length, recv_wait_bdy, recv_wait_hdr, shm_fail, shm_header, shm_pending,
  shm_recv, shm_send, shm_status_code, shm_type_code,
}
use flex_gas.Links.Shm.Waiting.{wait_receives}
use flex_gas.Links.Sockets.{Ready}
use flex_gas.Prelude.{
  List, Option, [], arith, false, if◌then◌else◌, inl, length, none, refl, some, suc, zero, ℕ, ◌%◌,
  ◌++◌, ◌<◌, ◌==◌, ◌∷◌, ◌≡◌,
}

-- The request of the sender.
abbrev their_send : ShmRequest
their_send = record {
  req_id = 1;
  context = 2;
  type = shm_send;
  status = shm_pending;
  addr = 10;
  length = 2;
  acc_length = 0;
  hdrbuf = λ _. 0;
  acc_buf_length = 0;
}

abbrev our_receive : ShmRequest
our_receive = record {
  req_id = 9;
  context = 2;
  type = shm_recv;
  status = recv_wait_hdr;
  addr = 200;
  length = 2;
  acc_length = 0;
  hdrbuf = λ _. 0;
  acc_buf_length = 0;
}

abbrev two_bytes : List ℕ
two_bytes = 7 ∷ 8 ∷ []

-- So many calls that move up to 64 bytes each.
abbrev able : ℕ → List (Option ℕ)
able zero = []
able (suc n) = some 64 ∷ able n

able-Ready : (n : ℕ) → Ready n (able n)
able-Ready zero = tt
able-Ready (suc n) = ((63, refl), able-Ready n)

abbrev a_process : List (Option ℕ) → List ℕ → Process
a_process recvs inb = record {
  mem = λ a. a % 256;
  requests = λ q. if q == 5 then some our_receive else none;
  regions =
      λ q. if q == 4 then some (record { name = 1 ∷ []; fd = 0; addr = 0; length = 16 }) else none;
  contexts = λ _. some 3;
  fresh = 50;
  req_queue = 5 ∷ [];
  sockets = λ _. record { sends = []; recvs = recvs; out = []; inb = inb };
  ioctls = [];
  calls = record {
    opens = some 6 ∷ [];
    maps = none ∷ [];
    truncates = [];
    unmaps = [];
    unlinks = [];
  };
}

arrived_message : Process
arrived_message = a_process (able 27) (shm_header their_send ++ two_bytes)

arrived-Receives : Receives 5 3 9 200 2 [] our_receive arrived_message
unfolding arrived_message
arrived-Receives = record {
  live = refl;
  is_recv = refl;
  known = refl;
  at_dst = refl;
  wants = refl;
  named = refl;
  queued = record { front = []; back = []; place = refl; others = refl; ahead = tt };
  healthy = refl;
}

arrived-InFlight :
    InFlight 5 3 9 200 2 [] their_send two_bytes arrived_message.mem arrived_message []
unfolding arrived_message
arrived-InFlight =
    at_hdr our_receive arrived-Receives refl refl refl (omega arith)
      (λ _. 0, unfold write_bytes in refl) refl

arrived_stream : (arrived_message.sockets 3).inb ≡ shm_header their_send ++ two_bytes
unfolding arrived_message
arrived_stream = refl

arrived_few : length (arrived_message.sockets 3).inb < 27
unfolding arrived_message shm_header shm_type_code shm_status_code
arrived_few = omega arith

arrived-Ready : Ready 27 (arrived_message.sockets 3).recvs
unfolding arrived_message
arrived-Ready = able-Ready 27

wait_receives_example :
    (h' : Process) × (shm_wait_loop (λ h. h) 27 5 arrived_message ≡ some (some ret_ok, h'))
    × Done 5 3 9 200 2 [] their_send two_bytes arrived_message.mem h'
wait_receives_example =
    wait_receives 27 5 3 9 200 2 [] their_send two_bytes arrived_message.mem arrived_message []
      (omega arith) refl (omega arith) arrived-InFlight arrived_stream arrived_few arrived-Ready

-- The header of a message without data has come in whole.
abbrev empty_receive : ShmRequest
empty_receive = record our_receive { status = recv_wait_bdy; acc_buf_length = 24 }

abbrev empty_process : Process
empty_process = record (a_process [] []) {
  requests = λ q. if q == 5 then some empty_receive else none;
}

empty-Receives : Receives 5 3 9 200 2 [] empty_receive empty_process
empty-Receives = record {
  live = refl;
  is_recv = refl;
  known = refl;
  at_dst = refl;
  wants = refl;
  named = refl;
  queued = record { front = []; back = []; place = refl; others = refl; ahead = tt };
  healthy = refl;
}

empty_says : hdr_length empty_receive.hdrbuf ≡ 0
unfolding hdr_length read_bytes
empty_says = refl

empty_message_waits_example :
    shm_wait_loop (λ h. h) 1000 5 empty_process ≡ some (none, empty_process)
empty_message_waits_example =
    empty_message_waits 5 3 9 200 2 [] empty_receive empty_process empty-Receives 1000 empty_says
      refl

abbrev broken_process : Process
broken_process = a_process (none ∷ []) two_bytes

broken-Receives : Receives 5 3 9 200 2 [] our_receive broken_process
broken-Receives = record {
  live = refl;
  is_recv = refl;
  known = refl;
  at_dst = refl;
  wants = refl;
  named = refl;
  queued = record { front = []; back = []; place = refl; others = refl; ahead = tt };
  healthy = refl;
}

nothing_received : all_received our_receive ≡ false
unfolding all_received hdr_length read_bytes
nothing_received = refl

failed_receive_unseen_example :
    (h' : Process) × (shm_wait_loop (λ h. h) 1 5 broken_process ≡ some (some ret_ok, h'))
    × (h'.requests 5 ≡ some (record our_receive { status = shm_fail }))
    × (h'.req_queue ≡ [])
    × (h'.mem ≡ broken_process.mem)
failed_receive_unseen_example =
    failed_receive_unseen 5 3 9 200 2 [] our_receive broken_process broken-Receives (λ h. h) 0
      nothing_received (inl refl) (omega arith) refl
