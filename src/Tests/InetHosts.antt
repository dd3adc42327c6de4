-- ===== src/Tests/InetHosts.antt =====
-- Two hosts of the socket link: request 5 of the one, receive 6 of the other, on the descriptor 3 of
-- both.
use flex_gas.Links.Inet.Host.{Host}
use flex_gas.Links.Inet.Peer.Targets.{Anything, Posted}
use flex_gas.Links.Inet.Transfer.{Start, System}
use flex_gas.Links.Inet.Types.{
  InetConnection, InetRequest, Ptr, RequestRec, RequestState, body, free, header, pending, recv,
  rem_wr, send,
}
use flex_gas.Links.Inet.Types.Header.{FitsHeader}
use flex_gas.Links.Sockets.{Ready}
use flex_gas.Prelude.{
  List, Option, [], arith, if◌then◌else◌, none, refl, some, suc, true, zero, ℕ, ◌%◌, ◌==◌, ◌∷◌,
}

abbrev pub message_request : InetRequest
message_request = record {
  req_id = 1;
  context = 2;
  type = send;
  status = pending;
  addr = 10;
  rem_addr = 0;
  length = 2;
}

abbrev pub write_request : InetRequest
write_request = record {
  req_id = 1;
  context = 2;
  type = rem_wr;
  status = pending;
  addr = 10;
  rem_addr = 300;
  length = 2;
}

abbrev pub posted_receive : InetRequest
posted_receive = record {
  req_id = 9;
  context = 2;
  type = recv;
  status = pending;
  addr = 200;
  rem_addr = 0;
  length = 2;
}

-- So many calls that move up to 64 bytes each.
abbrev pub willing : ℕ → List (Option ℕ)
willing zero = []
willing (suc n) = some 64 ∷ willing n

abbrev pub a_host : InetRequest → Ptr → List ℕ → Host
a_host r p arrived = record {
  is_initialized = true;
  mem = λ a. a % 256;
  requests = λ q. if q == p then some r else none;
  regions = λ _. none;
  contexts = λ _. some 3;
  fresh = 50;
  req_queue = [];
  comp_queue = [];
  fd_queue = [];
  conn_tab = [];
  sockets = λ _. record { sends = willing 52; recvs = willing 51; out = []; inb = arrived };
  ctls = [];
  waits = [];
}

abbrev pub at_rest_record : RequestRec
at_rest_record = record { req = none; preq = λ _. 0; fd = 3; state = free; rbytes = 0 }

abbrev pub with_request : Ptr → RequestState → InetConnection
with_request p st = record {
  fd = 3;
  events = true;
  lreq = record at_rest_record { req = some p; state = st };
  rreq = at_rest_record;
}

abbrev pub bare : InetConnection
bare = record { fd = 3; events = true; lreq = at_rest_record; rreq = at_rest_record }

abbrev pub a_message : System
a_message = record {
  near = with_request 5 header;
  near_host = a_host message_request 5 [];
  far = with_request 6 body;
  far_host = a_host posted_receive 6 [];
}

abbrev pub a_write : System
a_write = record {
  near = with_request 5 header;
  near_host = a_host write_request 5 [];
  far = bare;
  far_host = a_host posted_receive 6 [];
}

pub willing-Ready : (n : ℕ) → Ready n (willing n)
willing-Ready zero = tt
willing-Ready (suc n) = ((63, refl), willing-Ready n)

pub message_fits : FitsHeader message_request
message_fits = record { rem_addr_fits = omega arith; length_fits = omega arith }

pub write_fits : FitsHeader write_request
write_fits = record { rem_addr_fits = omega arith; length_fits = omega arith }

pub message-Start : Start 5 message_request (Posted 6 posted_receive) a_message
message-Start = record {
  posted = refl;
  live = refl;
  begins = refl;
  none_sent = refl;
  none_out = refl;
  open_far = record { its_pointer = refl; live = refl; asks = refl; waits = refl };
  far_free = refl;
  none_received = refl;
  none_in = refl;
}

pub write-Start : Start 5 write_request Anything a_write
write-Start = record {
  posted = refl;
  live = refl;
  begins = refl;
  none_sent = refl;
  none_out = refl;
  open_far = tt;
  far_free = refl;
  none_received = refl;
  none_in = refl;
}
