-- ===== src/Tests/Inet.antt =====
-- A message of two bytes and a remote write between two hosts.
use mathlib.Core.List.{append-nil}
use flex_gas.Links.Inet.Host.{Host, recv_at, sock_recv, sock_send}
use flex_gas.Links.Inet.Peer.{
  accept_message, after_header, handle_connection_in, is_body, is_recv, recv_data, recv_header,
  recv_message, recv_write,
}
use flex_gas.Links.Inet.Peer.Targets.{Received}
use flex_gas.Links.Inet.Queues.{is_free}
use flex_gas.Links.Inet.Requests.{
  complete_lreq, dispatch_request, handle_request, handle_request_rem_wr, handle_request_send,
  send_body, send_header,
}
use flex_gas.Links.Inet.Requests.Sending.{Sending, in_header}
use flex_gas.Links.Inet.Transfer.{
  Reach, System, far_receives, here, inb_of, message, near_sends, net_carries, out_of, then_step,
  with_inb, with_out,
}
use flex_gas.Links.Inet.Transfer.Ends.{
  SentWhole, receive_message_ends, recv_rounds, send_ends, send_rounds,
}
use flex_gas.Links.Inet.Transfer.Outcome.{remote_write_lem}
use flex_gas.Links.Inet.Transfer.Refinement.{Delivers, Step-refines, outcome, received_lem}
use flex_gas.Links.Inet.Types.{
  InetConnection, body, encode, preq_length, preq_rem_addr, preq_type, status_code, type_code,
  type_of_code,
}
use flex_gas.Links.Memory.{length-read_bytes, read_bytes, store_byte, sub64, write_bytes}
use flex_gas.Prelude.{
  [], arith, inl, length, none, refl, some, sym, ℕ, ◌%◌, ◌++◌, ◌+◌, ◌<◌, ◌≡◌, ◌≤◌, ◌⊎◌,
}
use flex_gas.Tests.InetHosts.{
  a_host, a_message, a_write, message-Start, message_fits, message_request, posted_receive,
  willing-Ready, with_request, write-Start, write_fits, write_request,
}

sent : System → System
sent s = elim (handle_request s.near s.near_host) [
  | none ↦ s
  | some (c, h) ↦ record s { near = c; near_host = h }
]

received : System → System
received s = elim (handle_connection_in s.far s.far_host) [
  | none ↦ s
  | some (c, h) ↦ record s { far = c; far_host = h }
]

carried : System → System
carried s = record s {
  near_host = with_out s.near.lreq.fd [] s.near_host;
  far_host = with_inb s.far.rreq.fd (inb_of s ++ out_of s) s.far_host;
}

-- Both sends, the network, the header; the data are still to come in.
nearly_there : System → System
nearly_there s = received (carried (sent (sent s)))

nearly-Reach : Reach a_message (nearly_there a_message)
unfolding nearly_there sent received carried handle_request handle_connection_in is_free
    dispatch_request handle_request_send send_header send_body sock_send encode sub64 read_bytes
    type_code status_code complete_lreq recv_header sock_recv preq_type type_of_code after_header
    write_bytes store_byte
nearly-Reach =
    then_step
      (then_step
        (then_step
          (then_step here (near_sends (sent a_message).near (sent a_message).near_host refl))
          (near_sends (sent (sent a_message)).near (sent (sent a_message)).near_host refl))
        (net_carries (out_of (sent (sent a_message))) []
          (sym (append-nil (out_of (sent (sent a_message)))))))
      (far_receives (nearly_there a_message).far (nearly_there a_message).far_host refl)

there-Reach : Reach a_message (received (nearly_there a_message))
unfolding nearly_there sent received carried handle_request handle_connection_in is_free
    dispatch_request handle_request_send send_header send_body sock_send encode sub64 read_bytes
    type_code status_code complete_lreq recv_header sock_recv preq_type type_of_code after_header
    write_bytes store_byte recv_data accept_message recv_message recv_at is_body is_recv preq_length
    handle_request_rem_wr recv_write preq_rem_addr
there-Reach = then_step nearly-Reach (
    far_receives (received (nearly_there a_message)).far
      (received (nearly_there a_message)).far_host refl)

there_done : (received (nearly_there a_message)).far.lreq.req ≡ none
unfolding nearly_there sent received carried handle_request handle_connection_in is_free
    dispatch_request handle_request_send send_header send_body sock_send encode sub64 read_bytes
    type_code status_code complete_lreq recv_header sock_recv preq_type type_of_code after_header
    write_bytes store_byte recv_data accept_message recv_message recv_at is_body is_recv preq_length
    handle_request_rem_wr recv_write preq_rem_addr
there_done = refl

written-Reach : Reach a_write (received (nearly_there a_write))
unfolding nearly_there sent received carried handle_request handle_connection_in is_free
    dispatch_request handle_request_send send_header send_body sock_send encode sub64 read_bytes
    type_code status_code complete_lreq recv_header sock_recv preq_type type_of_code after_header
    write_bytes store_byte recv_data accept_message recv_message recv_at is_body is_recv preq_length
    handle_request_rem_wr recv_write preq_rem_addr
written-Reach =
    then_step
      (then_step
        (then_step
          (then_step (then_step here (near_sends (sent a_write).near (sent a_write).near_host refl))
            (near_sends (sent (sent a_write)).near (sent (sent a_write)).near_host refl))
          (net_carries (out_of (sent (sent a_write))) []
            (sym (append-nil (out_of (sent (sent a_write)))))))
        (far_receives (nearly_there a_write).far (nearly_there a_write).far_host refl))
      (far_receives (received (nearly_there a_write)).far (received (nearly_there a_write)).far_host
        refl)

write_done :
    ((received (nearly_there a_write)).near.lreq.req ≡ none)
    × (out_of (received (nearly_there a_write)) ≡ [])
    × (inb_of (received (nearly_there a_write)) ≡ [])
unfolding nearly_there sent received carried handle_request handle_connection_in is_free
    dispatch_request handle_request_send send_header send_body sock_send encode sub64 read_bytes
    type_code status_code complete_lreq recv_header sock_recv preq_type type_of_code after_header
    write_bytes store_byte recv_data accept_message recv_message recv_at is_body is_recv preq_length
    handle_request_rem_wr recv_write preq_rem_addr
write_done = (refl, refl, refl)

Step-refines_example :
    (outcome (received (nearly_there a_message)) ≡ outcome (nearly_there a_message))
    ⊎ Delivers a_message.far_host.mem 200
        (message message_request a_message)
        (outcome (nearly_there a_message))
        (outcome (received (nearly_there a_message)))
unfolding nearly_there sent received carried handle_request handle_connection_in is_free
    dispatch_request handle_request_send send_header send_body sock_send encode sub64 read_bytes
    type_code status_code complete_lreq recv_header sock_recv preq_type type_of_code after_header
    write_bytes store_byte recv_data accept_message recv_message recv_at is_body is_recv preq_length
    handle_request_rem_wr recv_write preq_rem_addr
Step-refines_example =
    Step-refines 5 6 message_request posted_receive a_message (nearly_there a_message) message_fits
      refl message-Start (received (nearly_there a_message)) nearly-Reach
      (far_receives (received (nearly_there a_message)).far
        (received (nearly_there a_message)).far_host refl)

received_lem_example :
    Received 6 posted_receive
      (received (nearly_there a_message)).far
      (received (nearly_there a_message)).far_host
    × (read_bytes (received (nearly_there a_message)).far_host.mem 200 2
        ≡ message message_request a_message)
    × ((b : ℕ)
        → (b < 200) ⊎ (200 + 2 ≤ b)
        → (received (nearly_there a_message)).far_host.mem b ≡ b % 256)
received_lem_example =
    received_lem 5 6 message_request posted_receive a_message (received (nearly_there a_message))
      message_fits refl message-Start there-Reach there_done

remote_write_lem_example :
    (received (nearly_there a_write)).far_host.mem
    ≡ write_bytes a_write.far_host.mem 300 (message write_request a_write)
remote_write_lem_example =
    remote_write_lem 5 write_request a_write (received (nearly_there a_write)) write_fits
      written-Reach refl write-Start write_done.0 write_done.1 write_done.2

message-Sending :
    Sending 5 message_request a_message.near a_message.near_host
      (encode message_request ++ message message_request a_message)
message-Sending = in_header refl refl refl (omega arith) refl

message_length : length (encode message_request ++ message message_request a_message) ≡ 50
unfolding encode read_bytes type_code status_code
message_length = refl

send_ends_example :
    (k : ℕ) × (k ≤ 52)
    × (c' : InetConnection) × (h' : Host) × (send_rounds k a_message.near a_message.near_host
        ≡ some (c', h'))
    × SentWhole 5 message_request a_message.near c' a_message.near_host h'
        (encode message_request ++ message message_request a_message)
send_ends_example =
    send_ends 52 5 message_request a_message.near a_message.near_host
      (encode message_request ++ message message_request a_message) message_fits (inl refl)
      message-Sending (omega (arith, message_length)) (willing-Ready 52)

arrived_host : Host
arrived_host = a_host posted_receive 6 (encode message_request ++ message message_request a_message)

receive_message_ends_example :
    (k : ℕ) × (k ≤ 51)
    × (c' : InetConnection) × (h' : Host) × (recv_rounds k (with_request 6 body) arrived_host
        ≡ some (c', h'))
    × Received 6 posted_receive c' h'
    × (h'.mem ≡ write_bytes arrived_host.mem 200 (message message_request a_message))
unfolding arrived_host
receive_message_ends_example =
    receive_message_ends 6 message_request posted_receive (message message_request a_message)
      (with_request 6 body) arrived_host message_fits refl
      (length-read_bytes a_message.near_host.mem 10 2)
      (record { its_pointer = refl; live = refl; asks = refl; waits = refl }) refl refl refl
      (willing-Ready 51)
