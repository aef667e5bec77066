-- ===== src/Tcp/Calls/Tests.antt =====
-- Calls of two sockets.
use lori_os.Prelude.{ℕ, ◌≡◌, refl, [], ◌∷◌, ◌++◌, map, true, false, Option, none, some, arith}
use mathlib.Core.Logic.{inl, inr}
use lori_os.Kmalloc.{zeroed}
use lori_os.Stream.DataStream.Fifo.{IsValid, contents}
use lori_os.Tcp.{unknown, established, fin_wait_1, Segment, Socket, finish_acknowledge, acknowledge}
use lori_os.Tcp.Receive.Stream.{run}
use lori_os.Tcp.Calls.{enotconn, send_to, is_connected, close, closes, connect_ends, receive_starts}
use lori_os.Tcp.Calls.Sending.{after_send, send_to_all, send_each, arrival, send_each-Received}
use lori_os.Tcp.Calls.Closing.{Leaked, close-Leaked}

abbrev sender : Socket
sender = record {
  state = established;
  address = 1;
  peer_address = 2;
  port = 50000;
  destination_port = 80;
  bound = false;
  sequence_number = 500;
  last_acknowledged = 500;
  remote_sequence_number = 100;
  unacknowledged = [];
  inbound = record { size = 8; pos = 2; buffer = 7 ∷ 8 ∷ 0 ∷ 0 ∷ 0 ∷ 0 ∷ 0 ∷ 0 ∷ [] };
  blocked = [];
  file_closed = false;
  handle_count = 1;
  woken = [];
  sent = [];
}

abbrev receiver : Socket
receiver = record sender {
  address = 2;
  peer_address = 1;
  port = 80;
  destination_port = 50000;
  sequence_number = 100;
  remote_sequence_number = 500;
}

abbrev takes_all : Segment → Option ℕ
takes_all g = none

receiver-IsValid : IsValid receiver.inbound
receiver-IsValid = omega arith

send_each-Received_example :
    (t : Socket) × (run zeroed receiver
        (map arrival (send_each takes_all ((1 ∷ 2 ∷ []) ∷ ((3 ∷ []) ∷ [])) sender).sent)
      ≡ some t)
    × (contents t.inbound ≡ contents receiver.inbound ++ (1 ∷ 2 ∷ 3 ∷ []))
send_each-Received_example =
    send_each-Received zeroed takes_all sender receiver ((1 ∷ 2 ∷ []) ∷ ((3 ∷ []) ∷ [])) (λ g. refl)
      refl refl (omega arith, (omega arith, tt)) refl receiver-IsValid refl (omega arith)
      (omega arith) (omega arith)

send_to_all_test :
    send_to takes_all (1 ∷ 2 ∷ []) false sender
    ≡ (inr 2, after_send sender (1 ∷ 2 ∷ []) (1 ∷ 2 ∷ []))
send_to_all_test = send_to_all takes_all sender (1 ∷ 2 ∷ []) refl (omega arith) (omega arith) refl

send_to_closed :
    send_to takes_all (1 ∷ []) false (record sender { state = unknown })
    ≡ (inl enotconn, record sender { state = unknown })
unfolding send_to is_connected
send_to_closed = refl

-- The SYN-ACK with number 900 came: the connection expects 901 and acknowledges it.
connect_ends_test :
    connect_ends false (record sender { remote_sequence_number = 900 })
    ≡ (none, acknowledge 901 (record sender { remote_sequence_number = 901 }))
unfolding connect_ends is_connected
connect_ends_test = refl

receive_test : receive_starts 2 sender ≡ (none, false)
unfolding receive_starts is_connected
receive_test = refl

close_test : close sender ≡ (
  finish_acknowledge 100
      (record sender { state = fin_wait_1; handle_count = 0; file_closed = true }),
  true,
)
unfolding close closes
close_test = refl

close-Leaked_example :
    Leaked (record sender { state = unknown }) (close (record sender { state = unknown }))
close-Leaked_example = close-Leaked (record sender { state = unknown }) refl refl
