-- ===== src/Tcp/Receive/Tests.antt =====
-- Segments that arrive at a socket.
use lori_os.Prelude.{ℕ, ◌≡◌, refl, List, [], ◌∷◌, ◌++◌, true, false, some, arith, replicate}
use lori_os.Kmalloc.{zeroed}
use lori_os.Stream.DataStream.{DataStream}
use lori_os.Stream.DataStream.Fifo.{IsValid}
use lori_os.Tcp.{established, syn, Header, Socket}
use lori_os.Tcp.Receive.{Arrival, take_ack}
use lori_os.Tcp.Receive.Data.{IsData, payload}
use lori_os.Tcp.Receive.Stream.{run, Received, run-Received}
use lori_os.Tcp.Receive.Acks.{take_ack_one}

-- A connection that holds two bytes and expects number 100.
abbrev two_bytes : DataStream
two_bytes = record { size = 8; pos = 2; buffer = 7 ∷ 8 ∷ 0 ∷ 0 ∷ 0 ∷ 0 ∷ 0 ∷ 0 ∷ [] }

abbrev socket : Socket
socket = record {
  state = established;
  address = 1;
  peer_address = 2;
  port = 50000;
  destination_port = 80;
  bound = false;
  sequence_number = 500;
  last_acknowledged = 500;
  remote_sequence_number = 100;
  unacknowledged =
      record { number = 400; payload = [] } ∷ (record { number = 450; payload = [] } ∷ []);
  inbound = two_bytes;
  blocked = [];
  file_closed = false;
  handle_count = 1;
  woken = [];
  sent = [];
}

abbrev header : ℕ → Header
header number = record {
  src_port = 80;
  dest_port = 50000;
  sequence = number;
  ack_number = 500;
  data_offset = 5;
  fin = false;
  syn_flag = false;
  rst = false;
  psh = true;
  ack = true;
  urg = false;
  ece = false;
  cwr = false;
  ns = false;
}

-- A segment with one byte of data behind its header.
abbrev one_byte : ℕ → ℕ → Arrival
one_byte number c = record {
  header = header number;
  memory = replicate 20 0 ++ (c ∷ []);
  size = 21;
}

one_byte-IsData : (number c : ℕ) → IsData 500 (one_byte number c)
one_byte-IsData number c = record {
  plain = record {
    syn_flag = refl;
    rst = refl;
    urg = refl;
    cwr = refl;
    ns = refl;
    acks_sent = omega arith;
  };
  fin = refl;
  header_fits = omega arith;
  small = omega arith;
  in_memory = omega arith;
}

two_bytes-IsValid : IsValid two_bytes
two_bytes-IsValid = omega arith

-- The second segment comes twice, and one is missing.
abbrev arrivals : List Arrival
arrivals = one_byte 100 1 ∷ (one_byte 101 2 ∷ (one_byte 101 2 ∷ (one_byte 105 9 ∷ [])))

run-Received_example :
    (t : Socket) × (run zeroed socket arrivals ≡ some t) × Received socket arrivals t
unfolding payload
run-Received_example =
    run-Received zeroed socket arrivals refl two_bytes-IsValid
      (
        one_byte-IsData 100 1,
        (one_byte-IsData 101 2, (one_byte-IsData 101 2, (one_byte-IsData 105 9, tt))),
      )
      (omega arith) (omega arith)

take_ack_one_test :
    (take_ack (header 100) socket).unacknowledged ≡ record { number = 450; payload = [] } ∷ []
take_ack_one_test =
    take_ack_one (header 100) socket (record { number = 400; payload = [] })
      (record { number = 450; payload = [] } ∷ []) refl refl (omega arith)

-- FIN with ACK, without data.
abbrev fin_arrival : Arrival
fin_arrival = record {
  header = record (header 100) { fin = true; psh = false };
  memory = replicate 20 0;
  size = 20;
}

-- SYN with ACK, for a socket that waits for it.
abbrev syn_arrival : Arrival
syn_arrival = record {
  header = record (header 900) { syn_flag = true; psh = false };
  memory = replicate 20 0;
  size = 20;
}

abbrev connecting : Socket
connecting = record socket { state = syn }

abbrev connected : Socket
connected = record socket {
  state = established;
  remote_sequence_number = 900;
  last_acknowledged = 500;
}
