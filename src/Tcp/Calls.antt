-- ===== src/Tcp/Calls.antt =====
-- The calls of a TCP socket in Kernel/src/Net/TCP.cpp: `Connect`, `Listen`, `SendTo`, `ReceiveFrom`, `Close`,
-- and `OnReceiveTCP`, which hands a segment to its socket. The route to a peer, the network layer below and
-- the first sequence number are parameters.
pub mod Sending
pub mod Closing
mod Tests
use lori_os.Prelude.{
  ℕ, zero, suc, ◌+◌, ◌-◌, ◌*◌, ◌^◌, ◌%◌, List, [], ◌∷◌, ◌++◌, Bool, true, false, not, ◌&&◌, ◌||◌,
  Option, none, some, leb, ltb, ◌==◌, if◌then◌else◌, add32, sub32, take, set, get_elem?, length,
}
use mathlib.Core.Option
use mathlib.Core.Logic.{◌⊎◌, inl, inr}
use lori_os.Kmalloc.{Kmalloc}
use lori_os.Stream.DataStream.{Reply, read}
use lori_os.Tcp.{
  State, unknown, listen, syn, syn_ack, established, fin_wait_1, fin_wait_2, close_wait, last_ack,
  time_wait, Header, Segment, Packet, Socket, header_words, blank, send, synchronize, acknowledge,
  finish, finish_acknowledge, reset,
}
use lori_os.Tcp.Receive.{Arrival, on_receive}
use lori_os.Tcp.Ports.{
  ConnectionId, Table, Ports, PortError, acquire_port, allocate_port, release_port, find_socket,
  id_of,
}

pub data Error : Type 0 where
  einval eafnosupport eisconn econnrefused enotconn eintr econnreset edestaddrreq eaddrnotavail :
      Error
  port_error : PortError → Error
  route_error : ℕ → Error
  ip_error : ℕ → Error

-- `IsConnected`
unfoldable pub is_connected : Socket → Bool
is_connected s = elim s.state [ established ↦ true | _ ↦ false ]

-- `Listen`; the semaphore of pending connections is left out.
unfoldable pub listens : Socket → Option Error × Socket
unfolding is_connected
listens s =
    if not s.bound
    then (some edestaddrreq, s)
    else if is_connected s
    then (some eisconn, s)
    else (none, record s { state = listen })

-- The data that `SendTCP` has room for behind the header, in its buffer of 1600 bytes.
abbrev pub max_payload : ℕ
max_payload = 1580

-- `SendTCP`: the bytes that it sends
unfoldable pub segment_data : List ℕ → List ℕ
segment_data bytes = if ltb 1600 (length bytes + 20) then take max_payload bytes else bytes

-- the header that `SendTo` writes
abbrev pub data_header : Socket → Header
data_header s = record {
  src_port = s.port;
  dest_port = s.destination_port;
  sequence = s.sequence_number;
  ack_number = s.remote_sequence_number;
  data_offset = header_words;
  fin = false;
  syn_flag = false;
  rst = false;
  psh = true;
  ack = true;
  urg = false;
  ece = false;
  cwr = false;
  ns = false;
}

-- `shortLength`
abbrev pub short_length : List ℕ → ℕ
short_length buffer = length buffer % 2 ^ 16

-- Behind the call of `SendIPv4`, which returned an error, or none for 0.
unfoldable pub after_network : Socket → List ℕ → Segment → Option ℕ → (Error ⊎ ℕ) × Socket
after_network s bytes segment (some e) =
    (inl (ip_error e), record s { sequence_number = add32 s.sequence_number (length bytes) })
after_network s bytes segment none = (
  inr (length segment.payload),
  record s {
    sequence_number = add32 s.sequence_number (length bytes);
    sent = s.sent ++ (segment ∷ []);
    unacknowledged =
        s.unacknowledged ++ (record { number = s.sequence_number; payload = bytes } ∷ []);
  },
)

-- the segment for the bytes
abbrev pub data_segment : Socket → List ℕ → Segment
data_segment s bytes = record { header = data_header s; payload = segment_data bytes }

-- `SendTo`; `send_ip` is the error of `SendIPv4`, if it has one. The result is the number of bytes sent.
unfoldable pub send_to : (Segment → Option ℕ) → List ℕ → Bool → Socket → (Error ⊎ ℕ) × Socket
unfolding is_connected after_network segment_data
send_to send_ip buffer has_dest s =
    let bytes = take (short_length buffer) buffer in
    if not (is_connected s)
    then (inl enotconn, s)
    else if has_dest
    then (inl eisconn, s)
    else after_network s bytes (data_segment s bytes) (send_ip (data_segment s bytes))

abbrev pub is_unknown_state : State → Bool
is_unknown_state unknown = true
is_unknown_state s = false

-- `ReceiveFrom` up to the point where the thread blocks: an error, or whether it blocks
unfoldable pub receive_starts : ℕ → Socket → Option Error × Bool
unfolding is_connected
receive_starts len s =
    if not (is_connected s) && s.inbound.pos == 0
    then (some enotconn, false)
    else (none, is_connected s && ltb s.inbound.pos len)

-- and from there on
unfoldable pub receive_ends : ℕ → Bool → Socket → (Error ⊎ Reply) × Socket
receive_ends len interrupted s =
    let wanted = if ltb s.inbound.pos len then s.inbound.pos else len in
    let (reply, stream) = read s.inbound wanted in
    if interrupted
    then (inl eintr, s)
    else if is_unknown_state s.state
    then (inl econnreset, s)
    else if ltb s.inbound.pos len && s.inbound.pos == 0
    then (inr (record { ret = 0; out = [] }), s)
    else (inr reply, record s { inbound = stream })

-- What `Connect` does before it waits; `route` is the address of the adapter, or an error.
unfoldable pub connect_port : ℕ → Socket → Ports → Option Error × Socket × Ports
connect_port sock s p =
    let table = release_port sock p.table in
    let (e, u) = acquire_port sock (id_of s) table in
    let (port, q) = allocate_port sock (id_of s) p in
    if s.bound
    then (elim e [ none ↦ none | some error ↦ some (port_error error) ], s, record p { table = u })
    else if port == 0
    then (some eaddrnotavail, record s { port = 0 }, q)
    else (none, record s { port = port }, q)

unfoldable pub after_port : ℕ → Option Error × Socket × Ports → Option Error × Socket × Ports
unfolding synchronize
after_port first (some e, s, p) = (some e, s, p)
after_port first (none, s, p) =
    (none, synchronize (sub32 first 1) (record s { state = syn; sequence_number = first }), p)

unfoldable pub connect_starts :
    (ℕ → ℕ ⊎ ℕ) → ℕ → ℕ → Bool → Bool → ℕ → ℕ → Socket → Ports → Option Error × Socket × Ports
unfolding is_connected connect_port after_port
connect_starts route first sock is_long is_inet ip port s p =
    let t = record s { peer_address = ip; destination_port = port } in
    if not is_long
    then (some einval, s, p)
    else if not is_inet
    then (some eafnosupport, s, p)
    else if is_connected s
    then (some eisconn, s, p)
    else if ip == 2 ^ 32 - 1
    then (some econnrefused, t, p)
    else elim (route ip) [
      | inl e ↦ (some (route_error e), t, p)
      | inr adapter ↦ after_port first (connect_port sock (record t { address = adapter }) p)
    ]

-- and behind the wait: interrupted, or the state is no longer SYN-SENT
unfoldable pub connect_ends : Bool → Socket → Option Error × Socket
unfolding is_connected acknowledge
connect_ends interrupted s =
    let next = add32 s.remote_sequence_number 1 in
    if interrupted
    then (some eintr, s)
    else if not (is_connected s)
    then (some econnrefused, s)
    else (none, acknowledge next (record s { remote_sequence_number = next }))

-- What `Close` does with the last handle: the socket, and whether it is put on the list of closed sockets
unfoldable pub closes : State → Socket → Socket × Bool
unfolding finish finish_acknowledge reset
closes unknown s = (s, false)
closes listen s = (s, false)
closes syn s = (reset s, false)
closes syn_ack s = (reset s, false)
closes established s =
    (finish_acknowledge s.remote_sequence_number (record s { state = fin_wait_1 }), true)
closes close_wait s = (finish (record s { state = last_ack }), true)
closes fin_wait_1 s = (s, true)
closes fin_wait_2 s = (s, true)
closes last_ack s = (s, true)
closes time_wait s = (s, true)

unfoldable pub close : Socket → Socket × Bool
unfolding closes
close s =
    let t = record s { handle_count = sub32 s.handle_count 1 } in
    if leb t.handle_count 0 then closes t.state (record t { file_closed = true }) else (t, false)

-- All sockets by their numbers, and the table of their ports.
pub record Network : Type 0 where
  pub sockets : List Socket
  pub table : Table

-- the socket after a segment; a deleted one releases its port
pub store : ℕ → Network → Bool × Socket → Network
store sock n (deleted, t) = record {
  sockets = set n.sockets sock t;
  table = if deleted && not (t.port == 0) then release_port sock n.table else n.table;
}

-- `OnReceiveTCP` of a segment to and from the addresses of its header
pub on_receive_tcp : Kmalloc → ℕ → ℕ → Arrival → Network → Option Network
unfolding store
on_receive_tcp k dest source a n =
    let id : ConnectionId = record {
      local_ip = dest;
      remote_ip = source;
      local_port = a.header.dest_port;
      remote_port = a.header.src_port;
    } in
    if ltb (a.header.data_offset * 4) 20 then some n else elim (find_socket n.table id) [
      | none ↦ some n
      | some sock ↦ Option.bind (get_elem? n.sockets sock) (λ s.
          if is_unknown_state s.state then some n else Option.map (store sock n) (on_receive k a s))
    ]
