-- ===== src/Tcp/Receive.antt =====
-- `TCPSocket::OnReceive` of Kernel/src/Net/TCP.cpp: one arriving segment and the state of its socket.
pub mod Edges
pub mod Plain
pub mod Data
pub mod Stream
pub mod Acks
mod Tests
use lori_os.Prelude.{
  ℕ, zero, suc, ◌+◌, ◌-◌, ◌*◌, ◌^◌, ◌%◌, List, [], ◌∷◌, ◌++◌, Bool, true, false, not, ◌&&◌, ◌||◌,
  Option, none, some, leb, ltb, ◌==◌, if◌then◌else◌, add32, slice,
}
use mathlib.Core.Option
use lori_os.Kmalloc.{Kmalloc}
use lori_os.Stream.DataStream.{DataStream, write}
use lori_os.Tcp.{
  State, unknown, listen, syn, syn_ack, established, fin_wait_1, fin_wait_2, close_wait, last_ack,
  time_wait, Header, Packet, Blocker, Socket, acknowledge, finish_acknowledge, reset, unblock_all,
}

-- A segment in memory: `memory` is what stands from its header on, `size` how many bytes of it came.
pub record Arrival : Type 0 where
  pub header : Header
  pub memory : List ℕ
  pub size : ℕ

-- where the data starts, and `dataLength`, a difference of 16 bits
abbrev pub offset : Arrival → ℕ
offset a = a.header.data_offset * 4

pub data_length : Arrival → ℕ
data_length a = (a.size + 2 ^ 64 - offset a) % 2 ^ 16

-- What a branch leaves: the socket, and whether the branch falls through to the end of the function.
pub record After : Type 0 where
  pub socket : Socket
  pub falls_through : Bool

abbrev pub returns : Socket → After
returns s = record { socket = s; falls_through = false }

abbrev pub goes_on : Socket → After
goes_on s = record { socket = s; falls_through = true }

-- SYN-SENT
pub on_syn : Header → Socket → After
unfolding unblock_all
on_syn h s =
    if h.fin || h.rst || h.psh || h.urg || h.cwr || h.ns
    then returns s
    else if h.ack && h.syn_flag
    then (let t = record s {
      remote_sequence_number = h.sequence;
      last_acknowledged = h.ack_number;
    } in
        returns (
          if t.last_acknowledged == t.sequence_number
          then unblock_all (record t { state = established })
          else t))
    else returns s

-- SYN-RECEIVED
pub on_syn_ack : Header → Socket → After
unfolding unblock_all
on_syn_ack h s = goes_on (
    if h.ack
    then unblock_all (record s { remote_sequence_number = h.sequence; state = established })
    else s)

-- The loop over the packets that are not acknowledged. `first` tells that the iterator stands at the
-- front: after a removal there it is the end of the list, and the loop ends.
pub drop_acknowledged : Bool → ℕ → List Packet → List Packet
drop_acknowledged first number [] = []
drop_acknowledged first number (p ∷ ps) =
    let kept = p ∷ drop_acknowledged false number ps in
    let rest = drop_acknowledged false number ps in
    if leb p.number number then (if first then ps else rest) else kept

-- The blocked readers that asked for no more than `pos` bytes are woken.
pub satisfied : ℕ → List Blocker → List ℕ
satisfied pos [] = []
satisfied pos (b ∷ bs) =
    let rest = satisfied pos bs in if leb b.requested pos then b.thread ∷ rest else rest

pub waiting : ℕ → List Blocker → List Blocker
waiting pos [] = []
waiting pos (b ∷ bs) = let rest = waiting pos bs in if leb b.requested pos then rest else b ∷ rest

pub wake_readers : Socket → Socket
unfolding satisfied waiting
wake_readers s = record s {
  blocked = waiting s.inbound.pos s.blocked;
  woken = s.woken ++ satisfied s.inbound.pos s.blocked;
}

-- Behind the write to the stream: readers are woken, and all that came is acknowledged.
pub keep_data : Arrival → Socket → ℕ × DataStream → Socket
unfolding wake_readers acknowledge data_length
keep_data a s (n, stream) =
    let t = wake_readers (record s { inbound = stream }) in
    let next = add32 a.header.sequence (data_length a) in
    acknowledge next (record t { remote_sequence_number = next })

-- `if(dataLength)`
pub take_data : Kmalloc → Arrival → Socket → Option Socket
unfolding keep_data data_length
take_data k a s =
    if data_length a == 0
    then some s
    else Option.map (keep_data a s) (write k s.inbound (slice (offset a) (data_length a) a.memory))

-- What PSH and FIN do, behind the data.
pub flags_behind : Header → Socket → Socket
unfolding unblock_all acknowledge
flags_behind h s =
    let t =
      if h.fin then acknowledge s.remote_sequence_number (record s { state = close_wait }) else s in
    if h.psh || h.fin then unblock_all t else t

-- The acknowledgement of a segment.
pub take_ack : Header → Socket → Socket
unfolding drop_acknowledged
take_ack h s =
    if h.ack
    then record s {
      last_acknowledged = h.ack_number;
      unacknowledged = drop_acknowledged true h.ack_number s.unacknowledged;
    }
    else s

pub behind_data : Header → Socket → After
unfolding flags_behind
behind_data h s = goes_on (flags_behind h s)

-- The early returns of the branch for ESTABLISHED, in front of what follows them.
pub unless_refused : Header → Socket → Option After → Option After
unfolding acknowledge
unless_refused h s next =
    if h.syn_flag || h.rst || h.urg || h.cwr || h.ns
    then some (returns s)
    else if not (h.sequence == s.remote_sequence_number)
    then some (returns s)
    else if h.ack && ltb s.sequence_number h.ack_number
    then some (returns (acknowledge s.remote_sequence_number s))
    else next

-- ESTABLISHED
pub on_established : Kmalloc → Arrival → Socket → Option After
unfolding unless_refused take_ack take_data behind_data
on_established k a s =
    let h = a.header in
    unless_refused h s (Option.map (behind_data h) (take_data k a (take_ack h s)))

-- FIN-WAIT-1
pub on_fin_wait_1 : Header → Socket → After
unfolding acknowledge finish_acknowledge
on_fin_wait_1 h s =
    if h.syn_flag || h.rst || h.psh || h.urg || h.ece || h.cwr || h.ns
    then returns s
    else if h.fin && h.ack
    then returns (acknowledge s.remote_sequence_number (record s { state = time_wait }))
    else if h.ack
    then returns (record s { remote_sequence_number = h.sequence; state = fin_wait_2 })
    else if h.fin
    then (let next = add32 h.sequence 1 in
        returns (record (finish_acknowledge next (record s { remote_sequence_number = next })) {
          state = last_ack;
        }))
    else returns s

-- FIN-WAIT-2
pub on_fin_wait_2 : Header → Socket → After
unfolding acknowledge
on_fin_wait_2 h s =
    if h.syn_flag || h.rst || h.psh || h.urg || h.ece || h.cwr || h.ns
    then returns s
    else if h.fin
    then (let next = add32 h.sequence 1 in
        goes_on (acknowledge next (record s { remote_sequence_number = next; state = time_wait })))
    else goes_on s

-- CLOSE-WAIT and TIME-WAIT
pub on_closing : Socket → After
unfolding reset
on_closing s = goes_on (reset (record s { state = unknown }))

-- LAST-ACK
pub on_last_ack : Header → Socket → After
unfolding reset
on_last_ack h s = let t = record s { state = unknown } in goes_on (if h.ack then t else reset t)

-- The branches behind the test for RST.
pub on_segment : Kmalloc → Arrival → Socket → State → Option After
unfolding on_syn on_syn_ack on_established on_fin_wait_1 on_fin_wait_2 on_closing on_last_ack
on_segment k a s unknown = some (returns s)
on_segment k a s listen = some (returns s)
on_segment k a s syn = some (on_syn a.header s)
on_segment k a s syn_ack = some (on_syn_ack a.header s)
on_segment k a s established = on_established k a s
on_segment k a s fin_wait_1 = some (on_fin_wait_1 a.header s)
on_segment k a s fin_wait_2 = some (on_fin_wait_2 a.header s)
on_segment k a s close_wait = some (on_closing s)
on_segment k a s time_wait = some (on_closing s)
on_segment k a s last_ack = some (on_last_ack a.header s)

-- A socket that is listening or unknown ignores RST too.
abbrev pub ignores : State → Bool
ignores unknown = true
ignores listen = true
ignores s = false

abbrev pub is_unknown : State → Bool
is_unknown unknown = true
is_unknown s = false

-- The end of the function: a closed socket whose connection is over is deleted.
abbrev pub ended : After → Bool × Socket
ended r = (r.falls_through && r.socket.file_closed && is_unknown r.socket.state, r.socket)

-- Whether the socket was deleted, which releases its port, and the socket after the call.
pub on_receive : Kmalloc → Arrival → Socket → Option (Bool × Socket)
unfolding on_segment unblock_all
on_receive k a s =
    if a.header.rst && not (ignores s.state)
    then some (ended (goes_on (unblock_all (record s { state = unknown }))))
    else Option.map ended (on_segment k a s s.state)
